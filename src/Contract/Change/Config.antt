-- ===== src/Contract/Change/Config.antt =====
-- A project's configuration under the changes.
use pifp_stellar.Base.{ℕ, ◌≤◌, ◌≡◌, arith, some, ◌∙◌, inl, inr, Bool-cases, true}
use pifp_stellar.Contract.Types.{ProjectConfig}
use pifp_stellar.Contract.Env.{Env, Ctx, Host}
use pifp_stellar.Contract.Change.{
  Change, same, registers, extends, deposits, refunds, releases, reclaims, cancels, expires,
}
use pifp_stellar.Contract.Change.Others.{concerns, Change-Unchanged}
use pifp_stellar.Contract.Change.Fresh.{IsFresh, FreshAt}

-- `d` is `c` with a deadline that is no earlier.
pub record Keeps (c d : ProjectConfig) : Type 0 where
  pub fields : d ≡ record c { deadline = d.deadline }
  pub later : c.deadline ≤ d.deadline

module _ {W : Type 0} (host : Host W) (ctx : Ctx) (env e : Env W) where
  subject-Keeps :
      (c : Change host ctx env e)
      → IsFresh env.store
      → (i : ℕ) (a : ProjectConfig) → env.store.proj_config i ≡ some a
      → concerns host ctx c i ≡ true
      → (b : ProjectConfig) × (e.store.proj_config i ≡ some b) × Keeps a b
  subject-Keeps (same u) f i a h about = absurd (ground arith)
  subject-Keeps (registers _ ts g hash uri dl pr c st tk) f i a h about =
      let fresh : FreshAt env.store i = f i (ground arith) in absurd (ground (arith, fresh.config))
  subject-Keeps (extends _ id dl config state c st tk) f i a h about = (
    record a { deadline = dl },
    ground (arith, c.has_config),
    ground (arith, c.has_config, c.later),
  )
  subject-Keeps (deposits id dn tk x config state c r) f i a h about =
      (a, ground (arith, r.configs), ground arith)
  subject-Keeps (refunds dn id tk config state d c r) f i a h about =
      (a, ground (arith, r.configs), ground arith)
  subject-Keeps (releases _ id hash config state c r) f i a h about =
      (a, ground (arith, r.configs), ground arith)
  subject-Keeps (reclaims _ id config state c r) f i a h about =
      (a, ground (arith, r.rest), ground arith)
  subject-Keeps (cancels _ id config state c st tk) f i a h about = (a, ground arith, ground arith)
  subject-Keeps (expires id config state c st tk) f i a h about = (a, ground arith, ground arith)

-- A change keeps every field of a project's configuration but the deadline, which it may only move
-- to a later time.
pub Change-Keeps :
    {W : Type 0} (host : Host W) (ctx : Ctx) (env e : Env W)
    → Change host ctx env e
    → IsFresh env.store
    → (i : ℕ) (a : ProjectConfig) → env.store.proj_config i ≡ some a
    → (b : ProjectConfig) × (e.store.proj_config i ≡ some b) × Keeps a b
Change-Keeps host ctx env e c f i a h = elim (Bool-cases (concerns host ctx c i)) [
  | inr other ↦ (a, (Change-Unchanged host ctx c i other).config ∙ h, ground arith)
  | inl about ↦ subject-Keeps host ctx env e c f i a h about
]
