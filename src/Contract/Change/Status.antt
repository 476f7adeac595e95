-- ===== src/Contract/Change/Status.antt =====
-- The state of one project under the changes.
use pifp_stellar.Base.{ℕ, ◌≤◌, ◌≡◌, arith, Bool, some, true, false, ◌∙◌, inl, inr, Bool-cases}
use pifp_stellar.Base.Int.{ℤ, pos, ◌+ℤ◌, eqb_ℤ}
use pifp_stellar.Contract.Types.{Address, ProjectConfig, ProjectState, active, is_open}
use pifp_stellar.Contract.Env.{Env, Ctx, Host}
use pifp_stellar.Contract.Invariants.{check_inv7_status_transition, check_inv4_completed_terminal}
use pifp_stellar.Contract.Change.{
  Change, same, registers, extends, deposits, refunds, releases, reclaims, cancels, expires,
}
use pifp_stellar.Contract.Funding.Checks.{settled, expired_state}
use pifp_stellar.Contract.Funding.Deposited.{recorded, donated, deposited_state}
use pifp_stellar.Contract.Release.Loop.{completed_state}
use pifp_stellar.Contract.Lifecycle.Ended.{cancelled_state}
use pifp_stellar.Contract.Change.Others.{concerns, Change-Unchanged}
use pifp_stellar.Contract.Change.Fresh.{IsFresh, FreshAt}

-- From state `p` to state `q` of one project.
pub record Evolves (p q : ProjectState) : Type 0 where
  pub forward : check_inv7_status_transition p.status q.status ≡ true
  pub terminal : check_inv4_completed_terminal p.status q.status ≡ true
  pub counted : p.donation_count ≤ q.donation_count
  pub final : is_open p.status ≡ false → q ≡ p

Evolves-refl : (p : ProjectState) → Evolves p p
Evolves-refl p = ground arith

-- A deposit activates or keeps, and may count one more donor.
deposited-Evolves :
    (config : ProjectConfig) (p : ProjectState) (token : Address) (new : Bool) (total : ℤ)
    → is_open p.status ≡ true
    → Evolves p (deposited_state config p token new total)
deposited-Evolves config p token new total h = ground arith

settled-Evolves :
    (ctx : Ctx) (config : ProjectConfig) (p : ProjectState) → Evolves p (settled ctx config p)
settled-Evolves ctx config p = ground arith

expired-Evolves :
    (ctx : Ctx) (p : ProjectState) → is_open p.status ≡ true → Evolves p (expired_state ctx p)
expired-Evolves ctx p h = ground arith

cancelled-Evolves :
    (ctx : Ctx) (p : ProjectState) → p.status ≡ active → Evolves p (cancelled_state ctx p)
cancelled-Evolves ctx p h = ground arith

completed-Evolves : (p : ProjectState) → is_open p.status ≡ true → Evolves p (completed_state p)
completed-Evolves p h = ground arith

module _ {W : Type 0} (host : Host W) (ctx : Ctx) (env e : Env W) where
  subject-Evolves :
      (c : Change host ctx env e)
      → IsFresh env.store
      → (i : ℕ) (p : ProjectState) → env.store.proj_state i ≡ some p
      → concerns host ctx c i ≡ true
      → (q : ProjectState) × (e.store.proj_state i ≡ some q) × Evolves p q
  subject-Evolves (same u) f i p h about = absurd (ground arith)
  subject-Evolves (registers a ts g hash uri dl pr c st tk) f i p h about =
      let g : FreshAt env.store i = f i (ground arith) in absurd (ground (arith, g.state))
  subject-Evolves (extends a id dl config state c st tk) f i p h about =
      (p, ground arith, Evolves-refl p)
  subject-Evolves (deposits id dn tk x config state c r) f i p h about =
      let new : Bool = eqb_ℤ (donated env.store id tk dn) (pos 0) in
      let total : ℤ = recorded env.store id tk +ℤ x in
      (
        deposited_state config p tk new total,
        ground (arith, r.state_now i, c.has_state),
        deposited-Evolves config p tk new total (ground (arith, c.has_state, c.open_status)),
      )
  subject-Evolves (refunds dn id tk config state d c r) f i p h about = (
    settled ctx config p,
    ground (arith, r.state_now i, c.has_state),
    settled-Evolves ctx config p,
  )
  subject-Evolves (releases a id hash config state c r) f i p h about = (
    completed_state p,
    ground (arith, r.state_now i, c.has_state),
    completed-Evolves p (ground (arith, c.has_state, c.open_status)),
  )
  subject-Evolves (reclaims a id config state c r) f i p h about =
      (p, ground (arith, r.rest), Evolves-refl p)
  subject-Evolves (cancels a id config state c st tk) f i p h about = (
    cancelled_state ctx p,
    ground (arith, c.has_state),
    cancelled-Evolves ctx p (ground (arith, c.has_state, c.is_active)),
  )
  subject-Evolves (expires id config state c st tk) f i p h about = (
    expired_state ctx p,
    ground (arith, c.has_state),
    expired-Evolves ctx p (ground (arith, c.has_state, c.open_status)),
  )

-- A change moves no project's status but forward along the lifecycle, leaves a completed project
-- completed, and loses no donation count.
pub Change-Evolves :
    {W : Type 0} (host : Host W) (ctx : Ctx) (env e : Env W)
    → Change host ctx env e
    → IsFresh env.store
    → (i : ℕ) (p : ProjectState) → env.store.proj_state i ≡ some p
    → (q : ProjectState) × (e.store.proj_state i ≡ some q) × Evolves p q
Change-Evolves host ctx env e c f i p h = elim (Bool-cases (concerns host ctx c i)) [
  | inr other ↦ (p, (Change-Unchanged host ctx c i other).state ∙ h, Evolves-refl p)
  | inl about ↦ subject-Evolves host ctx env e c f i p h about
]
