-- ===== src/Contract/Change/Solvency/Kept.antt =====
-- Every change keeps the amounts of every project sound.
use pifp_stellar.Base.{ℕ, ◌<◌, ◌≡◌, arith, Bool, some, true, inl, inr, Bool-cases, ◌∙◌, refl, ◌⊎◌}
use pifp_stellar.Base.Int.{ℤ, pos, ◌+ℤ◌, ◌≤ℤ◌, eqb_ℤ}
use pifp_stellar.Base.Totals.{total-zero}
use pifp_stellar.Contract.Types.{Address, ProjectConfig, ProjectState, is_open, is_refundable}
use pifp_stellar.Contract.Env.{Env, Ctx, Host, Storage}
use pifp_stellar.Contract.Funding.Checks.{settled, expired_state}
use pifp_stellar.Contract.Funding.Deposited.{recorded, donated, deposited_state}
use pifp_stellar.Contract.Release.Released.{drained}
use pifp_stellar.Contract.Release.Loop.{completed_state}
use pifp_stellar.Contract.Projects.Registered.{new_state}
use pifp_stellar.Contract.Lifecycle.Ended.{cancelled_state}
use pifp_stellar.Contract.Change.{
  Change, same, registers, extends, deposits, refunds, releases, reclaims, cancels, expires,
}
use pifp_stellar.Contract.Change.Others.{concerns, Change-Unchanged}
use pifp_stellar.Contract.Change.Fresh.{IsFresh, FreshAt}
use pifp_stellar.Contract.Change.Solvency.{Sound, IsSound, Sound-same, owes}
use pifp_stellar.Contract.Change.Solvency.Moves.{restate-Sound, close-Sound, give-Sound, take-Sound}

drained_bounds : (x : ℤ) → pos 0 ≤ℤ x → (pos 0 ≤ℤ drained x) × (drained x ≤ℤ x)
drained_bounds x h = ground arith

-- With no amounts at all a new project is sound.
empty-Sound :
    (now : ℕ) (p : ProjectState) (b : Address → ℤ) (g : Address → Address → ℤ)
    → is_open p.status ≡ true
    → ((t : Address) → b t ≡ pos 0)
    → ((t d : Address) → g t d ≡ pos 0)
    → Sound now (some p) b g
empty-Sound now p b g o zb zg = record {
  balance_nonneg = λ t. rw (zb t) (omega arith);
  balance_bounded = λ t. rw (zb t) (omega arith);
  gift_nonneg = λ t d. rw (zg t d) (omega arith);
  window = λ q e r. ground arith;
  solvent = λ q e k t ds d. rw (zb t, total-zero (g t) ds (zg t)) (omega arith);
}

deposited-open :
    (config : ProjectConfig) (p : ProjectState) (token : Address) (new : Bool) (sum : ℤ)
    → is_open p.status ≡ true
    → is_open (deposited_state config p token new sum).status ≡ true
deposited-open config p token new sum h = ground arith

-- A refund that the checks let through is owed, also by the state before a due expiry is written.
settled-owed :
    (ctx : Ctx) (config : ProjectConfig) (p : ProjectState)
    → is_refundable (settled ctx config p).status ≡ true
    → ((settled ctx config p).refund_expiry ≡ 0)
      ⊎ (ctx.timestamp < (settled ctx config p).refund_expiry)
    → (is_refundable p.status ≡ true → 0 < p.refund_expiry)
    → owes ctx.timestamp p ≡ true
settled-owed ctx config p r w h = ground arith

settled-window :
    (ctx : Ctx) (config : ProjectConfig) (p : ProjectState)
    → (is_refundable p.status ≡ true → 0 < p.refund_expiry)
    → is_refundable (settled ctx config p).status ≡ true
    → 0 < (settled ctx config p).refund_expiry
settled-window ctx config p h r = ground arith

abbrev SoundAt : ℕ → Storage → ℕ → Type 0
SoundAt now s i = Sound now (s.proj_state i) (recorded s i) (donated s i)

module _ {W : Type 0} (host : Host W) (ctx : Ctx) (env e : Env W) where
  subject_sound :
      (c : Change host ctx env e)
      → IsFresh env.store
      → (i : ℕ) → SoundAt ctx.timestamp env.store i
      → concerns host ctx c i ≡ true
      → SoundAt ctx.timestamp e.store i
  subject_sound (same u) f i s about = absurd (ground arith)
  subject_sound (registers a ts g hash uri dl pr c st tk) f i s about =
      let fresh : FreshAt env.store i = f i (ground arith) in
      Sound-same ctx.timestamp (some (new_state ctx a ts g hash uri dl pr)) (e.store.proj_state i)
        (recorded env.store i) (recorded e.store i) (donated env.store i) (donated e.store i)
        (ground arith) (λ t. ground arith) (λ t d. ground arith)
        (empty-Sound ctx.timestamp (new_state ctx a ts g hash uri dl pr) (recorded env.store i)
          (donated env.store i) refl fresh.balances fresh.donations)
  subject_sound (extends a id dl config state c st tk) f i s about =
      Sound-same ctx.timestamp (env.store.proj_state i) (e.store.proj_state i)
        (recorded env.store i) (recorded e.store i) (donated env.store i) (donated e.store i)
        (ground arith) (λ t. ground arith) (λ t d. ground arith) s
  subject_sound (deposits id dn tk x config state c r) f i s about =
      let at : i ≡ id = ground arith in
      let has : env.store.proj_state i ≡ some state = ground (arith, c.has_state) in
      let q : ProjectState =
        deposited_state config state tk (eqb_ℤ (donated env.store id tk dn) (pos 0))
          (recorded env.store id tk +ℤ x) in
      Sound-same ctx.timestamp (some q) (e.store.proj_state i) (recorded e.store i)
        (recorded e.store i) (donated e.store i) (donated e.store i) (ground (arith, r.state_now i))
        (λ t. refl) (λ t d. refl)
        (give-Sound ctx.timestamp (env.store.proj_state i) (recorded env.store i)
          (donated env.store i) s tk dn x c.positive (ground (arith, r.in_range))
          (recorded e.store i) (donated e.store i) (λ t. ground (arith, r.balances))
          (λ t d. ground (arith, r.donations)) state has c.open_status q
          (deposited-open config state tk (eqb_ℤ (donated env.store id tk dn) (pos 0))
            (recorded env.store id tk +ℤ x) c.open_status))
  subject_sound (refunds dn id tk config state d c r) f i s about =
      let at : i ≡ id = ground arith in
      let has : env.store.proj_state i ≡ some state = ground (arith, c.has_state) in
      let q : ProjectState = settled ctx config state in
      Sound-same ctx.timestamp (some q) (e.store.proj_state i) (recorded e.store i)
        (recorded e.store i) (donated e.store i) (donated e.store i) (ground (arith, r.state_now i))
        (λ t. refl) (λ t d. refl)
        (take-Sound ctx.timestamp (env.store.proj_state i) (recorded env.store i)
          (donated env.store i) s tk dn (recorded e.store i) (donated e.store i)
          (λ t. ground (arith, r.balances)) (λ t d. ground (arith, r.donations)) state has
          (settled-owed ctx config state c.refundable c.window (s.window state has)) q
          (settled-window ctx config state (s.window state has)))
  subject_sound (releases a id hash config state c r) f i s about =
      Sound-same ctx.timestamp (some (completed_state state)) (e.store.proj_state i)
        (recorded e.store i) (recorded e.store i) (donated env.store i) (donated e.store i)
        (ground (arith, r.state_now i)) (λ t. refl) (λ t d. ground (arith, r.donations))
        (close-Sound ctx.timestamp (env.store.proj_state i) (recorded env.store i)
          (donated env.store i) s (some (completed_state state)) (recorded e.store i)
          (λ t. ground (arith, r.balances i t, drained_bounds _ (s.balance_nonneg t)))
          (λ t. ground (arith, r.balances i t, drained_bounds _ (s.balance_nonneg t)))
          (λ p u v. ground arith) (λ p u. ground arith))
  subject_sound (reclaims a id config state c r) f i s about =
      let has : env.store.proj_state i ≡ some state = ground (arith, c.has_state) in
      Sound-same ctx.timestamp (some state) (e.store.proj_state i) (recorded e.store i)
        (recorded e.store i) (donated env.store i) (donated e.store i) (ground (arith, r.rest))
        (λ t. refl) (λ t d. ground (arith, r.rest))
        (close-Sound ctx.timestamp (env.store.proj_state i) (recorded env.store i)
          (donated env.store i) s (some state) (recorded e.store i)
          (λ t. ground (arith, r.balances i t, drained_bounds _ (s.balance_nonneg t)))
          (λ t. ground (arith, r.balances i t, drained_bounds _ (s.balance_nonneg t)))
          (λ p u v. s.window p (has ∙ u) v) (λ p u. ground (arith, c.refundable, c.over)))
  subject_sound (cancels a id config state c st tk) f i s about =
      let has : env.store.proj_state i ≡ some state = ground (arith, c.has_state) in
      Sound-same ctx.timestamp (some (cancelled_state ctx state)) (e.store.proj_state i)
        (recorded env.store i) (recorded e.store i) (donated env.store i) (donated e.store i)
        (ground arith) (λ t. ground arith) (λ t d. ground arith)
        (restate-Sound ctx.timestamp (env.store.proj_state i) (recorded env.store i)
          (donated env.store i) s (cancelled_state ctx state) (λ k. omega arith) state has
          (λ k. ground (arith, c.is_active)))
  subject_sound (expires id config state c st tk) f i s about =
      let has : env.store.proj_state i ≡ some state = ground (arith, c.has_state) in
      Sound-same ctx.timestamp (some (expired_state ctx state)) (e.store.proj_state i)
        (recorded env.store i) (recorded e.store i) (donated env.store i) (donated e.store i)
        (ground arith) (λ t. ground arith) (λ t d. ground arith)
        (restate-Sound ctx.timestamp (env.store.proj_state i) (recorded env.store i)
          (donated env.store i) s (expired_state ctx state) (λ k. omega arith) state has
          (λ k. ground (arith, c.open_status)))

-- A change at the ledger's time keeps every project's amounts sound at that time.
pub Change-IsSound :
    {W : Type 0} (host : Host W) (ctx : Ctx) (env e : Env W)
    → Change host ctx env e
    → IsFresh env.store
    → IsSound ctx.timestamp env.store
    → IsSound ctx.timestamp e.store
Change-IsSound host ctx env e c f s i = elim (Bool-cases (concerns host ctx c i)) [
  | inl about ↦ subject_sound host ctx env e c f i (s i) about
  | inr other ↦
      let u = Change-Unchanged host ctx c i other in
      Sound-same ctx.timestamp (env.store.proj_state i) (e.store.proj_state i)
        (recorded env.store i) (recorded e.store i) (donated env.store i) (donated e.store i)
        u.state u.balances u.donations (s i)
]
