-- ===== src/Contract/History/Safety.antt =====
-- What no history breaks.
use pifp_stellar.Base.{ℕ, ◌≤◌, ◌≡◌, arith, refl, List, [], ◌∷◌, inl, inr, none}
use pifp_stellar.Base.Int.{ℤ, pos}
use pifp_stellar.Base.Totals.{total-zero}
use pifp_stellar.Contract.Types.{Address}
use pifp_stellar.Contract.Funding.Deposited.{recorded, donated}
use pifp_stellar.Contract.Env.{Env, Ctx, Host}
use pifp_stellar.Contract.Lifecycle.{Call, step}
use pifp_stellar.Contract.Change.Fresh.{IsFresh, Change-IsFresh}
use pifp_stellar.Contract.Change.Solvency.{Sound, IsSound, Sound-later}
use pifp_stellar.Contract.Change.Solvency.Kept.{Change-IsSound}
use pifp_stellar.Contract.History.{empty_storage, deployed, run, Ordered, end, step-Change}

empty-Sound :
    (now : ℕ) (b : Address → ℤ) (g : Address → Address → ℤ)
    → ((t : Address) → b t ≡ pos 0)
    → ((t d : Address) → g t d ≡ pos 0)
    → Sound now none b g
empty-Sound now b g zb zg = record {
  balance_nonneg = λ t. rw (zb t) (omega arith);
  balance_bounded = λ t. rw (zb t) (omega arith);
  gift_nonneg = λ t d. rw (zg t d) (omega arith);
  window = λ p e r. cc;
  solvent = λ p e o t ds d. rw (zb t, total-zero (g t) ds (zg t)) (omega arith);
}

module _ {W : Type 0} (host : Host W) where
  pub step-IsFresh :
      (ctx : Ctx) (call : Call) (env : Env W)
      → IsFresh env.store
      → IsFresh (step host ctx call env).store
  step-IsFresh ctx call env f = elim (step-Change host ctx call env) [
    | inl e ↦ rw e f
    | inr c ↦ Change-IsFresh host ctx env _ c f
  ]

  pub step-IsSound :
      (now : ℕ) (ctx : Ctx) (call : Call) (env : Env W)
      → now ≤ ctx.timestamp
      → IsFresh env.store
      → IsSound now env.store
      → IsSound ctx.timestamp (step host ctx call env).store
  step-IsSound now ctx call env h f s =
      let later : IsSound ctx.timestamp env.store =
        λ i. Sound-later now ctx.timestamp _ _ _ h (s i) in
      elim (step-Change host ctx call env) [
        | inl e ↦ rw e later
        | inr c ↦ Change-IsSound host ctx env _ c f later
      ]

  -- Every transaction keeps unused numbers unused and, time not going back, every project sound.
  pub run-IsSound :
      (now : ℕ) (h : List (Ctx × Call)) (env : Env W)
      → Ordered now h
      → IsFresh env.store
      → IsSound now env.store
      → IsFresh (run host h env).store × IsSound (end now h) (run host h env).store
  unfolding run
  run-IsSound now [] env o f s = (f, s)
  run-IsSound now ((ctx, call) ∷ h) env o f s =
      run-IsSound ctx.timestamp h (step host ctx call env) o.1 (step-IsFresh ctx call env f)
        (step-IsSound now ctx call env o.0 f s)

  pub empty-IsFresh : IsFresh empty_storage
  empty-IsFresh i h = record {
    config = refl;
    state = refl;
    balances = λ t. refl;
    donations = λ t d. refl;
  }

  pub empty-IsSound : (now : ℕ) → IsSound now empty_storage
  empty-IsSound now i =
      empty-Sound now (recorded empty_storage i) (donated empty_storage i) (λ t. refl) (λ t d. refl)

  -- From deployment on, whatever the calls, at times that do not fall: nothing is stored under an
  -- unused project number, no balance is negative or out of range, no donation is negative, and
  -- while a project can refund, its recorded balance of each token covers what is recorded for any
  -- distinct donors together.
  pub deployed-IsSound :
      (now : ℕ) (h : List (Ctx × Call)) (w : W)
      → Ordered now h
      → IsFresh (run host h (deployed w)).store
        × IsSound (end now h) (run host h (deployed w)).store
  deployed-IsSound now h w o = run-IsSound now h (deployed w) o empty-IsFresh (empty-IsSound now)
