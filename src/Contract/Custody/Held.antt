-- ===== src/Contract/Custody/Held.antt =====
-- Custody over histories.
use pifp_stellar.Base.{ℕ, ◌≡◌, sym, subst, refl, List, [], ◌∷◌, false, inl, inr}
use pifp_stellar.Base.Totals.{total-zero}
use pifp_stellar.Contract.Types.{Address}
use pifp_stellar.Contract.Env.{Env, Ctx, Host}
use pifp_stellar.Contract.Funding.Deposited.{recorded}
use pifp_stellar.Contract.Lifecycle.{Call, step}
use pifp_stellar.Contract.Change.Fresh.{IsFresh}
use pifp_stellar.Contract.Change.Solvency.{IsSound, Sound-later}
use pifp_stellar.Contract.History.{run, deployed, Ordered, step-Change, empty_storage}
use pifp_stellar.Contract.History.Safety.{step-IsFresh, step-IsSound, empty-IsFresh, empty-IsSound}
use pifp_stellar.Contract.Custody.{TokenLaws, IsBacked}
use pifp_stellar.Contract.Custody.Plans.{IsCapped}
use pifp_stellar.Contract.Custody.Kept.{Change-IsBacked}
use pifp_stellar.Contract.Custody.Fee.{step-IsCapped}

-- The calls come to the contract at `self`, and not with that address's authorisation: a contract
-- authorises only what it calls itself.
abbrev pub FromOutside : Address → List (Ctx × Call) → Type 0
FromOutside self [] = Unit {0}
FromOutside self ((ctx, _) ∷ h) =
    ((ctx.current_contract_address ≡ self) × (ctx.authorized self ≡ false)) × FromOutside self h

module _ {W : Type 0} (host : Host W) (laws : TokenLaws host) where
  step-IsBacked :
      (ctx : Ctx) (call : Call) (env : Env W)
      → ctx.authorized ctx.current_contract_address ≡ false
      → IsFresh env.store
      → IsSound ctx.timestamp env.store
      → IsCapped env.store.protocol_config
      → IsBacked host ctx.current_contract_address env
      → IsBacked host ctx.current_contract_address (step host ctx call env)
  step-IsBacked ctx call env u f s c b = elim (step-Change host ctx call env) [
    | inl e ↦ rw e b
    | inr change ↦ Change-IsBacked host laws ctx env _ u f s c b change
  ]

  run-IsBacked :
      (self : Address) (now : ℕ) (h : List (Ctx × Call)) (env : Env W)
      → Ordered now h
      → FromOutside self h
      → IsFresh env.store
      → IsSound now env.store
      → IsCapped env.store.protocol_config
      → IsBacked host self env
      → IsBacked host self (run host h env)
  unfolding run
  run-IsBacked self now [] env o u f s c b = b
  run-IsBacked self now ((ctx, call) ∷ h) env o u f s c b =
      let later : IsSound ctx.timestamp env.store =
        λ i. Sound-later now ctx.timestamp _ _ _ o.0 (s i) in
      let at : ctx.current_contract_address ≡ self = u.0.0 in
      let next : IsBacked host ctx.current_contract_address (step host ctx call env) =
        step-IsBacked ctx call env (rw at u.0.1) f later c
          (subst (λ a. IsBacked host a env) (sym at) b) in
      run-IsBacked self ctx.timestamp h (step host ctx call env) o.1 u.1
        (step-IsFresh host ctx call env f) (step-IsSound host now ctx call env o.0 f s)
        (step-IsCapped host ctx call env c)
        (subst (λ a. IsBacked host a (step host ctx call env)) at next)

  -- From deployment on, whatever the calls from outside at times that do not fall: if the token
  -- contracts keep their laws, the contract's address holds of each token at least what it records
  -- for any distinct projects together.
  pub deployed-IsBacked :
      (self : Address) (now : ℕ) (h : List (Ctx × Call)) (w : W)
      → Ordered now h
      → FromOutside self h
      → IsBacked host self (run host h (deployed w))
  deployed-IsBacked self now h w o u =
      run-IsBacked self now h (deployed w) o u (empty-IsFresh host) (empty-IsSound host now) tt
        (λ t is d.
          rw (total-zero (λ i. recorded empty_storage i t) is (λ i. refl)) (laws.holds t self w))
