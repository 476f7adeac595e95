-- ===== src/Contract/History.antt =====
-- Histories: transactions one after another on a contract that starts with an empty storage, at
-- ledger times that do not fall.
pub mod Safety
pub mod Life
pub mod Refunds
pub mod Exclusive
pub mod Expiry
pub mod Registered
pub mod Numbered
use pifp_stellar.Base.{arith, ℕ, ◌≤◌, ◌≡◌, ◌⊎◌, inl, inr, refl, List, [], ◌∷◌, none, some, false}
use pifp_stellar.Contract.Errors.{Failure}
use pifp_stellar.Contract.Types.{Address}
use pifp_stellar.Contract.Env.{Env, Ctx, Host, Storage, Outcome, ok, panic, invoke, after}
use pifp_stellar.Contract.Lifecycle.{Call, perform, step}
use pifp_stellar.Contract.Change.{Change, perform-Change}

abbrev pub empty_storage : Storage
empty_storage = record {
  project_count = none;
  paused = none;
  protocol_config = none;
  proj_config = λ _. none;
  proj_state = λ _. none;
  token_balance = λ _ _. none;
  donator_balance = λ _ _ _. none;
  whitelist = λ _ _. false;
  role = λ _. none;
  super_admin = none;
}

abbrev pub deployed : {W : Type 0} → W → Env W
deployed w = record { store = empty_storage; events = []; tokens = w }

module _ {W : Type 0} (host : Host W) where
  unfoldable pub run : List (Ctx × Call) → Env W → Env W
  run [] env = env
  run ((ctx, call) ∷ h) env = run h (step host ctx call env)

-- The times of a history do not fall, from `now` on; `end` is its last time.
abbrev pub Ordered : ℕ → List (Ctx × Call) → Type 0
Ordered now [] = Unit {0}
Ordered now ((ctx, _) ∷ h) = (now ≤ ctx.timestamp) × Ordered ctx.timestamp h

abbrev pub end : ℕ → List (Ctx × Call) → ℕ
end now [] = now
end now ((ctx, _) ∷ h) = end ctx.timestamp h

-- A transaction changes nothing, or makes one of the specified changes.
pub step-Change :
    {W : Type 0} (host : Host W) (ctx : Ctx) (call : Call) (env : Env W)
    → (step host ctx call env ≡ env) ⊎ Change host ctx env (step host ctx call env)
unfolding step
step-Change host ctx call env = go (perform host ctx call env) refl
  where
    go :
        (r : Outcome _ _)
        → perform host ctx call env ≡ r
        → (after (elim r [ ok a e ↦ ok a e | panic x e ↦ panic x env ]) ≡ env)
          ⊎ Change host ctx env (after (elim r [ ok a e ↦ ok a e | panic x e ↦ panic x env ]))
    go (ok tt' e) h = inr (perform-Change host ctx call env e h)
    go (panic x e) h = inl refl

-- A call that panics leaves no trace.
pub step-panic :
    {W : Type 0} (host : Host W) (ctx : Ctx) (call : Call) (env d : Env W) {x : Failure}
    → perform host ctx call env ≡ panic x d
    → step host ctx call env ≡ env
unfolding step
step-panic host ctx call env d p = ground arith

-- What every call that returns keeps, every transaction keeps.
pub step-ok :
    {W : Type 0} (host : Host W) (ctx : Ctx) (call : Call) (env : Env W) (P : Env W → Type 0)
    → P env
    → ((e : Env W) → perform host ctx call env ≡ ok tt e → P e)
    → P (step host ctx call env)
unfolding step
step-ok host ctx call env P p k = go (perform host ctx call env) refl
  where
    go :
        (r : Outcome _ _)
        → perform host ctx call env ≡ r
        → P (after (elim r [ ok a e ↦ ok a e | panic x e ↦ panic x env ]))
    go (ok tt' e) h = k e h
    go (panic x e) h = p
