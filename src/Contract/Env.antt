-- ===== src/Contract/Env.antt =====
-- The Soroban environment as the contract uses it: the ledger's time and the addresses that have
-- authorised the call, the contract's storage by kind of key (`DataKey` of storage.rs, `RbacKey` of
-- rbac.rs), the events published, and the state of the token contracts, which is a parameter.
use pifp_stellar.Base.{
  ℕ, ◌+◌, ◌^◌, ◌≡◌, refl, Bool, true, false, Option, none, some, List, ◌∷◌, ⊤, ltb,
}
use pifp_stellar.Base.Int.{ℤ}
use pifp_stellar.Contract.Errors.{Error, Failure, contract_error, unauthorized, arithmetic_overflow}
use pifp_stellar.Contract.Types.{Address, ProjectConfig, ProjectState, ProtocolConfig, Role}
use pifp_stellar.Contract.Events.{Event}

-- What an invocation is given by the host.
pub record Ctx : Type 0 where
  pub timestamp : ℕ
  pub authorized : Address → Bool
  pub current_contract_address : Address

-- One field for each kind of key. An absent key is `none`; `whitelist` holds the unit value, so it
-- is a test for presence.
pub record Storage : Type 0 where
  pub project_count : Option ℕ
  pub paused : Option Bool
  pub protocol_config : Option ProtocolConfig
  pub proj_config : ℕ → Option ProjectConfig
  pub proj_state : ℕ → Option ProjectState
  pub token_balance : ℕ → Address → Option ℤ
  pub donator_balance : ℕ → Address → Address → Option ℤ
  pub whitelist : ℕ → Address → Bool
  pub role : Address → Option Role
  pub super_admin : Option Address

-- `W` is the state of the token contracts.
pub record Env (W : Type 0) : Type 0 where
  pub store : Storage
  pub events : List Event
  pub tokens : W

pub data Outcome (W A : Type 0) : Type 0 where
  ok : A → Env W → Outcome W A
  panic : Failure → Env W → Outcome W A

abbrev pub Action : Type 0 → Type 0 → Type 0
Action W A = Env W → Outcome W A

infixl 5 ◌>>=◌ ◌>>◌
abbrev pub ◌>>=◌ : {W A B : Type 0} → Action W A → (A → Action W B) → Action W B
◌>>=◌ m f env = elim (m env) [ ok a e ↦ f a e | panic x e ↦ panic x e ]

abbrev pub ◌>>◌ : {W B : Type 0} → Action W ⊤ → Action W B → Action W B
m >> k = m >>= λ _. k

module _ {W : Type 0} where
  abbrev pub pure : {A : Type 0} → A → Action W A
  pure a env = ok a env

  abbrev pub skip : Action W ⊤
  skip env = ok tt env

  abbrev pub fail : {A : Type 0} → Failure → Action W A
  fail x env = panic x env

  -- `panic_with_error!` under a test.
  abbrev pub panic_if : Bool → Error → Action W ⊤
  panic_if true e env = panic (contract_error e) env
  panic_if false e env = ok tt env

  -- `panic_with_error!` where a match on an option finds nothing.
  abbrev pub or_panic : {A : Type 0} → Option A → Failure → Action W A
  or_panic none x env = panic x env
  or_panic (some a) x env = ok a env

  abbrev pub gets : {A : Type 0} → (Storage → A) → Action W A
  gets f env = ok (f env.store) env

  abbrev pub modify : (Storage → Storage) → Action W ⊤
  modify f env = ok tt (record env { store = f env.store })

  abbrev pub publish : Event → Action W ⊤
  publish e env = ok tt (record env { events = e ∷ env.events })

  -- A test of the host, which traps.
  abbrev pub check : Bool → Failure → Action W ⊤
  check true x env = ok tt env
  check false x env = panic x env

  abbrev pub require_auth : Ctx → Address → Action W ⊤
  require_auth ctx a = check (ctx.authorized a) unauthorized

  abbrev pub when : Bool → Action W ⊤ → Action W ⊤
  when true m env = m env
  when false m env = ok tt env

  -- `+` on a machine word: the release profile has `overflow-checks`, so a carry out is a trap.
  abbrev pub add_u64 : ℕ → ℕ → Action W ℕ
  add_u64 a b = do check (ltb (a + b) (2 ^ 64)) arithmetic_overflow; pure (a + b)

  abbrev pub add_u32 : ℕ → ℕ → Action W ℕ
  add_u32 a b = do check (ltb (a + b) (2 ^ 32)) arithmetic_overflow; pure (a + b)

  -- The host's side of a call: a panic undoes all that the call has written.
  abbrev pub invoke : {A : Type 0} → Action W A → Env W → Outcome W A
  invoke m env = elim (m env) [ ok a e ↦ ok a e | panic x e ↦ panic x env ]

  abbrev pub returns : {A : Type 0} → Outcome W A → Bool
  returns (ok a e) = true
  returns (panic x e) = false

  abbrev pub after : {A : Type 0} → Outcome W A → Env W
  after (ok a e) = e
  after (panic x e) = e

-- What the contract calls and the repository does not hold. `transfer token from to amount` fails
-- or changes the token contracts' state, and `balance token holder` reads it (SEP-41);
-- `passes_super_admin` is the verdict of `rbac::require_super_admin`, which is called by
-- `update_protocol_config` and declared nowhere.
pub record Host (W : Type 0) : Type 0 where
  pub transfer : Address → Address → Address → ℤ → W → Option W
  pub balance : Address → Address → W → ℤ
  pub passes_super_admin : Storage → Address → Bool

-- Inversion of a bind that returns.
pub >>=-ok :
    {W A B : Type 0} (m : Action W A) (f : A → Action W B) (env : Env W) {b : B} {e : Env W}
    → (m >>= f) env ≡ ok b e
    → (a : A) × (d : Env W) × (m env ≡ ok a d) × (f a d ≡ ok b e)
>>=-ok m f env {b} {e} h = go (m env) refl h
  where
    go :
        (r : Outcome _ _)
        → m env ≡ r
        → (elim r [ ok a d ↦ f a d | panic x d ↦ panic x d ]) ≡ ok b e
        → (a : _) × (d : Env _) × (m env ≡ ok a d) × (f a d ≡ ok b e)
    go (ok a d) p q = (a, d, p, q)
    go (panic x d) p q = cc

pub >>=-run :
    {W A B : Type 0} (m : Action W A) (f : A → Action W B) (env : Env W) {a : A} {d : Env W}
    {r : Outcome W B}
    → m env ≡ ok a d
    → f a d ≡ r
    → (m >>= f) env ≡ r
>>=-run m f env h k = rw (h, ◌>>=◌) k
