-- ===== src/Contract/Tests.antt =====
-- A small world for the examples: token contracts with plain balances, an administrator 1, an oracle
-- 3, a donor 7, the token 5, and the contract at address 9.
pub mod Funds
pub mod Claims
pub mod Custody
pub mod Registry
pub mod Roles
pub mod Histories
use pifp_stellar.Base.{
  ℕ, ◌+◌, ◌-◌, ◌==◌, Bool, not, true, false, Option, none, some, List, [], ◌∷◌, if◌then◌else◌, ltb,
  refl, ◌≡◌,
}
use pifp_stellar.Base.Int.{ℤ, pos, negsuc}
use pifp_stellar.Base.Maps.{update₂}
use pifp_stellar.Contract.Types.{
  Address, Role, oracle, ProjectConfig, ProjectState, funding, active,
}
use pifp_stellar.Contract.Env.{Env, Ctx, Host, Storage}
use pifp_stellar.Contract.Lifecycle.{Call, perform, step, expire_project}
use pifp_stellar.Contract.History.{deployed, run}

abbrev pub Tokens : Type 0
Tokens = Address → Address → ℕ

abbrev pub move_tokens : Address → Address → Address → ℤ → Tokens → Option Tokens
move_tokens token from to (negsuc n) w = none
move_tokens token from to (pos n) w =
    if ltb (w token from) n
    then none
    else (let v : Tokens = update₂ w token from (w token from - n) in
        some (update₂ v token to (v token to + n)))

abbrev pub host : Host Tokens
host = record {
  transfer = move_tokens;
  balance = λ token holder w. pos (w token holder);
  passes_super_admin = λ s a. a == 1;
}

-- Everyone but the contract has authorised the call at time `t`.
abbrev pub at : ℕ → Ctx
at t = record { timestamp = t; authorized = λ a. not (a == 9); current_contract_address = 9 }

-- Nobody has.
abbrev pub unsigned : ℕ → Ctx
unsigned t = record { timestamp = t; authorized = λ _. false; current_contract_address = 9 }

abbrev pub wallets : Tokens
wallets token holder = if holder == 7 then 5000 else 0

-- The protocol takes 200 basis points for address 8, and project 0 of address 1 asks for 1000 of
-- token 5 before time 2000.
abbrev pub opening : List (Ctx × Call)
opening =
    (at 100, Call.init 1)
    ∷ (at 110, Call.grant_role 1 3 oracle)
    ∷ (at 120, Call.update_protocol_config 1 8 200)
    ∷ (at 1000, Call.register_project 1 (5 ∷ 6 ∷ []) (pos 1000) 42 (81 ∷ 109 ∷ []) 2000 false)
    ∷ []

abbrev pub funding_calls : List (Ctx × Call)
funding_calls =
    (at 100, Call.init 1)
    ∷ (at 110, Call.grant_role 1 3 oracle)
    ∷ (at 120, Call.update_protocol_config 1 8 200)
    ∷ (at 1000, Call.register_project 1 (5 ∷ 6 ∷ []) (pos 1000) 42 (81 ∷ 109 ∷ []) 2000 false)
    ∷ (at 1100, Call.deposit 0 7 5 (pos 400))
    ∷ []

abbrev pub activating_calls : List (Ctx × Call)
activating_calls =
    (at 100, Call.init 1)
    ∷ (at 110, Call.grant_role 1 3 oracle)
    ∷ (at 120, Call.update_protocol_config 1 8 200)
    ∷ (at 1000, Call.register_project 1 (5 ∷ 6 ∷ []) (pos 1000) 42 (81 ∷ 109 ∷ []) 2000 false)
    ∷ (at 1100, Call.deposit 0 7 5 (pos 1400))
    ∷ []

-- The project is registered; it has 400 of 1000; it has reached its goal.
unfoldable pub open_env : Env Tokens
unfolding run
open_env = run host opening (deployed wallets)

unfoldable pub funded_env : Env Tokens
unfolding run
funded_env = run host funding_calls (deployed wallets)

unfoldable pub active_env : Env Tokens
unfolding run
active_env = run host activating_calls (deployed wallets)

abbrev pub window_end : ℕ
window_end = 2100 + 15_552_000

-- Project 0 as it was registered, and its state once 400 is in.
abbrev pub config_0 : ProjectConfig
config_0 = record {
  id = 0;
  creator = 1;
  accepted_tokens = 5 ∷ 6 ∷ [];
  goal = pos 1000;
  proof_hash = 42;
  deadline = 2000;
  is_private = false;
  metadata_uri = 81 ∷ 109 ∷ [];
}

abbrev pub state_0 : ProjectState
state_0 = record { status = funding; donation_count = 1; refund_expiry = 0 }

-- The project was funded short of its goal and has expired.
unfoldable pub expired_env : Env Tokens
unfolding step perform expire_project funded_env
expired_env = step host (at 2100) (Call.expire 0) funded_env

-- Its state once the goal is reached.
abbrev pub state_active : ProjectState
state_active = record { status = active; donation_count = 1; refund_expiry = 0 }
