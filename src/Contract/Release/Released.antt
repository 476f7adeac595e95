-- ===== src/Contract/Release/Released.antt =====
-- The effect of `verify_and_release`.
use pifp_stellar.Base.{
  ℕ, ◌<◌, ◌≡◌, true, false, Option, none, some, arith, get_or, ◌&&◌, if◌then◌else◌, ◌==◌, List, [],
  ◌∷◌, ◌++◌, ltb, Option-cases, inl, inr,
}
use pifp_stellar.Base.Int.{ℤ, pos, ltb_ℤ}
use pifp_stellar.Contract.Types.{
  Address, Hash, ProjectConfig, ProjectState, ProtocolConfig, is_open, oracle,
}
use pifp_stellar.Contract.Env.{Env, Ctx, Host, ok, Storage}
use pifp_stellar.Contract.Funding.Deposited.{recorded}
use pifp_stellar.Contract.Release.{check_verify, release_token, fee_amount, less_fee}

-- The conditions of a release.
pub record VerifyChecked (ctx : Ctx) (caller : Address) (id : ℕ) (hash : Hash) (s : Storage)
    (config : ProjectConfig) (state : ProjectState) : Type 0 where
  pub not_paused : get_or false s.paused ≡ false
  pub authorized : ctx.authorized caller ≡ true
  pub permitted : s.role caller ≡ some oracle
  pub has_config : s.proj_config id ≡ some config
  pub has_state : s.proj_state id ≡ some state
  pub open_status : is_open state.status ≡ true
  pub in_time : ctx.timestamp < config.deadline
  pub proof : hash ≡ config.proof_hash

pub check_verify-ok :
    {W : Type 0} (ctx : Ctx) (caller : Address) (id : ℕ) (hash : Hash) (env e : Env W)
    {config : ProjectConfig} {state : ProjectState}
    → check_verify ctx caller id hash env ≡ ok (config, state) e
    → (e ≡ env) × VerifyChecked ctx caller id hash env.store config state
unfolding check_verify
check_verify-ok ctx caller id hash env e h = ground arith

-- A balance once its token is drained.
abbrev pub drained : ℤ → ℤ
drained x = if ltb_ℤ (pos 0) x then pos 0 else x

pub record Payment : Type 0 where
  pub token : Address
  pub to : Address
  pub amount : ℤ

module _ {W : Type 0} (host : Host W) (ctx : Ctx) where
  -- The contract pays, in order; `none` if the token contract refuses one.
  unfoldable pub pay_all : List Payment → W → Option W
  pay_all [] w = some w
  pay_all (p ∷ ps) w = elim (host.transfer p.token ctx.current_contract_address p.to p.amount w) [
    | none ↦ none
    | some v ↦ pay_all ps v
  ]

  pub pay_all-append :
      (ps qs : List Payment) (w : W) {v u : W}
      → pay_all ps w ≡ some v
      → pay_all qs v ≡ some u
      → pay_all (ps ++ qs) w ≡ some u
  unfolding pay_all
  pay_all-append [] qs w p q = ground arith
  pay_all-append (x ∷ ps) qs w {v} {u} p q =
      elim (Option-cases (host.transfer x.token ctx.current_contract_address x.to x.amount w)) [
        | inl e ↦ absurd (ground arith)
        | inr (y, e) ↦ rw (e, pay_all) (pay_all-append ps qs y (rw (e, pay_all) at p) q)
      ]

-- The payment of a positive amount, or none.
abbrev pub paying : Address → Address → ℤ → List Payment
paying token to amount =
    if ltb_ℤ (pos 0) amount then record { token = token; to = to; amount = amount } ∷ [] else []

-- The platform's part of a balance.
unfoldable pub fee_on : Option ProtocolConfig → ℤ → ℤ
unfolding fee_amount
fee_on none x = pos 0
fee_on (some c) x = if ltb 0 c.fee_bps then fee_amount x c.fee_bps else pos 0

abbrev pub recipient : Option ProtocolConfig → Address
recipient none = 0
recipient (some c) = c.fee_recipient

-- What is paid out of a balance `x`: the fee, then what it leaves for the creator.
abbrev pub shares : Option ProtocolConfig → Address → Address → ℤ → List Payment
shares protocol creator token x =
    if ltb_ℤ (pos 0) x
    then paying token (recipient protocol) (fee_on protocol x)
      ++ paying token creator
          (if ltb_ℤ (pos 0) (fee_on protocol x) then less_fee x (fee_on protocol x) else x)
    else []

module _ {W : Type 0} (host : Host W) (ctx : Ctx) (id : ℕ) (protocol : Option ProtocolConfig)
    (creator : Address) where
  pub record TokenReleased (token : Address) (env e : Env W) : Type 0 where
    pub rest : e.store ≡ record (env.store) { token_balance = e.store.token_balance }
    pub balances :
        (j : ℕ) (t : Address)
        → recorded e.store j t ≡ (
            if j == id && t == token
            then drained (recorded env.store j t)
            else recorded env.store j t)
    pub paid :
        pay_all host ctx (shares protocol creator token (recorded env.store id token)) env.tokens
        ≡ some e.tokens

  pub release_token-ok :
      (token : Address) (env e : Env W)
      → release_token host ctx id protocol creator token env ≡ ok tt e
      → TokenReleased token env e
  unfolding release_token fee_on pay_all
  release_token-ok token env e h = record {
    rest = ground arith;
    balances = λ j t. ground arith;
    paid = ground arith;
  }
