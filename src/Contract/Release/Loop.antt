-- ===== src/Contract/Release/Loop.antt =====
-- `verify_and_release` as a whole: its loop over the accepted tokens against a plan of payments.
use mathlib.Core.Path.{fun_ext}
use pifp_stellar.Base.{ℕ, ◌≡◌, ◌==◌, ◌&&◌, ◌++◌, Option, some, List, [], ◌∷◌, arith, if◌then◌else◌}
use pifp_stellar.Base.Int.{ℤ}
use pifp_stellar.Contract.Types.{
  Address, Hash, ProjectConfig, ProjectState, ProtocolConfig, accepts, completed,
}
use pifp_stellar.Contract.Env.{Env, Ctx, Host, ok, >>=-ok}
use pifp_stellar.Contract.Funding.Deposited.{recorded}
use pifp_stellar.Contract.Release.{
  check_verify, verify_and_release, complete_release, release_tokens, release_token,
}
use pifp_stellar.Contract.Release.Released.{
  VerifyChecked, check_verify-ok, drained, Payment, pay_all, pay_all-append, shares, TokenReleased,
  release_token-ok,
}

-- The balances after one token is drained.
abbrev pub drain_at : (Address → ℤ) → Address → Address → ℤ
drain_at b token t = if t == token then drained (b t) else b t

-- The payments for a list of tokens, from their balances.
unfoldable pub release_plan :
    Option ProtocolConfig → Address → (Address → ℤ) → List Address → List Payment
release_plan protocol creator b [] = []
release_plan protocol creator b (token ∷ rest) =
    shares protocol creator token (b token) ++ release_plan protocol creator (drain_at b token) rest

module _ {W : Type 0} (host : Host W) (ctx : Ctx) (id : ℕ) (protocol : Option ProtocolConfig)
    (creator : Address) where
  pub record TokensReleased (tokens : List Address) (env e : Env W) : Type 0 where
    pub rest : e.store ≡ record (env.store) { token_balance = e.store.token_balance }
    pub balances :
        (j : ℕ) (t : Address)
        → recorded e.store j t ≡ (
            if j == id && accepts tokens t
            then drained (recorded env.store j t)
            else recorded env.store j t)
    pub paid :
        pay_all host ctx (release_plan protocol creator (recorded env.store id) tokens) env.tokens
        ≡ some e.tokens

  drained-at :
      (token : Address) (env d : Env W)
      → TokenReleased host ctx id protocol creator token env d
      → recorded d.store id ≡ drain_at (recorded env.store id) token
  drained-at token env d r = fun_ext λ t. ground (arith, r.balances id t)

  release_tokens-ok :
      (tokens : List Address) (env e : Env W)
      → release_tokens host ctx id protocol creator tokens env ≡ ok tt e
      → TokensReleased tokens env e
  unfolding release_tokens accepts release_plan pay_all
  release_tokens-ok [] env e h = record {
    rest = ground arith;
    balances = λ j t. ground arith;
    paid = ground arith;
  }
  release_tokens-ok (token ∷ ts) env e h =
      let (_, d, p, q) = >>=-ok (release_token host ctx id protocol creator token) _ env h in
      let one : TokenReleased host ctx id protocol creator token env d =
        release_token-ok host ctx id protocol creator token env d p in
      let more : TokensReleased ts d e = release_tokens-ok ts d e q in
      record {
        rest = ground (arith, one.rest, more.rest);
        balances = λ j t. ground (arith, one.balances j t, more.balances j t);
        paid =
            pay_all-append host ctx (shares protocol creator token (recorded env.store id token)) _
              env.tokens one.paid (rw (← drained-at token env d one) more.paid);
      }

abbrev pub completed_state : ProjectState → ProjectState
completed_state s = record s { status = completed }

module _ {W : Type 0} (host : Host W) (ctx : Ctx) (caller : Address) (id : ℕ) (hash : Hash) where
  pub record Released (config : ProjectConfig) (state : ProjectState) (env e : Env W) : Type 0 where
    pub state_now :
        (j : ℕ)
        → e.store.proj_state j
          ≡ (if j == id then some (completed_state state) else env.store.proj_state j)
    pub configs : e.store.proj_config ≡ env.store.proj_config
    pub count : e.store.project_count ≡ env.store.project_count
    pub roles : e.store.role ≡ env.store.role
    pub admin : e.store.super_admin ≡ env.store.super_admin
    pub fee : e.store.protocol_config ≡ env.store.protocol_config
    pub donations : e.store.donator_balance ≡ env.store.donator_balance
    pub balances :
        (j : ℕ) (t : Address)
        → recorded e.store j t ≡ (
            if j == id && accepts config.accepted_tokens t
            then drained (recorded env.store j t)
            else recorded env.store j t)
    pub paid :
        pay_all host ctx
          (release_plan env.store.protocol_config config.creator
            (recorded env.store id)
            config.accepted_tokens)
          env.tokens
        ≡ some e.tokens

  complete_release-ok :
      (config : ProjectConfig) (state : ProjectState) (env e : Env W)
      → complete_release host ctx caller id hash config state env ≡ ok tt e
      → Released config state env e
  unfolding complete_release
  complete_release-ok config state env e h =
      let (_, f, u, v) =
        >>=-ok
          (release_tokens host ctx id env.store.protocol_config config.creator
            config.accepted_tokens)
          _ env h in
      let r : TokensReleased host ctx id env.store.protocol_config config.creator
          config.accepted_tokens env f =
        release_tokens-ok host ctx id env.store.protocol_config config.creator
          config.accepted_tokens env f u in
      record {
        state_now = λ j. ground (arith, r.rest);
        configs = ground (arith, r.rest);
        count = ground (arith, r.rest);
        roles = ground (arith, r.rest);
        admin = ground (arith, r.rest);
        fee = ground (arith, r.rest);
        donations = ground (arith, r.rest);
        balances = λ j t. ground (arith, r.balances j t);
        paid = ground (arith, r.paid);
      }

  -- A release that returns has passed its checks, drains the project's accepted tokens and no other
  -- balance, makes exactly the planned payments, and completes the project.
  pub verify_and_release-Released :
      (env e : Env W)
      → verify_and_release host ctx caller id hash env ≡ ok tt e
      → (config : ProjectConfig) × (state : ProjectState) × VerifyChecked ctx caller id hash
          env.store config state
        × Released config state env e
  unfolding verify_and_release
  verify_and_release-Released env e h =
      let ((config, state), d, p, q) = >>=-ok (check_verify ctx caller id hash) _ env h in
      let (same, checked) = check_verify-ok ctx caller id hash env d p in
      (config, state, checked, complete_release-ok config state env e (rw same at q))
