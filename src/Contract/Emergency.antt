-- ===== src/Contract/Emergency.antt =====
-- Pausing, over all the entry points of lib.rs.
use pifp_stellar.Base.{◌≡◌, arith, Bool, true, false, get_or}
use pifp_stellar.Contract.Errors.{contract_error, protocol_paused}
use pifp_stellar.Contract.Types.{Address}
use pifp_stellar.Contract.Env.{Env, Ctx, Host, ok, panic}
use pifp_stellar.Contract.Admin.{pause}
use pifp_stellar.Contract.Projects
use pifp_stellar.Contract.Funding
use pifp_stellar.Contract.Release
use pifp_stellar.Contract.Lifecycle.{
  Call, register_project, extend_deadline, deposit, verify_and_release, reclaim_expired_funds,
  perform,
}

-- The calls that `require_not_paused` guards.
abbrev pub is_guarded : Call → Bool
is_guarded (register_project _ _ _ _ _ _ _) = true
is_guarded (extend_deadline _ _ _) = true
is_guarded (deposit _ _ _ _) = true
is_guarded (verify_and_release _ _ _) = true
is_guarded (reclaim_expired_funds _ _) = true
is_guarded _ = false

module _ {W : Type 0} (host : Host W) where
  paused_refuses :
      (ctx : Ctx) (call : Call) (env : Env W)
      → is_guarded call ≡ true
      → get_or false env.store.paused ≡ true
      → perform host ctx call env ≡ panic (contract_error protocol_paused) env
  unfolding perform Projects.register_project Projects.extend_deadline Funding.deposit
      Release.verify_and_release Release.reclaim_expired_funds
  paused_refuses ctx (register_project a ts g h m d p) env g' h' = ground arith
  paused_refuses ctx (extend_deadline a id d) env g h = ground arith
  paused_refuses ctx (deposit id d t x) env g h = ground arith
  paused_refuses ctx (verify_and_release o id hash) env g h = ground arith
  paused_refuses ctx (reclaim_expired_funds c id) env g h = ground arith
  paused_refuses ctx _ env g h = absurd (ground arith)

  pause-paused :
      (ctx : Ctx) (caller : Address) (env e : Env W)
      → pause ctx caller env ≡ ok tt e
      → get_or false e.store.paused ≡ true
  unfolding pause
  pause-paused ctx caller env e h = ground arith

  -- After a pause that returned, every guarded call, whoever makes it, is refused with
  -- `ProtocolPaused` and changes nothing.
  pub pause_stops :
      (ctx later : Ctx) (caller : Address) (call : Call) (env e : Env W)
      → is_guarded call ≡ true
      → pause ctx caller env ≡ ok tt e
      → perform host later call e ≡ panic (contract_error protocol_paused) e
  pause_stops ctx later caller call env e g h =
      paused_refuses later call e g (pause-paused ctx caller env e h)
