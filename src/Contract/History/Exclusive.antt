-- ===== src/Contract/History/Exclusive.antt =====
-- Refunds after the creator's reclaim.
use pifp_stellar.Base.{ℕ, ◌≤◌, ◌≡◌, ◌≢◌, arith, List, [], ◌∷◌, some, true, false}
use pifp_stellar.Contract.Types.{Address, ProjectState, is_refundable}
use pifp_stellar.Contract.Env.{Env, Ctx, Host, ok, returns}
use pifp_stellar.Contract.Funding.{refund}
use pifp_stellar.Contract.Release.{reclaim_expired_funds}
use pifp_stellar.Contract.Release.Reclaimed.{reclaim_expired_funds-Reclaimed}
use pifp_stellar.Contract.Lifecycle.{Call}
use pifp_stellar.Contract.Change.Fresh.{IsFresh, Change-IsFresh}
use pifp_stellar.Contract.Change.{reclaims}
use pifp_stellar.Contract.History.{run, Ordered, end}
use pifp_stellar.Contract.History.Life.{run-Lived}

end_grows : (now : ℕ) (h : List (Ctx × Call)) → Ordered now h → now ≤ end now h
end_grows now [] o = omega arith
end_grows now ((ctx, _) ∷ h) o = omega (arith, o.0, end_grows ctx.timestamp h o.1)

module _ {W : Type 0} (host : Host W) where
  closed_refuses :
      (ctx : Ctx) (donator : Address) (id : ℕ) (token : Address) (env : Env W) (p : ProjectState)
      → env.store.proj_state id ≡ some p
      → is_refundable p.status ≡ true
      → p.refund_expiry ≢ 0
      → p.refund_expiry ≤ ctx.timestamp
      → returns (refund host ctx donator id token env) ≡ false
  unfolding refund
  closed_refuses ctx donator id token env p h r n o = ground arith

  -- Once the creator has reclaimed a project's funds, no donor's refund of that project returns,
  -- after whatever calls and at whatever later time.
  pub reclaim_ends_refunds :
      (ctx later : Ctx) (creator donator token : Address) (id : ℕ) (env e : Env W)
      (h : List (Ctx × Call))
      → IsFresh env.store
      → reclaim_expired_funds host ctx creator id env ≡ ok tt e
      → Ordered ctx.timestamp h
      → end ctx.timestamp h ≤ later.timestamp
      → returns (refund host later donator id token (run host h e)) ≡ false
  reclaim_ends_refunds ctx later creator donator token id env e h f ok' o l =
      let (config, p, c, r) = reclaim_expired_funds-Reclaimed host ctx creator id env e ok' in
      let fresh : IsFresh e.store =
        Change-IsFresh host ctx env e (reclaims creator id config p c r) f in
      let at : e.store.proj_state id ≡ some p = ground (arith, r.rest, c.has_state) in
      let (q, now, lived, _) = run-Lived host h e id p fresh at in
      let still : q ≡ p = lived.final (ground (arith, c.refundable)) in
      closed_refuses later donator id token (run host h e) p (rw (← still) now) c.refundable
        c.has_window (omega (arith, c.over, end_grows ctx.timestamp h o, l))
