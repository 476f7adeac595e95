-- ===== src/Contract/Custody/Kept.antt =====
-- Custody through the changes.
use pifp_stellar.Base.{ℕ, ◌≡◌, refl, arith, false}
use pifp_stellar.Base.Int.{int_laws}
use pifp_stellar.Contract.Types.{Address}
use pifp_stellar.Contract.Env.{Env, Ctx, Host}
use pifp_stellar.Contract.Funding.Deposited.{recorded}
use pifp_stellar.Contract.Change.{
  Change, same, registers, extends, deposits, refunds, releases, reclaims, cancels, expires,
}
use pifp_stellar.Contract.Change.Fresh.{IsFresh}
use pifp_stellar.Contract.Change.Solvency.{IsSound}
use pifp_stellar.Contract.Change.Solvency.Kept.{Change-IsSound}
use pifp_stellar.Contract.Custody.{TokenLaws, IsBacked, Covers-same}
use pifp_stellar.Contract.Custody.Plans.{IsCapped}
use pifp_stellar.Contract.Custody.Drains.{InRange, release_plan-cost, reclaim_plan-cost}
use pifp_stellar.Contract.Custody.Flow.{
  Deposited-Flows, Refunded-Flows, planned-Flows, moved-IsBacked,
}

module _ {W : Type 0} (host : Host W) (laws : TokenLaws host) (ctx : Ctx) (env e : Env W) where
  still-IsBacked :
      e.tokens ≡ env.tokens
      → ((i : ℕ) (t : Address) → recorded e.store i t ≡ recorded env.store i t)
      → IsBacked host ctx.current_contract_address env
      → IsBacked host ctx.current_contract_address e
  still-IsBacked tk same' b = λ t.
      Covers-same (λ i. recorded env.store i t) (λ i. recorded e.store i t)
        (host.balance t ctx.current_contract_address env.tokens) _ (λ i. same' i t)
        (rw tk (omega int_laws)) (b t)

  sound-InRange : (id : ℕ) → IsSound ctx.timestamp env.store → InRange (recorded env.store id)
  sound-InRange id s = record {
    low = λ t. (s id).balance_nonneg t;
    high = λ t. (s id).balance_bounded t;
  }

  -- Where the token contracts keep their laws, the contract's address has not authorised the call
  -- and the fee is at most a tenth, a change of a sound contract keeps its holdings above its
  -- records.
  pub Change-IsBacked :
      ctx.authorized ctx.current_contract_address ≡ false
      → IsFresh env.store
      → IsSound ctx.timestamp env.store
      → IsCapped env.store.protocol_config
      → IsBacked host ctx.current_contract_address env
      → Change host ctx env e
      → IsBacked host ctx.current_contract_address e
  Change-IsBacked u f s cap b (same r) =
      still-IsBacked r.tokens (λ i t. ground (arith, r.balances)) b
  Change-IsBacked u f s cap b (registers a ts g hash uri dl pr c st tk) =
      still-IsBacked tk (λ i t. ground (arith, st)) b
  Change-IsBacked u f s cap b (extends a id dl config state c st tk) =
      still-IsBacked tk (λ i t. ground (arith, st)) b
  Change-IsBacked u f s cap b (cancels a id config state c st tk) =
      still-IsBacked tk (λ i t. ground (arith, st)) b
  Change-IsBacked u f s cap b (expires id config state c st tk) =
      still-IsBacked tk (λ i t. ground (arith, st)) b
  Change-IsBacked u f s cap b (deposits id dn tk x config state c r) =
      let change : Change host ctx env e = deposits id dn tk x config state c r in
      moved-IsBacked host laws ctx env e change id (λ i. refl)
        (Change-IsSound host ctx env e change f s) b
        (Deposited-Flows host laws ctx env e id dn tk x config state u c r)
  Change-IsBacked u f s cap b (refunds dn id tk config state d c r) =
      let change : Change host ctx env e = refunds dn id tk config state d c r in
      moved-IsBacked host laws ctx env e change id (λ i. refl)
        (Change-IsSound host ctx env e change f s) b
        (Refunded-Flows host laws ctx env e id dn tk config state r)
  Change-IsBacked u f s cap b (releases a id hash config state c r) =
      let change : Change host ctx env e = releases a id hash config state c r in
      let range = sound-InRange id s in
      moved-IsBacked host laws ctx env e change id (λ i. refl)
        (Change-IsSound host ctx env e change f s) b
        (λ t.
          planned-Flows host laws ctx env e id config.accepted_tokens _ t range
            (ground (arith, r.balances id t))
            (release_plan-cost t env.store.protocol_config config.creator config.accepted_tokens
              (recorded env.store id) cap range)
            r.paid)
  Change-IsBacked u f s cap b (reclaims a id config state c r) =
      let change : Change host ctx env e = reclaims a id config state c r in
      let range = sound-InRange id s in
      moved-IsBacked host laws ctx env e change id (λ i. refl)
        (Change-IsSound host ctx env e change f s) b
        (λ t.
          planned-Flows host laws ctx env e id config.accepted_tokens _ t range
            (ground (arith, r.balances id t))
            (reclaim_plan-cost t config.creator config.accepted_tokens (recorded env.store id)
              range)
            r.paid)
