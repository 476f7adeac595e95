-- ===== src/Contract/Custody/Flow.antt =====
-- What each change does to the contract's holdings and to its records.
use pifp_stellar.Base.{
  ℕ, ◌≡◌, ◌≢◌, ◌==◌, refl, arith, List, some, false, if◌then◌else◌, inl, inr, Bool-cases, ==→eq,
}
use pifp_stellar.Base.Int.{ℤ, pos, neg_ℤ, ◌+ℤ◌, ◌≤ℤ◌, int_laws}
use pifp_stellar.Contract.Types.{Address, ProjectConfig, ProjectState, accepts}
use pifp_stellar.Contract.Env.{Env, Ctx, Host}
use pifp_stellar.Contract.Funding.Checks.{DepositChecked}
use pifp_stellar.Contract.Funding.Deposited.{Deposited, recorded, donated}
use pifp_stellar.Contract.Funding.Refunded.{Refunded}
use pifp_stellar.Contract.Release.Released.{pay_all, Payment, drained}
use pifp_stellar.Contract.Change.{Change}
use pifp_stellar.Contract.Change.Others.{concerns, Change-Unchanged}
use pifp_stellar.Contract.Change.Solvency.{IsSound}
use pifp_stellar.Contract.Custody.{TokenLaws, IsBacked, Covers-move}
use pifp_stellar.Contract.Custody.Plans.{cost, AllPositive, pay_all-cost}
use pifp_stellar.Contract.Custody.Drains.{InRange, drained-zero}

module _ {W : Type 0} (host : Host W) (laws : TokenLaws host) (ctx : Ctx) (env e : Env W) where
  abbrev pub self : Address
  self = ctx.current_contract_address

  -- What is held and what is recorded for project `id`, before and after.
  abbrev pub Flows : ℕ → Address → Type 0
  Flows id t =
      host.balance t self env.tokens +ℤ recorded e.store id t
      ≤ℤ host.balance t self e.tokens +ℤ recorded env.store id t

  pub still-Flows :
      (id : ℕ) (t : Address)
      → e.tokens ≡ env.tokens
      → recorded e.store id t ≡ recorded env.store id t
      → Flows id t
  still-Flows id t tk same' = rw (tk, same') (omega int_laws)

  pub Deposited-Flows :
      (id : ℕ) (donator token : Address) (x : ℤ) (config : ProjectConfig) (state : ProjectState)
      → ctx.authorized self ≡ false
      → DepositChecked ctx id donator token x env config state
      → Deposited host ctx id donator token x config state env e
      → (t : Address) → Flows id t
  Deposited-Flows id donator token x config state u c r t =
      let apart : donator ≢ self = λ (q : donator ≡ self). ground (arith, c.authorized) in
      let inward =
        laws.incoming token donator self x env.tokens e.tokens r.paid (omega (int_laws, c.positive))
          apart in
      let outward : host.balance t self env.tokens ≤ℤ host.balance t self e.tokens +ℤ pos 0 =
        ground (
          arith,
          laws.outgoing token donator self x env.tokens e.tokens r.paid
              (omega (int_laws, c.positive)) t self,
        ) in
      elim (Bool-cases (t == token)) [
        | inl q ↦
            let p : t ≡ token = ==→eq t token q in
            let now : recorded e.store id t ≡ recorded env.store id t +ℤ x =
              ground (arith, r.balances) in
            let held : host.balance t self env.tokens +ℤ x ≤ℤ host.balance t self e.tokens =
              rw p inward in
            rw now (omega (int_laws, held))
        | inr q ↦
            let now : recorded e.store id t ≡ recorded env.store id t =
              ground (arith, r.balances) in
            rw now (omega (int_laws, outward))
      ]

  pub Refunded-Flows :
      (id : ℕ) (donator token : Address) (config : ProjectConfig) (state : ProjectState)
      → Refunded host ctx donator id token config state env e
      → (t : Address) → Flows id t
  Refunded-Flows id donator token config state r t =
      let gift = donated env.store id token donator in
      let out : host.balance t self env.tokens
          ≤ℤ host.balance t self e.tokens +ℤ (if t == token then gift else pos 0) =
        ground (
          arith,
          laws.outgoing token self donator gift env.tokens e.tokens r.paid
              (omega (int_laws, r.owed)) t self,
        ) in
      elim (Bool-cases (t == token)) [
        | inl q ↦
            let now : recorded e.store id t ≡ recorded env.store id t +ℤ neg_ℤ gift =
              ground (arith, r.balances) in
            rw now (omega (int_laws, rw q at out))
        | inr q ↦
            let now : recorded e.store id t ≡ recorded env.store id t =
              ground (arith, r.balances) in
            rw now (omega (int_laws, rw q at out))
      ]

  pub planned-Flows :
      (id : ℕ) (tokens : List Address) (plan : List Payment) (t : Address)
      → InRange (recorded env.store id)
      → recorded e.store id t
        ≡ (if accepts tokens t then drained (recorded env.store id t) else recorded env.store id t)
      → (cost t plan ≡ (if accepts tokens t then recorded env.store id t else pos 0))
        × AllPositive plan
      → pay_all host ctx plan env.tokens ≡ some e.tokens
      → Flows id t
  planned-Flows id tokens plan t b now (costs, positive) paid =
      let out = pay_all-cost host laws ctx t plan env.tokens e.tokens positive paid in
      let zero' = drained-zero (recorded env.store id t) (b.low t) in
      elim (Bool-cases (accepts tokens t)) [
        | inl q ↦
            let now' : recorded e.store id t ≡ pos 0 = ground (arith, now, zero') in
            let costs' : cost t plan ≡ recorded env.store id t = ground (arith, costs) in
            rw now' (omega (int_laws, rw costs' at out))
        | inr q ↦
            let now' : recorded e.store id t ≡ recorded env.store id t = ground (arith, now) in
            let costs' : cost t plan ≡ pos 0 = ground (arith, costs) in
            rw now' (omega (int_laws, rw costs' at out))
      ]

  pub moved-IsBacked :
      (c : Change host ctx env e) (id : ℕ)
      → ((i : ℕ) → concerns host ctx c i ≡ (i == id))
      → IsSound ctx.timestamp e.store
      → IsBacked host self env
      → ((t : Address) → Flows id t)
      → IsBacked host self e
  moved-IsBacked c id about s b flows = λ t.
      Covers-move (λ i. recorded env.store i t) (λ i. recorded e.store i t) _ _
        (recorded e.store id t) id
        (λ i. elim (Bool-cases (i == id)) [
          | inl q ↦ let p : i ≡ id = ==→eq i id q in rw (q, p) refl
          | inr q ↦
              let o : concerns host ctx c i ≡ false = ground (arith, about i) in
              rw q ((Change-Unchanged host ctx c i o).balances t)
        ])
        ((s id).balance_nonneg t) (flows t) (b t)
