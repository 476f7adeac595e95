-- ===== src/Contract/Custody/Plans.antt =====
-- What the planned payments of a release or a reclaim cost the contract.
use pifp_stellar.Base.{
  ℕ, refl, ◌∙◌, ◌≡◌, ◌≤◌, ◌==◌, ◌++◌, arith, ap, List, [], ◌∷◌, Option, some, none, if◌then◌else◌,
  ltb, inl, inr, Bool-cases, Option-cases,
}
use pifp_stellar.Base.Int.{ℤ, pos, pos_part, neg_part, ◌+ℤ◌, ◌≤ℤ◌, ltb_ℤ, i128_max, int_laws}
use pifp_stellar.Contract.Types.{Address, ProtocolConfig}
use pifp_stellar.Contract.Env.{Ctx, Host}
use pifp_stellar.Contract.Release.{fee_amount, less_fee}
use pifp_stellar.Contract.Release.Released.{Payment, pay_all, paying, shares, fee_on, recipient}
use pifp_stellar.Contract.Release.Fee.{specified_fee, fee_split}
use pifp_stellar.Contract.Custody.{TokenLaws}

-- What a plan pays in token `t`.
unfoldable pub cost : Address → List Payment → ℤ
cost t [] = pos 0
cost t (p ∷ ps) = (if t == p.token then p.amount else pos 0) +ℤ cost t ps

unfoldable pub AllPositive : List Payment → Type 0
AllPositive [] = Unit {0}
AllPositive (p ∷ ps) = (pos 0 ≤ℤ p.amount) × AllPositive ps

pub cost-append : (t : Address) (ps qs : List Payment) → cost t (ps ++ qs) ≡ cost t ps +ℤ cost t qs
unfolding cost
cost-append t [] qs = omega int_laws
cost-append t (p ∷ ps) qs = rw (cost-append t ps qs) (omega int_laws)

pub append-AllPositive :
    (ps qs : List Payment) → AllPositive ps → AllPositive qs → AllPositive (ps ++ qs)
unfolding AllPositive
append-AllPositive [] qs a b = b
append-AllPositive (p ∷ ps) qs a b = (a.0, append-AllPositive ps qs a.1 b)

pub paying-cost :
    (t token to : Address) (x : ℤ)
    → pos 0 ≤ℤ x
    → cost t (paying token to x) ≡ (if t == token then x else pos 0)
unfolding cost ◌+ℤ◌
paying-cost t token to x h = ground arith

pub paying-AllPositive : (token to : Address) (x : ℤ) → AllPositive (paying token to x)
unfolding AllPositive
paying-AllPositive token to x = ground arith

-- A plan that goes through costs the payer no more than it says.
pub pay_all-cost :
    {W : Type 0} (host : Host W) (laws : TokenLaws host) (ctx : Ctx) (t : Address)
    (ps : List Payment) (w v : W)
    → AllPositive ps
    → pay_all host ctx ps w ≡ some v
    → host.balance t ctx.current_contract_address w
      ≤ℤ host.balance t ctx.current_contract_address v +ℤ cost t ps
unfolding pay_all cost AllPositive
pay_all-cost host laws ctx t [] w v a h = let e : w ≡ v = ground arith in rw e (omega int_laws)
pay_all-cost host laws ctx t (p ∷ ps) w v a h =
    elim (Option-cases (host.transfer p.token ctx.current_contract_address p.to p.amount w)) [
      | inl e ↦ absurd (ground arith)
      | inr (u, e) ↦
          let one : host.balance t ctx.current_contract_address w
              ≤ℤ host.balance t ctx.current_contract_address u
                +ℤ (if t == p.token then p.amount else pos 0) =
            ground (
              arith,
              laws.outgoing p.token ctx.current_contract_address p.to p.amount w u e a.0 t
                  ctx.current_contract_address,
            ) in
          let more = pay_all-cost host laws ctx t ps u v a.1 (ground arith) in
          omega (int_laws, one, more)
    ]

-- At most a tenth.
abbrev pub IsCapped : Option ProtocolConfig → Type 0
IsCapped none = Unit {0}
IsCapped (some c) = c.fee_bps ≤ 1000

fee_share :
    (n bps : ℕ)
    → pos n ≤ℤ i128_max
    → bps ≤ 1000
    → (f : ℕ) × (fee_amount (pos n) bps ≡ pos f)
      × (f ≤ n)
      × (less_fee (pos n) (pos f) +ℤ pos f ≡ pos n)
fee_share n bps h b =
    let (e, tenth, split) = fee_split n bps h b in
    (specified_fee n bps, e, omega (arith, tenth), rw e at split)

pub shares-AllPositive :
    (protocol : Option ProtocolConfig) (creator token : Address) (x : ℤ)
    → AllPositive (shares protocol creator token x)
unfolding AllPositive
shares-AllPositive protocol creator token x = elim (Bool-cases (ltb_ℤ (pos 0) x)) [
  | inr none' ↦ rw none' tt
  | inl some' ↦ rw some' (
      append-AllPositive (paying token (recipient protocol) (fee_on protocol x)) _
        (paying-AllPositive token (recipient protocol) (fee_on protocol x))
        (paying-AllPositive token creator _))
]

-- What the fee leaves for the creator.
abbrev rest_of : ℤ → ℤ → ℤ
rest_of x fee = if ltb_ℤ (pos 0) fee then less_fee x fee else x

less_fee-rest :
    (n f : ℕ)
    → f ≤ n
    → less_fee (pos n) (pos f) +ℤ pos f ≡ pos n
    → (pos 0 ≤ℤ rest_of (pos n) (pos f)) × (rest_of (pos n) (pos f) +ℤ pos f ≡ pos n)
less_fee-rest n f le split = elim (Bool-cases (ltb_ℤ (pos 0) (pos f))) [
  | inl some' ↦ rw some' (omega (int_laws, ap pos_part split, ap neg_part split), split)
  | inr none' ↦
      let z : f ≡ 0 = ground (arith, none') in rw none' (omega int_laws, rw z (omega int_laws))
]

fee_part :
    (protocol : Option ProtocolConfig) (n : ℕ)
    → IsCapped protocol
    → pos n ≤ℤ i128_max
    → (f : ℕ) × (fee_on protocol (pos n) ≡ pos f)
      × (pos 0 ≤ℤ rest_of (pos n) (pos f))
      × (rest_of (pos n) (pos f) +ℤ pos f ≡ pos n)
unfolding fee_on
fee_part none n c h = (0, refl, omega int_laws, omega int_laws)
fee_part (some p) n c h = elim (Bool-cases (ltb 0 p.fee_bps)) [
  | inl charged ↦
      let (f, e, le, split) = fee_share n p.fee_bps h c in
      let (low, sum) = less_fee-rest n f le split in (f, rw charged e, low, sum)
  | inr free ↦ (0, rw free refl, omega int_laws, omega int_laws)
]

parts :
    (t token : Address) (f : ℕ) (r x : ℤ)
    → r +ℤ pos f ≡ x
    → (if t == token then pos f else pos 0) +ℤ (if t == token then r else pos 0)
      ≡ (if t == token then x else pos 0)
parts t token f r x h = elim (Bool-cases (t == token)) [
  | inl e ↦ rw e (omega (int_laws, ap pos_part h, ap neg_part h))
  | inr e ↦ rw e (omega int_laws)
]

zero_cost : (t token : Address) → cost t [] ≡ (if t == token then pos 0 else pos 0)
unfolding cost
zero_cost t token = ground arith

two_payments-cost :
    (t token to creator : Address) (f : ℕ) (r x : ℤ)
    → pos 0 ≤ℤ r
    → r +ℤ pos f ≡ x
    → cost t (paying token to (pos f) ++ paying token creator r) ≡ (if t == token then x else pos 0)
two_payments-cost t token to creator f r x low h =
    cost-append t (paying token to (pos f)) (paying token creator r)
    ∙ ap (λ z. z +ℤ cost t (paying token creator r)) (paying-cost t token to (pos f) (omega arith))
    ∙ ap (λ z. (if t == token then pos f else pos 0) +ℤ z) (paying-cost t token creator r low)
    ∙ parts t token f r x h

-- The shares of a balance cost the balance.
pub shares-cost :
    (t : Address) (protocol : Option ProtocolConfig) (creator token : Address) (n : ℕ)
    → IsCapped protocol
    → pos n ≤ℤ i128_max
    → cost t (shares protocol creator token (pos n)) ≡ (if t == token then pos n else pos 0)
shares-cost t protocol creator token n c h = elim (Bool-cases (ltb_ℤ (pos 0) (pos n))) [
  | inl some' ↦
      let (f, e, low, sum) = fee_part protocol n c h in
      rw (some', e)
        (two_payments-cost t token (recipient protocol) creator f (rest_of (pos n) (pos f)) (pos n)
          low sum)
  | inr none' ↦ let z : n ≡ 0 = ground (arith, none') in rw (none', z) (zero_cost t token)
]
