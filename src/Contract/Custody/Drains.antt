-- ===== src/Contract/Custody/Drains.antt =====
-- What the whole plan of a release or a reclaim costs.
use pifp_stellar.Base.{◌≡◌, ◌∙◌, ap, refl, arith, ◌==◌, List, [], ◌∷◌, Option, if◌then◌else◌}
use pifp_stellar.Base.Int.{ℤ, pos, negsuc, ◌+ℤ◌, ◌≤ℤ◌, i128_max}
use pifp_stellar.Contract.Types.{Address, ProtocolConfig, accepts}
use pifp_stellar.Contract.Release.Released.{shares, paying, drained}
use pifp_stellar.Contract.Release.Loop.{release_plan, drain_at}
use pifp_stellar.Contract.Release.Reclaimed.{reclaim_plan}
use pifp_stellar.Contract.Custody.Plans.{
  cost, cost-append, AllPositive, append-AllPositive, shares-AllPositive, shares-cost, paying-cost,
  paying-AllPositive, IsCapped,
}

-- Amounts in range.
pub record InRange (b : Address → ℤ) : Type 0 where
  pub low : (t : Address) → pos 0 ≤ℤ b t
  pub high : (t : Address) → b t ≤ℤ i128_max

pub drained-zero : (x : ℤ) → pos 0 ≤ℤ x → drained x ≡ pos 0
drained-zero x h = ground arith

drain_at-InRange : (b : Address → ℤ) (token : Address) → InRange b → InRange (drain_at b token)
drain_at-InRange b token r = record {
  low = λ t. ground (arith, r.low t, drained-zero (b t) (r.low t));
  high = λ t. ground (arith, r.high t, drained-zero (b t) (r.low t));
}

balance_shares-cost :
    (t : Address) (protocol : Option ProtocolConfig) (creator token : Address) (x : ℤ)
    → IsCapped protocol
    → pos 0 ≤ℤ x
    → x ≤ℤ i128_max
    → cost t (shares protocol creator token x) ≡ (if t == token then x else pos 0)
balance_shares-cost t protocol creator token (pos n) c l h =
    shares-cost t protocol creator token n c h
balance_shares-cost t protocol creator token (negsuc n) c l h = absurd (omega (arith, l))

one_more :
    (t token : Address) (rest : List Address) (b : Address → ℤ)
    → InRange b
    → (if t == token then b token else pos 0)
        +ℤ (if accepts rest t then drain_at b token t else pos 0)
      ≡ (if accepts (token ∷ rest) t then b t else pos 0)
unfolding accepts ◌+ℤ◌
one_more t token rest b r = ground (arith, drained-zero (b t) (r.low t), r.low t)

pub release_plan-cost :
    (t : Address) (protocol : Option ProtocolConfig) (creator : Address) (tokens : List Address)
    (b : Address → ℤ)
    → IsCapped protocol
    → InRange b
    → (cost t (release_plan protocol creator b tokens) ≡ (if accepts tokens t then b t else pos 0))
      × AllPositive (release_plan protocol creator b tokens)
unfolding release_plan accepts cost AllPositive
release_plan-cost t protocol creator [] b c r = (refl, tt)
release_plan-cost t protocol creator (token ∷ rest) b c r =
    let (e, a) =
      release_plan-cost t protocol creator rest (drain_at b token) c (drain_at-InRange b token r) in
    (
      cost-append t (shares protocol creator token (b token)) _
          ∙ ap (λ z. z +ℤ cost t (release_plan protocol creator (drain_at b token) rest))
              (balance_shares-cost t protocol creator token (b token) c (r.low token)
                (r.high token))
          ∙ ap (λ z. (if t == token then b token else pos 0) +ℤ z) e
          ∙ one_more t token rest b r,
      append-AllPositive (shares protocol creator token (b token)) _
          (shares-AllPositive protocol creator token (b token)) a,
    )

pub reclaim_plan-cost :
    (t creator : Address) (tokens : List Address) (b : Address → ℤ)
    → InRange b
    → (cost t (reclaim_plan creator b tokens) ≡ (if accepts tokens t then b t else pos 0))
      × AllPositive (reclaim_plan creator b tokens)
unfolding reclaim_plan accepts cost AllPositive
reclaim_plan-cost t creator [] b r = (refl, tt)
reclaim_plan-cost t creator (token ∷ rest) b r =
    let (e, a) = reclaim_plan-cost t creator rest (drain_at b token) (drain_at-InRange b token r) in
    (
      cost-append t (paying token creator (b token)) _
          ∙ ap (λ z. z +ℤ cost t (reclaim_plan creator (drain_at b token) rest))
              (paying-cost t token creator (b token) (r.low token))
          ∙ ap (λ z. (if t == token then b token else pos 0) +ℤ z) e
          ∙ one_more t token rest b r,
      append-AllPositive (paying token creator (b token)) _
          (paying-AllPositive token creator (b token)) a,
    )
