-- ===== src/Contract/Release/Fee.antt =====
-- The platform's fee.
use pifp_stellar.Base.{
  ℕ, ◌*◌, ◌/◌, ◌≤◌, ◌≡◌, arith, if◌then◌else◌, inl, inr, Bool-cases, leb→le, leb→lt,
}
use pifp_stellar.Base.Int.{pos, ◌+ℤ◌, ◌-ℤ◌, ◌*ℤ◌, ◌≤ℤ◌, ◌<ℤ◌, leb_ℤ, i128_max}
use pifp_stellar.Contract.Release.{fee_amount, less_fee}

fee_amount_pos :
    (n bps : ℕ) → pos (n * bps) ≤ℤ i128_max → fee_amount (pos n) bps ≡ pos (n * bps / 10000)
unfolding fee_amount ◌*ℤ◌
fee_amount_pos n bps h = ground arith

fee_amount_over : (n bps : ℕ) → i128_max <ℤ pos (n * bps) → fee_amount (pos n) bps ≡ pos 0
unfolding fee_amount ◌*ℤ◌
fee_amount_over n bps h = ground arith

mul_le : (n bps : ℕ) → bps ≤ 1000 → n * bps ≤ n * 1000
mul_le n bps h = grind arith

tenth : (n bps : ℕ) → bps ≤ 1000 → 10 * (n * bps / 10000) ≤ n
tenth n bps h = omega (arith, mul_le n bps h)

less_fee_pos : (n q : ℕ) → q ≤ n → pos n ≤ℤ i128_max → less_fee (pos n) (pos q) +ℤ pos q ≡ pos n
unfolding less_fee ◌-ℤ◌ ◌+ℤ◌
less_fee_pos n q h k = ground arith

-- What the fee on a positive balance is to be.
abbrev pub specified_fee : ℕ → ℕ → ℕ
specified_fee n bps = if leb_ℤ (pos (n * bps)) i128_max then n * bps / 10000 else 0

-- With at most 1000 basis points, the fee on a positive balance is the balance times the points
-- over 10000, rounded down, or 0 where that product is no i128; it is at most a tenth of the
-- balance, and together with what is left for the creator it is the whole balance.
pub fee_split :
    (n bps : ℕ)
    → pos n ≤ℤ i128_max
    → bps ≤ 1000
    → (fee_amount (pos n) bps ≡ pos (specified_fee n bps))
      × (10 * specified_fee n bps ≤ n)
      × (less_fee (pos n) (fee_amount (pos n) bps) +ℤ fee_amount (pos n) bps ≡ pos n)
fee_split n bps h b = elim (Bool-cases (leb_ℤ (pos (n * bps)) i128_max)) [
  | inl fits ↦
      let e = fee_amount_pos n bps (leb→le _ _ fits) in
      let t = tenth n bps b in
      (rw (e, fits), rw fits t, rw e (less_fee_pos n (n * bps / 10000) (omega (arith, t)) h))
  | inr over ↦
      let e = fee_amount_over n bps (leb→lt _ _ over) in
      (rw (e, over), rw over (omega arith), rw e (less_fee_pos n 0 (omega arith) h))
]
