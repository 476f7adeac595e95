-- ===== src/Contract/Change/Solvency/Moves.antt =====
-- How a project's amounts move, and that each move keeps them sound.
use pifp_stellar.Base.{
  ℕ, ◌<◌, ◌≡◌, arith, ap, refl, List, [], ◌∷◌, Option, some, true, false, if◌then◌else◌, elem, inl,
  inr, Bool-cases, ◌==◌, ==→eq, ◌⊎◌,
}
use pifp_stellar.Base.Int.{ℤ, pos, pos_part, neg_part, ◌+ℤ◌, neg_ℤ, ◌≤ℤ◌, ◌<ℤ◌, i128_max, int_laws}
use pifp_stellar.Base.Totals.{Distinct, total, total-same, total-out, total-in}
use pifp_stellar.Contract.Types.{Address, ProjectState, is_open, is_refundable}
use pifp_stellar.Contract.Change.Solvency.{Sound, owes}

module _ (now : ℕ) (state : Option ProjectState) (b : Address → ℤ) (g : Address → Address → ℤ)
    (s : Sound now state b g) where
  -- The state changes and the amounts stay: the donors are owed now only if they were before.
  pub restate-Sound :
      (q : ProjectState)
      → (is_refundable q.status ≡ true → 0 < q.refund_expiry)
      → (p : ProjectState) → state ≡ some p
      → (owes now q ≡ true → owes now p ≡ true)
      → Sound now (some q) b g
  restate-Sound q w p e o = record {
    balance_nonneg = s.balance_nonneg;
    balance_bounded = s.balance_bounded;
    gift_nonneg = s.gift_nonneg;
    window = λ r h k. ground (arith, w);
    solvent = λ r h k t ds d. s.solvent p e (ground arith) t ds d;
  }

  -- The state moves to one in which nothing is owed, and some balances are drained.
  pub close-Sound :
      (after : Option ProjectState) (b' : Address → ℤ)
      → ((t : Address) → pos 0 ≤ℤ b' t)
      → ((t : Address) → b' t ≤ℤ b t)
      → ((p : ProjectState) → after ≡ some p → is_refundable p.status ≡ true → 0 < p.refund_expiry)
      → ((p : ProjectState) → after ≡ some p → owes now p ≡ false)
      → Sound now after b' g
  close-Sound after b' low high w o = record {
    balance_nonneg = low;
    balance_bounded = λ t. omega (arith, high t, s.balance_bounded t);
    gift_nonneg = s.gift_nonneg;
    window = w;
    solvent = λ p e k t ds d. absurd (ground (arith, o p e));
  }

  module _ (token donor : Address) where
    -- A gift of `x`.
    module _ (x : ℤ) (positive : pos 0 <ℤ x) (fits : b token +ℤ x ≤ℤ i128_max) (b' : Address → ℤ)
        (g' : Address → Address → ℤ)
        (bs : (t : Address) → b' t ≡ (if t == token then b token +ℤ x else b t))
        (gs : (t d : Address)
          → g' t d ≡ (
              if t == token
              then (if d == donor then g token donor +ℤ x else g t d)
              else g t d)) where
      covers :
          (t : Address) (ds : List Address)
          → Distinct ds
          → total (g t) ds ≤ℤ b t
          → total (g' t) ds ≤ℤ b' t
      covers t ds d h = elim (Bool-cases (t == token)) [
        | inl e ↦
            let same : t ≡ token = ==→eq t token e in
            let set : (j : ℕ) → g' t j ≡ (if j == donor then g t donor +ℤ x else g t j) =
              λ j. ground (arith, gs t j, same) in
            let now_b : b' t ≡ b t +ℤ x = ground (arith, bs t, same) in
            elim (Bool-cases (elem donor ds)) [
              | inl at ↦
                  let sum = total-in (g t) (g' t) donor (g t donor +ℤ x) set ds d at in
                  rw now_b (omega (int_laws, ap pos_part sum, ap neg_part sum))
              | inr out ↦
                  rw (now_b, total-out (g t) (g' t) donor (g t donor +ℤ x) set ds out)
                    (omega int_laws)
            ]
        | inr e ↦
            let now_b : b' t ≡ b t = ground (arith, bs t) in
            rw (now_b, total-same (g t) (g' t) ds (λ j. ground (arith, gs t j))) h
      ]

      pub give-Sound :
          (p : ProjectState)
          → state ≡ some p
          → is_open p.status ≡ true
          → (q : ProjectState) → is_open q.status ≡ true
          → Sound now (some q) b' g'
      give-Sound p e o q o' = record {
        balance_nonneg = λ t. low t (Bool-cases (t == token));
        balance_bounded = λ t. high t (Bool-cases (t == token));
        gift_nonneg = λ t d. gift t d (Bool-cases (t == token)) (Bool-cases (d == donor));
        window = λ r h k. ground arith;
        solvent = λ r h k t ds d. covers t ds d (s.solvent p e (ground arith) t ds d);
      }
        where
          low : (t : Address) → ((t == token) ≡ true) ⊎ ((t == token) ≡ false) → pos 0 ≤ℤ b' t
          low t (inl h) = rw (bs t, h) (omega (int_laws, s.balance_nonneg token))
          low t (inr h) = rw (bs t, h) (s.balance_nonneg t)

          high : (t : Address) → ((t == token) ≡ true) ⊎ ((t == token) ≡ false) → b' t ≤ℤ i128_max
          high t (inl h) = rw (bs t, h) fits
          high t (inr h) = rw (bs t, h) (s.balance_bounded t)

          gift :
              (t d : Address)
              → ((t == token) ≡ true) ⊎ ((t == token) ≡ false)
              → ((d == donor) ≡ true) ⊎ ((d == donor) ≡ false)
              → pos 0 ≤ℤ g' t d
          gift t d (inl h) (inl k) = rw (gs t d, h, k) (omega (int_laws, s.gift_nonneg token donor))
          gift t d (inl h) (inr k) = rw (gs t d, h, k) (s.gift_nonneg t d)
          gift t d (inr h) k = rw (gs t d, h) (s.gift_nonneg t d)

    -- The whole gift goes back.
    module _ (b' : Address → ℤ) (g' : Address → Address → ℤ)
        (bs : (t : Address) → b' t ≡ (if t == token then b token +ℤ neg_ℤ (g token donor) else b t))
        (gs : (t d : Address)
          → g' t d ≡ (if t == token then (if d == donor then pos 0 else g t d) else g t d)) where
      still_covers :
          (t : Address) (ds : List Address)
          → ((cs : List Address) → Distinct cs → total (g t) cs ≤ℤ b t)
          → Distinct ds
          → total (g' t) ds ≤ℤ b' t
      still_covers t ds h d = elim (Bool-cases (t == token)) [
        | inl e ↦
            let same : t ≡ token = ==→eq t token e in
            let set : (j : ℕ) → g' t j ≡ (if j == donor then pos 0 else g t j) =
              λ j. ground (arith, gs t j, same) in
            let now_b : b' t ≡ b t +ℤ neg_ℤ (g t donor) = ground (arith, bs t, same) in
            elim (Bool-cases (elem donor ds)) [
              | inl at ↦
                  let sum = total-in (g t) (g' t) donor (pos 0) set ds d at in
                  rw now_b (omega (int_laws, ap pos_part sum, ap neg_part sum, h ds d))
              | inr out ↦
                  rw (now_b, total-out (g t) (g' t) donor (pos 0) set ds out)
                    (omega (int_laws, h (donor ∷ ds) (out, d)))
            ]
        | inr e ↦
            let now_b : b' t ≡ b t = ground (arith, bs t) in
            rw (now_b, total-same (g t) (g' t) ds (λ j. ground (arith, gs t j))) (h ds d)
      ]

      pub take-Sound :
          (p : ProjectState)
          → state ≡ some p
          → owes now p ≡ true
          → (q : ProjectState) → (is_refundable q.status ≡ true → 0 < q.refund_expiry)
          → Sound now (some q) b' g'
      take-Sound p e o q w = record {
        balance_nonneg = λ t. low t (Bool-cases (t == token));
        balance_bounded = λ t. high t (Bool-cases (t == token));
        gift_nonneg = λ t d. gift t d (Bool-cases (t == token)) (Bool-cases (d == donor));
        window = λ r h k. ground (arith, w);
        solvent = λ r h k t ds d. still_covers t ds (λ cs c. s.solvent p e o t cs c) d;
      }
        where
          low : (t : Address) → ((t == token) ≡ true) ⊎ ((t == token) ≡ false) → pos 0 ≤ℤ b' t
          low t (inl h) =
              rw (bs t, h) (omega (int_laws, s.solvent p e o token (donor ∷ []) (refl, tt)))
          low t (inr h) = rw (bs t, h) (s.balance_nonneg t)

          high : (t : Address) → ((t == token) ≡ true) ⊎ ((t == token) ≡ false) → b' t ≤ℤ i128_max
          high t (inl h) =
              rw (bs t, h) (omega (int_laws, s.balance_bounded token, s.gift_nonneg token donor))
          high t (inr h) = rw (bs t, h) (s.balance_bounded t)

          gift :
              (t d : Address)
              → ((t == token) ≡ true) ⊎ ((t == token) ≡ false)
              → ((d == donor) ≡ true) ⊎ ((d == donor) ≡ false)
              → pos 0 ≤ℤ g' t d
          gift t d (inl h) (inl k) = rw (gs t d, h, k) (omega arith)
          gift t d (inl h) (inr k) = rw (gs t d, h, k) (s.gift_nonneg t d)
          gift t d (inr h) k = rw (gs t d, h) (s.gift_nonneg t d)
