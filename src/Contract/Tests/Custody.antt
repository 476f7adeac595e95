-- ===== src/Contract/Tests/Custody.antt =====
-- The example's token contracts under the token laws.
use pifp_stellar.Base.{◌≡◌, ◌≢◌, ◌==◌, ◌&&◌, refl, some, arith, if◌then◌else◌}
use pifp_stellar.Base.Int.{ℤ, pos, negsuc, ◌+ℤ◌, ◌≤ℤ◌}
use pifp_stellar.Contract.Types.{Address}
use pifp_stellar.Contract.History.{run, deployed}
use pifp_stellar.Contract.Custody.{TokenLaws, IsBacked}
use pifp_stellar.Contract.Custody.Held.{deployed-IsBacked}
use pifp_stellar.Contract.Tests.{Tokens, host, move_tokens, wallets, funding_calls}

moved_out :
    (token from to : Address) (x : ℤ) (w v : Tokens)
    → move_tokens token from to x w ≡ some v
    → pos 0 ≤ℤ x
    → (t h : Address) → pos (w t h) ≤ℤ pos (v t h) +ℤ (if t == token && h == from then x else pos 0)
unfolding ◌+ℤ◌
moved_out token from to (negsuc n) w v e p t h = absurd (ground arith)
moved_out token from to (pos n) w v e p t h = ground arith

moved_in :
    (token from to : Address) (x : ℤ) (w v : Tokens)
    → move_tokens token from to x w ≡ some v
    → pos 0 ≤ℤ x
    → from ≢ to
    → pos (w token to) +ℤ x ≤ℤ pos (v token to)
unfolding ◌+ℤ◌
moved_in token from to (negsuc n) w v e p d = absurd (ground arith)
moved_in token from to (pos n) w v e p d = ground arith

host_laws : TokenLaws host
host_laws = record {
  holds = λ t h w. omega arith;
  outgoing = λ token from to x w v e p t h. moved_out token from to x w v e p t h;
  incoming = λ token from to x w v e p d. moved_in token from to x w v e p d;
}

deployed-IsBacked_example : IsBacked host 9 (run host funding_calls (deployed wallets))
deployed-IsBacked_example =
    deployed-IsBacked host host_laws 9 0 funding_calls wallets
      (omega arith, (omega arith, (omega arith, (omega arith, (omega arith, tt)))))
      ((refl, refl), ((refl, refl), ((refl, refl), ((refl, refl), ((refl, refl), tt)))))
