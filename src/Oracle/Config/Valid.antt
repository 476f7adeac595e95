-- ===== src/Oracle/Config/Valid.antt =====
-- What `validate` of backend/oracle/src/config.rs accepts.
use Prim.Native.String.{String}
use pifp_stellar.Base.{⊤, ◌≡◌, ◌↔◌, refl, arith, inl, inr, true, Bool-cases}
use pifp_stellar.Base.Result.{ok, next-ok}
use pifp_stellar.Base.Text.{starts_with}
use pifp_stellar.Oracle.Config.{Config, check_start, validate}

-- The starts of the contract's id, of the secret key and of the URLs.
pub record IsValid (c : Config) : Type 0 where
  pub contract_id : starts_with c.contract_id "C" ≡ true
  pub oracle_secret_key : starts_with c.oracle_secret_key "S" ≡ true
  pub rpc_url : starts_with c.rpc_url "http" ≡ true
  pub horizon_url : starts_with c.horizon_url "http" ≡ true
  pub ipfs_gateway : starts_with c.ipfs_gateway "http" ≡ true

check_start-ok :
    (text start message : String) (u : ⊤)
    → check_start text start message ≡ ok u
    → starts_with text start ≡ true
check_start-ok text start message u h = elim (Bool-cases (starts_with text start)) [
  | inl e ↦ e
  | inr e ↦ absurd (ground (arith, e, h))
]

-- `validate` accepts exactly the configurations whose ids, key and URLs start as they should.
pub validate-IsValid : (c : Config) → (validate c ≡ ok tt) ↔ IsValid c
unfolding validate
validate-IsValid c = (
  (λ h.
      let ((u, id), h₁) = next-ok _ _ tt h in
      let ((u₂, key), h₂) = next-ok _ _ tt h₁ in
      let ((u₃, rpc), h₃) = next-ok _ _ tt h₂ in
      let ((u₄, horizon), gateway) = next-ok _ _ tt h₃ in
      record {
        contract_id = check_start-ok _ _ _ u id;
        oracle_secret_key = check_start-ok _ _ _ u₂ key;
        rpc_url = check_start-ok _ _ _ u₃ rpc;
        horizon_url = check_start-ok _ _ _ u₄ horizon;
        ipfs_gateway = check_start-ok _ _ _ tt gateway;
      }),
  (λ v.
      rw (validate, v.contract_id, v.oracle_secret_key, v.rpc_url, v.horizon_url, v.ipfs_gateway)
        refl),
)
