-- ===== src/Oracle/Tests.antt =====
-- A small world for the examples: the node runs the contract of Contract/Tests, the artifact's only byte
-- is its hash, and a hash is written as "42" or "00".
mod Examples
use Prim.Native.String
use Prim.Native.String.{String}
use text.Mathlib.Text.{◌==◌}
use pifp_stellar.Base.{
  ⊤, ℕ, ◌≡◌, refl, subst, sym, arith, inl, inr, Bool, true, false, Option, none, some, List, [],
  ◌∷◌, if◌then◌else◌, Bool-cases, get_or, eqb_ℕ,
}
use pifp_stellar.Indexer.Json
use pifp_stellar.Indexer.Json.{
  Value, null, string, object, end, Items, nil, cons, array, get, as_str, as_u64, first_item,
  second_item, and_then,
}
use pifp_stellar.Contract.Types.{Address, Hash}
use pifp_stellar.Contract.Env.{Env, Outcome, ok, panic}
use pifp_stellar.Contract.Release.{verify_and_release}
use pifp_stellar.Contract.Tests.{host, at, Tokens, active_env}
use pifp_stellar.Oracle.Batch.{ProofTask}
use pifp_stellar.Oracle.Proof.{Http, failed, got, Response, Gateway}
use pifp_stellar.Oracle.Config.{Config}
use pifp_stellar.Oracle.Chain.{Rpc, build_transaction_params}
use pifp_stellar.Oracle.Chain.Accepted.{IsClean}
use pifp_stellar.Oracle.Process.Verified.{SimulatesContract}

abbrev pub hash_of : List ℕ → Hash
hash_of [] = 0
hash_of (b ∷ bs) = if eqb_ℕ b 42 then 42 else 0

abbrev write_hash : Hash → String
write_hash h = if eqb_ℕ h 42 then "42" else "00"

abbrev read_hash : String → Hash
read_hash s = if s == "42" then 42 else 0

abbrev pub address_of : String → Address
address_of s = if s == "GKEY" then 3 else 0

abbrev third_item : Value → Option Value
third_item (array (cons a (cons b (cons c rest)))) = some c
third_item _ = none

-- The request's arguments.
unfoldable pub arg : (Value → Option Value) → String → Value → Option Value
unfolding get
arg item key body =
    and_then (and_then (and_then (get body "params") λ p. get p "args") item) λ v. get v key

abbrev reply : Outcome Tokens ⊤ → Value
reply (ok a e) = object end
reply (panic f e) = object (Json.member "error" null end)

abbrev simulate : Value → Value
simulate body = reply (
    verify_and_release host (at 1500)
      (address_of (get_or "" (and_then (arg first_item "address" body) as_str)))
      (get_or 0 (and_then (arg second_item "u64" body) as_u64))
      (read_hash (get_or "" (and_then (arg third_item "bytes" body) as_str))) active_env)

abbrev sent_hash : Value
sent_hash = object (Json.member "result" (object (Json.member "hash" (string "t1") end)) end)

abbrev answered : Value → Value
answered body =
    if get_or "" (and_then (get body "method") as_str) == "simulateTransaction"
    then simulate body
    else sent_hash

abbrev pub node : Rpc ⊤
node = record {
  build_client = got tt;
  post = λ s url body. (tt, got (got (answered body)));
  encode_hex = λ bytes. write_hash (hash_of bytes);
  value_text = λ v. "";
}

abbrev pub gateway : Gateway
gateway = record {
  build_client = got tt;
  get = λ url.
      if url == "https://ipfs.io/ipfs/Qm1"
      then got (record { status = 200; content_length = some 1; bytes = got (42 ∷ []) })
      else failed "no route";
  sha256 = λ bytes. bytes;
  status_text = λ status. "";
}

abbrev pub settings : Config
settings = record {
  rpc_url = "http://localhost";
  horizon_url = "https://horizon-testnet.stellar.org";
  contract_id = "C1";
  oracle_secret_key = "SKEY";
  ipfs_gateway = "https://ipfs.io";
  network_passphrase = "Test SDF Network ; September 2015";
  timeout_secs = 30;
  sentry_dsn = none;
  metrics_port = 9090;
}

abbrev pub task_0 : ProofTask
task_0 = record { project_id = 0; proof_cid = "Qm1" }

reply-clean : (o : Outcome Tokens ⊤) → IsClean (reply o) → (e : Env Tokens) × (o ≡ ok tt e)
unfolding get
reply-clean (ok a e) clean = (e, refl)
reply-clean (panic f e) clean = absurd (ground (arith, clean.no_error))

body_of-got : (v w : Value) → (got (got v) ≡ got (got w)) → v ≡ w
body_of-got v w h = ground (arith, h)

from_reply :
    (o : Outcome Tokens ⊤) (simulation : Value)
    → got (got (reply o)) ≡ got (got simulation)
    → IsClean simulation
    → (e : Env Tokens) × (o ≡ ok tt e)
from_reply o simulation h clean =
    reply-clean o (subst IsClean (sym (body_of-got (reply o) simulation h)) clean)

read-write : (bytes : List ℕ) → read_hash (write_hash (hash_of bytes)) ≡ hash_of bytes
read-write [] = refl
read-write (b ∷ bs) = elim (Bool-cases (eqb_ℕ b 42)) [ inl e ↦ rw e refl | inr e ↦ rw e refl ]

pub node-SimulatesContract :
    SimulatesContract gateway node settings host (λ s. at 1500) (λ s. active_env) address_of hash_of
unfolding arg get as_str as_u64 first_item second_item build_transaction_params
node-SimulatesContract s id proof_hash simulation h clean = rw (read-write proof_hash) at (
    from_reply
      (verify_and_release host (at 1500) 3 id (read_hash (write_hash (hash_of proof_hash)))
        active_env)
      simulation h clean)
