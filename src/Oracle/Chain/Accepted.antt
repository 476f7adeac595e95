-- ===== src/Oracle/Chain/Accepted.antt =====
-- When `submit_verification` of backend/oracle/src/chain.rs has a transaction's hash.
use Prim.Native.String.{String}
use pifp_stellar.Base.{
  ⊤, ℕ, ◌≡◌, refl, arith, inl, inr, true, Option, none, some, List, [], ◌∷◌, ◌++◌, Option-cases,
  Bool-cases,
}
use pifp_stellar.Base.Text.{starts_with}
use pifp_stellar.Indexer.Json.{Value, get, as_str, and_then}
use pifp_stellar.Base.Result.{ok, ◌>>=◌, Fallible-cases}
use pifp_stellar.Oracle.Config.{Config}
use pifp_stellar.Oracle.Errors.{Result}
use pifp_stellar.Oracle.Proof.{Http, failed, got}
use pifp_stellar.Oracle.Proof.Fetched.{Http-cases}
use pifp_stellar.Oracle.Chain.{
  Rpc, json_of, Sent, followed, post_with, envelope, check_result, check_simulation,
  simulate_transaction, hash_of, check_submission, submit_transaction, params_for,
  submit_verification,
}

-- A reply to a simulation without an error of its own or of its result.
abbrev pub ResultClean : Option Value → Type 0
ResultClean none = Unit
ResultClean (some result) = get result "error" ≡ none

pub record IsClean (simulation : Value) : Type 0 where
  pub no_error : get simulation "error" ≡ none
  pub result_clean : ResultClean (get simulation "result")

hash_of-ok : (o : Option String) (hash : String) → hash_of o ≡ ok hash → o ≡ some hash
hash_of-ok none hash h = absurd (ground (arith, h))
hash_of-ok (some x) hash h = ground (arith, h)

json_of-ok :
    {A : Type 0} (a b : String) (check : Value → Result A) (reply : Http (Http Value)) (x : A)
    → (json_of a b reply >>= check) ≡ ok x
    → (json : Value) × (reply ≡ got (got json)) × (check json ≡ ok x)
json_of-ok a b check (failed e) x h = absurd (ground (arith, h))
json_of-ok a b check (got (failed e)) x h = absurd (ground (arith, h))
json_of-ok a b check (got (got json)) x h = (json, refl, h)

module _ {S : Type 0} (rpc : Rpc S) where
  -- The reply to one POST.
  pub record Replied {A : Type 0} (check : Value → Result A) (url : String) (s : S) (body : Value)
      (after : Sent rpc A) (x : A) : Type 0 where
    pub json : Value
    pub reply : (rpc.post s url body).1 ≡ got (got json)
    pub checked : check json ≡ ok x
    pub sent : after.sent ≡ body ∷ []
    pub state : after.state ≡ (rpc.post s url body).0

  post_with-ok :
      {A : Type 0} (a b : String) (check : Value → Result A) (url : String) (s : S) (body : Value)
      (x : A)
      → (post_with rpc a b check url s body).result ≡ ok x
      → Replied check url s body (post_with rpc a b check url s body) x
  post_with-ok a b check url s body x h = elim (Http-cases rpc.build_client) [
    | inl (e, made) ↦ absurd (ground (arith, h, made))
    | inr (u, made) ↦
        let (json, reply, checked) =
          json_of-ok a b check ((rpc.post s url body).1) x (ground (arith, h, made)) in
        record {
          json = json;
          reply = reply;
          checked = checked;
          sent = rw made refl;
          state = rw made refl;
        }
  ]

  result-clean : (r : Option Value) (u : ⊤) → check_result rpc r ≡ ok u → ResultClean r
  result-clean none u h = tt
  result-clean (some result) u h = elim (Option-cases (get result "error")) [
    | inl e ↦ e
    | inr (error, e) ↦ absurd (ground (arith, h, e))
  ]

  simulation-IsClean : (json : Value) (u : ⊤) → check_simulation rpc json ≡ ok u → IsClean json
  simulation-IsClean json u h = elim (Option-cases (get json "error")) [
    | inl e ↦ record {
      no_error = e;
      result_clean = result-clean (get json "result") u (ground (arith, h, e));
    }
    | inr (error, e) ↦ absurd (ground (arith, h, e))
  ]

  submission-ok :
      (json : Value) (hash : String)
      → check_submission rpc json ≡ ok hash
      → (get json "error" ≡ none)
        × (and_then (and_then (get json "result") λ r. get r "hash") as_str ≡ some hash)
  submission-ok json hash h = elim (Option-cases (get json "error")) [
    | inl e ↦ (e, hash_of-ok _ hash (ground (arith, h, e)))
    | inr (error, e) ↦ absurd (ground (arith, h, e))
  ]

  followed-ok :
      {A B : Type 0} (first : Sent rpc A) (next : S → A → Sent rpc B) (y : B)
      → (followed rpc first next).result ≡ ok y
      → (x : A) × (first.result ≡ ok x)
        × ((next first.state x).result ≡ ok y)
        × ((followed rpc first next).sent ≡ first.sent ++ (next first.state x).sent)
        × ((followed rpc first next).state ≡ (next first.state x).state)
  followed-ok first next y h = elim (Fallible-cases first.result) [
    | inl (e, is) ↦ absurd (ground (arith, h, is))
    | inr (x, is) ↦ (x, is, ground (arith, h, is), rw is refl, rw is refl)
  ]

  abbrev pub call_params : Config → ℕ → List ℕ → Value
  call_params settings id proof_hash =
      params_for rpc settings settings.oracle_secret_key id proof_hash

  -- The node's state after the simulation.
  abbrev pub state_after : Config → S → ℕ → List ℕ → S
  state_after settings s id proof_hash =
      (rpc.post s settings.rpc_url
        (envelope "simulateTransaction" (call_params settings id proof_hash))).0

  abbrev both : Config → S → ℕ → List ℕ → Sent rpc String
  both settings s id proof_hash =
      let params = call_params settings id proof_hash in
      followed rpc (simulate_transaction rpc settings s params)
        λ s' _. submit_transaction rpc settings s' params

  -- The secret key starts with `S`, and the project's call was simulated, with no error in the reply,
  -- and then sent, with the hash in the reply's result.
  pub record Accepted (settings : Config) (s : S) (id : ℕ) (proof_hash : List ℕ)
      (requests : List Value) (hash : String) : Type 0 where
    pub simulation : Value
    pub submission : Value
    pub key : starts_with settings.oracle_secret_key "S" ≡ true
    pub simulated :
        (rpc.post s settings.rpc_url
          (envelope "simulateTransaction" (call_params settings id proof_hash))).1
        ≡ got (got simulation)
    pub clean : IsClean simulation
    pub submitted :
        (rpc.post
          (state_after settings s id proof_hash)
          settings.rpc_url
          (envelope "sendTransaction" (call_params settings id proof_hash))).1
        ≡ got (got submission)
    pub no_error : get submission "error" ≡ none
    pub hash_in : and_then (and_then (get submission "result") λ r. get r "hash") as_str ≡ some hash
    pub sent :
        requests
        ≡ envelope "simulateTransaction" (call_params settings id proof_hash)
          ∷ envelope "sendTransaction" (call_params settings id proof_hash)
          ∷ []

  both-Accepted :
      (settings : Config) (s : S) (id : ℕ) (proof_hash : List ℕ) (hash : String)
      → starts_with settings.oracle_secret_key "S" ≡ true
      → (both settings s id proof_hash).result ≡ ok hash
      → Accepted settings s id proof_hash ((both settings s id proof_hash).sent) hash
  unfolding simulate_transaction submit_transaction
  both-Accepted settings s id proof_hash hash key h =
      let params = call_params settings id proof_hash in
      let (u, first_ok, second_ok, sent, _) =
        followed-ok (simulate_transaction rpc settings s params)
          (λ s' _. submit_transaction rpc settings s' params) hash h in
      let one =
        post_with-ok _ _ (check_simulation rpc) settings.rpc_url s
          (envelope "simulateTransaction" params) u first_ok in
      let two =
        post_with-ok _ _ (check_submission rpc) settings.rpc_url _
          (envelope "sendTransaction" params) hash second_ok in
      let (none_there, hash_there) = submission-ok two.json hash two.checked in
      record {
        simulation = one.json;
        submission = two.json;
        key = key;
        simulated = one.reply;
        clean = simulation-IsClean one.json u one.checked;
        submitted = cc (one.state, two.reply);
        no_error = none_there;
        hash_in = hash_there;
        sent = rw (sent, one.sent, two.sent) refl;
      }

  pub submit_verification-Accepted :
      (settings : Config) (s : S) (id : ℕ) (proof_hash : List ℕ) (hash : String)
      → (submit_verification rpc settings s id proof_hash).result ≡ ok hash
      → Accepted settings s id proof_hash
          ((submit_verification rpc settings s id proof_hash).sent)
          hash
  unfolding submit_verification
  submit_verification-Accepted settings s id proof_hash hash h =
      elim (Bool-cases (starts_with settings.oracle_secret_key "S")) [
        | inl e ↦
            rw (submit_verification, e)
              (both-Accepted settings s id proof_hash hash e (ground (arith, e, h)))
        | inr e ↦ absurd (ground (arith, e, h))
      ]
