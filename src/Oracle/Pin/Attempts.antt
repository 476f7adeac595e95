-- ===== src/Oracle/Pin/Attempts.antt =====
-- One attempt of `pin_via_pinata` or `pin_via_web3_storage` in backend/oracle/src/ipfs.rs.
use Prim.Native.String.{String}
use pifp_stellar.Base.{
  length, ap, ◌++◌, ⊤, ℕ, ◌≡◌, ◌≤◌, zero, suc, refl, arith, inl, inr, true, Option, some, List, [],
  ◌∷◌, Bool-cases,
}
use pifp_stellar.Base.Result.{ok, err, bind-ok}
use pifp_stellar.Oracle.Errors.{OracleError, Result}
use pifp_stellar.Oracle.Proof.{Http, failed, got, is_success}
use pifp_stellar.Oracle.Proof.Fetched.{network_error-ok}
use pifp_stellar.Oracle.Pin.{
  IpfsConfig, Upload, pinata, web3_storage, Pinned, Services, Pinning, quiet, read_status,
  read_answer, upload, send_part, with_credentials, with_token, pin_via_pinata,
  pin_via_web3_storage,
}

abbrev pub copies : {A : Type 0} → ℕ → A → List A
copies zero a = []
copies (suc n) a = a ∷ copies n a

module _ {S : Type 0} (services : Services S) where
  -- The last of the answers is a success with this CID.
  pub record Source (answers : List (Http Pinned)) (cid : String) : Type 0 where
    pub earlier : List (Http Pinned)
    pub last : Pinned
    pub answered : answers ≡ earlier ++ (got last ∷ [])
    pub success : is_success last.status ≡ true
    pub cid_in : last.cid ≡ got cid

  abbrev pub SourceOf : List (Http Pinned) → Result String → Type 0
  SourceOf answers (ok cid) = Source answers cid
  SourceOf answers (err e) = Unit

  -- One attempt: it uploads at most once, does not sleep, and reports what the service answered.
  pub record Attempt (one : Upload) (p : Pinning services) : Type 0 where
    pub at_most : length p.answers ≤ 1
    pub uploads : p.uploads ≡ copies (length p.answers) one
    pub no_sleep : p.sleeps ≡ []
    pub no_client : p.clients ≡ []
    pub source : SourceOf p.answers p.result

  to_source :
      (answers : List (Http Pinned)) (r : Result String)
      → ((cid : String) → r ≡ ok cid → Source answers cid)
      → SourceOf answers r
  to_source answers (ok cid) of_ok = of_ok cid refl
  to_source answers (err e) of_ok = tt

  status-ok :
      (service : String) (a : Pinned) (cid : String)
      → read_status services service a ≡ ok cid
      → (is_success a.status ≡ true) × (a.cid ≡ got cid)
  status-ok service a cid h = elim (Bool-cases (is_success a.status)) [
    | inl e ↦ (e, network_error-ok _ a.cid cid (rw e at h))
    | inr e ↦ absurd (ground (arith, h, e))
  ]

  answer-Source :
      (reply : Http Pinned) (service : String) (cid : String)
      → read_answer services service reply ≡ ok cid
      → Source (reply ∷ []) cid
  answer-Source answer_to service cid h =
      let (a, reply, status) = bind-ok _ (read_status services service) cid h in
      let (success, cid_in) = status-ok service a cid status in
      record {
        earlier = [];
        last = a;
        answered = ap (λ r. r ∷ []) (network_error-ok _ _ a reply);
        success = success;
        cid_in = cid_in;
      }

  upload-Attempt :
      (service : String) (one : Upload) (s : S) → Attempt one (upload services service one s)
  upload-Attempt service one s = record {
    at_most = omega arith;
    uploads = refl;
    no_sleep = refl;
    no_client = refl;
    source =
        to_source ((services.post s one).1 ∷ []) _
          (answer-Source ((services.post s one).1) service);
  }

  quiet-Attempt : (one : Upload) (s : S) (e : OracleError) → Attempt one (quiet services s (err e))
  quiet-Attempt one s e = record {
    at_most = omega arith;
    uploads = refl;
    no_sleep = refl;
    no_client = refl;
    source = tt;
  }

  part-Attempt :
      (key secret : String) (file : List ℕ) (made : Http ⊤) (s : S)
      → Attempt (pinata key secret file) (send_part services key secret file made s)
  part-Attempt key secret file (failed e) s = quiet-Attempt _ s _
  part-Attempt key secret file (got u) s = upload-Attempt "Pinata" _ s

  credentials-Attempt :
      (k c : Option String) (file : List ℕ) (key secret : String) (s : S)
      → k ≡ some key
      → c ≡ some secret
      → Attempt (pinata key secret file) (with_credentials services k c file s)
  credentials-Attempt k c file key secret s is_key is_secret =
      rw (is_key, is_secret) (part-Attempt key secret file services.build_part s)

  pub pinata-Attempt :
      (settings : IpfsConfig) (file : List ℕ) (key secret : String) (s : S)
      → settings.pinata_api_key ≡ some key
      → settings.pinata_api_secret ≡ some secret
      → Attempt (pinata key secret file) (pin_via_pinata services file settings s)
  unfolding pin_via_pinata
  pinata-Attempt settings file key secret s = credentials-Attempt _ _ file key secret s

  token-Attempt :
      (t : Option String) (file : List ℕ) (token : String) (s : S)
      → t ≡ some token
      → Attempt (web3_storage token file) (with_token services t file s)
  token-Attempt t file token s is_token = rw is_token (upload-Attempt "Web3.Storage" _ s)

  pub web3_storage-Attempt :
      (settings : IpfsConfig) (file : List ℕ) (token : String) (s : S)
      → settings.web3_storage_token ≡ some token
      → Attempt (web3_storage token file) (pin_via_web3_storage services file settings s)
  unfolding pin_via_web3_storage
  web3_storage-Attempt settings file token s = token-Attempt _ file token s
