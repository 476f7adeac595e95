-- ===== src/Oracle/Pin/Explained.antt =====
-- What `pin_file` of backend/oracle/src/ipfs.rs uploads, how long it sleeps, and what it reports.
use Prim.Native.String.{String}
use pifp_stellar.Base.{
  ⊤, ℕ, ◌≡◌, ◌≤◌, refl, arith, sym, subst, inl, inr, length, Option, none, some, List, [], ◌++◌,
}
use mathlib.Core.List.{append-nil}
use pifp_stellar.Base.Result.{ok, err, Fallible-cases}
use pifp_stellar.Oracle.Errors.{OracleError, Result}
use pifp_stellar.Oracle.Proof.{Http}
use pifp_stellar.Oracle.Pin.{
  IpfsConfig, Upload, pinata, web3_storage, Pinned, Services, no_credentials, Pinning, fall_back,
  or_fall_back, pin_file,
}
use pifp_stellar.Oracle.Pin.Attempts.{copies, SourceOf}
use pifp_stellar.Oracle.Pin.Tries.{
  IsPrefix, GaveUp, Tried, later_source, pinata-Tried, web3_storage-Tried, backoffs,
}

abbrev settings_of : Option String → Option String → Option String → IpfsConfig
settings_of key secret token = record {
  pinata_api_key = key;
  pinata_api_secret = secret;
  web3_storage_token = token;
}

-- What one service got and answered, the clients that were built or failed to be, and the sleeps.
pub record Part : Type 0 where
  pub uploads : List Upload
  pub answers : List (Http Pinned)
  pub clients : List (Http ⊤)
  pub sleeps : List ℕ

abbrev pub unused : Part
unused = record { uploads = []; answers = []; clients = []; sleeps = [] }

-- At most three uploads of one kind, each with its answer, after some of the sleeps of half a second
-- and of one.
abbrev pub ToService : Upload → Part → Type 0
ToService one part =
    (length part.answers ≤ 3)
    × (part.uploads ≡ copies (length part.answers) one)
    × IsPrefix part.sleeps backoffs

abbrev pub ToPinata : Option String → Option String → List ℕ → Part → Type 0
ToPinata (some key) (some secret) file part = ToService (pinata key secret file) part
ToPinata (some key) none file part = part ≡ unused
ToPinata none secret file part = part ≡ unused

abbrev pub ToWeb3 : Option String → List ℕ → Part → Type 0
ToWeb3 (some token) file part = ToService (web3_storage token file) part
ToWeb3 none file part = part ≡ unused

module _ {S : Type 0} (services : Services S) where
  abbrev part_of : Pinning services → Part
  part_of p = record {
    uploads = p.uploads;
    answers = p.answers;
    clients = p.clients;
    sleeps = p.sleeps;
  }

  abbrev pub PinataFailed : Option String → Option String → OracleError → Part → Type 0
  PinataFailed (some key) (some secret) e part =
      GaveUp services (err e) part.clients part.sleeps backoffs
  PinataFailed (some key) none e part = Unit
  PinataFailed none secret e part = Unit

  abbrev pub Web3Failed : Option String → OracleError → Part → Type 0
  Web3Failed (some token) e part = GaveUp services (err e) part.clients part.sleeps backoffs
  Web3Failed none e part = e ≡ no_credentials

  -- The CID is of the last answer; or every service with credentials was given up, and the error
  -- without a token is that there are no credentials.
  abbrev pub Explains : IpfsConfig → Part → Part → Result String → Type 0
  Explains settings first second (ok cid) =
      SourceOf services (first.answers ++ second.answers) (ok cid)
  Explains settings first second (err e) =
      PinataFailed settings.pinata_api_key settings.pinata_api_secret e first
      × Web3Failed settings.web3_storage_token e second

  pub record Explained (settings : IpfsConfig) (file : List ℕ) (p : Pinning services) : Type 0 where
    pub first : Part
    pub second : Part
    pub uploads : p.uploads ≡ first.uploads ++ second.uploads
    pub answers : p.answers ≡ first.answers ++ second.answers
    pub clients : p.clients ≡ first.clients ++ second.clients
    pub sleeps : p.sleeps ≡ first.sleeps ++ second.sleeps
    pub to_pinata : ToPinata settings.pinata_api_key settings.pinata_api_secret file first
    pub to_web3 : ToWeb3 settings.web3_storage_token file second
    pub explains : Explains settings first second p.result

  -- The same from Web3.Storage on.
  record FellBack (settings : IpfsConfig) (file : List ℕ) (p : Pinning services) : Type 0 where
    to_web3 : ToWeb3 settings.web3_storage_token file (part_of p)
    explains :
        (first : Part)
        → ((e : OracleError)
            → PinataFailed settings.pinata_api_key settings.pinata_api_secret e first)
        → Explains settings first (part_of p) p.result

  Explains-web3 :
      (k c : Option String) (token : String) (r : Result String) (first second : Part)
      → SourceOf services second.answers r
      → GaveUp services r second.clients second.sleeps backoffs
      → ((e : OracleError) → PinataFailed k c e first)
      → Explains (settings_of k c (some token)) first second r
  Explains-web3 k c token (ok cid) first second source gave_up failed =
      later_source services first.answers second.answers (ok cid) source
  Explains-web3 k c token (err e) first second source gave_up failed = (failed e, gave_up)

  fall_back-FellBack :
      (k c t : Option String) (file : List ℕ) (s : S)
      → FellBack (settings_of k c t) file (fall_back services file (settings_of k c t) s)
  fall_back-FellBack k c none file s = record {
    to_web3 = refl;
    explains = λ first failed. (failed no_credentials, refl);
  }
  fall_back-FellBack k c (some token) file s =
      let tried = web3_storage-Tried services (settings_of k c (some token)) file token s refl in
      record {
        to_web3 = (tried.at_most, tried.uploads, tried.in_order);
        explains = λ first.
            Explains-web3 k c token _ first
              (part_of (fall_back services file (settings_of k c (some token)) s)) tried.source
              tried.gave_up;
      }

  only_web3 :
      (k c t : Option String) (file : List ℕ) (p : Pinning services)
      → ToPinata k c file unused
      → ((e : OracleError) → PinataFailed k c e unused)
      → FellBack (settings_of k c t) file p
      → Explained (settings_of k c t) file p
  only_web3 k c t file p not_sent failed fell = record {
    first = unused;
    second = part_of p;
    uploads = refl;
    answers = refl;
    clients = refl;
    sleeps = refl;
    to_pinata = not_sent;
    to_web3 = fell.to_web3;
    explains = fell.explains unused failed;
  }

  not_needed : (t : Option String) (file : List ℕ) → ToWeb3 t file unused
  not_needed none file = refl
  not_needed (some token) file = (omega arith, refl, (backoffs, refl))

  pinata_first :
      (key secret : String) (t : Option String) (file : List ℕ) (p : Pinning services)
      → Tried services (pinata key secret file) 3 backoffs p
      → Explained
          (settings_of (some key) (some secret) t)
          file
          (or_fall_back services file (settings_of (some key) (some secret) t) p)
  pinata_first key secret t file p tried = elim (Fallible-cases p.result) [
    | inr (cid, is) ↦ rw is record {
      first = part_of p;
      second = unused;
      uploads = sym (append-nil p.uploads);
      answers = sym (append-nil p.answers);
      clients = sym (append-nil p.clients);
      sleeps = sym (append-nil p.sleeps);
      to_pinata = (tried.at_most, tried.uploads, tried.in_order);
      to_web3 = not_needed t file;
      explains =
          subst (λ l. SourceOf services l (ok cid)) (sym (append-nil p.answers))
            (rw is at tried.source);
    }
    | inl (e, is) ↦
        let fell = fall_back-FellBack (some key) (some secret) t file p.state in
        rw is record {
          first = part_of p;
          second =
              part_of (fall_back services file (settings_of (some key) (some secret) t) p.state);
          uploads = refl;
          answers = refl;
          clients = refl;
          sleeps = refl;
          to_pinata = (tried.at_most, tried.uploads, tried.in_order);
          to_web3 = fell.to_web3;
          explains = fell.explains (part_of p) λ _. rw is at tried.gave_up;
        }
  ]

  pin_file-Explained_fields :
      (k c t : Option String) (file : List ℕ) (s : S)
      → Explained (settings_of k c t) file (pin_file services file (settings_of k c t) s)
  unfolding pin_file
  pin_file-Explained_fields (some key) (some secret) t file s =
      pinata_first key secret t file _
        (pinata-Tried services (settings_of (some key) (some secret) t) file key secret s refl refl)
  pin_file-Explained_fields (some key) none t file s =
      only_web3 (some key) none t file _ refl (λ _. tt)
        (fall_back-FellBack (some key) none t file s)
  pin_file-Explained_fields none c t file s =
      only_web3 none c t file _ refl (λ _. tt) (fall_back-FellBack none c t file s)

  -- `pin_file` uploads exactly the file with the credentials that are set: to Pinata at most three times,
  -- then to Web3.Storage at most three times, each time after a prefix of the sleeps of 500 and 1000
  -- milliseconds, and nothing to a service without credentials. A CID that it returns was in the last of
  -- the answers to these uploads, which was a success. An error is returned only when at every service
  -- with credentials all those sleeps were made or the last HTTP client for it could not be built, and
  -- without a token for Web3.Storage it is the error that there are no credentials.
  pub pin_file-Explained :
      (file : List ℕ) (settings : IpfsConfig) (s : S)
      → Explained settings file (pin_file services file settings s)
  pin_file-Explained file settings s =
      pin_file-Explained_fields settings.pinata_api_key settings.pinata_api_secret
        settings.web3_storage_token file s
