-- ===== src/Oracle/Pin/Tries.antt =====
-- The attempts of `pin_with_retry` in backend/oracle/src/ipfs.rs.
use Prim.Native.String.{String}
use pifp_stellar.Base.{
  ⊤, length, sym, subst, ℕ, ◌≡◌, ◌⊎◌, ◌+◌, ◌≤◌, zero, suc, refl, arith, ap, ◌∙◌, inl, inr, some,
  List, [], ◌∷◌, ◌++◌,
}
use mathlib.Core.List.{append_assoc}
use pifp_stellar.Base.Result.{ok, err, Fallible-cases}
use pifp_stellar.Oracle.Errors.{OracleError, Result}
use pifp_stellar.Oracle.Proof.{Http, failed, got}
use pifp_stellar.Oracle.Proof.Fetched.{Http-cases}
use pifp_stellar.Oracle.Pin.{
  Pinned, begun, then_run, IpfsConfig, Upload, pinata, web3_storage, Services, max_retries,
  sleeps_before, Pinning, quiet, pin_via_pinata, pin_via_web3_storage, attempts, pin_with_retry,
}
use pifp_stellar.Oracle.Pin.Attempts.{
  copies, SourceOf, Attempt, pinata-Attempt, web3_storage-Attempt,
}

abbrev pub IsPrefix : List ℕ → List ℕ → Type 0
IsPrefix xs ys = (rest : List ℕ) × (xs ++ rest ≡ ys)

copies_add : {A : Type 0} (m n : ℕ) (a : A) → copies m a ++ copies n a ≡ copies (m + n) a
copies_add zero n a = let e : n ≡ 0 + n = omega arith in ap (λ k. copies k a) e
copies_add (suc m) n a =
    let e : suc (m + n) ≡ suc m + n = omega arith in
    ap (a ∷◌) (copies_add m n a) ∙ ap (λ k. copies k a) e

-- The sleeps before the attempts from one on.
abbrev schedule : ℕ → ℕ → List ℕ
schedule zero attempt = []
schedule (suc left) attempt = sleeps_before attempt ++ schedule left (attempt + 1)

-- The sleeps between three attempts.
abbrev pub backoffs : List ℕ
backoffs = 500 ∷ 1000 ∷ []

longer : (xs ys zs : List ℕ) → IsPrefix ys zs → IsPrefix (xs ++ ys) (xs ++ zs)
longer xs ys zs (rest, e) = (rest, rw (append_assoc xs ys rest, e) refl)

length-append : {A : Type 0} (xs ys : List A) → length (xs ++ ys) ≡ length xs + length ys
length-append [] ys = omega arith
length-append (x ∷ xs) ys = let e = length-append xs ys in omega (arith, e)

module _ {S : Type 0} (services : Services S) where
  -- A failure comes after all the sleeps, unless the last client could not be built.
  abbrev pub GaveUp : Result String → List (Http ⊤) → List ℕ → List ℕ → Type 0
  GaveUp (ok cid) clients sleeps all = Unit
  GaveUp (err e) clients sleeps all =
      (sleeps ≡ all)
      ⊎ ((earlier : List (Http ⊤)) × (m : String) × (clients ≡ earlier ++ (failed m ∷ [])))

  begun-GaveUp :
      (r : Result String) (client : Http ⊤) (clients : List (Http ⊤)) (xs ys zs : List ℕ)
      → GaveUp r clients ys zs
      → GaveUp r (client ∷ clients) (xs ++ ys) (xs ++ zs)
  begun-GaveUp (ok cid) client clients xs ys zs g = tt
  begun-GaveUp (err e) client clients xs ys zs (inl all) = inl (ap (xs ++◌) all)
  begun-GaveUp (err e) client clients xs ys zs (inr (earlier, m, last)) =
      inr (client ∷ earlier, m, ap (client ∷◌) last)

  ok-GaveUp :
      (r : Result String) (cid : String) (clients : List (Http ⊤)) (ys zs : List ℕ)
      → r ≡ ok cid
      → GaveUp r clients ys zs
  ok-GaveUp r cid clients ys zs e = rw e tt

  pub later_source :
      (before answers : List (Http Pinned)) (r : Result String)
      → SourceOf services answers r
      → SourceOf services (before ++ answers) r
  later_source before answers (ok cid) source = record {
    earlier = before ++ source.earlier;
    last = source.last;
    answered =
        ap (before ++◌) source.answered
        ∙ sym (append_assoc before source.earlier (got source.last ∷ []));
    success = source.success;
    cid_in = source.cid_in;
  }
  later_source before answers (err e) source = tt

  -- At most `left` uploads, each with its answer, and a prefix of the sleeps.
  pub record Tried (one : Upload) (left : ℕ) (sleeps : List ℕ) (p : Pinning services) : Type 0 where
    pub at_most : length p.answers ≤ left
    pub uploads : p.uploads ≡ copies (length p.answers) one
    pub in_order : IsPrefix p.sleeps sleeps
    pub gave_up : GaveUp p.result p.clients p.sleeps sleeps
    pub source : SourceOf services p.answers p.result

  begun-Tried :
      (one : Upload) (left attempt : ℕ) (client : Http ⊤) (p : Pinning services)
      → Tried one (suc left) (schedule left (attempt + 1)) p
      → Tried one (suc left) (schedule (suc left) attempt) (begun services attempt client p)
  begun-Tried one left attempt client p tried = record {
    at_most = tried.at_most;
    uploads = tried.uploads;
    in_order = longer (sleeps_before attempt) p.sleeps (schedule left (attempt + 1)) tried.in_order;
    gave_up = begun-GaveUp p.result client p.clients (sleeps_before attempt) _ _ tried.gave_up;
    source = tried.source;
  }

  no_client :
      (one : Upload) (left attempt : ℕ) (s : S) (m : String) (e : OracleError)
      → Tried one
          (suc left)
          (schedule (suc left) attempt)
          (begun services attempt (failed m) (quiet services s (err e)))
  no_client one left attempt s m e = record {
    at_most = omega arith;
    uploads = refl;
    in_order =
        longer (sleeps_before attempt) [] (schedule left (attempt + 1))
          (schedule left (attempt + 1), refl);
    gave_up = inr ([], m, refl);
    source = tt;
  }

  ended :
      (one : Upload) (left : ℕ) (sleeps : List ℕ) (p : Pinning services) (cid : String)
      → Attempt services one p
      → p.result ≡ ok cid
      → Tried one (suc left) sleeps p
  ended one left sleeps p cid tried is = record {
    at_most = omega (arith, tried.at_most);
    uploads = tried.uploads;
    in_order = (sleeps, ap (λ l. l ++ sleeps) tried.no_sleep);
    gave_up = ok-GaveUp p.result cid p.clients p.sleeps sleeps is;
    source = tried.source;
  }

  continued :
      (one : Upload) (left : ℕ) (sleeps : List ℕ) (p rest : Pinning services)
      → Attempt services one p
      → Tried one left sleeps rest
      → Tried one (suc left) sleeps (then_run services p rest)
  continued one left sleeps p rest tried more =
      let count = length-append p.answers rest.answers in
      record {
        at_most = omega (arith, tried.at_most, more.at_most, count);
        uploads =
            rw (tried.uploads, more.uploads, count)
              (copies_add (length p.answers) (length rest.answers) one);
        in_order =
            subst (λ l. IsPrefix (l ++ rest.sleeps) sleeps) (sym tried.no_sleep) more.in_order;
        gave_up =
            subst (λ l. GaveUp rest.result (p.clients ++ rest.clients) (l ++ rest.sleeps) sleeps)
              (sym tried.no_sleep)
              (subst (λ l. GaveUp rest.result (l ++ rest.clients) rest.sleeps sleeps)
                (sym tried.no_client) more.gave_up);
        source = later_source p.answers rest.answers rest.result more.source;
      }

  attempts-Tried :
      (one : Upload) (pin_fn : S → Pinning services)
      → ((s : S) → Attempt services one (pin_fn s))
      → (left attempt : ℕ) (e : OracleError) (s : S)
      → Tried one left (schedule left attempt) (attempts services pin_fn left attempt e s)
  unfolding attempts
  attempts-Tried one pin_fn each zero attempt e s = record {
    at_most = omega arith;
    uploads = refl;
    in_order = ([], refl);
    gave_up = inl refl;
    source = tt;
  }
  attempts-Tried one pin_fn each (suc left) attempt e s =
      elim (Http-cases ((services.build_client s).1)) [
        | inl (m, made) ↦ rw (attempts, made) (no_client one left attempt _ m _)
        | inr (u, made) ↦ elim (Fallible-cases ((pin_fn ((services.build_client s).0)).result)) [
          | inr (cid, is) ↦
              rw (attempts, made, is)
                (begun-Tried one left attempt (got u) _
                  (ended one left (schedule left (attempt + 1)) _ cid (each _) is))
          | inl (e', is) ↦
              rw (attempts, made, is)
                (begun-Tried one left attempt (got u) _ (
                  continued one left (schedule left (attempt + 1)) _ _ (each _)
                    (attempts-Tried one pin_fn each left (attempt + 1) e' _)))
        ]
      ]

  pub pinata-Tried :
      (settings : IpfsConfig) (file : List ℕ) (key secret : String) (s : S)
      → settings.pinata_api_key ≡ some key
      → settings.pinata_api_secret ≡ some secret
      → Tried
          (pinata key secret file)
          3
          backoffs
          (pin_with_retry services file settings (pin_via_pinata services) s)
  unfolding pin_with_retry
  pinata-Tried settings file key secret s is_key is_secret =
      attempts-Tried (pinata key secret file) (pin_via_pinata services file settings)
        (λ s'. pinata-Attempt services settings file key secret s' is_key is_secret) max_retries 0 _
        s

  pub web3_storage-Tried :
      (settings : IpfsConfig) (file : List ℕ) (token : String) (s : S)
      → settings.web3_storage_token ≡ some token
      → Tried
          (web3_storage token file)
          3
          backoffs
          (pin_with_retry services file settings (pin_via_web3_storage services) s)
  unfolding pin_with_retry
  web3_storage-Tried settings file token s is_token =
      attempts-Tried (web3_storage token file) (pin_via_web3_storage services file settings)
        (λ s'. web3_storage-Attempt services settings file token s' is_token) max_retries 0 _ s
