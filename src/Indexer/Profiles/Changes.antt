-- ===== src/Indexer/Profiles/Changes.antt =====
-- Which requests to `/profiles/:address` of backend/indexer/src/api.rs change a profile, and how.
use Prim.Native.String
use Prim.Native.String.{String}
use text.Mathlib.Text.{◌==◌}
use text.Mathlib.TextEquality.{eq_iff}
use pifp_stellar.Base.{
  ℕ, eqb_ℕ, length, false, ◌≡◌, arith, refl, inl, inr, Bool, List, [], ◌∷◌, Option, none, some,
  if◌then◌else◌, ◌&&◌, Bool-cases,
}
use pifp_stellar.Indexer.Profiles.{
  Profile, ProfileUpdate, ProfileRequest, Crypto, get_profile, profile_of, replace, remove,
  upsert_profile, delete_profile, status_of, check_signature, verify_profile_signature, Operation,
  get, upsert, delete, handle, handle_upsert, handle_delete,
}

get-replace :
    (a : String) (p : Profile) (ps : List Profile)
    → get_profile (replace p ps) a ≡ (
        if a == p.address
        then (elim (get_profile ps a) [ none ↦ none | some _ ↦ some p ])
        else get_profile ps a)
unfolding get_profile
get-replace a p [] = ground arith
get-replace a p (q ∷ qs) =
    ground (
      arith,
      get-replace a p qs,
      eq_iff a p.address,
      eq_iff a q.address,
      eq_iff p.address q.address,
    )

get-remove :
    (a address : String) (ps : List Profile)
    → get_profile (remove address ps) a ≡ (if a == address then none else get_profile ps a)
unfolding get_profile
get-remove a address [] = ground arith
get-remove a address (q ∷ qs) =
    ground (
      arith,
      get-remove a address qs,
      eq_iff a address,
      eq_iff a q.address,
      eq_iff address q.address,
    )

get-upsert :
    (a address : String) (update : ProfileUpdate) (ps : List Profile)
    → get_profile (upsert_profile ps address update) a
      ≡ (if a == address then some (profile_of address update) else get_profile ps a)
unfolding upsert_profile get_profile
get-upsert a address update ps = elim (Bool-cases (a == address)) [
  | inl e ↦
      let same : a ≡ address = ground (arith, e, eq_iff a address) in
      ground (arith, e, same, get-replace a (profile_of address update) ps)
  | inr e ↦ ground (arith, e, get-replace a (profile_of address update) ps)
]

module _ (crypto : Crypto) where
  -- The address encodes a verifying key, the text is base64 of 64 bytes, and the key signed
  -- `pifp-profile:` and the address with these.
  abbrev is_signed : String → Option (List ℕ) → Option (List ℕ) → Bool
  is_signed address none sig = false
  is_signed address (some key) none = false
  is_signed address (some key) (some sig) =
      eqb_ℕ (length sig) 64
      && crypto.is_verifying_key key
      && crypto.verify key (String.◌++◌ "pifp-profile:" address) sig

  abbrev pub is_signed_by : String → String → Bool
  is_signed_by address signature =
      is_signed address (crypto.from_string address) (crypto.base64_decode signature)

  check_signature_lem :
      (address : String) (key sig : Option (List ℕ))
      → is_signed address key sig ≡ check_signature crypto address key sig
  check_signature_lem address none sig = refl
  check_signature_lem address (some key) none = refl
  check_signature_lem address (some key) (some sig) = ground arith

  is_signed_by-verify :
      (address signature : String)
      → is_signed_by address signature ≡ verify_profile_signature crypto address signature
  unfolding verify_profile_signature
  is_signed_by-verify address signature =
      check_signature_lem address (crypto.from_string address) (crypto.base64_decode signature)

  -- Whether a request names the address and carries a signature by its key.
  abbrev pub signed_for : String → ProfileRequest → Bool
  signed_for address payload =
      (payload.address == address) && is_signed_by address payload.signature

  -- The profile at the address, after an operation on it from another.
  abbrev pub changed : String → Operation → Option Profile → Option Profile
  changed address get old = old
  changed address (upsert payload) old =
      if signed_for address payload
      then some (record {
        address = address;
        nickname = payload.update.nickname;
        bio = payload.update.bio;
        avatar_url = payload.update.avatar_url;
      })
      else old
  changed address (delete payload) old = if signed_for address payload then none else old

  abbrev refusal : String → ProfileRequest → ℕ
  refusal address payload = if payload.address == address then 401 else 400

  abbrev found_status : Option Profile → ℕ
  found_status none = 404
  found_status (some _) = 200

  abbrev pub status_for : String → Operation → Option Profile → ℕ
  status_for address get old = found_status old
  status_for address (upsert payload) old =
      if signed_for address payload then 200 else refusal address payload
  status_for address (delete payload) old =
      if signed_for address payload then found_status old else refusal address payload

  -- What an operation does to every profile, and the status that it answers with.
  abbrev pub Changes : List Profile → String → Operation → Type 0
  Changes ps address op =
      let (ps', answer) = handle crypto ps address op in
      ((a : String)
        → get_profile ps' a
          ≡ (if a == address then changed address op (get_profile ps a) else get_profile ps a))
      × (status_of answer ≡ status_for address op (get_profile ps address))

  upsert-Changes :
      (ps : List Profile) (address : String) (payload : ProfileRequest)
      → Changes ps address (upsert payload)
  unfolding handle handle_upsert
  upsert-Changes ps address payload = elim (Bool-cases (payload.address == address)) [
    | inl named ↦ elim (Bool-cases (verify_profile_signature crypto address payload.signature)) [
      | inl signed ↦
          rw (handle_upsert, named, is_signed_by-verify address payload.signature, signed)
            (
              λ a. ground (arith, get-upsert a address payload.update ps),
              ground (arith, get-upsert address address payload.update ps, eq_iff address address),
            )
      | inr unsigned ↦
          rw (handle_upsert, named, is_signed_by-verify address payload.signature, unsigned)
            (λ a. ground arith, refl)
    ]
    | inr other ↦ rw (handle_upsert, other) (λ a. ground arith, refl)
  ]

  delete-Changes :
      (ps : List Profile) (address : String) (payload : ProfileRequest)
      → Changes ps address (delete payload)
  unfolding handle handle_delete delete_profile
  delete-Changes ps address payload = elim (Bool-cases (payload.address == address)) [
    | inl named ↦ elim (Bool-cases (verify_profile_signature crypto address payload.signature)) [
      | inl signed ↦
          rw (handle_delete, named, is_signed_by-verify address payload.signature, signed)
            (λ a. ground (arith, get-remove a address ps), ground arith)
      | inr unsigned ↦
          rw (handle_delete, named, is_signed_by-verify address payload.signature, unsigned)
            (λ a. ground arith, refl)
    ]
    | inr other ↦ rw (handle_delete, other) (λ a. ground arith, refl)
  ]

  get-Changes : (ps : List Profile) (address : String) → Changes ps address get
  unfolding handle
  get-Changes ps address = (λ a. ground arith, ground arith)

  -- An operation on an address leaves every other profile as it is. An update or a deletion changes
  -- the profile there only if the request names the address and carries a signature by its key, and
  -- then sets or removes it; otherwise it answers 400 or 401. Reading answers 404, and so does a
  -- signed deletion, if there is no profile, and all else 200.
  pub handle-Changes :
      (ps : List Profile) (address : String) (op : Operation) → Changes ps address op
  handle-Changes ps address get = get-Changes ps address
  handle-Changes ps address (upsert payload) = upsert-Changes ps address payload
  handle-Changes ps address (delete payload) = delete-Changes ps address payload
