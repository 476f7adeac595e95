-- ===== src/Indexer/Profiles.antt =====
-- The profiles: backend/indexer/src/profiles.rs and the handlers of `/profiles/:address` in
-- backend/indexer/src/api.rs. Every query succeeds, the column of the clock is left out, and the
-- decoders of keys and signatures and the Ed25519 check are parameters.
pub mod Changes
use Prim.Native.String
use Prim.Native.String.{String}
use text.Mathlib.Text.{◌==◌}
use pifp_stellar.Base.{
  ℕ, eqb_ℕ, Bool, true, false, not, List, [], ◌∷◌, Option, none, some, if◌then◌else◌, length,
}

-- Keyed by the address.
pub record Profile : Type 0 where
  pub address : String
  pub nickname : Option String
  pub bio : Option String
  pub avatar_url : Option String

pub record ProfileUpdate : Type 0 where
  pub nickname : Option String
  pub bio : Option String
  pub avatar_url : Option String

pub record ProfileRequest : Type 0 where
  pub address : String
  pub signature : String
  pub update : ProfileUpdate

-- The bytes of an account's key, those of base64 text, whether bytes are a verifying key, and whether
-- a key signed a message with a signature.
pub record Crypto : Type 0 where
  pub from_string : String → Option (List ℕ)
  pub base64_decode : String → Option (List ℕ)
  pub is_verifying_key : List ℕ → Bool
  pub verify : List ℕ → String → List ℕ → Bool

unfoldable pub get_profile : List Profile → String → Option Profile
get_profile [] address = none
get_profile (p ∷ ps) address =
    let rest = get_profile ps address in if address == p.address then some p else rest

abbrev pub profile_of : String → ProfileUpdate → Profile
profile_of address update = record {
  address = address;
  nickname = update.nickname;
  bio = update.bio;
  avatar_url = update.avatar_url;
}

-- The row with the address is replaced, or a new one inserted.
abbrev pub replace : Profile → List Profile → List Profile
replace p [] = []
replace p (q ∷ qs) = (if p.address == q.address then p else q) ∷ replace p qs

unfoldable pub upsert_profile : List Profile → String → ProfileUpdate → List Profile
upsert_profile ps address update = elim (get_profile ps address) [
  | none ↦ profile_of address update ∷ ps
  | some _ ↦ replace (profile_of address update) ps
]

abbrev pub remove : String → List Profile → List Profile
remove address [] = []
remove address (q ∷ qs) =
    let rest = remove address qs in if address == q.address then rest else q ∷ rest

-- The rows afterwards, and whether any was deleted.
unfoldable pub delete_profile : List Profile → String → List Profile × Bool
delete_profile ps address =
    (remove address ps, elim (get_profile ps address) [ none ↦ false | some _ ↦ true ])

-- The responses of the handlers.
pub data Response : Type 0 where
  ok_profile : Profile → Response
  ok_deleted : Response
  address_mismatch : Response
  invalid_signature : Response
  not_found : Response

abbrev pub status_of : Response → ℕ
status_of (ok_profile _) = 200
status_of ok_deleted = 200
status_of address_mismatch = 400
status_of invalid_signature = 401
status_of not_found = 404

abbrev pub found : Option Profile → Response
found none = not_found
found (some p) = ok_profile p

pub data Operation : Type 0 where
  get : Operation
  upsert : ProfileRequest → Operation
  delete : ProfileRequest → Operation

module _ (crypto : Crypto) where
  abbrev pub check_signature : String → Option (List ℕ) → Option (List ℕ) → Bool
  check_signature address (some key) (some sig) =
      if eqb_ℕ (length sig) 64
      then (if crypto.is_verifying_key key
          then crypto.verify key (String.◌++◌ "pifp-profile:" address) sig
          else false)
      else false
  check_signature address _ _ = false

  unfoldable pub verify_profile_signature : String → String → Bool
  verify_profile_signature address signature =
      check_signature address (crypto.from_string address) (crypto.base64_decode signature)

  -- `upsert_profile` unwraps the row that it has just written.
  unfoldable pub handle_upsert : List Profile → String → ProfileRequest → List Profile × Response
  handle_upsert ps address payload =
      if not (payload.address == address)
      then (ps, address_mismatch)
      else if not (verify_profile_signature address payload.signature)
      then (ps, invalid_signature)
      else (let ps' = upsert_profile ps address payload.update in
          (ps', found (get_profile ps' address)))

  unfoldable pub handle_delete : List Profile → String → ProfileRequest → List Profile × Response
  handle_delete ps address payload =
      if not (payload.address == address)
      then (ps, address_mismatch)
      else if not (verify_profile_signature address payload.signature)
      then (ps, invalid_signature)
      else (let (ps', deleted) = delete_profile ps address in
          (ps', if deleted then ok_deleted else not_found))

  unfoldable pub handle : List Profile → String → Operation → List Profile × Response
  handle ps address get = (ps, found (get_profile ps address))
  handle ps address (upsert payload) = handle_upsert ps address payload
  handle ps address (delete payload) = handle_delete ps address payload
