-- ===== src/Oracle/Proof/Fetched.antt =====
-- When `fetch_and_hash_proof` of backend/oracle/src/verifier.rs has a hash.
use Prim.Native.String
use Prim.Native.String.{String}
use pifp_stellar.Base.{
  ⊤, ℕ, ◌≡◌, ◌⊎◌, refl, arith, ap, inl, inr, true, false, Option, none, some, List, [], ◌∷◌,
  Bool-cases, ltb,
}
use pifp_stellar.Base.Result.{ok, ◌>>=◌, ◌>>◌, bind-ok, next-ok}
use pifp_stellar.Oracle.Proof.{
  Http, failed, got, Response, Gateway, network_error, is_success, max_size, check_status,
  check_length, hash_body, fetch_and_hash_proof,
}

pub network_error-ok :
    {A : Type 0} (what : String) (x : Http A) (a : A) → network_error what x ≡ ok a → x ≡ got a
network_error-ok what (failed e) a h = absurd (ground (arith, h))
network_error-ok what (got b) a h = ground (arith, h)

pub Http-cases :
    {A : Type 0} (x : Http A) → ((e : String) × (x ≡ failed e)) ⊎ ((a : A) × (x ≡ got a))
Http-cases (failed e) = inl (e, refl)
Http-cases (got a) = inr (a, refl)

-- A declared length is at most the largest one allowed.
abbrev pub Allowed : Option ℕ → Type 0
Allowed none = Unit
Allowed (some len) = ltb max_size len ≡ false

module _ (gateway : Gateway) where
  -- The gateway answered with success, and the hash is that of a body with at least one byte.
  pub record Fetched (ipfs_gateway cid : String) (hash : List ℕ) : Type 0 where
    pub response : Response
    pub first : ℕ
    pub rest : List ℕ
    pub answered : gateway.get (String.◌++◌ ipfs_gateway (String.◌++◌ "/ipfs/" cid)) ≡ got response
    pub success : is_success response.status ≡ true
    pub length_allowed : Allowed response.content_length
    pub body : response.bytes ≡ got (first ∷ rest)
    pub hashed : hash ≡ gateway.sha256 (first ∷ rest)

  status-ok :
      (cid : String) (r : Response) (u : ⊤)
      → check_status gateway cid r ≡ ok u
      → is_success r.status ≡ true
  status-ok cid r u h = elim (Bool-cases (is_success r.status)) [
    | inl e ↦ e
    | inr e ↦ absurd (ground (arith, e, h))
  ]

  length-ok : (l : Option ℕ) (u : ⊤) → check_length gateway l ≡ ok u → Allowed l
  length-ok none u h = tt
  length-ok (some len) u h = elim (Bool-cases (ltb max_size len)) [
    | inl e ↦ absurd (ground (arith, e, h))
    | inr e ↦ e
  ]

  hash_body-ok :
      (bytes hash : List ℕ)
      → hash_body gateway bytes ≡ ok hash
      → (first : ℕ) × (rest : List ℕ) × (bytes ≡ first ∷ rest)
        × (hash ≡ gateway.sha256 (first ∷ rest))
  hash_body-ok [] hash h = absurd (ground (arith, h))
  hash_body-ok (b ∷ bs) hash h = (b, bs, refl, ground (arith, h))

  body-ok :
      (bytes : Http (List ℕ)) (hash : List ℕ)
      → (network_error "Failed to read response body: " bytes >>= hash_body gateway) ≡ ok hash
      → (first : ℕ) × (rest : List ℕ) × (bytes ≡ got (first ∷ rest))
        × (hash ≡ gateway.sha256 (first ∷ rest))
  body-ok (failed e) hash h = absurd (ground (arith, h))
  body-ok (got bytes) hash h =
      let (first, rest, bytes_are, hash_is) = hash_body-ok bytes hash h in
      (first, rest, ap got bytes_are, hash_is)

  pub fetch_and_hash_proof-ok :
      (ipfs_gateway cid : String) (hash : List ℕ)
      → fetch_and_hash_proof gateway ipfs_gateway cid ≡ ok hash
      → Fetched ipfs_gateway cid hash
  unfolding fetch_and_hash_proof
  fetch_and_hash_proof-ok ipfs_gateway cid hash h =
      let (_, started) = next-ok _ _ hash h in
      let (r, answered, received) = bind-ok _ _ hash started in
      let ((u, status), after_status) =
        next-ok (check_status gateway cid r)
          (check_length gateway r.content_length
            >> (network_error "Failed to read response body: " r.bytes >>= hash_body gateway))
          hash received in
      let ((v, fits), read) = next-ok (check_length gateway r.content_length) _ hash after_status in
      let (first, rest, body, hashed) = body-ok r.bytes hash read in
      record {
        response = r;
        first = first;
        rest = rest;
        answered = network_error-ok _ _ r answered;
        success = status-ok cid r u status;
        length_allowed = length-ok r.content_length v fits;
        body = body;
        hashed = hashed;
      }
