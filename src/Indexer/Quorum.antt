-- ===== src/Indexer/Quorum.antt =====
-- Oracle votes: the tables `quorum_settings` and `oracle_votes` with their functions in
-- backend/indexer/src/db.rs, and their handlers in backend/indexer/src/api.rs. Rows stand latest
-- first, every query succeeds, and the groups of `GROUP BY`, whose order SQL leaves open, stand in
-- the order of their first rows.
pub mod Consensus
use Prim.Native.String.{String}
use text.Mathlib.Text.{◌==◌}
use pifp_stellar.Base.{
  ℕ, ◌+◌, Bool, true, false, List, [], ◌∷◌, Option, none, some, if◌then◌else◌, ◌&&◌, ◌||◌, leb, map,
}
use pifp_stellar.Base.Int.{ℤ, pos}
use pifp_stellar.Base.Text.{member}
use pifp_stellar.Base.Words.{i32_of_u32, u32_of_int}

-- A row of `oracle_votes`, unique in its project and its oracle.
pub record Vote : Type 0 where
  pub project_id : String
  pub oracle_address : String
  pub proof_hash : String

pub record Quorum : Type 0 where
  pub threshold : Option ℤ
  pub oracle_votes : List Vote

abbrev pub migrated : Quorum
migrated = record { threshold = some (pos 1); oracle_votes = [] }

unfoldable pub get_quorum_threshold : Quorum → ℕ
get_quorum_threshold q = elim q.threshold [ none ↦ 1 | some v ↦ u32_of_int v ]

-- The `UPDATE` of a row that may be missing.
unfoldable pub set_quorum_threshold : ℕ → Quorum → Quorum
set_quorum_threshold n q = record q {
  threshold = elim q.threshold [ none ↦ none | some _ ↦ some (i32_of_u32 n) ];
}

abbrev pub has_vote : String → String → List Vote → Bool
has_vote project oracle [] = false
has_vote project oracle (v ∷ vs) =
    ((project == v.project_id) && (oracle == v.oracle_address)) || has_vote project oracle vs

-- The tables afterwards, and whether a row was inserted.
unfoldable pub record_vote : String → String → String → Quorum → Quorum × Bool
record_vote project oracle hash q =
    let vote : Vote = record { project_id = project; oracle_address = oracle; proof_hash = hash } in
    if has_vote project oracle q.oracle_votes
    then (q, false)
    else (record q { oracle_votes = vote ∷ q.oracle_votes }, true)

pub record VoteInfo : Type 0 where
  pub proof_hash : String
  pub count : ℕ

pub record QuorumStatus : Type 0 where
  pub project_id : String
  pub threshold : ℕ
  pub votes : List VoteInfo
  pub consensus_reached : Bool

-- The distinct hashes of a project's rows, and the number of its rows with a hash.
abbrev pub hashes : String → List Vote → List String
hashes project [] = []
hashes project (v ∷ vs) =
    let rest = hashes project vs in
    if project == v.project_id
    then (if member v.proof_hash rest then rest else v.proof_hash ∷ rest)
    else rest

abbrev pub tally : String → String → List Vote → ℕ
tally project hash [] = 0
tally project hash (v ∷ vs) =
    if (project == v.project_id) && (hash == v.proof_hash)
    then tally project hash vs + 1
    else tally project hash vs

abbrev pub vote_info : String → List Vote → List String → List VoteInfo
vote_info project votes [] = []
vote_info project votes (h ∷ hs) =
    record { proof_hash = h; count = u32_of_int (pos (tally project h votes)) }
    ∷ vote_info project votes hs

abbrev pub any_reaches : ℕ → List VoteInfo → Bool
any_reaches threshold [] = false
any_reaches threshold (v ∷ vs) = leb threshold v.count || any_reaches threshold vs

unfoldable pub get_quorum_status : String → Quorum → QuorumStatus
get_quorum_status project q =
    let votes = vote_info project q.oracle_votes (hashes project q.oracle_votes) in
    record {
      project_id = project;
      threshold = get_quorum_threshold q;
      votes = votes;
      consensus_reached = any_reaches (get_quorum_threshold q) votes;
    }

-- The handlers' requests and responses.
pub record VoteRequest : Type 0 where
  pub oracle : String
  pub proof_hash : String

pub record VoteResponse : Type 0 where
  pub status : ℕ
  pub accepted : Bool
  pub message : String

abbrev vote_response : Bool → VoteResponse
vote_response true = record { status = 201; accepted = true; message = "Vote recorded" }
vote_response false = record { status = 200; accepted = false; message = "Duplicate vote ignored" }

unfoldable pub submit_vote : String → VoteRequest → Quorum → Quorum × VoteResponse
submit_vote project request q =
    let (q', accepted) = record_vote project request.oracle request.proof_hash q in
    (q', vote_response accepted)
