-- ===== src/Indexer/Quorum/Consensus.antt =====
-- Which votes of backend/indexer/src/api.rs count, and when they reach the consensus of db.rs.
use Prim.Native.String.{String}
use text.Mathlib.Text.{◌==◌}
use text.Mathlib.TextEquality.{eq_iff}
use pifp_stellar.Base.{
  ℕ, ◌+◌, ◌≡◌, ◌≤◌, ◌<◌, ◌^◌, ◌↔◌, arith, refl, inl, inr, sym, Bool, true, false, not, List, [],
  ◌∷◌, some, if◌then◌else◌, ◌&&◌, ◌||◌, leb, length, Bool-cases,
}
use pifp_stellar.Base.Int.{pos}
use pifp_stellar.Base.Text.{member}
use pifp_stellar.Base.Words.{u32_of_int, u32-i32}
use pifp_stellar.Indexer.Quorum.{
  Vote, Quorum, migrated, get_quorum_threshold, set_quorum_threshold, has_vote, record_vote, hashes,
  tally, vote_info, any_reaches, get_quorum_status, QuorumStatus, VoteRequest, submit_vote,
}

-- The submissions to a project, the latest first.
pub record Submission : Type 0 where
  pub project : String
  pub request : VoteRequest

abbrev pub submit_all : List Submission → Quorum
submit_all [] = migrated
submit_all (s ∷ ss) = (submit_vote s.project s.request (submit_all ss)).0

-- Whether an oracle is named in a submission to a project, and the number of oracles whose first
-- submission to it has a hash.
abbrev pub voted : String → String → List Submission → Bool
voted project oracle [] = false
voted project oracle (s ∷ ss) =
    ((project == s.project) && (oracle == s.request.oracle)) || voted project oracle ss

abbrev pub first_votes : String → String → List Submission → ℕ
first_votes project hash [] = 0
first_votes project hash (s ∷ ss) =
    if (project == s.project)
      && (hash == s.request.proof_hash)
      && not (voted s.project s.request.oracle ss)
    then first_votes project hash ss + 1
    else first_votes project hash ss

has_vote-submit_all :
    (project oracle : String) (ss : List Submission)
    → has_vote project oracle (submit_all ss).oracle_votes ≡ voted project oracle ss
unfolding submit_vote record_vote
has_vote-submit_all project oracle [] = refl
has_vote-submit_all project oracle (s ∷ ss) = ground (
  arith,
  has_vote-submit_all project oracle ss,
  has_vote-submit_all s.project s.request.oracle ss,
  eq_iff project s.project,
  eq_iff oracle s.request.oracle,
)

tally-submit_all :
    (project hash : String) (ss : List Submission)
    → tally project hash (submit_all ss).oracle_votes ≡ first_votes project hash ss
unfolding submit_vote record_vote
tally-submit_all project hash [] = refl
tally-submit_all project hash (s ∷ ss) =
    ground
      (arith, tally-submit_all project hash ss, has_vote-submit_all s.project s.request.oracle ss)

first_votes-length :
    (project hash : String) (ss : List Submission) → first_votes project hash ss ≤ length ss
first_votes-length project hash [] = ground arith
first_votes-length project hash (s ∷ ss) = ground (arith, first_votes-length project hash ss)

threshold-submit_all : (ss : List Submission) → (submit_all ss).threshold ≡ some (pos 1)
unfolding submit_vote record_vote
threshold-submit_all [] = refl
threshold-submit_all (s ∷ ss) = ground (arith, threshold-submit_all ss)

-- The hashes are those with a row.
member-hashes :
    (project hash : String) (vs : List Vote)
    → member hash (hashes project vs) ≡ leb 1 (tally project hash vs)
member-hashes project hash [] = ground arith
member-hashes project hash (v ∷ vs) =
    ground (arith, member-hashes project hash vs, eq_iff hash v.proof_hash)

any-intro :
    (t : ℕ) (project hash : String) (votes : List Vote) (hs : List String)
    → member hash hs ≡ true
    → tally project hash votes < 2 ^ 32
    → t ≤ tally project hash votes
    → any_reaches t (vote_info project votes hs) ≡ true
unfolding u32_of_int
any-intro t project hash votes [] m small h = absurd (ground (arith, m))
any-intro t project hash votes (x ∷ xs) m small h = elim (Bool-cases (hash == x)) [
  | inl e ↦ let same : hash ≡ x = ground (arith, e, eq_iff hash x) in ground (arith, same)
  | inr e ↦ ground (arith, any-intro t project hash votes xs (ground (arith, e, m)) small h)
]

any-elim :
    (t : ℕ) (project : String) (votes : List Vote) (hs : List String)
    → any_reaches t (vote_info project votes hs) ≡ true
    → (hash : String) × (member hash hs ≡ true) × (t ≤ tally project hash votes)
unfolding u32_of_int
any-elim t project votes [] h = absurd (ground (arith, h))
any-elim t project votes (x ∷ xs) h =
    elim (Bool-cases (leb t (u32_of_int (pos (tally project x votes))))) [
      | inl e ↦ (x, ground (arith, eq_iff x x), ground (arith, e))
      | inr e ↦
          let (hash, m, le) = any-elim t project votes xs (ground (arith, e, h)) in
          (hash, ground (arith, m), le)
    ]

-- With the tallies of a table that a list of submissions gives.
module _ (n : ℕ) (project : String) (votes : List Vote) (tallied : String → ℕ)
    (h : (hash : String) → tally project hash votes ≡ tallied hash) where
  consensus_sound :
      any_reaches n (vote_info project votes (hashes project votes)) ≡ true
      → (hash : String) × (1 ≤ tallied hash) × (n ≤ tallied hash)
  consensus_sound reached =
      let (hash, m, le) = any-elim n project votes (hashes project votes) reached in
      (hash, ground (arith, m, member-hashes project hash votes, h hash), rw (sym (h hash)) le)

  consensus_complete :
      (hash : String)
      → tallied hash < 2 ^ 32
      → 1 ≤ tallied hash
      → n ≤ tallied hash
      → any_reaches n (vote_info project votes (hashes project votes)) ≡ true
  consensus_complete hash small one le =
      any-intro n project hash votes (hashes project votes)
        (ground (arith, member-hashes project hash votes, h hash)) (rw (h hash) small)
        (rw (h hash) le)

-- The status that the API gives after the submissions and an update of the threshold.
abbrev pub status_after : ℕ → String → List Submission → QuorumStatus
status_after n project ss = get_quorum_status project (set_quorum_threshold n (submit_all ss))

-- With fewer than 2^32 submissions, after the threshold is set to a u32 the status of a project shows
-- that threshold; each oracle's first submission to the project is accepted and counts, the later
-- ones are not; and consensus is reached exactly when for some hash at least one oracle, and at least
-- as many as the threshold, submitted it first.
pub submit_all-status_after :
    (n : ℕ) (project : String) (ss : List Submission)
    → n < 2 ^ 32
    → length ss < 2 ^ 32
    → let status = status_after n project ss in
      (status.threshold ≡ n)
      × ((request : VoteRequest)
          → (submit_vote project request (submit_all ss)).1.accepted
            ≡ not (voted project request.oracle ss))
      × ((status.consensus_reached ≡ true) ↔ (
          (hash : String) × (1 ≤ first_votes project hash ss) × (n ≤ first_votes project hash ss)))
unfolding get_quorum_status set_quorum_threshold get_quorum_threshold submit_vote record_vote
submit_all-status_after n project ss small short =
    let q = submit_all ss in
    let set : get_quorum_threshold (set_quorum_threshold n q) ≡ n =
      ground (arith, threshold-submit_all ss, u32-i32 n small) in
    let sound =
      consensus_sound n project q.oracle_votes (λ h. first_votes project h ss)
        (λ h. tally-submit_all project h ss) in
    let complete =
      consensus_complete n project q.oracle_votes (λ h. first_votes project h ss)
        (λ h. tally-submit_all project h ss) in
    (
      set,
      λ request. ground (arith, has_vote-submit_all project request.oracle ss),
      (
        λ reached. sound (rw (sym set) reached),
        λ (hash, one, le).
            rw set (complete hash (ground (arith, first_votes-length project hash ss)) one le),
      ),
    )
