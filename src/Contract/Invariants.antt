-- ===== src/Contract/Invariants.antt =====
-- contracts/pifp_protocol/src/invariants_checker.rs: each check as a test, `false` where the source
-- panics. INV-1, INV-8 and INV-9 have empty bodies there.
use pifp_stellar.Base.{ℕ, suc, Bool, true, false, List, [], ◌∷◌, ◌&&◌, ◌==◌, ltb, if◌then◌else◌}
use pifp_stellar.Base.Int.{ℤ, pos, ◌+ℤ◌, ltb_ℤ, eqb_ℤ}
use pifp_stellar.Contract.Types.{
  Address, Project, ProjectStatus, funding, active, completed, expired, cancelled, status_eq,
}

abbrev pub check_inv2_goal_positive : Project → Bool
check_inv2_goal_positive p = ltb_ℤ (pos 0) p.goal

abbrev pub check_inv3_deadline_positive : Project → Bool
check_inv3_deadline_positive p = ltb 0 p.deadline

abbrev pub check_inv4_completed_terminal : ProjectStatus → ProjectStatus → Bool
check_inv4_completed_terminal old new =
    if status_eq old completed then status_eq new completed else true

abbrev pub check_inv5_deposit_sums : ℤ → ℤ → ℤ → Bool
check_inv5_deposit_sums before after amount = eqb_ℤ after (before +ℤ amount)

-- From index `i` on.
abbrev pub check_ids_from : ℕ → List Project → Bool
check_ids_from i [] = true
check_ids_from i (p ∷ ps) = p.id == i && check_ids_from (suc i) ps

abbrev pub check_inv6_sequential_ids : List Project → Bool
check_inv6_sequential_ids ps = check_ids_from 0 ps

-- The pairs that the match lists.
abbrev pub is_forward : ProjectStatus → ProjectStatus → Bool
is_forward funding active = true
is_forward funding completed = true
is_forward funding expired = true
is_forward active completed = true
is_forward active expired = true
is_forward active cancelled = true
is_forward _ _ = false

abbrev pub check_inv7_status_transition : ProjectStatus → ProjectStatus → Bool
check_inv7_status_transition from to = if status_eq from to then true else is_forward from to

abbrev pub same_tokens : List Address → List Address → Bool
same_tokens [] [] = true
same_tokens (a ∷ as') (b ∷ bs) = a == b && same_tokens as' bs
same_tokens _ _ = false

abbrev pub check_inv10_config_immutable : Project → Project → Bool
check_inv10_config_immutable original current =
    original.id == current.id
    && original.creator == current.creator
    && same_tokens original.accepted_tokens current.accepted_tokens
    && eqb_ℤ original.goal current.goal
    && original.proof_hash == current.proof_hash
    && original.deadline == current.deadline

abbrev pub check_all_project_invariants : Project → Bool
check_all_project_invariants p = check_inv2_goal_positive p && check_inv3_deadline_positive p
