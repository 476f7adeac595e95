-- ===== src/Contract/History/Registered.antt =====
-- A project from its registration on, as `get_project` shows it.
use pifp_stellar.Base.{ℕ, ◌≤◌, ◌≡◌, arith, List, Bool, true, some, get_or}
use pifp_stellar.Base.Int.{ℤ}
use pifp_stellar.Contract.Types.{Address, Hash, Project, ProjectConfig, ProjectState}
use pifp_stellar.Contract.Env.{Env, Ctx, Host, ok}
use pifp_stellar.Contract.Storage.{join}
use pifp_stellar.Contract.Projects.{register_project, get_project}
use pifp_stellar.Contract.Projects.Registered.{new_config, new_state, register_project-ok}
use pifp_stellar.Contract.Lifecycle.{Call}
use pifp_stellar.Contract.Invariants.{check_all_project_invariants}
use pifp_stellar.Contract.Change.{registers}
use pifp_stellar.Contract.Change.Config.{Keeps}
use pifp_stellar.Contract.Change.Fresh.{IsFresh, Change-IsFresh}
use pifp_stellar.Contract.History.{run}
use pifp_stellar.Contract.History.Life.{Leads, Lived, run-Lived, run-Keeps}

-- `q` is project `p` at a later time.
pub record Lasts (p q : Project) : Type 0 where
  pub same : q ≡ record p {
    deadline = q.deadline;
    status = q.status;
    donation_count = q.donation_count;
    refund_expiry = q.refund_expiry;
  }
  pub later : p.deadline ≤ q.deadline
  pub leads : Leads p.status q.status
  pub counted : p.donation_count ≤ q.donation_count
  pub checked : check_all_project_invariants q ≡ true

get_project-stored :
    {W : Type 0} (id : ℕ) (env : Env W) (c : ProjectConfig) (s : ProjectState)
    → env.store.proj_config id ≡ some c
    → env.store.proj_state id ≡ some s
    → get_project id env ≡ ok (join c s) env
unfolding get_project
get_project-stored id env c s hc hs = ground arith

joined-Lasts :
    (c d : ProjectConfig) (p q : ProjectState)
    → check_all_project_invariants (join c p) ≡ true
    → Keeps c d
    → Lived p q
    → Lasts (join c p) (join d q)
joined-Lasts c d p q h k l = record {
  same = ground (arith, k.fields);
  later = ground (arith, k.later);
  leads = l.leads;
  counted = ground (arith, l.counted);
  checked = ground (arith, k.fields, k.later);
}

module _ {W : Type 0} (host : Host W) (ctx : Ctx) (creator : Address) (tokens : List Address)
    (goal : ℤ) (hash : Hash) (uri : List ℕ) (deadline : ℕ) (private : Bool) where
  -- Once a registration has returned a project, `get_project` returns that project after any
  -- history: with the same number, creator, tokens, goal, proof hash, metadata and privacy, no
  -- earlier deadline, a status reached by forward steps and no fewer donations, and it passes the
  -- checks of the project invariants.
  pub registration-Lasts :
      (env e : Env W) (p : Project) (h : List (Ctx × Call))
      → IsFresh env.store
      → register_project ctx creator tokens goal hash uri deadline private env ≡ ok p e
      → (q : Project) × (get_project p.id (run host h e) ≡ ok q (run host h e)) × Lasts p q
  registration-Lasts env e p h f returned =
      let id = get_or 0 env.store.project_count in
      let c0 = new_config ctx creator tokens goal hash uri deadline private id in
      let s0 = new_state ctx creator tokens goal hash uri deadline private in
      let (c, made, st, tk) =
        register_project-ok ctx creator tokens goal hash uri deadline private env e p returned in
      let fresh : IsFresh e.store =
        Change-IsFresh host ctx env e
          (registers creator tokens goal hash uri deadline private c st tk) f in
      let has_config : e.store.proj_config id ≡ some c0 = ground arith in
      let has_state : e.store.proj_state id ≡ some s0 = ground arith in
      let (s, at_s, lived, _) = run-Lived host h e id s0 fresh has_state in
      let (d, at_d, keeps) = run-Keeps host h e id c0 fresh has_config in
      let start : check_all_project_invariants (join c0 s0) ≡ true =
        ground (arith, c.goal_positive, c.later) in
      rw made (
        join d s,
        get_project-stored id (run host h e) d s at_d at_s,
        joined-Lasts c0 d s0 s start keeps lived,
      )
