-- ===== src/Contract/History/Life.antt =====
-- The life of one project through a history.
use pifp_stellar.Base.{
  Bool, not, ℕ, ◌≤◌, ◌≡◌, arith, refl, List, [], ◌∷◌, inl, inr, Bool-cases, some, true, false, ◌∙◌,
}
use pifp_stellar.Contract.Types.{
  ProjectConfig, ProjectState, ProjectStatus, funding, active, completed, expired, cancelled,
  is_open, status_eq,
}
use pifp_stellar.Contract.Env.{Env, Ctx, Host}
use pifp_stellar.Contract.Invariants.{is_forward, check_inv7_status_transition}
use pifp_stellar.Contract.Lifecycle.{Call, step}
use pifp_stellar.Contract.Change.Fresh.{IsFresh}
use pifp_stellar.Contract.Change.Status.{Evolves, Change-Evolves}
use pifp_stellar.Contract.Change.Config.{Keeps, Change-Keeps}
use pifp_stellar.Contract.History.{run, step-Change}
use pifp_stellar.Contract.History.Safety.{step-IsFresh}

-- Forward steps of the lifecycle, one after another.
pub data Leads : ProjectStatus → ProjectStatus → Type 0 where
  stay : {a : ProjectStatus} → Leads a a
  move : {a b c : ProjectStatus} → is_forward a b ≡ true → Leads b c → Leads a c

pub record Lived (p q : ProjectState) : Type 0 where
  pub leads : Leads p.status q.status
  pub counted : p.donation_count ≤ q.donation_count
  pub final : is_open p.status ≡ false → q ≡ p

-- The steps of a status in one transaction: none, or one of those that INV-7 lists.
abbrev pub may_become : ProjectStatus → ProjectStatus → Bool
may_become funding to = not (status_eq to cancelled)
may_become active to = not (status_eq to funding)
may_become completed to = status_eq to completed
may_become expired to = status_eq to expired
may_become cancelled to = status_eq to cancelled

may_become-inv7 :
    (a b : ProjectStatus) → check_inv7_status_transition a b ≡ true → may_become a b ≡ true
may_become-inv7 a b h = ground arith

status_eq-eq : (a b : ProjectStatus) → status_eq a b ≡ true → a ≡ b
status_eq-eq a b h = ground arith

forward-Leads :
    (a b c : ProjectStatus) → check_inv7_status_transition a b ≡ true → Leads b c → Leads a c
forward-Leads a b c h l = elim (Bool-cases (status_eq a b)) [
  | inl e ↦ rw (status_eq-eq a b e) l
  | inr e ↦ move (ground arith) l
]

Evolves-Lived : (p q r : ProjectState) → Evolves p q → Lived q r → Lived p r
Evolves-Lived p q r e l = record {
  leads = forward-Leads p.status q.status r.status e.forward l.leads;
  counted = omega (arith, e.counted, l.counted);
  final = λ h. l.final (ground (arith, e.final)) ∙ e.final h;
}

Keeps-trans : (a b c : ProjectConfig) → Keeps a b → Keeps b c → Keeps a c
Keeps-trans a b c k l = record {
  fields = ground (arith, k.fields, l.fields);
  later = omega (arith, k.later, l.later);
}

module _ {W : Type 0} (host : Host W) where
  step-Evolves :
      (ctx : Ctx) (call : Call) (env : Env W) (i : ℕ) (p : ProjectState)
      → IsFresh env.store
      → env.store.proj_state i ≡ some p
      → (q : ProjectState) × ((step host ctx call env).store.proj_state i ≡ some q) × Evolves p q
  step-Evolves ctx call env i p f h = elim (step-Change host ctx call env) [
    | inl e ↦ (p, rw e h, ground arith)
    | inr c ↦ Change-Evolves host ctx env _ c f i p h
  ]

  -- Transaction after transaction, the project is there and its status makes such a step.
  abbrev pub Walks : List (Ctx × Call) → Env W → ℕ → ProjectState → Type 0
  Walks [] env i p = Unit
  Walks ((ctx, call) ∷ h) env i p =
      (q : ProjectState) × ((step host ctx call env).store.proj_state i ≡ some q)
      × (may_become p.status q.status ≡ true)
      × Walks h (step host ctx call env) i q

  -- Through any history a project keeps existing, in each single transaction its status stays
  -- or makes one of the steps Funding to Active, Completed or Expired, and Active to Completed, Expired
  -- or Cancelled, no donation is uncounted, and once it is completed, expired or cancelled its state,
  -- the refund window included, never changes again.
  pub run-Lived :
      (h : List (Ctx × Call)) (env : Env W) (i : ℕ) (p : ProjectState)
      → IsFresh env.store
      → env.store.proj_state i ≡ some p
      → (q : ProjectState) × ((run host h env).store.proj_state i ≡ some q)
        × Lived p q
        × Walks h env i p
  unfolding run
  run-Lived [] env i p f e =
      (p, e, record { leads = stay; counted = omega arith; final = λ _. refl }, tt)
  run-Lived ((ctx, call) ∷ h) env i p f e =
      let (q, at, evolves) = step-Evolves ctx call env i p f e in
      let (r, then', lived, walks) =
        run-Lived h (step host ctx call env) i q (step-IsFresh host ctx call env f) at in
      (
        r,
        then',
        Evolves-Lived p q r evolves lived,
        (q, at, may_become-inv7 p.status q.status evolves.forward, walks),
      )

  step-Keeps :
      (ctx : Ctx) (call : Call) (env : Env W) (i : ℕ) (a : ProjectConfig)
      → IsFresh env.store
      → env.store.proj_config i ≡ some a
      → (b : ProjectConfig) × ((step host ctx call env).store.proj_config i ≡ some b) × Keeps a b
  step-Keeps ctx call env i a f h = elim (step-Change host ctx call env) [
    | inl e ↦ (a, rw e h, ground arith)
    | inr c ↦ Change-Keeps host ctx env _ c f i a h
  ]

  -- Through any history a project's configuration keeps every field but the deadline, which never
  -- moves to an earlier time.
  pub run-Keeps :
      (h : List (Ctx × Call)) (env : Env W) (i : ℕ) (a : ProjectConfig)
      → IsFresh env.store
      → env.store.proj_config i ≡ some a
      → (b : ProjectConfig) × ((run host h env).store.proj_config i ≡ some b) × Keeps a b
  unfolding run
  run-Keeps [] env i a f e = (a, e, ground arith)
  run-Keeps ((ctx, call) ∷ h) env i a f e =
      let (b, at, k) = step-Keeps ctx call env i a f e in
      let (c, then', l) =
        run-Keeps h (step host ctx call env) i b (step-IsFresh host ctx call env f) at in
      (c, then', Keeps-trans a b c k l)
