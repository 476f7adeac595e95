-- ===== src/Indexer/Cache/Fresh.antt =====
-- How old a cached response of the handlers in backend/indexer/src/api.rs can be.
use pifp_stellar.Base.{
  ℕ, suc, zero, ◌+◌, ◌≡◌, ◌≤◌, ◌⊎◌, arith, refl, inl, inr, Bool, true, false, List, [], ◌∷◌, Option,
  none, some, ap, sym, subst, Bool-cases, Option-cases, ==→eq,
}
use pifp_stellar.Indexer.Cache.{
  Endpoint, top_projects, active_projects_count, same_endpoint, Key, same_key, Entry, find_entry,
  expire, System, Action, insert, invalidate, request, answer, write, time_out, nth, get_version,
  invalidate_all, get_json, set_json, cached, begin_request, query_request, finish_request, act,
  acts, started,
}

-- A response is what the query gives on some of the tables.
abbrev pub IsFrom : {D R : Type 0} → (D → Endpoint → R) → R → Endpoint → List D → Type 0
IsFrom query v e [] = ⊥
IsFrom query v e (d ∷ ds) = (v ≡ query d e) ⊎ IsFrom query v e ds

same_endpoint-eq : (a b : Endpoint) → same_endpoint a b ≡ true → a ≡ b
same_endpoint-eq (top_projects m) (top_projects n) h = ap top_projects (==→eq m n h)
same_endpoint-eq active_projects_count active_projects_count h = refl
same_endpoint-eq (top_projects m) active_projects_count h = absurd (ground (arith, h))
same_endpoint-eq active_projects_count (top_projects n) h = absurd (ground (arith, h))

same_key-eq : (a b : Key) → same_key a b ≡ true → a ≡ b
same_key-eq a b h =
    let v : a.version ≡ b.version = ground (arith, h) in
    let e : a.endpoint ≡ b.endpoint = same_endpoint-eq a.endpoint b.endpoint (ground (arith, h)) in
    λ i. record { version = v i; endpoint = e i }

module _ {D R : Type 0} (query : D → Endpoint → R) where
  -- The keys do not name a later version, and the entries of the current one are recent.
  abbrev Old : ℕ → List Key → Type 0
  Old n [] = Unit
  Old n (k ∷ ks) = (k.version ≤ n) × Old n ks

  abbrev Recent : ℕ → List D → List (Entry R) → Type 0
  Recent n ds [] = Unit
  Recent n ds (x ∷ xs) =
      (x.key.version ≤ n)
      × (x.key.version ≡ n → IsFrom query x.value x.key.endpoint ds)
      × Recent n ds xs

  record IsFresh (s : System D R) : Type 0 where
    entries : Recent s.redis.version (s.tables ∷ s.earlier) s.redis.entries
    keys : Old s.redis.version s.pending
    queried : Recent s.redis.version (s.tables ∷ s.earlier) s.queried

  Recent-insert :
      (n : ℕ) (d : D) (ds : List D) (xs : List (Entry R)) → Recent n ds xs → Recent n (d ∷ ds) xs
  Recent-insert n d ds [] h = tt
  Recent-insert n d ds (x ∷ xs) (le, from, rest) =
      (le, λ e. inr (from e), Recent-insert n d ds xs rest)

  -- After a bump no entry is of the current version.
  Recent-bump :
      (n : ℕ) (ds es : List D) (xs : List (Entry R)) → Recent n ds xs → Recent (n + 1) es xs
  Recent-bump n ds es [] h = tt
  Recent-bump n ds es (x ∷ xs) (le, from, rest) =
      (ground arith, λ e. absurd (omega (arith, le, e)), Recent-bump n ds es xs rest)

  Recent-expire :
      (n : ℕ) (ds : List D) (expired : Key → Bool) (xs : List (Entry R))
      → Recent n ds xs
      → Recent n ds (expire expired xs)
  Recent-expire n ds expired [] h = tt
  Recent-expire n ds expired (x ∷ xs) (le, from, rest) = elim (Bool-cases (expired x.key)) [
    | inl e ↦ rw (expire, e) (Recent-expire n ds expired xs rest)
    | inr e ↦ rw (expire, e) (le, from, Recent-expire n ds expired xs rest)
  ]

  Old-bump : (n : ℕ) (ks : List Key) → Old n ks → Old (n + 1) ks
  Old-bump n [] h = tt
  Old-bump n (k ∷ ks) (le, rest) = (ground arith, Old-bump n ks rest)

  Old-nth : (n m : ℕ) (ks : List Key) (k : Key) → Old n ks → nth m ks ≡ some k → k.version ≤ n
  Old-nth n m [] k h e = absurd (ground (arith, e))
  Old-nth n zero (x ∷ xs) k (le, rest) e =
      let same : x ≡ k = ground (arith, e) in ground (arith, same, le)
  Old-nth n (suc m) (x ∷ xs) k (le, rest) e = Old-nth n m xs k rest e

  find-Recent :
      (n : ℕ) (ds : List D) (xs : List (Entry R)) (e : Endpoint) (v : R)
      → Recent n ds xs
      → find_entry (record { version = n; endpoint = e }) xs ≡ some v
      → IsFrom query v e ds
  find-Recent n ds [] e v h f = absurd (ground (arith, f))
  find-Recent n ds (x ∷ xs) e v (le, from, rest) f =
      let k : Key = record { version = n; endpoint = e } in
      elim (Bool-cases (same_key k x.key)) [
        | inl same ↦
            let eq : k ≡ x.key = same_key-eq k x.key same in
            let value : x.value ≡ v = ground (arith, same, f) in
            subst (λ w. IsFrom query w e ds) value
              (subst (λ k'. IsFrom query x.value k'.endpoint ds) (sym eq)
                (from (sym (ap (λ k'. k'.version) eq))))
        | inr other ↦ find-Recent n ds xs e v rest (ground (arith, other, f))
      ]

  -- What Recent says of one entry.
  abbrev IsRecent : ℕ → List D → Entry R → Type 0
  IsRecent n ds x =
      (x.key.version ≤ n) × (x.key.version ≡ n → IsFrom query x.value x.key.endpoint ds)

  Recent-nth :
      (n m : ℕ) (ds : List D) (xs : List (Entry R)) (x : Entry R)
      → Recent n ds xs
      → nth m xs ≡ some x
      → IsRecent n ds x
  Recent-nth n m ds [] x h e = absurd (ground (arith, e))
  Recent-nth n zero ds (y ∷ ys) x (le, from, rest) e =
      let same : y ≡ x = ground (arith, e) in subst (IsRecent n ds) same (le, from)
  Recent-nth n (suc m) ds (y ∷ ys) x (le, from, rest) e = Recent-nth n m ds ys x rest e

  set-IsFresh :
      (s : System D R) (x : Entry R) (answers : Bool)
      → IsFresh s
      → IsRecent s.redis.version (s.tables ∷ s.earlier) x
      → IsFresh (record s { redis = set_json answers x.key x.value s.redis })
  unfolding set_json
  set-IsFresh s x true h (le, from) = record {
    entries = (le, from, h.entries);
    keys = h.keys;
    queried = h.queried;
  }
  set-IsFresh s x false h recent = record {
    entries = h.entries;
    keys = h.keys;
    queried = h.queried;
  }

  finish-IsFresh :
      (s : System D R) (answers : Bool) (n : ℕ)
      → IsFresh s
      → IsFresh (finish_request query s answers (nth n s.queried))
  finish-IsFresh s answers n h = elim (Option-cases (nth n s.queried)) [
    | inl e ↦ rw (finish_request, e) h
    | inr (x, e) ↦
        rw (finish_request, e)
          (set-IsFresh s x answers h
            (Recent-nth s.redis.version n (s.tables ∷ s.earlier) s.queried x h.queried e))
  ]

  query-IsFresh :
      (s : System D R) (n : ℕ) → IsFresh s → IsFresh (query_request query s (nth n s.pending))
  query-IsFresh s n h = elim (Option-cases (nth n s.pending)) [
    | inl e ↦ rw (query_request, e) h
    | inr (k, e) ↦
        rw (query_request, e)
          record {
            entries = h.entries;
            keys = h.keys;
            queried = (Old-nth s.redis.version n s.pending k h.keys e, λ same. inl refl, h.queried);
          }
  ]

  begin-IsFresh :
      (s : System D R) (e : Endpoint) (r : Option R)
      → IsFresh s
      → IsFresh (begin_request query s e r)
  unfolding get_version
  begin-IsFresh s e (some r) h = h
  begin-IsFresh s e none h = record {
    entries = h.entries;
    keys = (ground arith, h.keys);
    queried = h.queried;
  }

  act-IsFresh : (s : System D R) (a : Action D) → IsFresh s → IsFresh (act query s a)
  unfolding act invalidate_all
  act-IsFresh s (insert tables) h = record {
    entries = Recent-insert s.redis.version tables (s.tables ∷ s.earlier) s.redis.entries h.entries;
    keys = h.keys;
    queried = Recent-insert s.redis.version tables (s.tables ∷ s.earlier) s.queried h.queried;
  }
  act-IsFresh s invalidate h = record {
    entries =
        Recent-bump s.redis.version (s.tables ∷ s.earlier) (s.tables ∷ []) s.redis.entries
          h.entries;
    keys = Old-bump s.redis.version s.pending h.keys;
    queried =
        Recent-bump s.redis.version (s.tables ∷ s.earlier) (s.tables ∷ []) s.queried h.queried;
  }
  act-IsFresh s (request e answers) h = begin-IsFresh s e (cached query s e answers) h
  act-IsFresh s (answer n) h = query-IsFresh s n h
  act-IsFresh s (write n answers) h = finish-IsFresh s answers n h
  act-IsFresh s (time_out expired) h = record {
    entries =
        Recent-expire s.redis.version (s.tables ∷ s.earlier) expired s.redis.entries h.entries;
    keys = h.keys;
    queried = h.queried;
  }

  acts-IsFresh :
      (actions : List (Action D)) (s : System D R) → IsFresh s → IsFresh (acts query s actions)
  acts-IsFresh [] s h = h
  acts-IsFresh (a ∷ rest) s h = acts-IsFresh rest (act query s a) (act-IsFresh s a h)

  -- However polls, requests, their queries and the writes of what these gave come between one
  -- another, while Redis answers the reads and the bumps of the version, and each request reads the
  -- version and its entry at once: a cached response is what the query gives on the present tables or
  -- on those before an insertion that no invalidation has followed yet.
  pub cached-IsFrom :
      (tables : D) (actions : List (Action D)) (e : Endpoint) (answers : Bool) (response : R)
      → cached query (acts query (started tables) actions) e answers ≡ some response
      → let s = acts query (started tables) actions in
        IsFrom query response e (s.tables ∷ s.earlier)
  unfolding get_json get_version
  cached-IsFrom tables actions e answers response h =
      let s = acts query (started tables) actions in
      let start : IsFresh (started tables) = record { entries = tt; keys = tt; queried = tt } in
      let fresh : IsFresh s = acts-IsFresh actions (started tables) start in
      find-Recent s.redis.version (s.tables ∷ s.earlier) s.redis.entries e response fresh.entries
        (ground (arith, h))
