-- ===== src/Indexer/Cache.antt =====
-- The cache in Redis, backend/indexer/src/cache.rs, and the handlers that use it in
-- backend/indexer/src/api.rs. A handler is cut before its database query and between the query and
-- the write of the entry, so that polls and other requests can come between; its reads of the version
-- and of the entry are one step. The tables and the query are parameters. Each call of Redis says whether Redis answers it.
pub mod Fresh
use pifp_stellar.Base.{
  ℕ, suc, zero, ◌+◌, ◌==◌, Bool, true, false, List, [], ◌∷◌, Option, none, some, get_or,
  if◌then◌else◌, ◌&&◌, leb,
}

-- What a key names besides the version.
pub data Endpoint : Type 0 where
  top_projects : ℕ → Endpoint
  active_projects_count : Endpoint

abbrev pub same_endpoint : Endpoint → Endpoint → Bool
same_endpoint (top_projects m) (top_projects n) = m == n
same_endpoint active_projects_count active_projects_count = true
same_endpoint _ _ = false

pub record Key : Type 0 where
  pub version : ℕ
  pub endpoint : Endpoint

abbrev pub same_key : Key → Key → Bool
same_key a b = (a.version == b.version) && same_endpoint a.endpoint b.endpoint

pub record Entry (R : Type 0) : Type 0 where
  pub key : Key
  pub value : R

-- The version is 0 while its key is not set.
pub record Redis (R : Type 0) : Type 0 where
  pub version : ℕ
  pub entries : List (Entry R)

-- `query.limit.unwrap_or(10).clamp(1, 100)`.
abbrev pub top_endpoint : Option ℕ → Endpoint
top_endpoint limit =
    let n = get_or 10 limit in top_projects (if leb n 1 then 1 else if leb 100 n then 100 else n)

module _ {R : Type 0} where
  unfoldable pub get_version : Bool → Redis R → ℕ
  get_version answers redis = if answers then redis.version else 0

  unfoldable pub invalidate_all : Bool → Redis R → Redis R
  invalidate_all answers redis =
      if answers then record redis { version = redis.version + 1 } else redis

  abbrev pub find_entry : Key → List (Entry R) → Option R
  find_entry k [] = none
  find_entry k (x ∷ xs) = if same_key k x.key then some x.value else find_entry k xs

  unfoldable pub get_json : Bool → Key → Redis R → Option R
  get_json answers k redis = if answers then find_entry k redis.entries else none

  -- The newest entry of a key stands first.
  unfoldable pub set_json : Bool → Key → R → Redis R → Redis R
  set_json answers k value redis =
      if answers
      then record redis { entries = record { key = k; value = value } ∷ redis.entries }
      else redis

  -- The times to live that have run out.
  abbrev pub expire : (Key → Bool) → List (Entry R) → List (Entry R)
  expire expired [] = []
  expire expired (x ∷ xs) = if expired x.key then expire expired xs else x ∷ expire expired xs

-- The tables, what they were before since the last invalidation, the requests before their query, and
-- what queries gave that is not written yet.
pub record System (D R : Type 0) : Type 0 where
  pub tables : D
  pub earlier : List D
  pub redis : Redis R
  pub pending : List Key
  pub queried : List (Entry R)

pub data Action (D : Type 0) : Type 0 where
  insert : D → Action D
  invalidate : Action D
  request : Endpoint → Bool → Action D
  answer : ℕ → Action D
  write : ℕ → Bool → Action D
  time_out : (Key → Bool) → Action D

abbrev pub nth : {A : Type 0} → ℕ → List A → Option A
nth n [] = none
nth zero (k ∷ ks) = some k
nth (suc n) (k ∷ ks) = nth n ks

module _ {D R : Type 0} (query : D → Endpoint → R) where
  -- The cached response to a request, if there is one.
  abbrev pub cached : System D R → Endpoint → Bool → Option R
  cached s e answers =
      get_json answers (record { version = get_version true s.redis; endpoint = e }) s.redis

  abbrev begin_request : System D R → Endpoint → Option R → System D R
  begin_request s e (some response) = s
  begin_request s e none = record s {
    pending = record { version = get_version true s.redis; endpoint = e } ∷ s.pending;
  }

  -- The database query of a request.
  abbrev query_request : System D R → Option Key → System D R
  query_request s none = s
  query_request s (some k) = record s {
    queried = record { key = k; value = query s.tables k.endpoint } ∷ s.queried;
  }

  -- `set_json` with what a query gave.
  abbrev finish_request : System D R → Bool → Option (Entry R) → System D R
  finish_request s answers none = s
  finish_request s answers (some x) = record s { redis = set_json answers x.key x.value s.redis }

  -- Redis answers the reads and the bumps of the version.
  unfoldable pub act : System D R → Action D → System D R
  act s (insert tables) = record s { tables = tables; earlier = s.tables ∷ s.earlier }
  act s invalidate = record s { redis = invalidate_all true s.redis; earlier = [] }
  act s (request e answers) = begin_request s e (cached s e answers)
  act s (answer n) = query_request s (nth n s.pending)
  act s (write n answers) = finish_request s answers (nth n s.queried)
  act s (time_out expired) = record s {
    redis = record { version = s.redis.version; entries = expire expired s.redis.entries };
  }

  abbrev pub acts : System D R → List (Action D) → System D R
  acts s [] = s
  acts s (a ∷ rest) = acts (act s a) rest

abbrev pub started : {D R : Type 0} → D → System D R
started tables = record {
  tables = tables;
  earlier = [];
  redis = record { version = 0; entries = [] };
  pending = [];
  queried = [];
}
