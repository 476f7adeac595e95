-- ===== src/Indexer/Decode/Published.antt =====
-- Contract events as they are published, and what is to be stored of each, written out apart from
-- the decoding of backend/indexer/src/rpc.rs.
use Prim.Native.String.{String}
use pifp_stellar.Base.{◌≡◌, ℕ, false, List, [], ◌∷◌, Option, none, some, if◌then◌else◌}
use pifp_stellar.Base.Text.{member}
use pifp_stellar.Indexer.Json
use pifp_stellar.Indexer.Json.{Value, string, array, object, nil, cons, end}

-- What a contract reports, each with its fields; and an event with another leading topic, or with none.
pub data Happened : Type 0 where
  created : (creator goal token : String) → Happened
  funded : (donator amount : String) → Happened
  active expired : Happened
  verified : (oracle proof_hash : String) → Happened
  cancelled : (cancelled_by : String) → Happened
  released : (amount token : String) → Happened
  refunded : (donator amount : String) → Happened
  role_set role_del : (caller : String) → Happened
  paused unpaused : (caller : String) → Happened
  other : (symbol : String) → Happened
  silent : Happened

pub record Published : Type 0 where
  pub what : Happened
  -- The second topic: the project's id, or the caller's address.
  pub project_id : String
  pub contract_id : Option String
  pub tx_hash : Option String
  pub ledger : ℕ
  pub closed_at : String

-- The leading topics of the contract's events that the indexer is to know.
abbrev pub known : List String
known =
    "created" ∷ "funded" ∷ "active" ∷ "verified" ∷ "expired" ∷ "cancelled" ∷ "released" ∷ "refunded"
    ∷ "role_set" ∷ "role_del" ∷ "paused" ∷ "unpaused" ∷ []

-- The other leading topics are none of these.
abbrev pub IsOther : Happened → Type 0
IsOther (other symbol) = member symbol known ≡ false
IsOther _ = Unit

abbrev pub AreOther : List Published → Type 0
AreOther [] = Unit
AreOther (e ∷ es) = IsOther e.what × AreOther es

abbrev pub symbol_of : Happened → Option String
symbol_of (created creator goal token) = some "created"
symbol_of (funded donator amount) = some "funded"
symbol_of active = some "active"
symbol_of expired = some "expired"
symbol_of (verified oracle proof_hash) = some "verified"
symbol_of (cancelled cancelled_by) = some "cancelled"
symbol_of (released amount token) = some "released"
symbol_of (refunded donator amount) = some "refunded"
symbol_of (role_set caller) = some "role_set"
symbol_of (role_del caller) = some "role_del"
symbol_of (paused caller) = some "paused"
symbol_of (unpaused caller) = some "unpaused"
symbol_of (other symbol) = some symbol
symbol_of silent = none

abbrev field : String → String → Json.Members → Json.Members
field key text rest = Json.member key (string text) rest

-- The data of an event: its fields in the order of their keys, a pair for a refund, and the caller for
-- a change of a role or a pause.
abbrev pub data_of : String → Happened → Value
data_of id (created creator goal token) =
    object (
      field "creator" creator (field "goal" goal (field "project_id" id (field "token" token end))))
data_of id (funded donator amount) =
    object (field "amount" amount (field "donator" donator (field "project_id" id end)))
data_of id active = object (field "project_id" id end)
data_of id expired = object (field "project_id" id end)
data_of id (verified oracle proof_hash) =
    object (field "oracle" oracle (field "project_id" id (field "proof_hash" proof_hash end)))
data_of id (cancelled cancelled_by) =
    object (field "cancelled_by" cancelled_by (field "project_id" id end))
data_of id (released amount token) =
    object (field "amount" amount (field "project_id" id (field "token" token end)))
data_of id (refunded donator amount) = array (cons (string donator) (cons (string amount) nil))
data_of id (role_set caller) = string caller
data_of id (role_del caller) = string caller
data_of id (paused caller) = string caller
data_of id (unpaused caller) = string caller
data_of id (other symbol) = object end
data_of id silent = object end

-- An event's type, actor, amount and extra data, as they are to be stored.
pub record Told : Type 0 where
  pub event_type : String
  pub actor : Option String
  pub amount : Option String
  pub extra_data : Option String

abbrev told : String → Option String → Option String → Option String → Option Told
told event_type actor amount extra_data =
    some record { event_type = event_type; actor = actor; amount = amount; extra_data = extra_data }

abbrev pub told_of : Happened → Option Told
told_of (created creator goal token) =
    told "project_created" (some creator) (some goal) (some token)
told_of (funded donator amount) = told "project_funded" (some donator) (some amount) none
told_of active = told "project_active" none none none
told_of expired = told "project_expired" none none none
told_of (verified oracle proof_hash) = told "project_verified" (some oracle) none (some proof_hash)
told_of (cancelled cancelled_by) = told "project_cancelled" (some cancelled_by) none none
told_of (released amount token) = told "funds_released" none (some amount) (some token)
told_of (refunded donator amount) = told "donator_refunded" (some donator) (some amount) none
told_of (role_set caller) = told "role_set" (some caller) none none
told_of (role_del caller) = told "role_del" (some caller) none none
told_of (paused caller) = told "protocol_paused" (some caller) none none
told_of (unpaused caller) = told "protocol_unpaused" (some caller) none none
told_of (other symbol) = none
told_of silent = none

-- The contract of an event, unless the event is not for the configured contracts.
abbrev pub tracked : List String → Option String → Option String
tracked [] none = some ""
tracked (id ∷ ids) none = some id
tracked ids (some contract_id) = if member contract_id ids then some contract_id else none
