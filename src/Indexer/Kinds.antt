-- ===== src/Indexer/Kinds.antt =====
-- backend/indexer/src/events.rs, and the topic symbols of rpc.rs.
pub mod Names
use Prim.Native.String.{String}
use text.Mathlib.Text.{◌==◌}
use pifp_stellar.Base.{Bool, true, false, List, [], ◌∷◌, Option, if◌then◌else◌}
use pifp_stellar.Base.Int.{ℤ}

pub data EventKind : Type 0 where
  project_created project_funded project_active project_verified project_expired project_cancelled
        funds_released donator_refunded role_set role_del protocol_paused protocol_unpaused
        unknown :
      EventKind

unfoldable pub from_topic : String → EventKind
from_topic topic =
    if topic == "created"
    then project_created
    else if topic == "funded"
    then project_funded
    else if topic == "active"
    then project_active
    else if topic == "verified"
    then project_verified
    else if topic == "expired"
    then project_expired
    else if topic == "cancelled"
    then project_cancelled
    else if topic == "released"
    then funds_released
    else if topic == "refunded"
    then donator_refunded
    else if topic == "role_set"
    then role_set
    else if topic == "role_del"
    then role_del
    else if topic == "paused"
    then protocol_paused
    else if topic == "unpaused"
    then protocol_unpaused
    else unknown

unfoldable pub as_str : EventKind → String
as_str project_created = "project_created"
as_str project_funded = "project_funded"
as_str project_active = "project_active"
as_str project_verified = "project_verified"
as_str project_expired = "project_expired"
as_str project_cancelled = "project_cancelled"
as_str funds_released = "funds_released"
as_str donator_refunded = "donator_refunded"
as_str role_set = "role_set"
as_str role_del = "role_del"
as_str protocol_paused = "protocol_paused"
as_str protocol_unpaused = "protocol_unpaused"
as_str unknown = "unknown"

-- The arm for a kind in a `match` on its name.
unfoldable pub of_name : String → EventKind
of_name s =
    if s == "project_created"
    then project_created
    else if s == "project_funded"
    then project_funded
    else if s == "project_active"
    then project_active
    else if s == "project_verified"
    then project_verified
    else if s == "project_expired"
    then project_expired
    else if s == "project_cancelled"
    then project_cancelled
    else if s == "funds_released"
    then funds_released
    else if s == "donator_refunded"
    then donator_refunded
    else if s == "role_set"
    then role_set
    else if s == "role_del"
    then role_del
    else if s == "protocol_paused"
    then protocol_paused
    else if s == "protocol_unpaused"
    then protocol_unpaused
    else unknown

-- `PIFP_TOPIC_SYMBOLS`.
abbrev pub topic_symbols : List String
topic_symbols =
    "created" ∷ "funded" ∷ "active" ∷ "verified" ∷ "expired" ∷ "cancelled" ∷ "released" ∷ "refunded"
    ∷ "role_set" ∷ "role_del" ∷ "paused" ∷ "unpaused" ∷ []

abbrev pub is_unknown : EventKind → Bool
is_unknown unknown = true
is_unknown _ = false

pub record PifpEvent : Type 0 where
  pub event_type : String
  pub project_id : Option String
  pub actor : Option String
  pub amount : Option String
  pub ledger : ℤ
  pub timestamp : ℤ
  pub contract_id : String
  pub tx_hash : Option String
  pub extra_data : Option String
