-- ===== src/Indexer/Kinds/Names.antt =====
-- Topics, kinds and their names, of backend/indexer/src/events.rs.
use Prim.Native.String.{String}
use text.Mathlib.Text.{◌==◌}
use pifp_stellar.Base.{◌≡◌, refl, Bool, true, false, not, if◌then◌else◌}
use pifp_stellar.Base.Text.{member}
use pifp_stellar.Indexer.Kinds.{
  EventKind, project_created, project_funded, project_active, project_verified, project_expired,
  project_cancelled, funds_released, donator_refunded, role_set, role_del, protocol_paused,
  protocol_unpaused, unknown, from_topic, as_str, topic_symbols, is_unknown, of_name,
}

-- One arm of the match.
one_topic :
    (k rest : EventKind) {m : Bool} (b : Bool)
    → not (is_unknown k) ≡ true
    → not (is_unknown rest) ≡ m
    → not (is_unknown (if b then k else rest)) ≡ (if b then true else m)
one_topic k rest true h g = h
one_topic k rest false h g = g

-- The topic is one of the filter's symbols exactly when it names a kind.
pub from_topic-known :
    (topic : String) → not (is_unknown (from_topic topic)) ≡ member topic topic_symbols
unfolding from_topic
from_topic-known topic = one_topic _ _ (topic == "created") refl (
    one_topic _ _ (topic == "funded") refl (
      one_topic _ _ (topic == "active") refl (
        one_topic _ _ (topic == "verified") refl (
          one_topic _ _ (topic == "expired") refl (
            one_topic _ _ (topic == "cancelled") refl (
              one_topic _ _ (topic == "released") refl (
                one_topic _ _ (topic == "refunded") refl (
                  one_topic _ _ (topic == "role_set") refl (
                    one_topic _ _ (topic == "role_del") refl (
                      one_topic _ _ (topic == "paused") refl
                        (one_topic _ _ (topic == "unpaused") refl refl)))))))))))

pub of_name-as_str : (k : EventKind) → of_name (as_str k) ≡ k
unfolding as_str of_name
of_name-as_str project_created = refl
of_name-as_str project_funded = refl
of_name-as_str project_active = refl
of_name-as_str project_verified = refl
of_name-as_str project_expired = refl
of_name-as_str project_cancelled = refl
of_name-as_str funds_released = refl
of_name-as_str donator_refunded = refl
of_name-as_str role_set = refl
of_name-as_str role_del = refl
of_name-as_str protocol_paused = refl
of_name-as_str protocol_unpaused = refl
of_name-as_str unknown = refl
