-- ===== src/Inflight/Reach.antt =====
-- The outbound table over the life of a session: every table that the broker's calls can lead to.
use net_burner_mqtt_broker.Base.{
  ℕ, suc, ◌≡◌, refl, arith, ap, ◌∙◌, Bool, List, [], ◌∷◌, length, Option, if◌then◌else◌,
}
use net_burner_mqtt_broker.Delivery.{MessageHandle, TopicHandle}
use net_burner_mqtt_broker.MessagePool.{MessagePool}
use net_burner_mqtt_broker.TopicIntern.{TopicInternPool}
use net_burner_mqtt_broker.Inflight.Ids.{member, distinct}
use net_burner_mqtt_broker.Inflight.PacketId.{used_ids}
use net_burner_mqtt_broker.Inflight.Exchange.{
  IsValid, insert-IsValid, remove-IsValid, next_packet_id-IsValid,
}
use net_burner_mqtt_broker.Inflight.Outbound.{
  SessionOutboundInflight, OutboundInflightEntry, OutboundQoS2Phase, empty_table, insert, remove,
  next_packet_id, reset_packet_ids, clear, clear_entries, release_message, release_topic,
}

-- The tables that calls of the class lead to from a new one.
pub data Reachable : SessionOutboundInflight → Type 0 where
  started : Reachable empty_table
  numbered : {t : SessionOutboundInflight} → Reachable t → Reachable (next_packet_id t).0
  inserted :
      {t : SessionOutboundInflight} (id : ℕ) (msg : MessageHandle) (topic : TopicHandle) (qos : ℕ)
      (retain : Bool) (phase : OutboundQoS2Phase)
      → Reachable t
      → Reachable (insert t id msg topic qos retain phase).0
  removed :
      {t : SessionOutboundInflight} (id : ℕ) (pool : Option MessagePool)
      (topics : Option TopicInternPool)
      → Reachable t
      → Reachable (remove t id pool topics).0
  restarted : {t : SessionOutboundInflight} → Reachable t → Reachable (reset_packet_ids t)
  cleared :
      {t : SessionOutboundInflight} (pool : Option MessagePool) (topics : Option TopicInternPool)
      → Reachable t
      → Reachable (clear t pool topics).0

cleared_entries :
    (es : List OutboundInflightEntry) (pool : Option MessagePool) (topics : Option TopicInternPool)
    → (length (clear_entries es pool topics).0 ≡ length es)
      × (used_ids (clear_entries es pool topics).0 ≡ [])
unfolding clear_entries used_ids
cleared_entries [] pool topics = (refl, refl)
cleared_entries (e ∷ es) pool topics =
    let (size, empty) =
      cleared_entries es (if e.in_use then release_message pool e.message else pool)
        (if e.in_use then release_topic topics e.topic else topics) in
    (ap suc size, ground (arith, empty))

empty_table-IsValid : IsValid empty_table
unfolding empty_table used_ids distinct member
empty_table-IsValid = record { size = refl; apart = refl; no_zero = refl; word = omega arith }

clear-IsValid :
    (t : SessionOutboundInflight) (pool : Option MessagePool) (topics : Option TopicInternPool)
    → IsValid t
    → IsValid (clear t pool topics).0
unfolding clear distinct member
clear-IsValid t pool topics v =
    let (size, empty) = cleared_entries t.entries pool topics in
    record {
      size = size ∙ v.size;
      apart = ap distinct empty;
      no_zero = ap (member 0) empty;
      word = v.word;
    }

-- Whatever calls have been made, the table has its whole capacity, no two deliveries under way share
-- a packet identifier, and none has the identifier 0.
pub Reachable-IsValid : {t : SessionOutboundInflight} → Reachable t → IsValid t
unfolding reset_packet_ids
Reachable-IsValid started = empty_table-IsValid
Reachable-IsValid (numbered {t} r) = next_packet_id-IsValid t (Reachable-IsValid r)
Reachable-IsValid (inserted {t} id msg topic qos retain phase r) =
    insert-IsValid id msg topic qos retain phase t (Reachable-IsValid r)
Reachable-IsValid (removed {t} id pool topics r) =
    remove-IsValid t id pool topics (Reachable-IsValid r)
Reachable-IsValid (restarted {t} r) =
    let v = Reachable-IsValid r in
    record { size = v.size; apart = v.apart; no_zero = v.no_zero; word = omega arith }
Reachable-IsValid (cleared {t} pool topics r) = clear-IsValid t pool topics (Reachable-IsValid r)
