-- ===== src/Inflight/Outbound.antt =====
-- The class SessionOutboundInflight of libs/mqtt_broker/src/inflight.cpp: the deliveries of a session
-- that the client has not acknowledged, and the packet identifiers for new ones. A pointer to an
-- entry is its index. The pools that a method may be given are arguments, `none` for a null pointer,
-- and are returned as the method leaves them.
use net_burner_mqtt_broker.Base.{
  ℕ, zero, suc, ◌+◌, Bool, true, false, ◌&&◌, ◌||◌, not, leb, ◌==◌, u16, if◌then◌else◌,
}
use net_burner_mqtt_broker.Base.{List, [], ◌∷◌, Option, none, some, get_elem?, set, replicate}
use net_burner_mqtt_broker.Delivery.{MessageHandle, TopicHandle}
use net_burner_mqtt_broker.MessagePool.{MessagePool, msg_valid, msg_release}
use net_burner_mqtt_broker.TopicIntern.{TopicInternPool, release}
use net_burner_mqtt_broker.Inflight.Limits.{qos_inflight_per_client}
use mathlib.Core.Option

-- `unset` is the value 0 that `{}` leaves in an entry.
pub data OutboundQoS2Phase : Type 0 where
  unset : OutboundQoS2Phase
  awaiting_pubrec : OutboundQoS2Phase
  awaiting_pubcomp : OutboundQoS2Phase

pub record OutboundInflightEntry : Type 0 where
  pub in_use : Bool
  pub packet_id : ℕ
  pub message : MessageHandle
  pub topic : TopicHandle
  pub delivery_qos : ℕ
  pub retain_flag : Bool
  pub qos2_phase : OutboundQoS2Phase

pub record SessionOutboundInflight : Type 0 where
  pub entries : List OutboundInflightEntry
  pub next_id : ℕ

-- The entry `{}`.
abbrev pub blank_entry : OutboundInflightEntry
blank_entry = record {
  in_use = false;
  packet_id = 0;
  message = record { slot = 0; generation = 0 };
  topic = record { slot = 0; generation = 0 };
  delivery_qos = 0;
  retain_flag = false;
  qos2_phase = unset;
}

-- The constructor.
unfoldable pub empty_table : SessionOutboundInflight
empty_table = record { entries = replicate qos_inflight_per_client blank_entry; next_id = 1 }

unfoldable pub count : List OutboundInflightEntry → ℕ
count [] = 0
count (e ∷ es) = if e.in_use then count es + 1 else count es

unfoldable pub at_capacity : SessionOutboundInflight → Bool
unfolding count
at_capacity t = leb qos_inflight_per_client (count t.entries)

-- `entries_[i].in_use && entries_[i].packet_id == packet_id`
abbrev pub holds : ℕ → OutboundInflightEntry → Bool
holds packet_id e = e.in_use && e.packet_id == packet_id

unfoldable pub find : ℕ → List OutboundInflightEntry → Option ℕ
find packet_id [] = none
find packet_id (e ∷ es) =
    let rest = Option.map suc (find packet_id es) in if holds packet_id e then some 0 else rest

-- A pointer that is not null.
abbrev pub found : Option ℕ → Bool
found none = false
found (some i) = true

-- The loop of `next_packet_id` with the attempts that are left: `next_id_` and what is returned.
unfoldable pub try_ids : ℕ → List OutboundInflightEntry → ℕ → ℕ × ℕ
unfolding find
try_ids zero es next_id = (next_id, 0)
try_ids (suc attempts) es next_id =
    let id = if next_id == 0 then 1 else next_id in
    elim (find id es) [ none ↦ (u16 (id + 1), id) | some i ↦ try_ids attempts es (u16 (id + 1)) ]

unfoldable pub next_packet_id : SessionOutboundInflight → SessionOutboundInflight × ℕ
unfolding try_ids
next_packet_id t =
    let (next_id, id) = try_ids 65535 t.entries t.next_id in (record t { next_id = next_id }, id)

unfoldable pub reset_packet_ids : SessionOutboundInflight → SessionOutboundInflight
reset_packet_ids t = record t { next_id = 1 }

-- The loop of `insert`: the first entry that is not in use is written; `none` where there is none.
unfoldable pub store_first :
    OutboundInflightEntry → List OutboundInflightEntry → Option (List OutboundInflightEntry)
store_first new [] = none
store_first new (e ∷ es) =
    let rest = Option.map (λ es'. e ∷ es') (store_first new es) in
    if not e.in_use then some (new ∷ es) else rest

unfoldable pub insert :
    SessionOutboundInflight
    → ℕ
    → MessageHandle
    → TopicHandle
    → ℕ
    → Bool
    → OutboundQoS2Phase
    → SessionOutboundInflight × Bool
unfolding find store_first at_capacity
insert t packet_id msg topic delivery_qos retain_flag qos2_phase =
    if packet_id == 0 || found (find packet_id t.entries) || at_capacity t
    then (t, false)
    else let new : OutboundInflightEntry = record {
      in_use = true;
      packet_id = packet_id;
      message = msg;
      topic = topic;
      delivery_qos = delivery_qos;
      retain_flag = retain_flag;
      qos2_phase = if leb 2 delivery_qos then qos2_phase else awaiting_pubrec;
    } in
      elim (store_first new t.entries) [
        | some entries ↦ (record t { entries = entries }, true)
        | none ↦ (t, false)
      ]

-- The references that an entry holds are given back to the pools that are there.
unfoldable pub release_message : Option MessagePool → MessageHandle → Option MessagePool
release_message none h = none
release_message (some pool) h = some (if msg_valid pool h then msg_release pool h else pool)

unfoldable pub release_topic : Option TopicInternPool → TopicHandle → Option TopicInternPool
release_topic none h = none
release_topic (some topics) h = some (release topics h)

abbrev pub entry_at : List OutboundInflightEntry → ℕ → OutboundInflightEntry
entry_at es i = Option.get_or (get_elem? es i) blank_entry

unfoldable pub remove :
    SessionOutboundInflight
    → ℕ
    → Option MessagePool
    → Option TopicInternPool
    → SessionOutboundInflight × Bool × Option MessagePool × Option TopicInternPool
unfolding find
remove t packet_id pool topics = elim (find packet_id t.entries) [
  | none ↦ (t, false, pool, topics)
  | some i ↦ (
    record t { entries = set t.entries i blank_entry },
    true,
    release_message pool (entry_at t.entries i).message,
    release_topic topics (entry_at t.entries i).topic,
  )
]

-- The loop of `clear`.
unfoldable pub clear_entries :
    List OutboundInflightEntry
    → Option MessagePool
    → Option TopicInternPool
    → List OutboundInflightEntry × Option MessagePool × Option TopicInternPool
clear_entries [] pool topics = ([], pool, topics)
clear_entries (e ∷ es) pool topics =
    let (es', pool', topics') =
      clear_entries es (if e.in_use then release_message pool e.message else pool)
        (if e.in_use then release_topic topics e.topic else topics) in
    ((if e.in_use then blank_entry else e) ∷ es', pool', topics')

unfoldable pub clear :
    SessionOutboundInflight
    → Option MessagePool
    → Option TopicInternPool
    → SessionOutboundInflight × Option MessagePool × Option TopicInternPool
unfolding clear_entries
clear t pool topics =
    let (es, pool', topics') = clear_entries t.entries pool topics in
    (record t { entries = es }, pool', topics')
