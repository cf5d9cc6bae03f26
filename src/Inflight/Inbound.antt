-- ===== src/Inflight/Inbound.antt =====
-- The class SessionInboundQoS2 of libs/mqtt_broker/src/inflight.cpp: the QoS 2 messages of a session
-- that wait for their PUBREL. A pointer to an entry is its index, a topic the C string in the array.
pub mod Duplicates
use net_burner_mqtt_broker.Base.{
  ℕ, zero, suc, ◌+◌, Bool, true, false, ◌&&◌, ◌||◌, not, leb, ◌==◌, if◌then◌else◌, List, [], ◌∷◌,
  Option, none, some, get_elem?, set, take, replicate,
}
use net_burner_mqtt_broker.Delivery.{MessageHandle}
use net_burner_mqtt_broker.MessagePool.{MessagePool, msg_valid, msg_release}
use net_burner_mqtt_broker.Inflight.Limits.{qos_inflight_per_client}
use mathlib.Core.Option

pub record InboundQoS2Entry : Type 0 where
  pub in_use : Bool
  pub packet_id : ℕ
  pub topic : List ℕ
  pub payload : MessageHandle
  pub payload_len : ℕ
  pub retain : Bool
  pub qos : ℕ
  pub dup : Bool
  pub pubrec_sent : Bool

pub record SessionInboundQoS2 : Type 0 where
  pub entries : List InboundQoS2Entry

-- The entry `{}`.
abbrev pub unstaged : InboundQoS2Entry
unstaged = record {
  in_use = false;
  packet_id = 0;
  topic = [];
  payload = record { slot = 0; generation = 0 };
  payload_len = 0;
  retain = false;
  qos = 0;
  dup = false;
  pubrec_sent = false;
}

-- The constructor.
unfoldable pub nothing_staged : SessionInboundQoS2
nothing_staged = record { entries = replicate qos_inflight_per_client unstaged }

-- The payload of an entry goes back to the pool, if there is one and the handle is valid.
unfoldable pub release_payload : Option MessagePool → MessageHandle → Option MessagePool
release_payload none h = none
release_payload (some pool) h = if msg_valid pool h then some (msg_release pool h) else some pool

-- The loop of `clear`: the entries and the pool.
unfoldable pub clear_loop :
    List InboundQoS2Entry → Option MessagePool → List InboundQoS2Entry × Option MessagePool
unfolding release_payload
clear_loop [] pool = ([], pool)
clear_loop (e ∷ es) pool =
    let (kept, pool1) = clear_loop es pool in
    let (rest, pool2) = clear_loop es (release_payload pool e.payload) in
    if not e.in_use then (e ∷ kept, pool1) else (unstaged ∷ rest, pool2)

unfoldable pub clear_staged :
    SessionInboundQoS2 → Option MessagePool → SessionInboundQoS2 × Option MessagePool
unfolding clear_loop
clear_staged t pool =
    let (es, pool') = clear_loop t.entries pool in (record { entries = es }, pool')

unfoldable pub staged_count : List InboundQoS2Entry → ℕ
staged_count [] = 0
staged_count (e ∷ es) = let n = staged_count es in if e.in_use then n + 1 else n

unfoldable pub staged_at_capacity : SessionInboundQoS2 → Bool
unfolding staged_count
staged_at_capacity t = leb qos_inflight_per_client (staged_count t.entries)

-- `entries_[i].in_use && entries_[i].packet_id == packet_id`
abbrev pub stages : ℕ → InboundQoS2Entry → Bool
stages packet_id e = e.in_use && e.packet_id == packet_id

unfoldable pub find_staged : ℕ → List InboundQoS2Entry → Option ℕ
find_staged packet_id [] = none
find_staged packet_id (e ∷ es) =
    let rest = Option.map suc (find_staged packet_id es) in
    if stages packet_id e then some 0 else rest

-- The index of the first entry that is not in use.
unfoldable pub first_unused : List InboundQoS2Entry → Option ℕ
first_unused [] = none
first_unused (e ∷ es) =
    let rest = Option.map suc (first_unused es) in if not e.in_use then some 0 else rest

-- `strncpy` into an array of 256 bytes, with a NUL in the last.
abbrev pub staged_entry : ℕ → List ℕ → MessageHandle → ℕ → Bool → ℕ → Bool → InboundQoS2Entry
staged_entry packet_id topic payload payload_len retain qos dup = record {
  in_use = true;
  packet_id = packet_id;
  topic = take 255 topic;
  payload = payload;
  payload_len = payload_len;
  retain = retain;
  qos = qos;
  dup = dup;
  pubrec_sent = false;
}

-- The loop of `insert`.
unfoldable pub store_unused : SessionInboundQoS2 → InboundQoS2Entry → SessionInboundQoS2 × Option ℕ
unfolding first_unused
store_unused t e = elim (first_unused t.entries) [
  | none ↦ (t, none)
  | some i ↦ (record { entries = set t.entries i e }, some i)
]

-- What `insert` does for an entry; the topic is not null.
unfoldable pub stage : SessionInboundQoS2 → InboundQoS2Entry → SessionInboundQoS2 × Option ℕ
unfolding find_staged staged_at_capacity store_unused
stage t e = if e.packet_id == 0 then (t, none) else elim (find_staged e.packet_id t.entries) [
  | some i ↦ (t, some i)
  | none ↦ if staged_at_capacity t then (t, none) else store_unused t e
]

unfoldable pub insert_staged :
    SessionInboundQoS2
    → ℕ
    → Option (List ℕ)
    → MessageHandle
    → ℕ
    → Bool
    → ℕ
    → Bool
    → SessionInboundQoS2 × Option ℕ
unfolding stage
insert_staged t packet_id none payload payload_len retain qos dup = (t, none)
insert_staged t packet_id (some topic) payload payload_len retain qos dup =
    stage t (staged_entry packet_id topic payload payload_len retain qos dup)

unfoldable pub remove_staged :
    SessionInboundQoS2 → ℕ → Option MessagePool → SessionInboundQoS2 × Option MessagePool × Bool
unfolding find_staged release_payload
remove_staged t packet_id pool = elim (find_staged packet_id t.entries) [
  | none ↦ (t, pool, false)
  | some i ↦ (
    record { entries = set t.entries i unstaged },
    release_payload pool ((Option.get_or (get_elem? t.entries i) unstaged).payload),
    true,
  )
]
