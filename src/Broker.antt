-- ===== src/Broker.antt =====
-- The class Broker of libs/mqtt_broker/src/broker.cpp with include/mqtt_broker/broker.hpp, session.hpp
-- and transport.hpp: sessions, connections, and what they share. `W` is the state of the platform
-- behind the transports. Arrays are lists, a pointer into one is an index, and the allocations of the
-- constructor succeed.
pub mod Limits
pub mod Metrics
pub mod State
pub mod Sessions
pub mod Transport
pub mod Messages
pub mod Delivery
pub mod Enqueue
pub mod Routing
pub mod Stored
pub mod Connect
pub mod Packets
pub mod Dispatch
pub mod Create
pub mod Loop
pub mod Teardown
pub mod Deadlines
pub mod References
pub mod Ending
pub mod Debug
pub mod Fanout
pub mod Accounting
mod Tests
use net_burner_mqtt_broker.Base.{
  ℕ, zero, suc, ◌+◌, Bool, true, false, ◌&&◌, ◌||◌, not, leb, ltb, ◌==◌, if◌then◌else◌, List, [],
  ◌∷◌, Option, none, some, length, get_elem?, set, take, drop, replicate, u16,
}
use net_burner_mqtt_broker.Delivery.{MessageHandle, TopicHandle, PendingDelivery, null_message}
use net_burner_mqtt_broker.MessagePool
use net_burner_mqtt_broker.MessagePool.{MessagePool, msg_release}
use net_burner_mqtt_broker.TopicIntern
use net_burner_mqtt_broker.TopicIntern.{TopicInternPool, until_nul}
use net_burner_mqtt_broker.PropertyPool.{PropertyPool}
use net_burner_mqtt_broker.Trie.{TopicTrie}
use net_burner_mqtt_broker.Retained.{RetainedStore}
use net_burner_mqtt_broker.Queue.Tx
use net_burner_mqtt_broker.Queue.Tx.{TxQueue}
use net_burner_mqtt_broker.Queue.Offline
use net_burner_mqtt_broker.Queue.Offline.{OfflineQueue}
use net_burner_mqtt_broker.Parser.Packet.{PacketParser, create_parser, reset, reset_protocol_level}
use net_burner_mqtt_broker.Inflight.Outbound.{SessionOutboundInflight, empty_table}
use net_burner_mqtt_broker.Inflight.Inbound.{
  SessionInboundQoS2, InboundQoS2Entry, nothing_staged, unstaged,
}
use net_burner_mqtt_broker.Broker.Limits.{
  BrokerPolicy, max_tcp_clients, max_packet_bytes, max_topic_bytes, tx_queue_depth_per_client,
  tx_logical_per_client, offline_queue_per_client,
}
use net_burner_mqtt_broker.Broker.Metrics.{BrokerMetrics, Counter, tally}
use mathlib.Core.Option

pub record SessionHandle : Type 0 where
  pub slot : ℕ
  pub generation : ℕ

abbrev pub null_session : SessionHandle
null_session = record { slot = 0xffff; generation = 0xffff }

unfoldable pub session_handle_valid : SessionHandle → Bool
session_handle_valid h = not (h.slot == 0xffff) || not (h.generation == 0xffff)

pub data SessionState : Type 0 where
  empty_state connected offline : SessionState

pub record WillMessage : Type 0 where
  pub valid : Bool
  pub topic : List ℕ
  pub payload : MessageHandle
  pub payload_len : ℕ
  pub qos : ℕ
  pub retain : Bool

-- `will = {}`
abbrev pub no_will : WillMessage
no_will = record {
  valid = false;
  topic = [];
  payload = record { slot = 0; generation = 0 };
  payload_len = 0;
  qos = 0;
  retain = false;
}

pub record SessionRecord : Type 0 where
  pub self : SessionHandle
  pub state : SessionState
  pub transport_id : ℕ
  pub client_id : List ℕ
  pub keep_alive_sec : ℕ
  pub client_max_packet_size : ℕ
  pub client_receive_maximum : ℕ
  pub last_control_tick : ℕ
  pub clean_start : Bool
  pub session_expiry_interval : ℕ
  pub session_expiry_deadline_tick : ℕ
  pub will_delay_interval : ℕ
  pub will_fire_deadline_tick : ℕ
  pub will : WillMessage
  pub suppress_will : Bool
  pub assign_serial : ℕ
  pub has_subscription_state : Bool

-- `SESSION_TICK_NONE`
abbrev pub tick_none : ℕ
tick_none = 0xffffffff

abbrev pub is_connected : SessionState → Bool
is_connected connected = true
is_connected empty_state = false
is_connected offline = false

abbrev pub is_offline : SessionState → Bool
is_offline offline = true
is_offline empty_state = false
is_offline connected = false

abbrev pub is_empty_state : SessionState → Bool
is_empty_state empty_state = true
is_empty_state connected = false
is_empty_state offline = false

-- What `read` returns: bytes, whose number is 0 for a closed connection, or a negative number, -1 - k
-- for `negative k`.
pub data ReadResult : Type 0 where
  received : List ℕ → ReadResult
  negative : ℕ → ReadResult

-- What `write` returns: the number of bytes, or a negative number.
pub data WriteResult : Type 0 where
  sent : ℕ → WriteResult
  write_error : WriteResult

-- The callbacks with their `ctx`, `none` for a null pointer. `read` has the capacity of the buffer.
pub record BrokerTransport (W : Type 0) : Type 0 where
  pub read : Option (W → ℕ → W × ReadResult)
  pub write : Option (W → List ℕ → W × WriteResult)
  pub close_conn : Option (W → W)
  pub active : Bool

pub record ConnectionSlot (W : Type 0) : Type 0 where
  pub transport : BrokerTransport W
  pub parser : PacketParser
  pub tx : TxQueue
  pub session : SessionHandle
  pub in_use : Bool
  pub attached_tick : ℕ
  pub protocol_level : ℕ

-- `policy` and `auth` are the globals of broker_policy.cpp. `overrun` is no field of the code: it
-- records that a call of `route_publish` stood deeper than the model goes.
pub record Broker (W : Type 0) : Type 0 where
  pub world : W
  pub msg_pool : MessagePool
  pub prop_pool : PropertyPool
  pub topic_intern : TopicInternPool
  pub topic_trie : TopicTrie
  pub retained : RetainedStore
  pub sessions : List SessionRecord
  pub connections : List (ConnectionSlot W)
  pub offline_queues : List OfflineQueue
  pub outbound : List SessionOutboundInflight
  pub inbound : List SessionInboundQoS2
  pub global_logical_tx : ℕ
  pub assign_serial : ℕ
  pub current_tick : ℕ
  pub metrics : BrokerMetrics
  pub policy : BrokerPolicy
  pub auth : Option (List ℕ → Option (List ℕ) → Option (List ℕ) → ℕ)
  pub overrun : Bool

-- Session `i` of the constructor.
abbrev pub fresh_session : ℕ → SessionRecord
fresh_session i = record {
  self = record { slot = i; generation = 1 };
  state = empty_state;
  transport_id = 0xffff;
  client_id = [];
  keep_alive_sec = 0;
  client_max_packet_size = 16384;
  client_receive_maximum = 8;
  last_control_tick = 0;
  clean_start = true;
  session_expiry_interval = 0;
  session_expiry_deadline_tick = tick_none;
  will_delay_interval = 0;
  will_fire_deadline_tick = tick_none;
  will = no_will;
  suppress_will = false;
  assign_serial = 0;
  has_subscription_state = false;
}

-- The pointer to a topic that the functions hand on: to a string that stays as it is, into the arena
-- of the interned topics, or into the will or the staged message of a session.
pub data TopicPointer : Type 0 where
  text : List ℕ → TopicPointer
  arena : ℕ → TopicPointer
  will_of : ℕ → TopicPointer
  staged_at : ℕ → ℕ → TopicPointer

-- `topic_intern_.c_str(h)`
abbrev pub topic_pointer : TopicInternPool → TopicHandle → TopicPointer
topic_pointer p h =
    if not (TopicIntern.valid p h) then text [] else arena (TopicIntern.entry_at p h.slot).offset
