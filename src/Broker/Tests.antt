-- ===== src/Broker/Tests.antt =====
-- Runs of the broker, and its theorems at concrete inputs.
use net_burner_mqtt_broker.Base.{
  ℕ, List, min, ◌+◌, ◌-◌, ◌≤◌, ap, if◌then◌else◌, get_elem?, ◌≡◌, refl, arith, true, false, [], ◌∷◌,
  none, some, replicate, length,
}
use net_burner_mqtt_broker.Delivery.{
  MessageHandle, TopicHandle, message_handle_valid, null_message, null_topic, PendingDelivery,
}
use net_burner_mqtt_broker.Trie.Matches.{match_topic, collect_matches}
use net_burner_mqtt_broker.Trie.{create_trie, no_sub, TopicSubscription}
use net_burner_mqtt_broker.MessagePool
use net_burner_mqtt_broker.TopicIntern
use net_burner_mqtt_broker.Queue.Offline
use net_burner_mqtt_broker.Topic.{topic_valid, is_valid_topic_char, is_empty}
use net_burner_mqtt_broker.MessagePool.{
  first_free, acquire_empty, msg_valid, msg_acquire, msg_release, msg_ref_count, set_expiry,
  expiry_interval, publish_tick, payload_size,
}
use net_burner_mqtt_broker.MqttTypes.{publish}
use net_burner_mqtt_broker.Parser.Packet.{ParsedPacket, blank_packet}
use net_burner_mqtt_broker.Inflight.Inbound.{nothing_staged, find_staged, insert_staged}
use net_burner_mqtt_broker.Broker.Limits.{default_policy}
use net_burner_mqtt_broker.Broker.{
  Broker, BrokerTransport, sent, received, connected, no_will, text, is_offline,
}
use net_burner_mqtt_broker.Broker.State.{
  session_at, put_session, offline_at, deref, connection_at, attach_transport, first_idle,
}
use net_burner_mqtt_broker.Broker.Create.{create_broker, fresh_sessions, Memory}
use net_burner_mqtt_broker.Broker.Transport.{disconnect_transport}
use net_burner_mqtt_broker.Broker.Routing.{
  Publication, enqueue_offline, store_offline, route_publish, route_once,
}
use net_burner_mqtt_broker.Broker.Sessions.{begin_offline_session, end_session, publish_stored_will}
use net_burner_mqtt_broker.Broker.Messages.{elapsed, message_expired, message_expiry_state}
use net_burner_mqtt_broker.Broker.Packets.{publish_exactly_once}
use net_burner_mqtt_broker.Broker.Deadlines.{
  InTime, expiry_in_effect, begin_offline_session-InTime, message_expiry_state_bounds,
}
use net_burner_mqtt_broker.Broker.Ending.{LeadsNowhere, will_given, end_session-stale}
use net_burner_mqtt_broker.Broker.References.{store_offline_leaks, publish_exactly_once_leaks}
use net_burner_mqtt_broker.Broker.Fanout.{Distinct, Serves, route_each, route_loop_once}
use net_burner_mqtt_broker.Broker.Accounting.{
  IsAccounted, IsWithinBudget, tx_bytes, purge_tx_queue-IsAccounted,
  enqueue_retransmit-IsWithinBudget,
}
use net_burner_mqtt_broker.Queue.Tx
use net_burner_mqtt_broker.Queue.Tx.Refine.{create-Represents}
use net_burner_mqtt_broker.Encode.{estimate_publish_size}
use net_burner_mqtt_broker.Varint.{varint_encode}
use net_burner_mqtt_broker.TopicIntern.{TopicInternPool}
use net_burner_mqtt_broker.Inflight.Outbound.{OutboundInflightEntry, blank_entry}
use net_burner_mqtt_broker.Broker.Enqueue.{enqueue_retransmit, estimate, store_retransmit}
use net_burner_mqtt_broker.Broker.Routing.{route_loop}
use net_burner_mqtt_broker.Broker.Transport.{purge_tx_queue}
use net_burner_mqtt_broker.Broker.State.{fresh_connection}
use net_burner_mqtt_broker.Broker.Teardown.{IsVacated, disconnect_transport-vacates}
use mathlib.Core.Option

abbrev blank_delivery : PendingDelivery
blank_delivery = record {
  message = null_message;
  topic = null_topic;
  packet_id = 0;
  encoded_offset = 0;
  encoded_total_size = 0;
  delivery_qos = 0;
  retain_flag = false;
  dup_flag = false;
}

abbrev memory : Memory
memory = record {
  blocks = [];
  records = [];
  blob = [];
  topics = replicate 64 0;
  subs = replicate 4 no_sub;
  tx = replicate 64 blank_delivery;
  offline = replicate 16 blank_delivery;
}

-- The platform counts the bytes that are written and takes all of them.
abbrev transport : BrokerTransport ℕ
transport = record {
  read = some (λ w cap. (w, received []));
  write = some (λ w bytes. (w + length bytes, sent (length bytes)));
  close_conn = some (λ w. w);
  active = true;
}

abbrev started : Broker ℕ
started = create_broker 0 memory default_policy none

abbrev attached : Broker ℕ
attached = (attach_transport started transport).0

disconnect_transport-vacates_example :
    ((connection_at (disconnect_transport (route_publish 1) attached 0 true) 0).in_use ≡ false)
    × IsVacated (connection_at (disconnect_transport (route_publish 1) attached 0 true) 0)
unfolding attach_transport create_broker first_idle
disconnect_transport-vacates_example =
    disconnect_transport-vacates (route_publish 1) attached 0 true (omega arith) refl

-- Session 0 is connected, stays for 60 seconds, and leaves a will 5 seconds after it has gone.
abbrev with_will : Broker ℕ
with_will = put_session started 0 (record (session_at started 0) {
  state = connected;
  session_expiry_interval = 60;
  will_delay_interval = 5;
  will = record no_will { valid = true; topic = b'w' ∷ [] };
})

begin_offline_session-InTime_example :
    let left = session_at (begin_offline_session (route_publish 1) with_will 0 0xffffffff) 0 in
    (is_offline left.state ≡ true)
    × InTime with_will.current_tick
        (expiry_in_effect (session_at with_will 0) 0xffffffff)
        left.session_expiry_deadline_tick
    × InTime with_will.current_tick
        (min
          (session_at with_will 0).will_delay_interval
          (expiry_in_effect (session_at with_will 0) 0xffffffff))
        left.will_fire_deadline_tick
    × (with_will.current_tick ≤ left.will_fire_deadline_tick)
    × (left.will_fire_deadline_tick ≤ left.session_expiry_deadline_tick)
unfolding create_broker fresh_sessions
begin_offline_session-InTime_example =
    begin_offline_session-InTime (route_publish 1) with_will 0 0xffffffff (omega arith)
      (omega arith) refl refl

-- Nobody has subscribed to the will's topic, so the session stays while it is published.
told_sessions : (will_given (route_publish 1) with_will 0 true).sessions ≡ with_will.sessions
unfolding create_broker fresh_sessions publish_stored_will is_empty route_publish route_once
    route_loop match_topic create_trie TopicIntern.intern TopicIntern.create TopicIntern.valid
    TopicIntern.release topic_valid is_valid_topic_char expiry_interval msg_valid
    message_handle_valid MessagePool.create collect_matches deref
told_sessions = refl

told_self :
    (session_at (will_given (route_publish 1) with_will 0 true) 0).self
    ≡ record { slot = 0; generation = 1 }
unfolding create_broker fresh_sessions
told_self = rw told_sessions refl

end_session-stale_example :
    LeadsNowhere with_will (end_session (route_publish 1) with_will 0 true) 0
unfolding create_broker fresh_sessions
end_session-stale_example =
    end_session-stale (route_publish 1) with_will 0 1 true (omega arith) refl (omega arith)
      (rw told_sessions (omega arith)) told_self

-- A message that was published at tick 0 and expires after 30 seconds.
abbrev message : MessageHandle
message = record { slot = 0; generation = 1 }

abbrev with_message : Broker ℕ
with_message = record started {
  msg_pool = set_expiry (acquire_empty started.msg_pool).0 message 30 0;
  current_tick = 12;
}

message_expiry_state_bounds_example :
    let interval = expiry_interval with_message.msg_pool message in
    let passed = elapsed with_message.current_tick (publish_tick with_message.msg_pool message) in
    let (has_expiry, remaining) = message_expiry_state with_message message in
    (has_expiry ≡ true)
    × (1 ≤ remaining)
    × (remaining ≤ interval)
    × (remaining ≡ (if message_expired with_message message then 1 else interval - passed))
unfolding create_broker acquire_empty set_expiry expiry_interval msg_valid message_handle_valid
    MessagePool.create first_free
message_expiry_state_bounds_example = message_expiry_state_bounds with_message message (omega arith)

abbrev publication : Publication
publication = record {
  topic = text (b't' ∷ []);
  publish_qos = 1;
  retain = false;
  payload = message;
  payload_len = 0;
  pub_id = 0xffff;
  matches = [];
}

store_offline_leaks_example :
    msg_release (store_offline with_message 3 publication 1 false).msg_pool message
    ≡ (msg_acquire with_message.msg_pool message).0
unfolding store_offline create_broker acquire_empty set_expiry enqueue_offline msg_acquire
    TopicIntern.intern TopicIntern.acquire TopicIntern.create Offline.enqueue Offline.create
    topic_valid is_valid_topic_char deref MessagePool.create first_free
store_offline_leaks_example = store_offline_leaks with_message 3 publication 1 false (λ e.
    let n : 1 ≡ 0 = ap (λ qs. (Option.get_or (get_elem? qs 3) (offline_at started 3)).count) e in
    omega arith)

abbrev qos2_packet : ParsedPacket
qos2_packet = record blank_packet {
  type = publish;
  topic = b't' ∷ [];
  packet_id = 7;
  qos = 2;
  payload = message;
}

publish_exactly_once_leaks_example :
    msg_release
      (publish_exactly_once (route_publish 1) with_message 0 0 qos2_packet).msg_pool
      message
    ≡ with_message.msg_pool
unfolding create_broker acquire_empty set_expiry find_staged insert_staged msg_acquire msg_ref_count
    msg_valid message_handle_valid MessagePool.create first_free nothing_staged
publish_exactly_once_leaks_example =
    publish_exactly_once_leaks (route_publish 1) with_message 0 0 0 qos2_packet refl refl
      (omega arith) refl

-- Session 2 subscribes twice.
abbrev overlapping : List TopicSubscription
overlapping =
    record { sub_id = 1; session_id = 2; max_qos = 0; options_byte = 0 }
    ∷ record { sub_id = 2; session_id = 5; max_qos = 1; options_byte = 1 }
    ∷ record { sub_id = 3; session_id = 2; max_qos = 1; options_byte = 1 }
    ∷ []

route_loop_once_example :
    (sids : List ℕ) × (route_loop (route_publish 1) started publication [] overlapping
      ≡ route_each (route_publish 1) started publication sids)
    × Distinct sids
    × Serves sids overlapping
route_loop_once_example = route_loop_once (route_publish 1) started publication overlapping

-- The topic "t" is interned.
abbrev interned : TopicInternPool × TopicHandle
interned = TopicIntern.intern started.topic_intern (some (b't' ∷ []))

-- One connection, with a queue for 64 deliveries.
abbrev one_connection : Broker ℕ
one_connection = record with_message {
  topic_intern = interned.0;
  connections =
      record (fresh_connection (replicate 64 blank_delivery)) {
        in_use = true;
        transport = transport;
      }
      ∷ [];
}

one_connection-IsAccounted : IsAccounted one_connection
unfolding create_broker tx_bytes Tx.create
one_connection-IsAccounted = (
  (
    (
      [],
      create-Represents _ (replicate 64 blank_delivery) refl (omega arith) (omega arith)
          (omega arith),
    ),
    tt,
  ),
  refl,
)

abbrev resent : OutboundInflightEntry
resent = record blank_entry {
  in_use = true;
  packet_id = 9;
  message = message;
  topic = interned.1;
  delivery_qos = 1;
}

resent_size :
    estimate one_connection 0
      (TopicIntern.c_str one_connection.topic_intern resent.topic)
      resent.message
      (payload_size one_connection.msg_pool resent.message)
      resent.delivery_qos
    ≡ 7
unfolding create_broker acquire_empty set_expiry Tx.create estimate_publish_size varint_encode
    TopicIntern.c_str TopicIntern.valid payload_size TopicIntern.intern TopicIntern.create
    topic_valid is_valid_topic_char MessagePool.create first_free msg_valid message_handle_valid
resent_size = refl

enqueue_retransmit-IsWithinBudget_example :
    IsWithinBudget (enqueue_retransmit one_connection 0 resent)
unfolding create_broker Tx.create
enqueue_retransmit-IsWithinBudget_example =
    enqueue_retransmit-IsWithinBudget one_connection 0 resent (connection_at one_connection 0) refl
      refl (omega (arith, resent_size)) (one_connection-IsAccounted, omega arith)

-- The delivery that was queued is purged.
purge_tx_queue-IsAccounted_example :
    IsAccounted (purge_tx_queue (enqueue_retransmit one_connection 0 resent) 0)
purge_tx_queue-IsAccounted_example =
    purge_tx_queue-IsAccounted (enqueue_retransmit one_connection 0 resent) 0
      enqueue_retransmit-IsWithinBudget_example.0

queued_bytes : (enqueue_retransmit one_connection 0 resent).global_logical_tx ≡ 7
unfolding enqueue_retransmit create_broker acquire_empty set_expiry Tx.create estimate_publish_size
    varint_encode TopicIntern.c_str TopicIntern.valid payload_size TopicIntern.intern
    TopicIntern.create topic_valid is_valid_topic_char MessagePool.create first_free msg_valid
    message_handle_valid store_retransmit msg_acquire TopicIntern.acquire Tx.enqueue
queued_bytes = refl
