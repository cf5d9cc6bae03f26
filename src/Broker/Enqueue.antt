-- ===== src/Broker/Enqueue.antt =====
-- Queueing a delivery for a connection in libs/mqtt_broker/src/broker.cpp: enqueue_delivery and the
-- retransmission of a session that resumes.
use net_burner_mqtt_broker.Base.{
  ℕ, zero, suc, ◌+◌, Bool, true, false, ◌&&◌, ◌||◌, not, leb, ltb, ◌==◌, if◌then◌else◌, List, [],
  Option, none, some, length, set, u32,
}
use net_burner_mqtt_broker.Delivery.{MessageHandle}
use net_burner_mqtt_broker.MessagePool.{
  msg_valid, msg_acquire, expiry_interval, payload_size, props,
}
use net_burner_mqtt_broker.TopicIntern
use net_burner_mqtt_broker.Encode.{estimate_publish_size}
use net_burner_mqtt_broker.MqttTypes.{reason_success}
use net_burner_mqtt_broker.Queue.Tx
use net_burner_mqtt_broker.Inflight.Limits.{qos_inflight_per_client}
use net_burner_mqtt_broker.Inflight.Outbound
use net_burner_mqtt_broker.Inflight.Outbound.{OutboundInflightEntry, next_packet_id}
use net_burner_mqtt_broker.Broker.Limits.{
  max_tcp_clients, maximum_qos, tx_logical_per_client, tx_logical_total,
}
use net_burner_mqtt_broker.Broker.Metrics.{
  too_large, quota, exhaustion, expired, publishes_sent, high_water,
}
use net_burner_mqtt_broker.Broker.{Broker, SessionHandle, TopicPointer, is_connected}
use net_burner_mqtt_broker.Broker.State.{
  session_at, connection_at, put_connection, outbound_at, drop_message, drop_topic, counted,
  session_record, deref,
}
use net_burner_mqtt_broker.Broker.Sessions.{Router}
use net_burner_mqtt_broker.Broker.Transport.{disconnect_transport, send_pubrel}
use net_burner_mqtt_broker.Broker.Messages.{message_expired}
use net_burner_mqtt_broker.Broker.Delivery.{
  outbound_inflight_at_capacity, drain_tx, tx_full, is_awaiting_pubcomp,
}
use mathlib.Core.Option

abbrev pub within_qos : ℕ → ℕ
within_qos qos = if ltb maximum_qos qos then maximum_qos else qos

module _ {W : Type 0} where
  -- `estimate_publish_size` with what the pool has of the message.
  abbrev pub estimate : Broker W → ℕ → List ℕ → MessageHandle → ℕ → ℕ → ℕ
  estimate b id topic msg payload_len qos =
      estimate_publish_size (some topic) payload_len qos
        (length (Option.get_or (props b.msg_pool msg) [])) (ltb 0 (expiry_interval b.msg_pool msg))
        (connection_at b id).protocol_level

  abbrev pub over_bytes : Broker W → ℕ → ℕ → Bool
  over_bytes b id est =
      ltb tx_logical_per_client (u32 ((connection_at b id).tx.logical_bytes + est))
      || ltb tx_logical_total (u32 (b.global_logical_tx + est))

  -- `tx_over_budget`
  unfoldable pub tx_over_budget : Broker W → ℕ → ℕ → Bool
  tx_over_budget b id est = tx_full (connection_at b id).tx || over_bytes b id est

  -- The end of `enqueue_retransmit`, with the references taken.
  unfoldable pub store_retransmit : Broker W → ℕ → OutboundInflightEntry → ℕ → Broker W
  store_retransmit b id entry est =
      let c = connection_at b id in
      let (tx, stored) =
        Tx.enqueue c.tx
          (record {
            message = entry.message;
            topic = entry.topic;
            packet_id = entry.packet_id;
            encoded_offset = 0;
            encoded_total_size = u32 est;
            delivery_qos = entry.delivery_qos;
            retain_flag = entry.retain_flag;
            dup_flag = true;
          })
          (u32 est) in
      if not stored
      then drop_topic (drop_message b entry.message) entry.topic
      else counted publishes_sent (record (put_connection b id (record c { tx = tx })) {
        global_logical_tx = u32 (b.global_logical_tx + est);
      })

  unfoldable pub enqueue_retransmit : Broker W → ℕ → OutboundInflightEntry → Broker W
  unfolding store_retransmit
  enqueue_retransmit b id entry =
      let topic = TopicIntern.c_str b.topic_intern entry.topic in
      let est =
        estimate b id topic entry.message (payload_size b.msg_pool entry.message)
          entry.delivery_qos in
      let (pool, has_message) = msg_acquire b.msg_pool entry.message in
      let b1 = record b { msg_pool = pool } in
      let (topics, has_topic) = TopicIntern.acquire b1.topic_intern entry.topic in
      if leb max_tcp_clients id || not (connection_at b id).in_use
      then b
      else if not (msg_valid b.msg_pool entry.message)
      then b
      else if est == 0 || over_bytes b id est
      then b
      else if not has_message
      then b1
      else if not has_topic
      then drop_message b1 entry.message
      else store_retransmit (record b1 { topic_intern = topics }) id entry est

  -- The loop of `retransmit_session_inflight` from entry `k` on.
  unfoldable pub retransmit_from : ℕ → ℕ → Broker W → ℕ → ℕ → Broker W
  unfolding enqueue_retransmit
  retransmit_from zero k b id i = b
  retransmit_from (suc left) k b id i =
      let e = Outbound.entry_at (outbound_at b i).entries k in
      retransmit_from left (k + 1)
        (if not e.in_use
          then b
          else if e.delivery_qos == 2 && is_awaiting_pubcomp e.qos2_phase
          then (send_pubrel b id e.packet_id reason_success).0
          else enqueue_retransmit b id e)
        id i

  unfoldable pub retransmit_session_inflight : Broker W → ℕ → ℕ → Broker W
  unfolding retransmit_from
  retransmit_session_inflight b id i =
      if leb max_tcp_clients i then b else retransmit_from qos_inflight_per_client 0 b id i

  -- The packet identifier of a delivery to session `i`, `none` where it is refused.
  unfoldable pub choose_packet_id : Broker W → ℕ → ℕ → Broker W × Option ℕ
  choose_packet_id b i qos =
      let slot = (session_at b i).self.slot in
      let (t, packet_id) = next_packet_id (outbound_at b slot) in
      let b1 = record b { outbound = set b.outbound slot t } in
      if not (ltb 0 qos)
      then (b, some 0)
      else if outbound_inflight_at_capacity b slot
      then (counted quota b, none)
      else if packet_id == 0
      then (counted quota b1, none)
      else (b1, some packet_id)

  -- The attempts to drain while the budget is exceeded.
  unfoldable pub drain_attempts : Router W → ℕ → Broker W → ℕ → ℕ → Broker W
  unfolding tx_over_budget
  drain_attempts route zero b id est = b
  drain_attempts route (suc left) b id est = elim (tx_over_budget b id est) [
    | false ↦ b
    | true ↦
        let b1 = drain_tx route b id in
        elim (connection_at b1 id).in_use [
          | false ↦ b1
          | true ↦ drain_attempts route left b1 id est
        ]
  ]

  -- Whether there is room for `est` bytes, after up to eight rounds of `drain_tx`.
  unfoldable pub make_room : Router W → Broker W → ℕ → ℕ → Broker W × Bool
  unfolding drain_attempts
  make_room route b id est =
      let b1 = drain_attempts route 8 b id est in
      if not (connection_at b1 id).in_use
      then (b1, false)
      else if tx_over_budget b1 id est
      then (disconnect_transport route b1 id true, false)
      else (b1, true)

  -- The end of `enqueue_delivery`, behind the test of the budget.
  unfoldable pub store_delivery :
      Router W → Broker W → ℕ → TopicPointer → MessageHandle → ℕ → ℕ → Bool → ℕ → Broker W × Bool
  store_delivery route b id topic msg packet_id qos retain_flag est =
      let (topics, th) = TopicIntern.intern b.topic_intern (some (deref b topic)) in
      let b1 = record b { topic_intern = topics } in
      let (pool, has_message) = msg_acquire b1.msg_pool msg in
      let b2 = record b1 { msg_pool = pool } in
      let c = connection_at b id in
      let (tx, stored) =
        Tx.enqueue c.tx
          (record {
            message = msg;
            topic = th;
            packet_id = packet_id;
            encoded_offset = 0;
            encoded_total_size = u32 est;
            delivery_qos = qos;
            retain_flag = retain_flag;
            dup_flag = false;
          })
          (u32 est) in
      let bytes = u32 (b.global_logical_tx + est) in
      if not (TopicIntern.valid topics th)
      then (disconnect_transport route (counted exhaustion b1) id true, false)
      else if not has_message
      then (disconnect_transport route (counted exhaustion (drop_topic b2 th)) id true, false)
      else if not stored
      then (disconnect_transport route (drop_topic (drop_message b2 msg) th) id true, false)
      else (
        counted publishes_sent (record (put_connection b2 id (record c { tx = tx })) {
          global_logical_tx = bytes;
          metrics = high_water bytes b2.metrics;
        }),
        true,
      )

  -- `enqueue_delivery` to session `i`, which is connected; the QoS is not above the maximum.
  unfoldable pub deliver_to :
      Router W → Broker W → ℕ → ℕ → TopicPointer → MessageHandle → ℕ → ℕ → Bool → Broker W × Bool
  unfolding choose_packet_id make_room store_delivery
  deliver_to route b id i topic msg payload_len qos retain_flag =
      let est = estimate b id (deref b topic) msg payload_len qos in
      if message_expired b msg
      then (counted expired b, false)
      else let (b1, chosen) = choose_packet_id b i qos in
        elim chosen [
          | none ↦ (b1, false)
          | some packet_id ↦
              if ltb (session_at b1 i).client_max_packet_size est
              then (counted too_large b1, false)
              else let (b2, room) = make_room route b1 id est in
                elim room [
                  | false ↦ (b2, false)
                  | true ↦ store_delivery route b2 id topic msg packet_id qos retain_flag est
                ]
        ]

  unfoldable pub enqueue_delivery :
      Router W
      → Broker W
      → ℕ
      → SessionHandle
      → TopicPointer
      → MessageHandle
      → ℕ
      → ℕ
      → Bool
      → Broker W × Bool
  unfolding deliver_to
  enqueue_delivery route b id session topic msg payload_len qos retain_flag =
      elim (session_record b session) [
        | none ↦ (b, false)
        | some i ↦
            let s = session_at b i in
            if leb max_tcp_clients id || not (connection_at b id).in_use
            then (
              if is_connected s.state && s.transport_id == id
                  then disconnect_transport route b id true
                  else b,
              false,
            )
            else if not (is_connected s.state)
            then (b, false)
            else deliver_to route b id i topic msg payload_len (within_qos qos) retain_flag
      ]
