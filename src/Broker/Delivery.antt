-- ===== src/Broker/Delivery.antt =====
-- Deliveries to a connection in libs/mqtt_broker/src/broker.cpp: into its outbound queue, and from
-- there to the transport. The answers of complete_tx_delivery and enqueue_retransmit, which no caller
-- reads, are left out.
use net_burner_mqtt_broker.Base.{
  ℕ, zero, suc, ◌+◌, Bool, true, false, ◌||◌, not, leb, ◌==◌, if◌then◌else◌, List, none, some, set,
  u32,
}
use net_burner_mqtt_broker.Delivery.{PendingDelivery}
use net_burner_mqtt_broker.MessagePool.{payload_size}
use net_burner_mqtt_broker.TopicIntern
use net_burner_mqtt_broker.Topic.{is_empty}
use net_burner_mqtt_broker.Encode.{encode_publish}
use net_burner_mqtt_broker.Queue.Tx
use net_burner_mqtt_broker.Queue.Tx.{TxQueue}
use net_burner_mqtt_broker.Inflight.Limits.{effective_receive_maximum}
use net_burner_mqtt_broker.Inflight.Outbound
use net_burner_mqtt_broker.Inflight.Outbound.{
  OutboundInflightEntry, OutboundQoS2Phase, unset, awaiting_pubrec, awaiting_pubcomp, count,
  next_packet_id,
}
use net_burner_mqtt_broker.Broker.Limits.{max_tcp_clients}
use net_burner_mqtt_broker.Broker.{Broker, is_connected, sent, write_error}
use net_burner_mqtt_broker.Broker.State.{
  session_at, connection_at, put_connection, outbound_at, drop_delivery, session_record,
}
use net_burner_mqtt_broker.Broker.Sessions.{Router}
use net_burner_mqtt_broker.Broker.Transport.{disconnect_transport, pop_delivery, write_with}
use net_burner_mqtt_broker.Broker.Messages.{message_expiry_state}
use mathlib.Core.Option

abbrev pub is_awaiting_pubcomp : OutboundQoS2Phase → Bool
is_awaiting_pubcomp p = elim p [ unset ↦ false | awaiting_pubrec ↦ false | awaiting_pubcomp ↦ true ]

abbrev pub tx_full : TxQueue → Bool
tx_full q = leb q.depth q.count

module _ {W : Type 0} where
  unfoldable pub outbound_inflight_at_capacity : Broker W → ℕ → Bool
  outbound_inflight_at_capacity b i =
      if leb max_tcp_clients i
      then true
      else if not (is_connected (session_at b i).state)
      then true
      else leb (effective_receive_maximum (session_at b i).client_receive_maximum)
          (count (outbound_at b i).entries)

  unfoldable pub release_outbound_inflight : Broker W → ℕ → ℕ → Broker W
  release_outbound_inflight b i packet_id =
      let (t, gone, pool, topics) =
        Outbound.remove (outbound_at b i) packet_id (some b.msg_pool) (some b.topic_intern) in
      if leb max_tcp_clients i then b else record b {
        outbound = set b.outbound i t;
        msg_pool = Option.get_or pool b.msg_pool;
        topic_intern = Option.get_or topics b.topic_intern;
      }

  -- For a connection that has a session, the one with index `i`.
  unfoldable pub complete_for_session : Broker W → ℕ → PendingDelivery → Broker W
  complete_for_session b i pd =
      let slot = (session_at b i).self.slot in
      let (t, inserted) =
        Outbound.insert (outbound_at b slot) pd.packet_id pd.message pd.topic pd.delivery_qos
          pd.retain_flag awaiting_pubrec in
      if pd.delivery_qos == 0
      then drop_delivery b pd
      else elim (Outbound.find pd.packet_id (outbound_at b slot).entries) [
        | some entry ↦ drop_delivery b pd
        | none ↦
            if not inserted
            then drop_delivery b pd
            else record b { outbound = set b.outbound slot t }
      ]

  unfoldable pub complete_tx_delivery : Broker W → ℕ → PendingDelivery → Broker W
  unfolding complete_for_session
  complete_tx_delivery b id pd =
      if leb max_tcp_clients id then b else elim (session_record b (connection_at b id).session) [
        | none ↦ b
        | some i ↦ complete_for_session b i pd
      ]

  -- The bytes of the front delivery that `drain_tx` encodes next.
  unfoldable pub next_bytes : Broker W → ℕ → PendingDelivery → List ℕ
  next_bytes b id pd =
      let (has_expiry, remaining) = message_expiry_state b pd.message in
      encode_publish 2048 (TopicIntern.c_str b.topic_intern pd.topic) pd.retain_flag pd.delivery_qos
        pd.packet_id pd.dup_flag b.msg_pool pd.message (payload_size b.msg_pool pd.message)
        pd.encoded_offset has_expiry remaining (connection_at b id).protocol_level

  abbrev advance : Broker W → ℕ → ℕ → Broker W
  advance b id n =
      let c = connection_at b id in
      put_connection b id (record c { tx = (Tx.advance_offset c.tx n).0 })

  -- The loop of `drain_tx`. Every round but the last takes a delivery out of the queue.
  unfoldable pub drain_loop : Router W → ℕ → Broker W → ℕ → Broker W
  unfolding next_bytes complete_tx_delivery is_empty
  drain_loop route zero b id = b
  drain_loop route (suc fuel) b id = elim (Tx.peek (connection_at b id).tx) [
    | none ↦ b
    | some pd ↦ elim (is_empty (next_bytes b id pd)) [
      | true ↦ pop_delivery (complete_tx_delivery b id pd) id
      | false ↦ elim (connection_at b id).transport.write [
        | none ↦ b
        | some write ↦
            let (b1, result) = write_with write b (next_bytes b id pd) in
            elim result [
              | write_error ↦ disconnect_transport route b1 id true
              | sent n ↦
                  let b2 = advance b1 id n in
                  let offset = u32 (pd.encoded_offset + n) in
                  elim (n == 0) [
                    | true ↦ b1
                    | false ↦ elim (leb pd.encoded_total_size offset) [
                      | false ↦ b2
                      | true ↦
                          let done = record pd { encoded_offset = offset } in
                          drain_loop route fuel (pop_delivery (complete_tx_delivery b2 id done) id)
                            id
                    ]
                  ]
            ]
      ]
    ]
  ]

  unfoldable pub drain_tx : Router W → Broker W → ℕ → Broker W
  unfolding drain_loop
  drain_tx route b id =
      if leb max_tcp_clients id || not (connection_at b id).in_use
      then b
      else elim (connection_at b id).transport.write [
        | none ↦ b
        | some write ↦ drain_loop route (suc (connection_at b id).tx.count) b id
      ]
