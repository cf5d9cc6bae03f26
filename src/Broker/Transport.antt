-- ===== src/Broker/Transport.antt =====
-- Connections in libs/mqtt_broker/src/broker.cpp: closing them, and the small packets that are
-- written at once.
use net_burner_mqtt_broker.Base.{
  ℕ, zero, suc, ◌+◌, ◌-◌, Bool, false, ◌&&◌, ◌||◌, not, leb, ◌==◌, if◌then◌else◌, List, Option,
  none, some, length,
}
use net_burner_mqtt_broker.Topic.{is_empty}
use net_burner_mqtt_broker.Encode.{
  encode_connack, encode_disconnect, encode_puback, encode_pubrec, encode_pubrel, encode_pubcomp,
}
use net_burner_mqtt_broker.Queue.Tx
use net_burner_mqtt_broker.Broker.Limits.{max_tcp_clients}
use net_burner_mqtt_broker.Broker.Metrics.{slow_consumers, rejects, one_client_less}
use net_burner_mqtt_broker.Broker.{
  Broker, WriteResult, sent, write_error, null_session, is_connected,
}
use net_burner_mqtt_broker.Broker.State.{
  session_at, put_session, connection_at, put_connection, drop_delivery, counted, session_record,
}
use net_burner_mqtt_broker.Broker.Sessions.{Router, begin_offline_session}
use mathlib.Core.Option

module _ {W : Type 0} where
  -- `pop` of a queue, with what it gives back to the global budget.
  unfoldable pub pop_delivery : Broker W → ℕ → Broker W
  pop_delivery b id =
      let c = connection_at b id in
      let (tx, popped) = Tx.pop c.tx in
      let size = Option.get_or popped 0 in
      record (put_connection b id (record c { tx = tx })) {
        global_logical_tx =
            if leb size b.global_logical_tx
            then b.global_logical_tx - size
            else b.global_logical_tx;
      }

  -- The loop of `purge_tx_queue`. Each round takes one delivery out.
  unfoldable pub purge_loop : ℕ → Broker W → ℕ → Broker W
  unfolding pop_delivery
  purge_loop zero b id = b
  purge_loop (suc fuel) b id = elim (Tx.peek (connection_at b id).tx) [
    | none ↦ b
    | some pd ↦ purge_loop fuel (pop_delivery (drop_delivery b pd) id) id
  ]

  unfoldable pub purge_tx_queue : Broker W → ℕ → Broker W
  unfolding purge_loop
  purge_tx_queue b id = purge_loop (connection_at b id).tx.count b id

  -- `if (close_conn != nullptr && active) { close_conn(ctx); active = false; }`
  unfoldable pub close_transport : Broker W → ℕ → Broker W
  close_transport b id =
      let c = connection_at b id in
      elim c.transport.close_conn [
        | none ↦ b
        | some close ↦
            if c.transport.active
            then put_connection (record b { world = close b.world }) id
                (record c { transport = record c.transport { active = false } })
            else b
      ]

  -- The session goes offline or ends, and leaves its transport.
  abbrev pub leave_transport : Router W → Broker W → ℕ → Bool → Broker W
  leave_transport route b i slow_consumer =
      let b1 =
        begin_offline_session route (record b { metrics = one_client_less b.metrics }) i
          (if slow_consumer then 0 else 0xffffffff) in
      put_session b1 i (record (session_at b1 i) { transport_id = 0xffff })

  -- The sessions that still name a transport which is idle, from `i` on.
  unfoldable pub leave_idle : Router W → ℕ → ℕ → Broker W → ℕ → Bool → Broker W
  leave_idle route zero i b id slow_consumer = b
  leave_idle route (suc left) i b id slow_consumer =
      let s = session_at b i in
      leave_idle route left (i + 1)
        (if is_connected s.state && s.transport_id == id
          then leave_transport route b i slow_consumer
          else b)
        id slow_consumer

  abbrev pub tally_slow : Bool → Broker W → Broker W
  tally_slow slow_consumer b = if slow_consumer then counted slow_consumers b else b

  -- The session of a slot in use, if it is connected, leaves.
  unfoldable pub leave_session : Router W → Broker W → ℕ → Bool → Broker W
  leave_session route b id slow_consumer = elim (session_record b (connection_at b id).session) [
    | none ↦ b
    | some i ↦
        if is_connected (session_at b i).state then leave_transport route b i slow_consumer else b
  ]

  -- `disconnect_transport` for a slot in use.
  unfoldable pub disconnect_used : Router W → Broker W → ℕ → Bool → Broker W
  unfolding purge_tx_queue leave_session close_transport
  disconnect_used route b id slow_consumer =
      let b2 = leave_session route (purge_tx_queue b id) id slow_consumer in
      let b3 = put_connection b2 id (record (connection_at b2 id) { session = null_session }) in
      let b4 = close_transport (tally_slow slow_consumer (purge_tx_queue b3 id)) id in
      put_connection b4 id (record (connection_at b4 id) { in_use = false })

  unfoldable pub disconnect_transport : Router W → Broker W → ℕ → Bool → Broker W
  unfolding leave_idle disconnect_used
  disconnect_transport route b id slow_consumer =
      if leb max_tcp_clients id
      then b
      else if not (connection_at b id).in_use
      then tally_slow slow_consumer (leave_idle route max_tcp_clients 0 b id slow_consumer)
      else disconnect_used route b id slow_consumer

  -- `in_use = false; transport.active = false;`
  abbrev pub forget_transport : Broker W → ℕ → Broker W
  forget_transport b id =
      let c = connection_at b id in
      put_connection b id
        (record c { in_use = false; transport = record c.transport { active = false } })

  unfoldable pub detach_transport : Router W → Broker W → ℕ → Broker W
  unfolding disconnect_transport
  detach_transport route b id =
      if leb max_tcp_clients id
      then b
      else forget_transport (disconnect_transport route b id false) id

  -- `ops.write(ctx, data, len)` for a callback that is there.
  unfoldable pub write_with :
      (W → List ℕ → W × WriteResult) → Broker W → List ℕ → Broker W × WriteResult
  write_with write b bytes =
      let (world, result) = write b.world bytes in (record b { world = world }, result)

  -- A packet that has been encoded, if it has, is written, if that can be, and the result is left.
  unfoldable pub write_ignoring : Broker W → ℕ → List ℕ → Broker W
  unfolding write_with is_empty
  write_ignoring b id bytes =
      if is_empty bytes then b else elim (connection_at b id).transport.write [
        | none ↦ b
        | some write ↦ (write_with write b bytes).0
      ]

  unfoldable pub send_connack : Router W → Broker W → ℕ → ℕ → Bool → Option (List ℕ) → ℕ → Broker W
  unfolding write_with disconnect_transport is_empty
  send_connack route b id reason session_present assigned_id server_keep_alive =
      let bytes =
        encode_connack 192 reason session_present assigned_id server_keep_alive
          (connection_at b id).protocol_level in
      if leb max_tcp_clients id || is_empty bytes
      then b
      else elim (connection_at b id).transport.write [
        | none ↦ b
        | some write ↦
            let (b1, result) = write_with write b bytes in
            elim result [
              | write_error ↦ disconnect_transport route b1 id false
              | sent n ↦
                  if n == 0
                  then b1
                  else if not (n == length bytes)
                  then disconnect_transport route b1 id false
                  else b1
            ]
      ]

  unfoldable pub send_disconnect : Broker W → ℕ → ℕ → Broker W
  unfolding write_ignoring
  send_disconnect b id reason =
      if leb max_tcp_clients id || (connection_at b id).protocol_level == 4
      then b
      else write_ignoring b id (encode_disconnect 8 reason)

  unfoldable pub reject_connect : Router W → Broker W → ℕ → ℕ → Broker W
  unfolding send_connack close_transport
  reject_connect route b id reason =
      let b1 = send_connack route (counted rejects b) id reason false none 0 in
      let b2 = close_transport b1 id in
      if leb max_tcp_clients id
      then b1
      else put_connection b2 id
          (record (connection_at b2 id) { in_use = false; session = null_session })

  unfoldable pub write_bytes : Broker W → ℕ → List ℕ → Broker W × Bool
  unfolding write_with is_empty
  write_bytes b id bytes =
      if leb max_tcp_clients id || is_empty bytes || not (connection_at b id).in_use
      then (b, false)
      else elim (connection_at b id).transport.write [
        | none ↦ (b, false)
        | some write ↦
            let (b1, result) = write_with write b bytes in
            (b1, elim result [ write_error ↦ false | sent n ↦ n == length bytes ])
      ]

  -- `send_puback`, `send_pubrec`, `send_pubrel` and `send_pubcomp` with their encoder.
  abbrev pub send_ack : (ℕ → ℕ → ℕ → ℕ → List ℕ) → Broker W → ℕ → ℕ → ℕ → Broker W × Bool
  send_ack encode b id packet_id reason =
      if leb max_tcp_clients id
      then (b, false)
      else write_bytes b id (encode 16 packet_id reason (connection_at b id).protocol_level)

  abbrev pub send_puback : Broker W → ℕ → ℕ → ℕ → Broker W × Bool
  send_puback = send_ack encode_puback

  abbrev pub send_pubrec : Broker W → ℕ → ℕ → ℕ → Broker W × Bool
  send_pubrec = send_ack encode_pubrec

  abbrev pub send_pubrel : Broker W → ℕ → ℕ → ℕ → Broker W × Bool
  send_pubrel = send_ack encode_pubrel

  abbrev pub send_pubcomp : Broker W → ℕ → ℕ → ℕ → Broker W × Bool
  send_pubcomp = send_ack encode_pubcomp
