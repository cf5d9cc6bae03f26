-- ===== src/Broker/Loop.antt =====
-- What the platform calls in libs/mqtt_broker/src/broker.cpp: on_readable and tick.
use net_burner_mqtt_broker.Base.{
  ℕ, zero, suc, ◌+◌, ◌*◌, ◌/◌, Bool, true, false, ◌&&◌, ◌||◌, not, leb, ltb, ◌==◌, if◌then◌else◌,
  List, [], ◌∷◌, none, some, length, drop, sub32,
}
use net_burner_mqtt_broker.Retained.{stored_at}
use net_burner_mqtt_broker.PropertyPool.{PropertyHandle, handle_valid, release_slot}
use net_burner_mqtt_broker.Parser.Packet.{complete, error, reset}
use net_burner_mqtt_broker.Parser.Machine.{feed}
use net_burner_mqtt_broker.Broker.Limits.{
  max_tcp_clients, max_retained_entries, parser_read_chunk, keep_alive_multiplier_tenths,
}
use net_burner_mqtt_broker.Broker.Metrics.{parser_failures, keepalive}
use net_burner_mqtt_broker.Broker.{Broker, received, negative, is_connected}
use net_burner_mqtt_broker.Broker.State.{
  session_at, connection_at, put_connection, counted, session_record,
}
use net_burner_mqtt_broker.Broker.Sessions.{Router, tick_offline_sessions}
use net_burner_mqtt_broker.Broker.Transport.{
  disconnect_transport, detach_transport, forget_transport,
}
use net_burner_mqtt_broker.Broker.Messages.{message_expired}
use net_burner_mqtt_broker.Broker.Stored.{remove_expired}
use net_burner_mqtt_broker.Broker.Dispatch.{handle_packet}
use mathlib.Core.Option

-- `elapsed > threshold` for a keep-alive of so many seconds.
abbrev pub keep_alive_over : ℕ → ℕ → ℕ → Bool
keep_alive_over keep_alive_sec last_control_tick now =
    ltb (keep_alive_sec * keep_alive_multiplier_tenths / 10) (sub32 now last_control_tick)

module _ {W : Type 0} where
  -- `c.parser->feed(bytes)`; the parser works on the broker's own pools.
  unfoldable pub feed_connection : Broker W → ℕ → List ℕ → Broker W × ℕ
  feed_connection b id bytes =
      let c = connection_at b id in
      let (p, consumed) =
        feed (record c.parser { msg_pool = some b.msg_pool; prop_pool = some b.prop_pool }) bytes in
      (
        record (put_connection b id (record c { parser = p })) {
          msg_pool = Option.get_or p.msg_pool b.msg_pool;
          prop_pool = Option.get_or p.prop_pool b.prop_pool;
        },
        consumed,
      )

  abbrev release_properties : Broker W → PropertyHandle → Broker W
  release_properties b h =
      if handle_valid b.prop_pool h then record b { prop_pool = release_slot b.prop_pool h } else b

  -- A packet that is complete is handled, its property slots are given back, and the parser is reset.
  unfoldable pub packet_complete : Router W → Broker W → ℕ → Broker W
  packet_complete route b id =
      let b1 = handle_packet route b id (connection_at b id).parser.packet in
      let b2 = release_properties b1 (connection_at b1 id).parser.packet.properties in
      let b3 = release_properties b2 (connection_at b2 id).parser.packet.will_properties in
      let c = connection_at b3 id in put_connection b3 id (record c { parser = reset c.parser })

  -- The loop of `on_readable`. Each round but the last consumes a byte or more.
  unfoldable pub read_loop : Router W → ℕ → Broker W → ℕ → List ℕ → Broker W
  unfolding feed_connection packet_complete
  read_loop route zero b id bytes = b
  read_loop route (suc fuel) b id [] = b
  read_loop route (suc fuel) b id (byte ∷ bytes) =
      let (b1, consumed) = feed_connection b id (byte ∷ bytes) in
      let left = drop consumed (byte ∷ bytes) in
      elim (consumed == 0) [
        | true ↦ b1
        | false ↦ elim (connection_at b1 id).parser.phase [
          | complete ↦ read_loop route fuel (packet_complete route b1 id) id left
          | error ↦ disconnect_transport route (counted parser_failures b1) id false
          | _ ↦ read_loop route fuel b1 id left
        ]
      ]

  unfoldable pub on_readable : Router W → Broker W → ℕ → Broker W
  unfolding read_loop detach_transport
  on_readable route b id =
      if leb max_tcp_clients id || not (connection_at b id).in_use
      then b
      else elim (connection_at b id).transport.read [
        | none ↦ b
        | some read ↦
            let (world, result) = read b.world parser_read_chunk in
            let b1 = record b { world = world } in
            elim result [
              | negative k ↦ if k == 0 then b1 else disconnect_transport route b1 id false
              | received bytes ↦ elim bytes [
                | [] ↦ detach_transport route b1 id
                | byte ∷ more ↦ read_loop route (length (byte ∷ more)) b1 id (byte ∷ more)
              ]
            ]
      ]

  -- The loop of `sweep_expired_retained` from entry `k` on.
  unfoldable pub sweep_from : ℕ → ℕ → Broker W → Broker W
  unfolding remove_expired
  sweep_from zero k b = b
  sweep_from (suc left) k b =
      let swept : Broker W = elim (stored_at b.retained k) [
        | none ↦ b
        | some stored ↦
            let (th, msg) = stored in if message_expired b msg then remove_expired b th else b
      ] in
      sweep_from left (k + 1) swept

  unfoldable pub sweep_expired_retained : Broker W → Broker W
  unfolding sweep_from
  sweep_expired_retained b = sweep_from max_retained_entries 0 b

  -- A round of the loop of `tick` for a connection that has no session yet.
  unfoldable pub check_handshake : Router W → Broker W → ℕ → ℕ → Broker W
  check_handshake route b now i =
      let timeout = b.policy.connect_handshake_timeout in
      let since = (connection_at b i).attached_tick in
      if ltb 0 timeout && not (since == 0) && ltb timeout (sub32 now since)
      then forget_transport (disconnect_transport route b i false) i
      else b

  -- A round of the loop of `tick`.
  unfoldable pub check_connection : Router W → Broker W → ℕ → ℕ → Broker W
  unfolding check_handshake
  check_connection route b now i =
      if not (connection_at b i).in_use
      then b
      else elim (session_record b (connection_at b i).session) [
        | none ↦ check_handshake route b now i
        | some k ↦
            let s = session_at b k in
            if not (is_connected s.state)
            then check_handshake route b now i
            else if s.keep_alive_sec == 0
            then b
            else if keep_alive_over s.keep_alive_sec s.last_control_tick now
            then disconnect_transport route (counted keepalive b) i false
            else b
      ]

  unfoldable pub check_from : Router W → ℕ → ℕ → Broker W → ℕ → Broker W
  unfolding check_connection
  check_from route zero i b now = b
  check_from route (suc left) i b now =
      check_from route left (i + 1) (check_connection route b now i) now

  unfoldable pub tick : Router W → Broker W → ℕ → Broker W
  unfolding tick_offline_sessions sweep_expired_retained check_from
  tick route b now =
      let b1 = tick_offline_sessions route (record b { current_tick = now }) in
      check_from route max_tcp_clients 0 (sweep_expired_retained b1) now
