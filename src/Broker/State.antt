-- ===== src/Broker/State.antt =====
-- The Broker's state: reading and writing its arrays, and the short methods on them
-- (libs/mqtt_broker/src/broker.cpp).
use net_burner_mqtt_broker.Base.{
  ℕ, suc, ◌+◌, Bool, true, false, ◌&&◌, ◌||◌, not, leb, ltb, ◌==◌, if◌then◌else◌, List, [], ◌∷◌,
  Option, none, some, get_elem?, set, drop, u16,
}
use net_burner_mqtt_broker.Delivery.{MessageHandle, TopicHandle, PendingDelivery}
use net_burner_mqtt_broker.MessagePool.{msg_release}
use net_burner_mqtt_broker.TopicIntern
use net_burner_mqtt_broker.TopicIntern.{TopicInternPool, until_nul}
use net_burner_mqtt_broker.Queue.Tx
use net_burner_mqtt_broker.Queue.Tx.{TxQueue}
use net_burner_mqtt_broker.Queue.Offline
use net_burner_mqtt_broker.Queue.Offline.{OfflineQueue}
use net_burner_mqtt_broker.Parser.Packet.{PacketParser, create_parser, reset, reset_protocol_level}
use net_burner_mqtt_broker.Inflight.Outbound.{SessionOutboundInflight, empty_table}
use net_burner_mqtt_broker.Inflight.Inbound.{SessionInboundQoS2, nothing_staged, unstaged}
use net_burner_mqtt_broker.Broker.Limits.{
  max_tcp_clients, max_packet_bytes, max_topic_bytes, tx_queue_depth_per_client,
  tx_logical_per_client, offline_queue_per_client,
}
use net_burner_mqtt_broker.Broker.Metrics.{Counter, tally}
use net_burner_mqtt_broker.Broker.{
  SessionHandle, null_session, session_handle_valid, SessionRecord, fresh_session, is_connected,
  BrokerTransport, ConnectionSlot, Broker, TopicPointer, text, arena, will_of, staged_at,
}
use mathlib.Core.Option

-- `{limits}` of the parsers of the constructor, with no pools.
abbrev pub idle_parser : PacketParser
idle_parser =
    create_parser
      (record {
        max_packet_bytes = max_packet_bytes;
        max_topic_bytes = max_topic_bytes;
        control_buffer_bytes = 1024;
      })
      none none

unfoldable pub count_connected : List SessionRecord → ℕ
count_connected [] = 0
count_connected (s ∷ ss) =
    let n = count_connected ss in
    if is_connected s.state && not (s.transport_id == 0xffff) then n + 1 else n

module _ {W : Type 0} where
  -- Connection `i` of the constructor; `memory` is the array of its queue.
  abbrev pub fresh_connection : List PendingDelivery → ConnectionSlot W
  fresh_connection memory = record {
    transport = record { read = none; write = none; close_conn = none; active = false };
    parser = idle_parser;
    tx =
        Tx.create
          (record { depth = tx_queue_depth_per_client; logical_limit = tx_logical_per_client })
          (some memory);
    session = null_session;
    in_use = false;
    attached_tick = 0;
    protocol_level = 0;
  }

  abbrev pub session_at : Broker W → ℕ → SessionRecord
  session_at b i = Option.get_or (get_elem? b.sessions i) (fresh_session i)

  abbrev pub connection_at : Broker W → ℕ → ConnectionSlot W
  connection_at b i = Option.get_or (get_elem? b.connections i) (fresh_connection [])

  abbrev pub outbound_at : Broker W → ℕ → SessionOutboundInflight
  outbound_at b i = Option.get_or (get_elem? b.outbound i) empty_table

  abbrev pub inbound_at : Broker W → ℕ → SessionInboundQoS2
  inbound_at b i = Option.get_or (get_elem? b.inbound i) nothing_staged

  abbrev pub offline_at : Broker W → ℕ → OfflineQueue
  offline_at b i =
      Option.get_or (get_elem? b.offline_queues i) (Offline.create offline_queue_per_client none)

  abbrev pub put_session : Broker W → ℕ → SessionRecord → Broker W
  put_session b i s = record b { sessions = set b.sessions i s }

  abbrev pub put_connection : Broker W → ℕ → ConnectionSlot W → Broker W
  put_connection b i c = record b { connections = set b.connections i c }

  abbrev pub counted : Counter → Broker W → Broker W
  counted c b = record b { metrics = tally c b.metrics }

  -- `msg_pool_.msg_release(h)` and `topic_intern_.release(h)`.
  abbrev pub drop_message : Broker W → MessageHandle → Broker W
  drop_message b h = record b { msg_pool = msg_release b.msg_pool h }

  abbrev pub drop_topic : Broker W → TopicHandle → Broker W
  drop_topic b h = record b { topic_intern = TopicIntern.release b.topic_intern h }

  abbrev pub drop_delivery : Broker W → PendingDelivery → Broker W
  drop_delivery b pd = drop_topic (drop_message b pd.message) pd.topic

  -- The string at a pointer, as it is now.
  unfoldable pub deref : Broker W → TopicPointer → List ℕ
  deref b (text s) = s
  deref b (arena offset) = until_nul (drop offset b.topic_intern.blob)
  deref b (will_of slot) = (session_at b slot).will.topic
  deref b (staged_at slot i) =
      (Option.get_or (get_elem? (inbound_at b slot).entries i) unstaged).topic

  -- The index of the session, if the handle is not stale.
  unfoldable pub session_record : Broker W → SessionHandle → Option ℕ
  session_record b h =
      if not (session_handle_valid h) || leb max_tcp_clients h.slot
      then none
      else if not ((session_at b h.slot).self.generation == h.generation)
      then none
      else some h.slot

  unfoldable pub session_for_transport : Broker W → ℕ → SessionHandle
  session_for_transport b id =
      if leb max_tcp_clients id || not (connection_at b id).in_use
      then null_session
      else (connection_at b id).session

  -- The session of a connection, as the handlers look it up.
  abbrev pub session_of : Broker W → ℕ → Option ℕ
  session_of b id = session_record b (session_for_transport b id)

  abbrev pub connected_count : Broker W → ℕ
  connected_count b = count_connected b.sessions

  unfoldable pub transport_attached : Broker W → ℕ → Bool
  transport_attached b id = ltb id max_tcp_clients && (connection_at b id).in_use

  unfoldable pub any_pending : List (ConnectionSlot W) → Bool
  any_pending [] = false
  any_pending (c ∷ cs) = c.in_use && ltb 0 c.tx.count || any_pending cs

  abbrev pub has_pending_tx : Broker W → Bool
  has_pending_tx b = any_pending b.connections

  unfoldable pub touch_keepalive : Broker W → ℕ → ℕ → Broker W
  touch_keepalive b id now = elim (session_of b id) [
    | none ↦ b
    | some i ↦ put_session b i (record (session_at b i) { last_control_tick = now })
  ]

  unfoldable pub first_idle : List (ConnectionSlot W) → Option ℕ
  first_idle [] = none
  first_idle (c ∷ cs) =
      let rest = Option.map suc (first_idle cs) in if not c.in_use then some 0 else rest

  unfoldable pub attach_transport : Broker W → BrokerTransport W → Broker W × ℕ
  attach_transport b transport = elim (first_idle b.connections) [
    | none ↦ (b, 0xffff)
    | some i ↦ (
      put_connection b i (record (connection_at b i) {
        in_use = true;
        transport = record transport { active = true };
        session = null_session;
        parser = reset_protocol_level (reset (connection_at b i).parser);
        attached_tick = b.current_tick;
        protocol_level = 5;
      }),
      u16 i,
    )
  ]
