-- ===== src/Broker/Debug.antt =====
-- The diagnostics that the host build adds to libs/mqtt_broker/src/broker.cpp.
use net_burner_mqtt_broker.Base.{
  ℕ, zero, suc, ◌+◌, Bool, true, false, ◌&&◌, ◌||◌, not, leb, ◌==◌, if◌then◌else◌, List, [], ◌∷◌,
  Option, none, some,
}
use net_burner_mqtt_broker.Delivery.{PendingDelivery, message_handle_valid}
use net_burner_mqtt_broker.MessagePool.{acquire_empty}
use net_burner_mqtt_broker.MessagePool.Payload.{append_payload}
use net_burner_mqtt_broker.TopicIntern
use net_burner_mqtt_broker.Inflight.Outbound.{SessionOutboundInflight, count}
use net_burner_mqtt_broker.Broker.Limits.{max_tcp_clients}
use net_burner_mqtt_broker.Broker.{Broker, SessionRecord, is_empty_state, tick_none}
use net_burner_mqtt_broker.Broker.State.{session_at, offline_at, drop_message}
use net_burner_mqtt_broker.Broker.Sessions.{find_session_by_client_id}
use net_burner_mqtt_broker.Broker.Routing.{enqueue_offline}
use net_burner_mqtt_broker.Broker.Connect.{session_has_presentable_state}

-- "offline/q"
abbrev offline_topic : List ℕ
offline_topic = b'o' ∷ b'f' ∷ b'f' ∷ b'l' ∷ b'i' ∷ b'n' ∷ b'e' ∷ b'/' ∷ b'q' ∷ []

unfoldable pub inflight_total : List SessionOutboundInflight → ℕ
inflight_total [] = 0
inflight_total (t ∷ ts) = count t.entries + inflight_total ts

unfoldable pub active_sessions : List SessionRecord → ℕ
active_sessions [] = 0
active_sessions (s ∷ ss) =
    let n = active_sessions ss in if not (is_empty_state s.state) then n + 1 else n

unfoldable pub will_scheduled : List SessionRecord → Bool
will_scheduled [] = false
will_scheduled (s ∷ ss) =
    not (is_empty_state s.state) && not (s.will_fire_deadline_tick == tick_none)
    || will_scheduled ss

module _ {W : Type 0} where
  unfoldable pub debug_client_max_packet : Broker W → ℕ → ℕ
  debug_client_max_packet b id =
      if leb max_tcp_clients id then 0 else (session_at b id).client_max_packet_size

  abbrev pub debug_find_session : Broker W → List ℕ → Option ℕ
  debug_find_session b id = find_session_by_client_id b id

  unfoldable pub debug_session_present : Broker W → List ℕ → Bool
  debug_session_present b id = elim (find_session_by_client_id b id) [
    | none ↦ false
    | some i ↦ session_has_presentable_state b i
  ]

  unfoldable pub debug_offline_queue_depth : Broker W → ℕ → ℕ
  debug_offline_queue_depth b i = if leb max_tcp_clients i then 0 else (offline_at b i).count

  abbrev pub debug_enqueue_offline : Broker W → ℕ → PendingDelivery → Broker W × Bool
  debug_enqueue_offline b i pd = enqueue_offline b i pd

  -- A round of the loop of `debug_fill_offline_queue`.
  unfoldable pub fill_offline_once : Broker W → ℕ → Broker W × Bool
  fill_offline_once b i =
      let (pool, h) = acquire_empty b.msg_pool in
      let (pool', appended) = append_payload pool h (b'q' ∷ []) in
      let (topics, th) = TopicIntern.intern b.topic_intern (some offline_topic) in
      let b1 = record b { msg_pool = pool'; topic_intern = topics } in
      let (b2, queued) = enqueue_offline b1 i (record {
        message = h;
        topic = th;
        packet_id = 0;
        encoded_offset = 0;
        encoded_total_size = 0;
        delivery_qos = 0;
        retain_flag = false;
        dup_flag = false;
      }) in
      if not (message_handle_valid h)
      then (record b { msg_pool = pool }, false)
      else if not appended
      then (drop_message (record b { msg_pool = pool' }) h, false)
      else if not queued
      then (drop_message b2 h, false)
      else (b2, true)

  unfoldable pub debug_fill_offline_queue : Broker W → ℕ → ℕ → Broker W × Bool
  unfolding fill_offline_once
  debug_fill_offline_queue b i zero = (b, true)
  debug_fill_offline_queue b i (suc n) =
      let (b1, filled) = fill_offline_once b i in
      let rest = debug_fill_offline_queue b1 i n in if not filled then (b1, false) else rest

  abbrev pub debug_outbound_inflight_total : Broker W → ℕ
  debug_outbound_inflight_total b = inflight_total b.outbound

  abbrev pub debug_active_sessions : Broker W → ℕ
  debug_active_sessions b = active_sessions b.sessions

  abbrev pub debug_any_will_scheduled : Broker W → Bool
  debug_any_will_scheduled b = will_scheduled b.sessions
