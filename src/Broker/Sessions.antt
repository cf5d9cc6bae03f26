-- ===== src/Broker/Sessions.antt =====
-- The life of a session in libs/mqtt_broker/src/broker.cpp: its slot, its will, and its end. A
-- function that publishes takes `route_publish` as an argument, `route`.
use net_burner_mqtt_broker.Base.{
  ℕ, zero, suc, ◌+◌, ◌-◌, Bool, true, false, ◌&&◌, ◌||◌, not, leb, ltb, ◌==◌, if◌then◌else◌, List,
  [], ◌∷◌, Option, none, some, set, u16,
}
use net_burner_mqtt_broker.Delivery.{MessageHandle}
use net_burner_mqtt_broker.MessagePool.{msg_valid, expiry_interval, set_expiry}
use net_burner_mqtt_broker.Topic.{same_bytes, is_empty}
use net_burner_mqtt_broker.Queue.Offline
use net_burner_mqtt_broker.Inflight.Outbound
use net_burner_mqtt_broker.Inflight.Outbound.{reset_packet_ids}
use net_burner_mqtt_broker.Inflight.Inbound.{clear_staged}
use net_burner_mqtt_broker.Trie.Slots.{unsubscribe_all}
use net_burner_mqtt_broker.Broker.Limits.{max_tcp_clients}
use net_burner_mqtt_broker.Broker.Metrics.{wills}
use net_burner_mqtt_broker.Broker.{
  SessionHandle, SessionRecord, Broker, TopicPointer, will_of, no_will, tick_none, is_empty_state,
  is_offline, empty_state, offline,
}
use net_burner_mqtt_broker.Broker.State.{
  session_at, put_session, offline_at, outbound_at, inbound_at, drop_message, drop_delivery,
  counted,
}
use mathlib.Core.Option

-- The publishing transport, the topic, the QoS, RETAIN, the payload and its length.
abbrev pub Router : Type 0 → Type 0
Router W = Broker W → ℕ → TopicPointer → ℕ → Bool → MessageHandle → ℕ → Broker W

unfoldable pub find_client : List ℕ → List SessionRecord → Option ℕ
unfolding same_bytes
find_client id [] = none
find_client id (s ∷ ss) =
    let rest = Option.map suc (find_client id ss) in
    if not (is_empty_state s.state) && same_bytes s.client_id id then some 0 else rest

unfoldable pub first_empty : List SessionRecord → Option ℕ
first_empty [] = none
first_empty (s ∷ ss) =
    let rest = Option.map suc (first_empty ss) in if is_empty_state s.state then some 0 else rest

-- The tick after `interval` more, if the counter does not wrap before.
abbrev pub deadline : ℕ → ℕ → ℕ
deadline now interval = if leb (tick_none - now) interval then tick_none else now + interval

-- `self` of a slot whose session has ended.
abbrev pub next_self : SessionHandle → SessionHandle
next_self h = record h {
  generation = if u16 (h.generation + 1) == 0 then 1 else u16 (h.generation + 1);
}

-- When the will fires of a session that goes offline with `expiry` left. Ticks are below 2 ^ 32.
unfoldable pub will_deadline : ℕ → ℕ → ℕ → ℕ
will_deadline now expiry delay =
    if leb expiry delay && not (leb (tick_none - now) expiry)
    then deadline now expiry
    else deadline now delay

module _ {W : Type 0} where
  -- -1 is `none`; the pointer is not null.
  unfoldable pub find_session_by_client_id : Broker W → List ℕ → Option ℕ
  unfolding find_client is_empty
  find_session_by_client_id b id = if is_empty id then none else find_client id b.sessions

  -- 0xffff is `none`.
  unfoldable pub alloc_session_slot : Broker W → Option ℕ
  unfolding first_empty
  alloc_session_slot b = first_empty b.sessions

  unfoldable pub release_will : Broker W → ℕ → Broker W
  release_will b i =
      let will = (session_at b i).will in
      let b1 : Broker W =
        if msg_valid b.msg_pool will.payload then drop_message b will.payload else b in
      if not will.valid then b else put_session b1 i (record (session_at b1 i) { will = no_will })

  -- The loop of `clear_session_state` over the offline queue. Each round takes one delivery out.
  unfoldable pub purge_offline : ℕ → Broker W → ℕ → Broker W
  purge_offline zero b i = b
  purge_offline (suc fuel) b i = elim (Offline.peek (offline_at b i)) [
    | none ↦ b
    | some pd ↦
        let b1 = drop_delivery b pd in
        purge_offline fuel
          (record b1 { offline_queues = set b1.offline_queues i (Offline.pop (offline_at b1 i)).0 })
          i
  ]

  unfoldable pub clear_session_qos_state : Broker W → ℕ → Broker W
  clear_session_qos_state b i =
      let (out, pool1, topics) =
        Outbound.clear (outbound_at b i) (some b.msg_pool) (some b.topic_intern) in
      let (staged, pool2) = clear_staged (inbound_at b i) pool1 in
      if leb max_tcp_clients i then b else record b {
        outbound = set b.outbound i (reset_packet_ids out);
        inbound = set b.inbound i staged;
        msg_pool = Option.get_or pool2 b.msg_pool;
        topic_intern = Option.get_or topics b.topic_intern;
      }

  -- `topic_trie_.unsubscribe_all(slot); s.has_subscription_state = false;`
  unfoldable pub clear_subscriptions : Broker W → ℕ → Broker W
  clear_subscriptions b i =
      put_session (record b { topic_trie = unsubscribe_all b.topic_trie i }) i
        (record (session_at b i) { has_subscription_state = false })

  -- No deadline is armed, and no will suppressed.
  unfoldable pub disarm : Broker W → ℕ → Broker W
  disarm b i = put_session b i (record (session_at b i) {
    session_expiry_deadline_tick = tick_none;
    will_fire_deadline_tick = tick_none;
    suppress_will = false;
  })

  -- What `clear_session_state` releases behind the subscriptions.
  unfoldable pub clear_messages : Broker W → ℕ → Broker W
  unfolding purge_offline release_will clear_session_qos_state
  clear_messages b i =
      clear_session_qos_state (release_will (purge_offline (offline_at b i).count b i) i) i

  unfoldable pub clear_session_state : Broker W → ℕ → Bool → Broker W
  unfolding clear_subscriptions clear_messages disarm
  clear_session_state b i clear_subs =
      if leb max_tcp_clients i
      then b
      else disarm (clear_messages (if clear_subs then clear_subscriptions b i else b) i) i

  unfoldable pub publish_stored_will : Router W → Broker W → ℕ → Broker W
  unfolding is_empty
  publish_stored_will route b i =
      let s = session_at b i in
      let will = s.will in
      let will_expiry = expiry_interval b.msg_pool will.payload in
      let b1 : Broker W =
        if ltb 0 will_expiry
        then record b { msg_pool = set_expiry b.msg_pool will.payload will_expiry b.current_tick }
        else b in
      if not will.valid || s.suppress_will || is_empty will.topic
      then b
      else if ltb 2 will.qos
      then b
      else counted wills
          (route b1 0xffff (will_of i) will.qos will.retain will.payload will.payload_len)

  -- The slot is empty, with another generation.
  unfoldable pub retire_session : Broker W → ℕ → Broker W
  retire_session b i =
      let s = session_at b i in
      put_session b i (record s {
        state = empty_state;
        client_id = [];
        keep_alive_sec = 0;
        transport_id = 0xffff;
        self = next_self s.self;
      })

  unfoldable pub end_session : Router W → Broker W → ℕ → Bool → Broker W
  unfolding publish_stored_will clear_session_state retire_session
  end_session route b i publish_will_now =
      let b1 : Broker W =
        if publish_will_now && not (session_at b i).suppress_will
        then publish_stored_will route b i
        else b in
      if leb max_tcp_clients i then b else retire_session (clear_session_state b1 i true) i

  -- `s` is the session at index `i`.
  unfoldable pub begin_offline_session : Router W → Broker W → ℕ → ℕ → Broker W
  unfolding end_session will_deadline
  begin_offline_session route b i expiry_override =
      let s = session_at b i in
      let expiry =
        if not (expiry_override == 0xffffffff)
        then expiry_override
        else s.session_expiry_interval in
      if expiry == 0
      then end_session route b s.self.slot (not s.suppress_will)
      else put_session b i (record s {
        state = offline;
        session_expiry_deadline_tick = deadline b.current_tick expiry;
        will_fire_deadline_tick =
            if not s.suppress_will && s.will.valid
            then will_deadline b.current_tick expiry s.will_delay_interval
            else s.will_fire_deadline_tick;
      })

  -- `deadline != SESSION_TICK_NONE && current_tick_ >= deadline`
  abbrev pub reached : Broker W → ℕ → Bool
  reached b d = not (d == tick_none) && leb d b.current_tick

  -- The body of the loop of `tick_offline_sessions`.
  unfoldable pub tick_offline_session : Router W → Broker W → ℕ → Broker W
  unfolding publish_stored_will release_will end_session
  tick_offline_session route b i =
      let b1 = release_will (publish_stored_will route b i) i in
      let b2 : Broker W =
        if reached b (session_at b i).will_fire_deadline_tick
        then put_session b1 i (record (session_at b1 i) { will_fire_deadline_tick = tick_none })
        else b in
      if not (is_offline (session_at b i).state)
      then b
      else if reached b2 (session_at b2 i).session_expiry_deadline_tick
      then end_session route b2 i false
      else b2

  unfoldable pub tick_offline_from : Router W → ℕ → ℕ → Broker W → Broker W
  unfolding tick_offline_session
  tick_offline_from route zero i b = b
  tick_offline_from route (suc left) i b =
      tick_offline_from route left (i + 1) (tick_offline_session route b i)

  unfoldable pub tick_offline_sessions : Router W → Broker W → Broker W
  unfolding tick_offline_from
  tick_offline_sessions route b = tick_offline_from route max_tcp_clients 0 b
