-- ===== src/Broker/Connect.antt =====
-- handle_connect of libs/mqtt_broker/src/broker.cpp: who is let in, and which session is theirs.
use net_burner_mqtt_broker.Base.{
  ℕ, zero, suc, ◌+◌, ◌/◌, ◌%◌, Bool, true, false, ◌&&◌, ◌||◌, not, leb, ltb, ◌==◌, if◌then◌else◌,
  List, [], ◌∷◌, Option, none, some, take, u16, u32,
}
use net_burner_mqtt_broker.MessagePool.{msg_valid}
use net_burner_mqtt_broker.MqttTypes.{
  reason_success, reason_protocol_error, reason_quota_exceeded, reason_topic_name_invalid,
  reason_session_taken_over,
}
use net_burner_mqtt_broker.Topic.{is_empty}
use net_burner_mqtt_broker.Inflight.Outbound.{count}
use net_burner_mqtt_broker.Parser.Packet.{ParsedPacket}
use net_burner_mqtt_broker.Broker.Limits.{max_tcp_clients}
use net_burner_mqtt_broker.Broker.Metrics.{takeovers, one_client_less, one_client_more}
use net_burner_mqtt_broker.Broker.{
  Broker, SessionRecord, connected, is_connected, null_session, tick_none,
}
use net_burner_mqtt_broker.Broker.State.{
  session_at, put_session, connection_at, put_connection, offline_at, outbound_at, drop_message,
  counted,
}
use net_burner_mqtt_broker.Broker.Sessions.{
  Router, find_session_by_client_id, alloc_session_slot, release_will, clear_session_state,
  clear_session_qos_state, publish_stored_will,
}
use net_burner_mqtt_broker.Broker.Transport.{
  close_transport, send_connack, send_disconnect, reject_connect,
}
use net_burner_mqtt_broker.Broker.Messages.{attach_publish_metadata}
use net_burner_mqtt_broker.Broker.Enqueue.{retransmit_session_inflight}
use net_burner_mqtt_broker.Broker.Stored.{flush_offline_queue}

-- Decimal digits before `rest`; ten are enough for 32 bits.
unfoldable pub digits : ℕ → ℕ → List ℕ → List ℕ
digits zero n rest = rest
digits (suc fuel) n rest =
    let here = (b'0' + n % 10) ∷ rest in
    let more = digits fuel (n / 10) here in if n / 10 == 0 then here else more

-- `snprintf(…, "nb-%u-%lu", slot, serial)`
unfoldable pub assigned_client_id : ℕ → ℕ → List ℕ
unfolding digits
assigned_client_id slot serial = b'n' ∷ b'b' ∷ b'-' ∷ digits 10 slot (b'-' ∷ digits 10 serial [])

-- The keep-alive of the session, for what the client asks and the maximum of the policy.
unfoldable pub negotiate_keep_alive : ℕ → ℕ → ℕ → ℕ
negotiate_keep_alive protocol_level maximum asked =
    if leb 5 protocol_level && ltb 0 maximum && (asked == 0 || ltb (u16 maximum) asked)
    then u16 maximum
    else asked

-- The fields that the packet sets. Level 4 is MQTT 3.1.1.
unfoldable pub negotiated : SessionRecord → ParsedPacket → List ℕ → Bool → ℕ → SessionRecord
negotiated s pkt id server_assigned keep_alive = record s {
  client_id = take 63 id;
  keep_alive_sec = keep_alive;
  client_max_packet_size = pkt.client_max_packet_size;
  client_receive_maximum = pkt.client_receive_maximum;
  clean_start = pkt.clean_start || server_assigned;
  session_expiry_interval =
      if pkt.protocol_level == 4
      then if pkt.clean_start then 0 else 0xffffffff
      else pkt.session_expiry_interval;
  will_delay_interval = pkt.will_delay_interval;
  session_expiry_deadline_tick = tick_none;
  will_fire_deadline_tick = tick_none;
  suppress_will = false;
}

module _ {W : Type 0} where
  unfoldable pub session_has_presentable_state : Broker W → ℕ → Bool
  session_has_presentable_state b i =
      if leb max_tcp_clients i
      then false
      else ltb 0 (offline_at b i).count
        || ltb 0 (count (outbound_at b i).entries)
        || (session_at b i).has_subscription_state

  -- `release_pkt_will(pkt); reject_connect(transport_id, reason);`
  unfoldable pub refuse : Router W → Broker W → ℕ → ParsedPacket → ℕ → Broker W
  unfolding reject_connect
  refuse route b id pkt reason =
      reject_connect route
        (if msg_valid b.msg_pool pkt.will_payload then drop_message b pkt.will_payload else b) id
        reason

  -- The old transport is told and closed, for a session that resumes or not.
  unfoldable pub take_over : Router W → Broker W → ℕ → ℕ → Bool → Broker W
  unfolding publish_stored_will release_will send_disconnect close_transport is_empty
  take_over route b slot old resume_session =
      let s = session_at b slot in
      let had_will = s.will.valid && not (is_empty s.will.topic) in
      let b1 : Broker W =
        if had_will && (not resume_session || s.will_delay_interval == 0)
        then release_will (publish_stored_will route b slot) slot
        else b in
      let b2 =
        close_transport (counted takeovers (send_disconnect b1 old reason_session_taken_over))
          old in
      let b3 =
        put_connection b2 old
          (record (connection_at b2 old) { session = null_session; in_use = false }) in
      record b3 { metrics = one_client_less b3.metrics }

  -- `if (pkt.will_flag) { … }`
  unfoldable pub store_will : Broker W → ℕ → ParsedPacket → Broker W
  unfolding release_will attach_publish_metadata
  store_will b slot pkt =
      let b1 = release_will b slot in
      let b2 = put_session b1 slot (record (session_at b1 slot) {
        will = record {
          valid = true;
          topic = take 255 pkt.will_topic;
          payload = pkt.will_payload;
          payload_len = pkt.will_payload_len;
          qos = pkt.will_qos;
          retain = pkt.will_retain;
        };
      }) in
      if pkt.will_flag then attach_publish_metadata b2 pkt.will_payload pkt.will_properties 0 else b

  -- The session is connected to the transport, and the client is counted.
  unfoldable pub bind_session : Broker W → ℕ → ℕ → Broker W
  bind_session b slot id =
      let s = session_at b slot in
      let b1 =
        put_session b slot
          (record s { state = connected; transport_id = id; last_control_tick = b.current_tick }) in
      let b2 = put_connection b1 id (record (connection_at b1 id) {
        session = record { slot = slot; generation = s.self.generation };
      }) in
      record b2 { metrics = one_client_more b2.metrics }

  -- `handle_connect` from the CONNACK on.
  unfoldable pub greet : Router W → Broker W → ℕ → ℕ → Bool → Option (List ℕ) → ℕ → Broker W
  unfolding send_connack retransmit_session_inflight flush_offline_queue
  greet route b id slot session_present connack_id server_keep_alive =
      let b1 =
        send_connack route b id reason_success session_present connack_id server_keep_alive in
      let b2 : Broker W = if session_present then retransmit_session_inflight b1 id slot else b1 in
      if not (connection_at b1 id).in_use
      then b1
      else flush_offline_queue route b2 id
          (record { slot = slot; generation = (session_at b2 slot).self.generation })

  -- What comes before that, for the slot that is chosen; `existing` says that the client has it.
  unfoldable pub open_session :
      Router W → Broker W → ℕ → ParsedPacket → List ℕ → Bool → ℕ → Bool → Broker W
  unfolding take_over store_will bind_session greet session_has_presentable_state
      clear_session_state
  open_session route b id pkt client_id server_assigned slot existing =
      let s = session_at b slot in
      let resume_session = not pkt.clean_start && not server_assigned in
      let old =
        if existing && is_connected s.state && not (s.transport_id == 0xffff)
        then s.transport_id
        else 0xffff in
      let b1 : Broker W =
        if not (old == 0xffff) && not (old == id)
        then take_over route b slot old resume_session
        else b in
      let b2 : Broker W =
        if pkt.clean_start || server_assigned
        then clear_session_qos_state (clear_session_state b1 slot true) slot
        else b1 in
      let keep_alive =
        negotiate_keep_alive pkt.protocol_level b2.policy.max_keep_alive pkt.keep_alive in
      let b3 =
        put_session b2 slot
          (negotiated (session_at b2 slot) pkt client_id server_assigned keep_alive) in
      let b4 = store_will b3 slot pkt in
      greet route (bind_session b4 slot id) id slot
        (resume_session && session_has_presentable_state b4 slot)
        (if server_assigned then some client_id else none)
        (if keep_alive == pkt.keep_alive then 0 else keep_alive)

  -- `handle_connect` with the client identifier in effect.
  unfoldable pub admit : Router W → Broker W → ℕ → ParsedPacket → List ℕ → Bool → Broker W
  unfolding refuse open_session find_session_by_client_id alloc_session_slot is_empty
  admit route b id pkt client_id server_assigned =
      let existing = find_session_by_client_id b client_id in
      let slot : Option ℕ = elim existing [ some i ↦ some i | none ↦ alloc_session_slot b ] in
      elim slot [
        | none ↦ refuse route b id pkt reason_quota_exceeded
        | some i ↦
            if pkt.will_flag && is_empty pkt.will_topic
            then refuse route b id pkt reason_topic_name_invalid
            else open_session route b id pkt client_id server_assigned i
                (elim existing [ none ↦ false | some k ↦ true ])
      ]

  -- The client identifier is the packet's or assigned.
  unfoldable pub identify : Router W → Broker W → ℕ → ParsedPacket → Broker W
  unfolding admit is_empty
  identify route b id pkt =
      let serial = u32 (b.assign_serial + 1) in
      if not (is_empty pkt.client_id)
      then admit route b id pkt pkt.client_id false
      else if not pkt.clean_start
      then refuse route b id pkt reason_protocol_error
      else elim (alloc_session_slot b) [
        | none ↦ refuse route b id pkt reason_quota_exceeded
        | some slot ↦
            admit route (record b { assign_serial = serial }) id pkt
              (assigned_client_id slot serial) true
      ]

  unfoldable pub handle_connect : Router W → Broker W → ℕ → ParsedPacket → Broker W
  unfolding identify
  handle_connect route b id pkt =
      let latched : Broker W =
        if ltb id max_tcp_clients
        then put_connection b id
            (record (connection_at b id) { protocol_level = pkt.protocol_level })
        else b in
      elim b.auth [
        | none ↦ identify route latched id pkt
        | some auth ↦
            let answer =
              auth pkt.client_id (if pkt.has_username then some pkt.username else none)
                (if pkt.has_password then some pkt.password else none) in
            if not (answer == reason_success)
            then refuse route latched id pkt answer
            else identify route latched id pkt
      ]
