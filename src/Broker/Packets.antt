-- ===== src/Broker/Packets.antt =====
-- The handlers of PUBLISH and of the acknowledgements in libs/mqtt_broker/src/broker.cpp.
use net_burner_mqtt_broker.Base.{
  ℕ, Bool, true, false, ◌||◌, not, leb, ltb, ◌==◌, if◌then◌else◌, Option, none, some, get_elem?,
  set,
}
use net_burner_mqtt_broker.Delivery.{MessageHandle}
use net_burner_mqtt_broker.MessagePool.{msg_valid, msg_acquire}
use net_burner_mqtt_broker.MqttTypes.{reason_success}
use net_burner_mqtt_broker.Parser.Packet.{ParsedPacket}
use net_burner_mqtt_broker.Inflight.Outbound
use net_burner_mqtt_broker.Inflight.Outbound.{
  OutboundQoS2Phase, awaiting_pubrec, awaiting_pubcomp, unset,
}
use net_burner_mqtt_broker.Inflight.Inbound.{
  InboundQoS2Entry, find_staged, insert_staged, remove_staged, unstaged,
}
use net_burner_mqtt_broker.Broker.Limits.{maximum_qos}
use net_burner_mqtt_broker.Broker.Metrics.{publishes_received}
use net_burner_mqtt_broker.Broker.{Broker, text, staged_at}
use net_burner_mqtt_broker.Broker.State.{
  session_at, outbound_at, inbound_at, drop_message, counted, session_of,
}
use net_burner_mqtt_broker.Broker.Sessions.{Router}
use net_burner_mqtt_broker.Broker.Transport.{
  disconnect_transport, send_puback, send_pubrec, send_pubrel, send_pubcomp,
}
use net_burner_mqtt_broker.Broker.Messages.{attach_publish_metadata}
use net_burner_mqtt_broker.Broker.Delivery.{release_outbound_inflight}
use mathlib.Core.Option

abbrev pub awaits_pubrec : OutboundQoS2Phase → Bool
awaits_pubrec p = elim p [ unset ↦ false | awaiting_pubrec ↦ true | awaiting_pubcomp ↦ false ]

module _ {W : Type 0} where
  -- `if (msg_pool_.msg_valid(h)) { msg_pool_.msg_release(h); }`
  abbrev pub drop_valid : Broker W → MessageHandle → Broker W
  drop_valid b h = if msg_valid b.msg_pool h then drop_message b h else b

  abbrev pub staged_entry_at : Broker W → ℕ → ℕ → InboundQoS2Entry
  staged_entry_at b slot i = Option.get_or (get_elem? (inbound_at b slot).entries i) unstaged

  -- The packet is staged for its PUBREL, with a reference of its own that has been taken.
  unfoldable pub stage_publish : Router W → Broker W → ℕ → ℕ → ParsedPacket → Broker W
  stage_publish route b id slot pkt =
      let (t, pending) =
        insert_staged (inbound_at b slot) pkt.packet_id (some pkt.topic) pkt.payload pkt.payload_len
          pkt.retain pkt.qos pkt.dup in
      let b1 = record b { inbound = set b.inbound slot t } in
      elim pending [
        | none ↦ disconnect_transport route (drop_message b1 pkt.payload) id false
        | some i ↦
            let e = staged_entry_at b1 slot i in
            if e.pubrec_sent
            then b1
            else (send_pubrec
                (record b1 {
                  inbound =
                      set b1.inbound slot
                        (record { entries = set t.entries i (record e { pubrec_sent = true }) });
                })
                id pkt.packet_id reason_success).0
      ]

  -- The end of `handle_publish` for QoS 2.
  unfoldable pub publish_exactly_once : Router W → Broker W → ℕ → ℕ → ParsedPacket → Broker W
  unfolding stage_publish
  publish_exactly_once route b id slot pkt =
      let existing = find_staged pkt.packet_id (inbound_at b slot).entries in
      let already : Bool = elim existing [
        | none ↦ false
        | some i ↦ (staged_entry_at b slot i).pubrec_sent
      ] in
      let (pool, has_message) = msg_acquire b.msg_pool pkt.payload in
      if already
      then (send_pubrec (drop_valid b pkt.payload) id pkt.packet_id reason_success).0
      else if not has_message
      then disconnect_transport route b id false
      else stage_publish route (record b { msg_pool = pool }) id slot pkt

  -- `handle_publish` for a connection that has session `i`.
  unfoldable pub publish_from : Router W → Broker W → ℕ → ℕ → ParsedPacket → Broker W
  unfolding publish_exactly_once attach_publish_metadata
  publish_from route b id i pkt =
      let b1 = attach_publish_metadata b pkt.payload pkt.properties b.current_tick in
      let routed = route b1 id (text pkt.topic) pkt.qos pkt.retain pkt.payload pkt.payload_len in
      if pkt.qos == 0
      then drop_valid routed pkt.payload
      else if pkt.qos == 1
      then drop_valid (send_puback routed id pkt.packet_id reason_success).0 pkt.payload
      else publish_exactly_once route b1 id (session_at b1 i).self.slot pkt

  unfoldable pub handle_publish : Router W → Broker W → ℕ → ParsedPacket → Broker W
  unfolding publish_from
  handle_publish route b id pkt =
      let b1 = counted publishes_received b in
      if ltb maximum_qos pkt.qos
      then disconnect_transport route b id false
      else elim (session_of b1 id) [
        | none ↦ drop_valid b1 pkt.payload
        | some i ↦ publish_from route b1 id i pkt
      ]

  -- The outbound entry that an acknowledgement names: its session's slot and its index.
  unfoldable pub acknowledged : Broker W → ℕ → ParsedPacket → Option (ℕ × ℕ)
  acknowledged b id pkt = elim (session_of b id) [
    | none ↦ none
    | some i ↦
        let slot = (session_at b i).self.slot in
        if pkt.packet_id == 0
        then none
        else Option.map (λ k. (slot, k)) (Outbound.find pkt.packet_id (outbound_at b slot).entries)
  ]

  unfoldable pub handle_puback : Broker W → ℕ → ParsedPacket → Broker W
  unfolding acknowledged
  handle_puback b id pkt = elim (acknowledged b id pkt) [
    | none ↦ b
    | some entry ↦
        let (slot, k) = entry in
        if not ((Outbound.entry_at (outbound_at b slot).entries k).delivery_qos == 1)
        then b
        else release_outbound_inflight b slot pkt.packet_id
  ]

  unfoldable pub handle_pubrec : Broker W → ℕ → ParsedPacket → Broker W
  unfolding acknowledged
  handle_pubrec b id pkt = elim (acknowledged b id pkt) [
    | none ↦ b
    | some entry ↦
        let (slot, k) = entry in
        let t = outbound_at b slot in
        let e = Outbound.entry_at t.entries k in
        if not (e.delivery_qos == 2) || not (awaits_pubrec e.qos2_phase)
        then b
        else if leb 0x80 pkt.ack_reason_code
        then release_outbound_inflight b slot pkt.packet_id
        else (send_pubrel
            (record b {
              outbound = set b.outbound slot (record t {
                entries = set t.entries k (record e { qos2_phase = awaiting_pubcomp });
              });
            })
            id pkt.packet_id reason_success).0
  ]

  unfoldable pub handle_pubcomp : Broker W → ℕ → ParsedPacket → Broker W
  unfolding acknowledged
  handle_pubcomp b id pkt = elim (acknowledged b id pkt) [
    | none ↦ b
    | some entry ↦
        let (slot, k) = entry in
        if not ((Outbound.entry_at (outbound_at b slot).entries k).delivery_qos == 2)
        then b
        else release_outbound_inflight b slot pkt.packet_id
  ]

  -- `handle_pubrel` for the entry `k` of session slot `slot`.
  unfoldable pub release_staged : Router W → Broker W → ℕ → ℕ → ℕ → ParsedPacket → Broker W
  release_staged route b id slot k pkt =
      let e = staged_entry_at b slot k in
      let b1 = route b id (staged_at slot k) e.qos e.retain e.payload e.payload_len in
      let (t, pool, gone) = remove_staged (inbound_at b1 slot) pkt.packet_id (some b1.msg_pool) in
      (send_pubcomp
        (record b1 { inbound = set b1.inbound slot t; msg_pool = Option.get_or pool b1.msg_pool })
        id pkt.packet_id reason_success).0

  unfoldable pub handle_pubrel : Router W → Broker W → ℕ → ParsedPacket → Broker W
  unfolding release_staged
  handle_pubrel route b id pkt = elim (session_of b id) [
    | none ↦ b
    | some i ↦
        let slot = (session_at b i).self.slot in
        if pkt.packet_id == 0
        then b
        else elim (find_staged pkt.packet_id (inbound_at b slot).entries) [
          | none ↦ b
          | some k ↦ release_staged route b id slot k pkt
        ]
  ]
