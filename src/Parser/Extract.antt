-- ===== src/Parser/Extract.antt =====
-- What libs/mqtt_broker/src/parser.cpp takes out of the parsed properties of a CONNECT and a
-- DISCONNECT.
use net_burner_mqtt_broker.Base.{
  ℕ, Bool, true, false, ◌&&◌, not, ◌==◌, if◌then◌else◌, List, [], ◌∷◌, Option, none, some, drop,
}
use net_burner_mqtt_broker.Wire.{read_u16_be, read_u32_be}
use net_burner_mqtt_broker.PropertyPool.{
  PropertyPool, PropertyHandle, PropertyRecord, PropertyValueKind, u16_value, u32_value,
  handle_valid, records_of,
}
use net_burner_mqtt_broker.Inflight.Limits.{connack_receive_maximum}
use net_burner_mqtt_broker.Encode.{maximum_packet_size}
use net_burner_mqtt_broker.Parser.Packet.{ParsedPacket}
use net_burner_mqtt_broker.MqttTypes.{
  id_maximum_packet_size, id_receive_maximum, id_session_expiry_interval, id_will_delay_interval,
}
use mathlib.Core.Option

-- `recs[i].kind == PropertyValueKind::U32`, and `U16`.
abbrev pub is_u32 : PropertyValueKind → Bool
is_u32 u32_value = true
is_u32 _ = false

abbrev pub is_u16 : PropertyValueKind → Bool
is_u16 u16_value = true
is_u16 _ = false

-- One round of the loop of `extract_connect_limits`.
unfoldable pub connect_limit : List ℕ → ParsedPacket → PropertyRecord → ParsedPacket
connect_limit blob pkt r =
    let at = drop r.offset blob in
    if r.id == id_maximum_packet_size && is_u32 r.kind
    then record pkt { client_max_packet_size = read_u32_be at }
    else if r.id == id_receive_maximum && is_u16 r.kind
    then record pkt { client_receive_maximum = read_u16_be at }
    else if r.id == id_session_expiry_interval && is_u32 r.kind
    then record pkt { session_expiry_interval = read_u32_be at }
    else if r.id == id_will_delay_interval && is_u32 r.kind
    then record pkt { will_delay_interval = read_u32_be at }
    else pkt

-- A loop over records that changes the packet.
pub over_records :
    (ParsedPacket → PropertyRecord → ParsedPacket)
    → ParsedPacket
    → List PropertyRecord
    → ParsedPacket
over_records f pkt [] = pkt
over_records f pkt (r ∷ rs) = over_records f (f pkt r) rs

-- The records of a handle and the arena; none where the pool is null or the handle is not valid.
unfoldable pub stored_properties :
    Option PropertyPool → PropertyHandle → List PropertyRecord × List ℕ
stored_properties none h = ([], [])
stored_properties (some pool) h =
    if not (handle_valid pool h)
    then ([], [])
    else (Option.get_or (records_of pool h) [], pool.blob)

unfoldable pub extract_connect_limits : ParsedPacket → Option PropertyPool → ParsedPacket
unfolding over_records connect_limit stored_properties
extract_connect_limits pkt pool =
    let (records, blob) = stored_properties pool pkt.properties in
    over_records (connect_limit blob)
      (record pkt {
        client_max_packet_size = maximum_packet_size;
        client_receive_maximum = connack_receive_maximum;
        session_expiry_interval = 0;
        will_delay_interval = 0;
      })
      records

unfoldable pub extract_will_delay : ParsedPacket → Option PropertyPool → ParsedPacket
unfolding over_records stored_properties
extract_will_delay pkt pool =
    let (records, blob) = stored_properties pool pkt.will_properties in
    over_records
      (λ (pkt : ParsedPacket) (r : PropertyRecord).
        if r.id == id_will_delay_interval && is_u32 r.kind
        then record pkt { will_delay_interval = read_u32_be (drop r.offset blob) }
        else pkt)
      pkt records

unfoldable pub extract_disconnect_session_expiry : ParsedPacket → Option PropertyPool → ParsedPacket
unfolding over_records stored_properties
extract_disconnect_session_expiry pkt pool =
    let (records, blob) = stored_properties pool pkt.properties in
    over_records
      (λ (pkt : ParsedPacket) (r : PropertyRecord).
        if r.id == id_session_expiry_interval && is_u32 r.kind
        then record pkt { disconnect_session_expiry = read_u32_be (drop r.offset blob) }
        else pkt)
      (record pkt { disconnect_session_expiry = 0xffffffff }) records
