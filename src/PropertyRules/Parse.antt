-- ===== src/PropertyRules/Parse.antt =====
-- `parse_and_validate_properties` of libs/mqtt_broker/src/property_rules.cpp: the properties of a
-- packet, read from its bytes into the pool. `cursor` with `remaining` is the list of the bytes that
-- are left. Every refusal inside the loop first releases the slot; here the caller of the loop does.
pub mod Fuel
pub mod Slots
pub mod Release
mod Tests
use net_burner_mqtt_broker.Base.{
  ℕ, zero, suc, ◌+◌, Bool, true, false, ◌&&◌, ◌||◌, not, ltb, leb, ◌==◌, u8, if◌then◌else◌, List,
  [], ◌∷◌, Option, none, some, length, take, drop,
}
use net_burner_mqtt_broker.MqttTypes.{
  PacketType, id_authentication_data, id_authentication_method, id_content_type,
  id_correlation_data, id_maximum_packet_size, id_message_expiry_interval,
  id_payload_format_indicator, id_reason_string, id_receive_maximum, id_request_problem_information,
  id_request_response_information, id_response_topic, id_session_expiry_interval,
  id_subscription_identifier, id_topic_alias, id_topic_alias_maximum, id_user_property,
  id_will_delay_interval, reason_malformed_packet, reason_protocol_error, reason_quota_exceeded,
}
use net_burner_mqtt_broker.Varint.{
  VarintDecode, VarintResult, ok, need_more, too_large, overflow, varint_decode,
}
use net_burner_mqtt_broker.Wire.{byte_at, read_u16_be, read_u32_be}
use net_burner_mqtt_broker.PropertyPool.{
  PropertyPool, PropertyHandle, PropertyValueKind, byte_value, u16_value, u32_value, utf8_string,
  binary, varint, user_property, null_property, handle_valid, acquire_slot, release_slot,
}
use net_burner_mqtt_broker.PropertyPool.{
  add_byte, add_u16, add_u32, add_varint, add_utf8, add_binary, add_user_property,
}
use net_burner_mqtt_broker.PropertyRules.{utf8_valid, property_allowed, reject_reason, one_of}
use net_burner_mqtt_broker.PropertyRules.Validate.{
  PropertyValidationResult, accepted, refused, validate_properties,
}

abbrev pub max_property_bytes : ℕ
max_property_bytes = 2048

-- What one value leaves: the reason of a refusal, or the bytes behind it.
pub data Taken : Type 0 where
  stopped : ℕ → Taken
  left : List ℕ → Taken

abbrev pub stored_or_quota : Bool → List ℕ → Taken
stored_or_quota true rest = left rest
stored_or_quota false rest = stopped reason_quota_exceeded

-- `d.result == VarintResult::Ok`
abbrev pub is_ok : VarintResult → Bool
is_ok ok = true
is_ok need_more = false
is_ok too_large = false
is_ok overflow = false

-- The case labels of the switch, by the kind of the value.
unfoldable pub kind_of : ℕ → Option PropertyValueKind
unfolding one_of
kind_of id =
    if one_of id (
      id_payload_format_indicator ∷ id_request_problem_information ∷ id_request_response_information
      ∷ [])
    then some byte_value
    else if one_of id (id_receive_maximum ∷ id_topic_alias_maximum ∷ id_topic_alias ∷ [])
    then some u16_value
    else if one_of id (
        id_session_expiry_interval ∷ id_message_expiry_interval ∷ id_will_delay_interval
        ∷ id_maximum_packet_size ∷ [])
    then some u32_value
    else if id == id_subscription_identifier
    then some varint
    else if one_of id
        (id_content_type ∷ id_response_topic ∷ id_authentication_method ∷ id_reason_string ∷ [])
    then some utf8_string
    else if one_of id (id_correlation_data ∷ id_authentication_data ∷ [])
    then some binary
    else if id == id_user_property
    then some user_property
    else none

-- The cases of the switch. The pool comes first; where the value is refused it is as it was.
unfoldable pub take_value :
    PropertyValueKind → PropertyPool → PropertyHandle → ℕ → List ℕ → PropertyPool × Taken
take_value byte_value pool h id cursor =
    if ltb (length cursor) 1
    then (pool, stopped reason_malformed_packet)
    else let (pool', stored) = add_byte pool h id (byte_at cursor 0) in
      (pool', stored_or_quota stored (drop 1 cursor))
take_value u16_value pool h id cursor =
    if ltb (length cursor) 2
    then (pool, stopped reason_malformed_packet)
    else let (pool', stored) = add_u16 pool h id (read_u16_be cursor) in
      (pool', stored_or_quota stored (drop 2 cursor))
take_value u32_value pool h id cursor =
    if ltb (length cursor) 4
    then (pool, stopped reason_malformed_packet)
    else let (pool', stored) = add_u32 pool h id (read_u32_be cursor) in
      (pool', stored_or_quota stored (drop 4 cursor))
take_value varint pool h id cursor =
    let sid = varint_decode cursor in
    if not (is_ok sid.result)
    then (pool, stopped reason_malformed_packet)
    else let (pool', stored) = add_varint pool h id sid.value in
      (pool', stored_or_quota stored (drop sid.bytes_consumed cursor))
take_value utf8_string pool h id cursor =
    let slen = read_u16_be cursor in
    let str = take slen (drop 2 cursor) in
    if ltb (length cursor) 2
    then (pool, stopped reason_malformed_packet)
    else if ltb (length cursor) (2 + slen)
    then (pool, stopped reason_malformed_packet)
    else if not (utf8_valid (some str))
    then (pool, stopped reason_protocol_error)
    else let (pool', stored) = add_utf8 pool h id str in
      (pool', stored_or_quota stored (drop (2 + slen) cursor))
take_value binary pool h id cursor =
    let blen = read_u16_be cursor in
    if ltb (length cursor) 2
    then (pool, stopped reason_malformed_packet)
    else if ltb (length cursor) (2 + blen)
    then (pool, stopped reason_malformed_packet)
    else let (pool', stored) = add_binary pool h id (take blen (drop 2 cursor)) in
      (pool', stored_or_quota stored (drop (2 + blen) cursor))
take_value user_property pool h id cursor =
    let klen = read_u16_be cursor in
    let vlen = read_u16_be (drop (2 + klen) cursor) in
    let key = take klen (drop 2 cursor) in
    let val = take vlen (drop (4 + klen) cursor) in
    if ltb (length cursor) 2
    then (pool, stopped reason_malformed_packet)
    else if ltb (length cursor) (2 + klen + 2)
    then (pool, stopped reason_malformed_packet)
    else if ltb (length cursor) (4 + klen + vlen)
    then (pool, stopped reason_malformed_packet)
    else if not (utf8_valid (some key)) || not (utf8_valid (some val))
    then (pool, stopped reason_protocol_error)
    else let (pool', stored) = add_user_property pool h key val in
      (pool', stored_or_quota stored (drop (4 + klen + vlen) cursor))

-- One round of the loop. The identifier is cast to its byte.
unfoldable pub take_property :
    PacketType → PropertyPool → PropertyHandle → List ℕ → PropertyPool × Taken
unfolding take_value kind_of
take_property packet pool h cursor =
    let id_dec = varint_decode cursor in
    let id = u8 id_dec.value in
    if not (is_ok id_dec.result)
    then (pool, stopped reason_malformed_packet)
    else if not (property_allowed packet id)
    then (pool, stopped (reject_reason packet id))
    else elim (kind_of id) [
      | none ↦ (pool, stopped reason_protocol_error)
      | some kind ↦ take_value kind pool h id (drop id_dec.bytes_consumed cursor)
    ]

-- The loop, on fuel: a round takes a byte at least. `some` is the reason of a refusal; a loop that
-- has run out of fuel leaves its reason open as 0.
unfoldable pub take_properties :
    ℕ → PacketType → PropertyPool → PropertyHandle → List ℕ → PropertyPool × Option ℕ
unfolding take_property
take_properties fuel packet pool h [] = (pool, none)
take_properties zero packet pool h (c ∷ cs) = (pool, some 0)
take_properties (suc fuel) packet pool h (c ∷ cs) =
    let (pool', taken) = take_property packet pool h (c ∷ cs) in
    elim taken [
      | stopped reason ↦ (pool', some reason)
      | left rest ↦ take_properties fuel packet pool' h rest
    ]

-- What the function returns: the pool, `*out_handle` and the result. The pool is not null.
unfoldable pub parse_and_validate_properties :
    PacketType → List ℕ → PropertyPool → PropertyPool × PropertyHandle × PropertyValidationResult
unfolding take_properties
parse_and_validate_properties packet bytes pool =
    let prop_len = varint_decode bytes in
    let section = take prop_len.value (drop prop_len.bytes_consumed bytes) in
    let (pool1, h) = acquire_slot pool in
    let (pool2, failed) = take_properties (length section) packet pool1 h section in
    let result = validate_properties packet h pool2 in
    if length bytes == 0
    then (pool, null_property, accepted)
    else if not (is_ok prop_len.result)
    then (pool, null_property, refused reason_malformed_packet)
    else if ltb max_property_bytes prop_len.value
    then (pool, null_property, refused reason_protocol_error)
    else if ltb (length bytes) (prop_len.bytes_consumed + prop_len.value)
    then (pool, null_property, refused reason_malformed_packet)
    else if not (handle_valid pool1 h)
    then (pool1, null_property, refused reason_quota_exceeded)
    else elim failed [
      | some reason ↦ (release_slot pool2 h, null_property, refused reason)
      | none ↦
          if not (result.ok)
          then (release_slot pool2 h, null_property, result)
          else (pool2, h, result)
    ]
