-- ===== src/PropertyRules.antt =====
-- The rules of libs/mqtt_broker/src/property_rules.cpp on single properties: which strings are taken
-- for UTF-8, which properties a packet may carry, which of them once only, and the reason given for a
-- property that it may not carry.
pub mod Once
pub mod Validate
pub mod Repeats
pub mod Parse
mod Tests
use net_burner_mqtt_broker.Base.{
  ℕ, zero, suc, Bool, true, false, ◌&&◌, ◌||◌, not, leb, ◌==◌, bit_and, if◌then◌else◌,
}
use net_burner_mqtt_broker.Base.{List, [], ◌∷◌, Option, none, some, length}
use net_burner_mqtt_broker.MqttTypes.{
  PacketType, connect, connack, publish, puback, pubrec, pubrel, pubcomp, subscribe, disconnect,
}
use net_burner_mqtt_broker.MqttTypes.{
  id_authentication_data, id_authentication_method, id_content_type, id_correlation_data,
  id_maximum_packet_size, id_message_expiry_interval, id_payload_format_indicator, id_reason_string,
  id_receive_maximum, id_request_problem_information, id_request_response_information,
  id_response_topic, id_session_expiry_interval, id_subscription_identifier, id_topic_alias,
  id_topic_alias_maximum, id_user_property, id_will_delay_interval, reason_protocol_error,
  reason_subscription_identifiers_not_supported, reason_topic_alias_invalid,
}

-- `(c & 0xC0) == 0x80`
abbrev pub continues : ℕ → Bool
continues c = bit_and c 0xc0 == 0x80

-- `c` is followed by `n` continuation bytes.
unfoldable pub continued : ℕ → List ℕ → Bool
continued zero s = true
continued (suc n) [] = false
continued (suc n) (c ∷ s) = continues c && continued n s

-- The number of continuation bytes behind the byte `c`, `none` for one that no character starts with.
unfoldable pub continuations : ℕ → Option ℕ
continuations c =
    if leb c 0x7f
    then some 0
    else if leb 0xc2 c && leb c 0xdf
    then some 1
    else if leb 0xe0 c && leb c 0xef
    then some 2
    else if leb 0xf0 c && leb c 0xf4
    then some 3
    else none

-- The loop of `utf8_valid`, with the number of bytes to pass over before the next character. A
-- character's continuation bytes are tested where it starts.
unfoldable pub utf8_loop : ℕ → List ℕ → Bool
unfolding continued continuations
utf8_loop skip [] = true
utf8_loop (suc skip) (c ∷ s) = utf8_loop skip s
utf8_loop zero (c ∷ s) = elim (continuations c) [
  | none ↦ false
  | some n ↦ continued n s && utf8_loop n s
]

-- `none` is a null pointer.
unfoldable pub utf8_valid : Option (List ℕ) → Bool
unfolding utf8_loop
utf8_valid none = false
utf8_valid (some bytes) = utf8_loop 0 bytes

unfoldable pub utf8_cstr_valid : Option (List ℕ) → Bool
unfolding utf8_valid
utf8_cstr_valid none = false
utf8_cstr_valid (some str) = utf8_valid (some str)

-- The case labels of a switch.
unfoldable pub one_of : ℕ → List ℕ → Bool
one_of id [] = false
one_of id (x ∷ xs) = id == x || one_of id xs

unfoldable pub property_allowed : PacketType → ℕ → Bool
unfolding one_of
property_allowed connect id = one_of id (
    id_session_expiry_interval ∷ id_receive_maximum ∷ id_maximum_packet_size
    ∷ id_topic_alias_maximum ∷ id_request_response_information ∷ id_request_problem_information
    ∷ id_user_property ∷ id_authentication_method ∷ id_authentication_data ∷ id_will_delay_interval
    ∷ id_payload_format_indicator ∷ id_message_expiry_interval ∷ id_content_type ∷ id_response_topic
    ∷ id_correlation_data ∷ [])
property_allowed publish id = one_of id (
    id_payload_format_indicator ∷ id_message_expiry_interval ∷ id_content_type ∷ id_response_topic
    ∷ id_correlation_data ∷ id_user_property ∷ id_topic_alias ∷ [])
property_allowed subscribe id = id == id_user_property
property_allowed connack id = id == id_user_property || id == id_reason_string
property_allowed puback id = id == id_user_property || id == id_reason_string
property_allowed pubrec id = id == id_user_property || id == id_reason_string
property_allowed pubrel id = id == id_user_property || id == id_reason_string
property_allowed pubcomp id = id == id_user_property || id == id_reason_string
property_allowed disconnect id =
    id == id_user_property || id == id_reason_string || id == id_session_expiry_interval
property_allowed _ id = false

unfoldable pub single_occurrence : ℕ → Bool
unfolding one_of
single_occurrence id = one_of id (
    id_session_expiry_interval ∷ id_receive_maximum ∷ id_maximum_packet_size
    ∷ id_topic_alias_maximum ∷ id_request_response_information ∷ id_request_problem_information
    ∷ id_authentication_method ∷ id_authentication_data ∷ id_will_delay_interval
    ∷ id_payload_format_indicator ∷ id_message_expiry_interval ∷ id_content_type ∷ id_response_topic
    ∷ id_correlation_data ∷ id_topic_alias ∷ [])

-- `packet == PacketType::Subscribe`
unfoldable pub is_subscribe : PacketType → Bool
is_subscribe subscribe = true
is_subscribe _ = false

unfoldable pub reject_reason : PacketType → ℕ → ℕ
unfolding is_subscribe
reject_reason packet id =
    if is_subscribe packet && id == id_subscription_identifier
    then reason_subscription_identifiers_not_supported
    else if id == id_topic_alias
    then reason_topic_alias_invalid
    else reason_protocol_error
