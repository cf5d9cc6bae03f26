-- ===== src/MqttTypes.antt =====
-- The enumerations of libs/mqtt_broker/include/mqtt_broker/mqtt_types.hpp. Property identifiers and
-- reason codes are their numbers, since the code casts bytes to them.
use net_burner_mqtt_broker.Base.{ℕ, zero, suc, ◌*◌, ◌/◌, ◌^◌, bit_and, u8}

pub data PacketType : Type 0 where
  reserved connect connack publish puback pubrec pubrel pubcomp subscribe suback unsubscribe
        unsuback pingreq pingresp disconnect auth :
      PacketType

-- PropertyId
abbrev pub id_payload_format_indicator : ℕ
id_payload_format_indicator = 0x01

abbrev pub id_message_expiry_interval : ℕ
id_message_expiry_interval = 0x02

abbrev pub id_content_type : ℕ
id_content_type = 0x03

abbrev pub id_response_topic : ℕ
id_response_topic = 0x08

abbrev pub id_correlation_data : ℕ
id_correlation_data = 0x09

abbrev pub id_subscription_identifier : ℕ
id_subscription_identifier = 0x0b

abbrev pub id_session_expiry_interval : ℕ
id_session_expiry_interval = 0x11

abbrev pub id_assigned_client_identifier : ℕ
id_assigned_client_identifier = 0x12

abbrev pub id_server_keep_alive : ℕ
id_server_keep_alive = 0x13

abbrev pub id_authentication_method : ℕ
id_authentication_method = 0x15

abbrev pub id_authentication_data : ℕ
id_authentication_data = 0x16

abbrev pub id_request_problem_information : ℕ
id_request_problem_information = 0x17

abbrev pub id_will_delay_interval : ℕ
id_will_delay_interval = 0x18

abbrev pub id_request_response_information : ℕ
id_request_response_information = 0x19

abbrev pub id_response_information : ℕ
id_response_information = 0x1a

abbrev pub id_server_reference : ℕ
id_server_reference = 0x1c

abbrev pub id_reason_string : ℕ
id_reason_string = 0x1f

abbrev pub id_receive_maximum : ℕ
id_receive_maximum = 0x21

abbrev pub id_topic_alias_maximum : ℕ
id_topic_alias_maximum = 0x22

abbrev pub id_topic_alias : ℕ
id_topic_alias = 0x23

abbrev pub id_maximum_qos : ℕ
id_maximum_qos = 0x24

abbrev pub id_retain_available : ℕ
id_retain_available = 0x25

abbrev pub id_user_property : ℕ
id_user_property = 0x26

abbrev pub id_maximum_packet_size : ℕ
id_maximum_packet_size = 0x27

abbrev pub id_wildcard_subscription_available : ℕ
id_wildcard_subscription_available = 0x28

abbrev pub id_subscription_identifier_available : ℕ
id_subscription_identifier_available = 0x29

abbrev pub id_shared_subscription_available : ℕ
id_shared_subscription_available = 0x2a

-- ReasonCode
abbrev pub reason_success : ℕ
reason_success = 0x00

abbrev pub reason_granted_qos1 : ℕ
reason_granted_qos1 = 0x01

abbrev pub reason_granted_qos2 : ℕ
reason_granted_qos2 = 0x02

abbrev pub reason_no_subscription_existed : ℕ
reason_no_subscription_existed = 0x11

abbrev pub reason_unspecified_error : ℕ
reason_unspecified_error = 0x80

abbrev pub reason_malformed_packet : ℕ
reason_malformed_packet = 0x81

abbrev pub reason_protocol_error : ℕ
reason_protocol_error = 0x82

abbrev pub reason_implementation_specific_error : ℕ
reason_implementation_specific_error = 0x83

abbrev pub reason_unsupported_protocol_version : ℕ
reason_unsupported_protocol_version = 0x84

abbrev pub reason_client_identifier_not_valid : ℕ
reason_client_identifier_not_valid = 0x85

abbrev pub reason_bad_user_name_or_password : ℕ
reason_bad_user_name_or_password = 0x86

abbrev pub reason_not_authorized : ℕ
reason_not_authorized = 0x87

abbrev pub reason_topic_name_invalid : ℕ
reason_topic_name_invalid = 0x90

abbrev pub reason_packet_too_large : ℕ
reason_packet_too_large = 0x95

abbrev pub reason_quota_exceeded : ℕ
reason_quota_exceeded = 0x97

abbrev pub reason_topic_alias_invalid : ℕ
reason_topic_alias_invalid = 0x94

abbrev pub reason_subscription_identifiers_not_supported : ℕ
reason_subscription_identifiers_not_supported = 0xa1

abbrev pub reason_shared_subscriptions_not_supported : ℕ
reason_shared_subscriptions_not_supported = 0x9e

abbrev pub reason_server_unavailable : ℕ
reason_server_unavailable = 0x88

abbrev pub reason_bad_authentication_method : ℕ
reason_bad_authentication_method = 0x8c

abbrev pub reason_session_taken_over : ℕ
reason_session_taken_over = 0x8e

-- The number of a packet type, and the type of a number below 16.
abbrev pub type_code : PacketType → ℕ
type_code reserved = 0
type_code connect = 1
type_code connack = 2
type_code publish = 3
type_code puback = 4
type_code pubrec = 5
type_code pubrel = 6
type_code pubcomp = 7
type_code subscribe = 8
type_code suback = 9
type_code unsubscribe = 10
type_code unsuback = 11
type_code pingreq = 12
type_code pingresp = 13
type_code disconnect = 14
type_code auth = 15

unfoldable pub type_of_code : ℕ → PacketType
type_of_code zero = reserved
type_of_code (suc zero) = connect
type_of_code (suc (suc zero)) = connack
type_of_code (suc (suc (suc zero))) = publish
type_of_code (suc (suc (suc (suc zero)))) = puback
type_of_code (suc (suc (suc (suc (suc zero))))) = pubrec
type_of_code (suc (suc (suc (suc (suc (suc zero)))))) = pubrel
type_of_code (suc (suc (suc (suc (suc (suc (suc zero))))))) = pubcomp
type_of_code (suc (suc (suc (suc (suc (suc (suc (suc zero)))))))) = subscribe
type_of_code (suc (suc (suc (suc (suc (suc (suc (suc (suc zero))))))))) = suback
type_of_code (suc (suc (suc (suc (suc (suc (suc (suc (suc (suc zero)))))))))) = unsubscribe
type_of_code (suc (suc (suc (suc (suc (suc (suc (suc (suc (suc (suc zero))))))))))) = unsuback
type_of_code (suc (suc (suc (suc (suc (suc (suc (suc (suc (suc (suc (suc zero)))))))))))) = pingreq
type_of_code (suc (suc (suc (suc (suc (suc (suc (suc (suc (suc (suc (suc (suc zero))))))))))))) =
    pingresp
type_of_code
      (suc (suc (suc (suc (suc (suc (suc (suc (suc (suc (suc (suc (suc (suc zero)))))))))))))) =
    disconnect
type_of_code _ = auth

unfoldable pub packet_type_from_byte : ℕ → PacketType
unfolding type_of_code
packet_type_from_byte b = type_of_code (bit_and (b / 2 ^ 4) 0x0f)

unfoldable pub packet_type_to_byte : PacketType → ℕ
packet_type_to_byte t = u8 (type_code t * 2 ^ 4)
