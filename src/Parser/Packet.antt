-- ===== src/Parser/Packet.antt =====
-- The decoded packet and the parser's state (parser.hpp, parser_state.hpp). A character array is the
-- C string in it; a byte array with its length is the list of its first bytes.
use net_burner_mqtt_broker.Base.{ℕ, Bool, false, List, [], Option, if◌then◌else◌, ltb}
use net_burner_mqtt_broker.Delivery.{MessageHandle, null_message}
use net_burner_mqtt_broker.MqttTypes.{PacketType, reserved, reason_success}
use net_burner_mqtt_broker.MessagePool.{MessagePool}
use net_burner_mqtt_broker.PropertyPool.{PropertyPool, PropertyHandle, null_property}

abbrev pub max_subscribe_entries : ℕ
max_subscribe_entries = 8

abbrev pub max_username_len : ℕ
max_username_len = 64

abbrev pub max_password_len : ℕ
max_password_len = 64

pub record ParsedSubscribeEntry : Type 0 where
  pub filter : List ℕ
  pub options_byte : ℕ

-- `password_len` and `subscribe_count` are the lengths of the lists.
pub record ParsedPacket : Type 0 where
  pub type : PacketType
  pub flags : ℕ
  pub remaining_length : ℕ
  pub topic : List ℕ
  pub packet_id : ℕ
  pub ack_reason_code : ℕ
  pub qos : ℕ
  pub retain : Bool
  pub dup : Bool
  pub payload : MessageHandle
  pub properties : PropertyHandle
  pub payload_len : ℕ
  pub client_id : List ℕ
  pub protocol_name : List ℕ
  pub protocol_level : ℕ
  pub connect_flags : ℕ
  pub keep_alive : ℕ
  pub clean_start : Bool
  pub client_max_packet_size : ℕ
  pub client_receive_maximum : ℕ
  pub session_expiry_interval : ℕ
  pub will_delay_interval : ℕ
  pub disconnect_session_expiry : ℕ
  pub disconnect_reason : ℕ
  pub has_username : Bool
  pub has_password : Bool
  pub username : List ℕ
  pub password : List ℕ
  pub will_flag : Bool
  pub will_qos : ℕ
  pub will_retain : Bool
  pub will_topic : List ℕ
  pub will_payload : MessageHandle
  pub will_payload_len : ℕ
  pub will_properties : PropertyHandle
  pub subscribe_entries : List ParsedSubscribeEntry

-- The packet as `reset` leaves it.
abbrev pub blank_packet : ParsedPacket
blank_packet = record {
  type = reserved;
  flags = 0;
  remaining_length = 0;
  topic = [];
  packet_id = 0;
  ack_reason_code = 0;
  qos = 0;
  retain = false;
  dup = false;
  payload = null_message;
  properties = null_property;
  payload_len = 0;
  client_id = [];
  protocol_name = [];
  protocol_level = 0;
  connect_flags = 0;
  keep_alive = 0;
  clean_start = false;
  client_max_packet_size = 0;
  client_receive_maximum = 0;
  session_expiry_interval = 0;
  will_delay_interval = 0;
  disconnect_session_expiry = 0;
  disconnect_reason = 0;
  has_username = false;
  has_password = false;
  username = [];
  password = [];
  will_flag = false;
  will_qos = 0;
  will_retain = false;
  will_topic = [];
  will_payload = null_message;
  will_payload_len = 0;
  will_properties = null_property;
  subscribe_entries = [];
}

pub data ParsePhase : Type 0 where
  idle fixed_header_phase remaining_length_phase variable_header properties_phase payload_phase
        complete error :
      ParsePhase

pub record ParserLimits : Type 0 where
  pub max_packet_bytes : ℕ
  pub max_topic_bytes : ℕ
  pub control_buffer_bytes : ℕ

-- `rl_buf` and `control_buf` are the bytes that the arrays hold, up to `rl_buf_len_` and
-- `control_len_`. A pool that is a null pointer is `none`.
pub record PacketParser : Type 0 where
  pub limits : ParserLimits
  pub msg_pool : Option MessagePool
  pub prop_pool : Option PropertyPool
  pub phase : ParsePhase
  pub error_reason : ℕ
  pub fixed_header : ℕ
  pub remaining_total : ℕ
  pub remaining_consumed : ℕ
  pub rl_buf : List ℕ
  pub control_buf : List ℕ
  pub control_target : ℕ
  pub property_section_len : ℕ
  pub property_section_consumed : ℕ
  pub property_len_known : Bool
  pub packet : ParsedPacket
  pub active_payload : MessageHandle
  pub protocol_level : ℕ

-- `sizeof(control_buf_)`
abbrev pub control_size : ℕ
control_size = 1024

unfoldable pub reset : PacketParser → PacketParser
reset p = record p {
  phase = idle;
  error_reason = reason_success;
  fixed_header = 0;
  remaining_total = 0;
  remaining_consumed = 0;
  rl_buf = [];
  control_buf = [];
  control_target = 0;
  property_section_len = 0;
  property_section_consumed = 0;
  property_len_known = false;
  active_payload = null_message;
  packet = blank_packet;
}

-- The constructor.
unfoldable pub create_parser :
    ParserLimits → Option MessagePool → Option PropertyPool → PacketParser
create_parser limits msg_pool prop_pool = record {
  limits = record limits {
    control_buffer_bytes =
        if ltb control_size limits.control_buffer_bytes
        then control_size
        else limits.control_buffer_bytes;
  };
  msg_pool = msg_pool;
  prop_pool = prop_pool;
  phase = idle;
  error_reason = reason_success;
  fixed_header = 0;
  remaining_total = 0;
  remaining_consumed = 0;
  rl_buf = [];
  control_buf = [];
  control_target = 0;
  property_section_len = 0;
  property_section_consumed = 0;
  property_len_known = false;
  packet = blank_packet;
  active_payload = null_message;
  protocol_level = 5;
}

unfoldable pub reset_protocol_level : PacketParser → PacketParser
reset_protocol_level p = record p { protocol_level = 5 }
