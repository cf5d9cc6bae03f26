-- ===== src/Broker/Limits.antt =====
-- libs/mqtt_broker/include/mqtt_broker/broker_limits_host.hpp with connack_caps.hpp and
-- broker_policy.hpp: the sizes of the host profile, the capabilities and the policy.
use net_burner_mqtt_broker.Base.{ℕ, ◌+◌}

abbrev pub max_tcp_clients : ℕ
max_tcp_clients = 32

abbrev pub max_subs_per_client : ℕ
max_subs_per_client = 16

abbrev pub max_subs_total : ℕ
max_subs_total = 128

abbrev pub max_packet_bytes : ℕ
max_packet_bytes = 16384

abbrev pub max_topic_bytes : ℕ
max_topic_bytes = 256

abbrev pub offline_queue_per_client : ℕ
offline_queue_per_client = 16

abbrev pub retained_bytes_total : ℕ
retained_bytes_total = 65536

abbrev pub parser_read_chunk : ℕ
parser_read_chunk = 512

abbrev pub tx_logical_per_client : ℕ
tx_logical_per_client = 32768

abbrev pub tx_logical_total : ℕ
tx_logical_total = 131072

abbrev pub payload_block_size : ℕ
payload_block_size = 512

abbrev pub payload_block_count : ℕ
payload_block_count = 96

abbrev pub max_interned_topics : ℕ
max_interned_topics = 128

abbrev pub max_interned_bytes : ℕ
max_interned_bytes = 16384

abbrev pub tx_queue_depth_per_client : ℕ
tx_queue_depth_per_client = 64

abbrev pub payload_slot_count : ℕ
payload_slot_count = tx_queue_depth_per_client + max_tcp_clients

abbrev pub max_retained_entries : ℕ
max_retained_entries = 64

abbrev pub keep_alive_multiplier_tenths : ℕ
keep_alive_multiplier_tenths = 15

abbrev pub max_keep_alive_sec : ℕ
max_keep_alive_sec = 30

abbrev pub connect_handshake_timeout_sec : ℕ
connect_handshake_timeout_sec = 15

-- `ConnackCaps::MaximumQos`
abbrev pub maximum_qos : ℕ
maximum_qos = 2

-- A negative value, which the code treats as it does 0, is 0.
pub record BrokerPolicy : Type 0 where
  pub max_keep_alive : ℕ
  pub connect_handshake_timeout : ℕ

-- The first value of `gPolicy`.
abbrev pub default_policy : BrokerPolicy
default_policy = record {
  max_keep_alive = max_keep_alive_sec;
  connect_handshake_timeout = connect_handshake_timeout_sec;
}
