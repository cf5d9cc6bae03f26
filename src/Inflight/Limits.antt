-- ===== src/Inflight/Limits.antt =====
-- The capacity of the tables and the Receive Maximum that follows from it (inflight.cpp,
-- broker_limits_host.hpp and its siblings, connack_caps.hpp).
use net_burner_mqtt_broker.Base.{ℕ, min, u16, ◌==◌, if◌then◌else◌}

-- `BrokerLimits::QosInflightPerClient`, the same in all four profiles.
abbrev pub qos_inflight_per_client : ℕ
qos_inflight_per_client = 8

-- `ConnackCaps::ReceiveMaximum`
abbrev pub connack_receive_maximum : ℕ
connack_receive_maximum = u16 qos_inflight_per_client

unfoldable pub effective_receive_maximum : ℕ → ℕ
effective_receive_maximum client_receive_maximum =
    let cap = u16 qos_inflight_per_client in
    let connack = connack_receive_maximum in
    let client = if client_receive_maximum == 0 then connack else client_receive_maximum in
    min cap (min client connack)
