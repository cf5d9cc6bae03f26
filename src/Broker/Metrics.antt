-- ===== src/Broker/Metrics.antt =====
-- libs/mqtt_broker/include/mqtt_broker/metrics.hpp: the counters, and how each is moved.
use net_burner_mqtt_broker.Base.{ℕ, ◌+◌, ◌-◌, ltb, if◌then◌else◌, u32}

pub record BrokerMetrics : Type 0 where
  pub clients_connected : ℕ
  pub clients_connected_peak : ℕ
  pub connect_accept : ℕ
  pub connect_reject : ℕ
  pub publish_received : ℕ
  pub publish_sent : ℕ
  pub dropped_too_large : ℕ
  pub dropped_quota : ℕ
  pub quota_drop_count : ℕ
  pub will_published : ℕ
  pub session_takeovers : ℕ
  pub pool_exhaustion : ℕ
  pub keepalive_disconnects : ℕ
  pub slow_consumer_disconnects : ℕ
  pub parser_errors : ℕ
  pub tx_logical_high_water : ℕ
  pub messages_expired : ℕ

-- `metrics_{}`
abbrev pub no_metrics : BrokerMetrics
no_metrics = record {
  clients_connected = 0;
  clients_connected_peak = 0;
  connect_accept = 0;
  connect_reject = 0;
  publish_received = 0;
  publish_sent = 0;
  dropped_too_large = 0;
  dropped_quota = 0;
  quota_drop_count = 0;
  will_published = 0;
  session_takeovers = 0;
  pool_exhaustion = 0;
  keepalive_disconnects = 0;
  slow_consumer_disconnects = 0;
  parser_errors = 0;
  tx_logical_high_water = 0;
  messages_expired = 0;
}

-- The counters that are incremented.
pub data Counter : Type 0 where
  publishes_received publishes_sent too_large quota quota_and_queue wills takeovers exhaustion
        keepalive slow_consumers parser_failures expired rejects :
      Counter

abbrev pub tally : Counter → BrokerMetrics → BrokerMetrics
tally publishes_received m = record m { publish_received = u32 (m.publish_received + 1) }
tally publishes_sent m = record m { publish_sent = u32 (m.publish_sent + 1) }
tally too_large m = record m { dropped_too_large = u32 (m.dropped_too_large + 1) }
tally quota m = record m { dropped_quota = u32 (m.dropped_quota + 1) }
tally quota_and_queue m = record m {
  dropped_quota = u32 (m.dropped_quota + 1);
  quota_drop_count = u32 (m.quota_drop_count + 1);
}
tally wills m = record m { will_published = u32 (m.will_published + 1) }
tally takeovers m = record m { session_takeovers = u32 (m.session_takeovers + 1) }
tally exhaustion m = record m { pool_exhaustion = u32 (m.pool_exhaustion + 1) }
tally keepalive m = record m { keepalive_disconnects = u32 (m.keepalive_disconnects + 1) }
tally slow_consumers m = record m {
  slow_consumer_disconnects = u32 (m.slow_consumer_disconnects + 1);
}
tally parser_failures m = record m { parser_errors = u32 (m.parser_errors + 1) }
tally expired m = record m { messages_expired = u32 (m.messages_expired + 1) }
tally rejects m = record m { connect_reject = u32 (m.connect_reject + 1) }

-- A connected session has gone.
abbrev pub one_client_less : BrokerMetrics → BrokerMetrics
one_client_less m = record m {
  clients_connected =
      if ltb 0 m.clients_connected then m.clients_connected - 1 else m.clients_connected;
}

-- The counters that `handle_connect` moves.
abbrev pub one_client_more : BrokerMetrics → BrokerMetrics
one_client_more m =
    let connected = u32 (m.clients_connected + 1) in
    record m {
      connect_accept = u32 (m.connect_accept + 1);
      clients_connected = connected;
      clients_connected_peak =
          if ltb m.clients_connected_peak connected then connected else m.clients_connected_peak;
    }

abbrev pub high_water : ℕ → BrokerMetrics → BrokerMetrics
high_water bytes m = record m {
  tx_logical_high_water =
      if ltb m.tx_logical_high_water bytes then bytes else m.tx_logical_high_water;
}
