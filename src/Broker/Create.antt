-- ===== src/Broker/Create.antt =====
-- The constructor of the class Broker in libs/mqtt_broker/src/broker.cpp.
use net_burner_mqtt_broker.Base.{ℕ, zero, suc, ◌+◌, false, List, [], ◌∷◌, Option, some, replicate}
use net_burner_mqtt_broker.Delivery.{PendingDelivery}
use net_burner_mqtt_broker.MessagePool
use net_burner_mqtt_broker.TopicIntern
use net_burner_mqtt_broker.Retained
use net_burner_mqtt_broker.Retained.{stored_at}
use net_burner_mqtt_broker.PropertyPool.{PropertyRecord, create_pool}
use net_burner_mqtt_broker.Queue.Offline
use net_burner_mqtt_broker.Inflight.Outbound.{empty_table}
use net_burner_mqtt_broker.Inflight.Inbound.{nothing_staged}
use net_burner_mqtt_broker.Trie.{SubEntry, create_trie}
use net_burner_mqtt_broker.Broker.Limits.{
  BrokerPolicy, max_tcp_clients, max_subs_total, max_topic_bytes, payload_block_size,
  payload_block_count, payload_slot_count, max_interned_topics, max_interned_bytes,
  max_retained_entries, retained_bytes_total, offline_queue_per_client,
}
use net_burner_mqtt_broker.Broker.Metrics.{no_metrics}
use net_burner_mqtt_broker.Broker.{Broker, SessionRecord, fresh_session}
use net_burner_mqtt_broker.Broker.State.{fresh_connection}

-- The arrays that `new` gives to the parts of the broker, with what they hold at the start.
pub record Memory : Type 0 where
  pub blocks : List ℕ
  pub records : List PropertyRecord
  pub blob : List ℕ
  pub topics : List ℕ
  pub subs : List SubEntry
  pub tx : List PendingDelivery
  pub offline : List PendingDelivery

unfoldable pub fresh_sessions : ℕ → ℕ → List SessionRecord
fresh_sessions zero i = []
fresh_sessions (suc left) i = fresh_session i ∷ fresh_sessions left (i + 1)

-- The constructor, with the globals of broker_policy.cpp.
unfoldable pub create_broker :
    {W : Type 0}
    → W
    → Memory
    → BrokerPolicy
    → Option (List ℕ → Option (List ℕ) → Option (List ℕ) → ℕ)
    → Broker W
unfolding fresh_sessions
create_broker world memory policy auth = record {
  world = world;
  msg_pool =
      MessagePool.create
        (record {
          block_size = payload_block_size;
          block_count = payload_block_count;
          slot_count = payload_slot_count;
        })
        memory.blocks;
  prop_pool =
      create_pool
        (record {
          max_slots = max_tcp_clients;
          max_properties_per_slot = 16;
          max_blob_bytes = 4096;
        })
        memory.records memory.blob;
  topic_intern =
      TopicIntern.create
        (record {
          max_topics = max_interned_topics;
          max_bytes = max_interned_bytes;
          max_topic_len = max_topic_bytes;
        })
        memory.topics;
  topic_trie =
      create_trie (record { max_nodes = 256; max_subscriptions = max_subs_total }) memory.subs;
  retained =
      Retained.create
        (record { max_entries = max_retained_entries; max_bytes = retained_bytes_total });
  sessions = fresh_sessions max_tcp_clients 0;
  connections = replicate max_tcp_clients (fresh_connection memory.tx);
  offline_queues =
      replicate max_tcp_clients (Offline.create offline_queue_per_client (some memory.offline));
  outbound = replicate max_tcp_clients empty_table;
  inbound = replicate max_tcp_clients nothing_staged;
  global_logical_tx = 0;
  assign_serial = 0;
  current_tick = 0;
  metrics = no_metrics;
  policy = policy;
  auth = auth;
  overrun = false;
}
