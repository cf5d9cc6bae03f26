-- ===== src/Retained/Tests.antt =====
-- Runs of the retained store on fixed inputs.
use net_burner_mqtt_broker.Base.{◌≡◌, refl, true, [], ◌∷◌}
use net_burner_mqtt_broker.Delivery.{MessageHandle, TopicHandle}
use net_burner_mqtt_broker.MessagePool.{
  MessagePool, claimed, blank_slot, msg_valid, msg_acquire, msg_release, payload_size,
}
use net_burner_mqtt_broker.TopicIntern.{TopicInternPool, valid, acquire}
use net_burner_mqtt_broker.Retained.{
  RetainedStore, create, put, get, find_retained, find_vacant, add_message, replace_message,
}
use net_burner_mqtt_broker.Retained.Put.{get-put}

abbrev first : MessageHandle
first = record { slot = 0; generation = 1 }

abbrev second : MessageHandle
second = record { slot = 1; generation = 1 }

-- Two messages without payload, held once each.
abbrev messages : MessagePool
messages = record {
  slots = claimed blank_slot ∷ claimed blank_slot ∷ [];
  store = record {
    block_size = 4;
    block_count = 0;
    blocks = [];
    block_data = [];
    free_block_head = 0xffff;
    blocks_allocated = 0;
    blocks_free = 0;
  };
}

abbrev topic : TopicHandle
topic = record { slot = 0; generation = 1 }

abbrev other : TopicHandle
other = record { slot = 1; generation = 1 }

-- The topic "a".
abbrev topics : TopicInternPool
topics = record {
  entries = record { generation = 1; ref_count = 1; offset = 0; length = 1; in_use = true } ∷ [];
  blob = b'a' ∷ 0 ∷ [];
  blob_cap = 2;
  topic_count = 1;
  bytes_used = 2;
}

abbrev empty_store : RetainedStore
empty_store = create (record { max_entries = 2; max_bytes = 100 })

put_twice :
    let (s, pool, intern, answer) = put empty_store topic first messages topics in
    get (put s topic second pool intern).0 topic ≡ second
unfolding create put get msg_valid msg_acquire msg_release valid acquire find_retained find_vacant
    add_message replace_message payload_size
put_twice = refl

get-put_example :
    (get (put empty_store topic first messages topics).0 topic ≡ first)
    × (get (put empty_store topic first messages topics).0 other ≡ get empty_store other)
unfolding create put msg_valid msg_acquire valid acquire find_retained find_vacant add_message
    payload_size
get-put_example = get-put empty_store topic other first messages topics refl refl
