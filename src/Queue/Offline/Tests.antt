-- ===== src/Queue/Offline/Tests.antt =====
-- The offline queue's theorems at a queue that wraps round its array.
use net_burner_mqtt_broker.Base.{ℕ, ◌≡◌, refl, arith, true, List, [], ◌∷◌, ◌++◌, false}
use net_burner_mqtt_broker.Delivery.{PendingDelivery, null_message, null_topic}
use net_burner_mqtt_broker.Queue.Offline.{OfflineQueue, enqueue}
use net_burner_mqtt_broker.Queue.Offline.Refine.{Represents, enqueue_or_drop}

abbrev numbered : ℕ → PendingDelivery
numbered n = record {
  message = null_message;
  topic = null_topic;
  packet_id = n;
  encoded_offset = 0;
  encoded_total_size = 0;
  delivery_qos = 1;
  retain_flag = false;
  dup_flag = false;
}

abbrev wrapped : OfflineQueue
wrapped = record {
  allocated = true;
  entries = numbered 2 ∷ numbered 9 ∷ numbered 1 ∷ [];
  depth = 3;
  head = 2;
  tail = 1;
  count = 2;
}

abbrev queued : List PendingDelivery
queued = numbered 1 ∷ numbered 2 ∷ []

wrapped-Represents : Represents wrapped queued
wrapped-Represents = record {
  memory = refl;
  storage = omega arith;
  word = omega arith;
  head_in = omega arith;
  counted = refl;
  fits = omega arith;
  behind = refl;
  held = (refl, (refl, tt));
}

enqueue_or_drop_example :
    let (q', done) = enqueue wrapped (numbered 3) in
    Represents q' (queued ++ (numbered 3 ∷ [])) × (done ≡ true)
enqueue_or_drop_example = enqueue_or_drop wrapped-Represents (numbered 3)
