-- ===== src/Queue/Tx/Tests.antt =====
-- Runs of the outbound queue, and its theorems at a queue that wraps round its array.
use net_burner_mqtt_broker.Base.{ℕ, ◌≡◌, refl, arith, true, false, List, [], ◌∷◌, some, none}
use net_burner_mqtt_broker.Delivery.{PendingDelivery, null_message, null_topic}
use net_burner_mqtt_broker.Queue.Tx.{TxQueue, TxQueueConfig, enqueue, pop, advance_offset}
use net_burner_mqtt_broker.Queue.Tx.Refine.{Represents}
use net_burner_mqtt_broker.Queue.Tx.Run.{
  Call, put, take, advance, run, run_fifo, run_refines, done, released,
}

abbrev sized : ℕ → PendingDelivery
sized n = record {
  message = null_message;
  topic = null_topic;
  packet_id = 0;
  encoded_offset = 0;
  encoded_total_size = n;
  delivery_qos = 0;
  retain_flag = false;
  dup_flag = false;
}

abbrev config : TxQueueConfig
config = record { depth = 3; logical_limit = 100 }

-- The sizes 10 and 20, in the last cell and the first.
abbrev wrapped : TxQueue
wrapped = record {
  allocated = true;
  entries = sized 20 ∷ sized 7 ∷ sized 10 ∷ [];
  depth = 3;
  head = 2;
  tail = 1;
  count = 2;
  logical_bytes = 30;
  logical_limit = 100;
  logical_high_water = 90;
}

abbrev queued : List PendingDelivery
queued = sized 10 ∷ sized 20 ∷ []

wrapped-Represents : Represents wrapped queued
wrapped-Represents = record {
  memory = refl;
  storage = omega arith;
  word = omega arith;
  head_in = omega arith;
  counted = refl;
  fits = omega arith;
  behind = refl;
  held = (refl, (refl, tt));
  summed = refl;
  budget = omega arith;
  limit_word = omega arith;
  peak = omega arith;
}

abbrev script : List Call
script = put (sized 0) 71 ∷ put (sized 0) 70 ∷ advance 4 ∷ take ∷ take ∷ take ∷ take ∷ []

run-wrapped :
    run wrapped script
    ≡ done false
      ∷ done true
      ∷ done true
      ∷ released (some 10)
      ∷ released (some 20)
      ∷ released (some 70)
      ∷ released none
      ∷ []
unfolding run enqueue pop advance_offset
run-wrapped = refl

run_refines_example : run wrapped script ≡ run_fifo 3 100 queued script
run_refines_example = run_refines script wrapped queued wrapped-Represents (omega arith)
