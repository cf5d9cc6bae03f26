-- ===== src/Queue/Tx.antt =====
-- libs/mqtt_broker/src/tx_queue.cpp and include/mqtt_broker/tx_queue.hpp: the outbound queue of a
-- connection. A method that changes the queue returns it before its result. `size_t` has 32 bits.
pub mod Fifo
pub mod Refine
pub mod Run
mod Tests
use net_burner_mqtt_broker.Base.{
  ℕ, ◌+◌, ◌-◌, ◌%◌, Bool, true, false, ltb, leb, ◌==◌, ◌||◌, not, u32,
}
use net_burner_mqtt_broker.Base.{if◌then◌else◌, List, [], ◌∷◌, Option, none, some, get_elem?, set}
use net_burner_mqtt_broker.Delivery.{PendingDelivery, null_message, null_topic}
use mathlib.Core.Option

pub record TxQueueConfig : Type 0 where
  pub depth : ℕ
  pub logical_limit : ℕ

-- `allocated` is `entries_ != nullptr`; `entries` is the array that it points to.
pub record TxQueue : Type 0 where
  pub allocated : Bool
  pub entries : List PendingDelivery
  pub depth : ℕ
  pub head : ℕ
  pub tail : ℕ
  pub count : ℕ
  pub logical_bytes : ℕ
  pub logical_limit : ℕ
  pub logical_high_water : ℕ

-- The constructor; `memory` is what `new (std::nothrow)` gives.
unfoldable pub create : TxQueueConfig → Option (List PendingDelivery) → TxQueue
create cfg memory = record {
  allocated = elim memory [ none ↦ false | some cells ↦ true ];
  entries = Option.get_or memory [];
  depth = cfg.depth;
  head = 0;
  tail = 0;
  count = 0;
  logical_bytes = 0;
  logical_limit = cfg.logical_limit;
  logical_high_water = 0;
}

abbrev blank : PendingDelivery
blank = record {
  message = null_message;
  topic = null_topic;
  packet_id = 0;
  encoded_offset = 0;
  encoded_total_size = 0;
  delivery_qos = 0;
  retain_flag = false;
  dup_flag = false;
}

-- `entries_[head_]`
unfoldable pub front : TxQueue → PendingDelivery
front q = Option.get_or (get_elem? q.entries q.head) blank

unfoldable pub enqueue : TxQueue → PendingDelivery → ℕ → TxQueue × Bool
enqueue q delivery encoded_size =
    if not q.allocated || leb q.depth q.count
    then (q, false)
    else if ltb q.logical_limit (u32 (q.logical_bytes + encoded_size))
    then (q, false)
    else let logical_bytes = u32 (q.logical_bytes + encoded_size) in
      (
        record q {
          entries = set q.entries q.tail (record delivery { encoded_total_size = encoded_size });
          tail = u32 (q.tail + 1) % q.depth;
          count = u32 (q.count + 1);
          logical_bytes = logical_bytes;
          logical_high_water =
              if ltb q.logical_high_water logical_bytes
              then logical_bytes
              else q.logical_high_water;
        },
        true,
      )

-- `peek(&out)`: what is stored in `out`, `none` for the answer false.
unfoldable pub peek : TxQueue → Option PendingDelivery
unfolding front
peek q = if q.count == 0 then none else some (front q)

-- `pop(&released)`: what is stored in `released`, `none` for the answer false.
unfoldable pub pop : TxQueue → TxQueue × Option ℕ
unfolding front
pop q =
    if q.count == 0
    then (q, none)
    else let size = (front q).encoded_total_size in
      (
        record q {
          logical_bytes = if leb size q.logical_bytes then q.logical_bytes - size else 0;
          head = u32 (q.head + 1) % q.depth;
          count = q.count - 1;
        },
        some size,
      )

unfoldable pub advance_offset : TxQueue → ℕ → TxQueue × Bool
unfolding front
advance_offset q delta =
    if q.count == 0
    then (q, false)
    else let d = front q in
      (
        record q {
          entries =
              set q.entries q.head (record d { encoded_offset = u32 (d.encoded_offset + delta) });
        },
        true,
      )

pub front_offset : TxQueue → ℕ
unfolding front
front_offset q = if q.count == 0 then 0 else (front q).encoded_offset
