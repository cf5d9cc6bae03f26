-- ===== src/Queue/Offline.antt =====
-- libs/mqtt_broker/src/offline_queue.cpp and include/mqtt_broker/offline_queue.hpp: the deliveries
-- of a session whose client is away. `size_t` has 32 bits.
pub mod Refine
mod Tests
use net_burner_mqtt_broker.Base.{ℕ, ◌+◌, ◌-◌, ◌%◌, Bool, true, false, leb, ◌==◌, ◌||◌, not, u32}
use net_burner_mqtt_broker.Base.{if◌then◌else◌, List, [], Option, none, some, get_elem?, set}
use net_burner_mqtt_broker.Delivery.{PendingDelivery}
use mathlib.Core.Option

-- `allocated` is `entries_ != nullptr`; `entries` is the array that it points to.
pub record OfflineQueue : Type 0 where
  pub allocated : Bool
  pub entries : List PendingDelivery
  pub depth : ℕ
  pub head : ℕ
  pub tail : ℕ
  pub count : ℕ

-- The constructor; `memory` is what `new (std::nothrow)` gives.
unfoldable pub create : ℕ → Option (List PendingDelivery) → OfflineQueue
create depth memory = record {
  allocated = elim memory [ none ↦ false | some cells ↦ true ];
  entries = Option.get_or memory [];
  depth = depth;
  head = 0;
  tail = 0;
  count = 0;
}

unfoldable pub enqueue : OfflineQueue → PendingDelivery → OfflineQueue × Bool
enqueue q delivery = if not q.allocated || leb q.depth q.count then (q, false) else (
  record q {
    entries = set q.entries q.tail delivery;
    tail = u32 (q.tail + 1) % q.depth;
    count = u32 (q.count + 1);
  },
  true,
)

-- `peek(&out)`: what is stored in `out`, `none` for the answer false. The read is in bounds.
unfoldable pub peek : OfflineQueue → Option PendingDelivery
peek q = if q.count == 0 then none else get_elem? q.entries q.head

unfoldable pub pop : OfflineQueue → OfflineQueue × Bool
pop q =
    if q.count == 0
    then (q, false)
    else (record q { head = u32 (q.head + 1) % q.depth; count = q.count - 1 }, true)

unfoldable pub clear : OfflineQueue → OfflineQueue
clear q = record q { head = 0; tail = 0; count = 0 }

unfoldable pub full : OfflineQueue → Bool
full q = leb q.depth q.count
