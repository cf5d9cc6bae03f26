-- ===== src/Queue/Offline/Refine.antt =====
-- The offline ring buffer, against a bounded first-in first-out list.
use net_burner_mqtt_broker.Base.{◌+◌, ◌-◌, ◌%◌, ◌≤◌, ◌<◌, ◌≡◌, arith, ◌∙◌, ap, sym, true, false}
use net_burner_mqtt_broker.Base.{
  List, [], ◌∷◌, ◌++◌, none, some, length, length-append, length-set, u32, set, leb, if◌then◌else◌,
}
use net_burner_mqtt_broker.Delivery.{PendingDelivery}
use net_burner_mqtt_broker.Queue.Holds.{Holds, Holds-push, next_step}
use net_burner_mqtt_broker.Queue.Offline.{OfflineQueue, enqueue, peek, pop, clear, full}
use native.Mathlib.Nat.{mod-lt, mod-add-mod, mod-eq_of_lt}

-- The queue holds the deliveries `ds`, oldest first.
pub record Represents (q : OfflineQueue) (ds : List PendingDelivery) : Type 0 where
  pub memory : q.allocated ≡ true
  pub storage : q.depth ≤ length q.entries
  pub word : q.depth < 4294967296
  pub head_in : q.head < q.depth
  pub counted : q.count ≡ length ds
  pub fits : q.count ≤ q.depth
  pub behind : q.tail ≡ (q.head + q.count) % q.depth
  pub held : Holds q.entries q.depth q.head ds

module _ {q : OfflineQueue} {ds : List PendingDelivery} (v : Represents q ds) where
  open q use {entries, depth, head, tail, count}

  stored :
      (d : PendingDelivery) → count < depth → Holds (set entries tail d) depth head (ds ++ (d ∷ []))
  stored d h =
      Holds-push depth entries ds head tail d v.storage v.head_in
        (v.behind ∙ ap (λ n. (head + n) % depth) v.counted) (omega arith) v.held

  tail_moves : count < depth → u32 (tail + 1) % depth ≡ (head + u32 (count + 1)) % depth
  tail_moves h =
      ap (λ n. n % depth) (no_wrap ∙ ap (λ n. n + 1) v.behind)
      ∙ next_step depth head count
      ∙ ap (λ n. (head + n) % depth) (omega arith)
    where
      in_range : (head + count) % depth < depth
      in_range = mod-lt (head + count) (omega arith)

      no_wrap : u32 (tail + 1) ≡ tail + 1
      no_wrap = omega arith

  -- A delivery is appended while there are fewer than `depth`, and else dropped with no change.
  pub enqueue_or_drop :
      (d : PendingDelivery)
      → let (q', done) = enqueue q d in
        Represents q' (if leb depth (length ds) then ds else ds ++ (d ∷ []))
        × (done ≡ (if leb depth (length ds) then false else true))
  unfolding enqueue
  enqueue_or_drop d =
      ground (arith, v, stored d, tail_moves, length-set entries tail d, length-append ds (d ∷ []))

head_moves :
    {q : OfflineQueue} {d : PendingDelivery} {ds : List PendingDelivery}
    → Represents q (d ∷ ds)
    → (u32 (q.head + 1) ≡ q.head + 1)
      × (q.tail ≡ (u32 (q.head + 1) % q.depth + (q.count - 1)) % q.depth)
      × (u32 (q.head + 1) % q.depth < q.depth)
head_moves {q} v = (
  no_wrap,
  rw no_wrap (
      v.behind
      ∙ sym (mod-add-mod (q.head + 1) q.depth (q.count - 1) ∙ ap (λ n. n % q.depth) (omega arith))),
  mod-lt _ (omega arith),
)
  where
    no_wrap : u32 (q.head + 1) ≡ q.head + 1
    no_wrap = omega arith

-- What `peek` and `pop` do on a queue that holds `ds`.
abbrev pub OldestFirst : OfflineQueue → List PendingDelivery → Type 0
OldestFirst q [] = (peek q ≡ none) × (pop q ≡ (q, false))
OldestFirst q (d ∷ ds) = (peek q ≡ some d) × ((pop q).1 ≡ true) × Represents (pop q).0 ds

-- On an empty queue `peek` and `pop` answer no and nothing changes; else `peek` answers the oldest
-- delivery, and `pop` leaves the others in their order.
pub peek-pop : (q : OfflineQueue) (ds : List PendingDelivery) → Represents q ds → OldestFirst q ds
unfolding peek pop
peek-pop q [] v = ground (arith, v)
peek-pop q (d ∷ ds) v = ground (arith, v, head_moves v, v.held.0, v.held.1)

-- After `clear` the queue holds nothing and has its whole depth free.
pub clear_refines :
    (q : OfflineQueue) (ds : List PendingDelivery)
    → Represents q ds
    → Represents (clear q) [] × (full (clear q) ≡ false)
unfolding clear full
clear_refines q ds v = ground (arith, v, mod-eq_of_lt {n = 0} {m = q.depth} (omega arith))
