-- ===== src/Queue/Tx/Refine.antt =====
-- The ring buffer with its running sum, against the bounded list with a byte budget.
use net_burner_mqtt_broker.Base.{ℕ, ◌+◌, ◌-◌, ◌%◌, ◌≤◌, ◌<◌, ◌≡◌, arith, ◌∙◌, ap, sym, true}
use net_burner_mqtt_broker.Base.{
  List, [], ◌∷◌, ◌++◌, some, length, length-append, length-set, u32, set,
}
use net_burner_mqtt_broker.Delivery.{PendingDelivery}
use net_burner_mqtt_broker.Queue.Holds.{Holds, Holds-push, Holds-set_first, next_step}
use net_burner_mqtt_broker.Queue.Tx.{
  TxQueue, TxQueueConfig, create, enqueue, peek, pop, front, advance_offset,
}
use net_burner_mqtt_broker.Queue.Tx.Fifo
use net_burner_mqtt_broker.Queue.Tx.Fifo.{total_size}
use native.Mathlib.Nat.{mod-lt, mod-add-mod, mod-eq_of_lt}

-- The queue holds the deliveries `ds`, oldest first, and its sum and peak are right.
pub record Represents (q : TxQueue) (ds : List PendingDelivery) : Type 0 where
  pub memory : q.allocated ≡ true
  pub storage : q.depth ≤ length q.entries
  pub word : q.depth < 4294967296
  pub head_in : q.head < q.depth
  pub counted : q.count ≡ length ds
  pub fits : q.count ≤ q.depth
  pub behind : q.tail ≡ (q.head + q.count) % q.depth
  pub held : Holds q.entries q.depth q.head ds
  pub summed : q.logical_bytes ≡ total_size ds
  pub budget : q.logical_bytes ≤ q.logical_limit
  pub limit_word : q.logical_limit < 4294967296
  pub peak : q.logical_bytes ≤ q.logical_high_water

total_size-append :
    (ds : List PendingDelivery) (d : PendingDelivery)
    → total_size (ds ++ (d ∷ [])) ≡ total_size ds + d.encoded_total_size
total_size-append [] d = omega arith
total_size-append (e ∷ ds) d = omega (arith, total_size-append ds d)

-- A queue that was allocated represents the empty list.
pub create-Represents :
    (cfg : TxQueueConfig) (cells : List PendingDelivery)
    → length cells ≡ cfg.depth
    → 0 < cfg.depth
    → cfg.depth < 4294967296
    → cfg.logical_limit < 4294967296
    → Represents (create cfg (some cells)) []
unfolding create
create-Represents cfg cells n pos word limit = ground (arith, mod-eq_of_lt pos)

module _ {q : TxQueue} {ds : List PendingDelivery} (v : Represents q ds) where
  open q use {entries, depth, head, tail, count, logical_limit}

  -- The cell behind the last delivery takes the new one, and `tail` moves on.
  stored :
      (d : PendingDelivery) → count < depth → Holds (set entries tail d) depth head (ds ++ (d ∷ []))
  stored d h =
      Holds-push depth entries ds head tail d v.storage v.head_in
        (v.behind ∙ ap (λ n. (head + n) % depth) v.counted) (omega arith) v.held

  tail_moves : count < depth → u32 (tail + 1) % depth ≡ (head + u32 (count + 1)) % depth
  tail_moves h =
      ap (λ n. n % depth) (no_wrap ∙ ap (λ n. n + 1) v.behind)
      ∙ next_step depth head count
      ∙ ap (λ n. (head + n) % depth) (omega arith)
    where
      in_range : (head + count) % depth < depth
      in_range = mod-lt (head + count) (omega arith)

      no_wrap : u32 (tail + 1) ≡ tail + 1
      no_wrap = omega arith

  -- `enqueue` answers as the bounded list does, and the ring then holds that list: a refused delivery
  -- changes nothing, and an accepted one is appended with its size recorded.
  pub enqueue_refines :
      (d : PendingDelivery) (size : ℕ)
      → size + logical_limit < 4294967296
      → let (q', done) = enqueue q d size in
        let (ds', done') = Fifo.enqueue depth logical_limit ds d size in
        Represents q' ds' × (done ≡ done')
  unfolding enqueue Fifo.enqueue
  enqueue_refines d size h =
      let d' = record d { encoded_total_size = size } in
      ground (
        arith,
        v,
        stored d',
        tail_moves,
        length-set entries tail d',
        length-append ds (d' ∷ []),
        total_size-append ds d',
      )

-- `entries_[head_]` is the oldest delivery.
front-held :
    {q : TxQueue} (d : PendingDelivery) (ds : List PendingDelivery)
    → Represents q (d ∷ ds)
    → front q ≡ d
unfolding front
front-held {q} d ds v = ground (arith, v, v.held.0)

head_moves :
    {q : TxQueue} {d : PendingDelivery} {ds : List PendingDelivery}
    → Represents q (d ∷ ds)
    → (u32 (q.head + 1) ≡ q.head + 1)
      × (q.tail ≡ (u32 (q.head + 1) % q.depth + (q.count - 1)) % q.depth)
      × (u32 (q.head + 1) % q.depth < q.depth)
head_moves {q} v = (
  no_wrap,
  rw no_wrap (
      v.behind
      ∙ sym (mod-add-mod (q.head + 1) q.depth (q.count - 1) ∙ ap (λ n. n % q.depth) (omega arith))),
  mod-lt _ (omega arith),
)
  where
    no_wrap : u32 (q.head + 1) ≡ q.head + 1
    no_wrap = omega arith

-- `peek` answers the oldest delivery, and nothing on an empty queue.
pub peek_refines :
    (q : TxQueue) (ds : List PendingDelivery) → Represents q ds → peek q ≡ Fifo.peek ds
unfolding peek Fifo.peek
peek_refines q [] v = ground (arith, v)
peek_refines q (d ∷ ds) v = ground (arith, v, front-held d ds v)

-- `pop` takes the oldest delivery, releases exactly its recorded size, and leaves the rest; the
-- branch against accounting drift is never taken.
pub pop_refines :
    (q : TxQueue) (ds : List PendingDelivery)
    → Represents q ds
    → let (q', out) = pop q in let (ds', out') = Fifo.pop ds in Represents q' ds' × (out ≡ out')
unfolding pop Fifo.pop
pop_refines q [] v = ground (arith, v)
pop_refines q (d ∷ ds) v = ground (arith, v, front-held d ds v, head_moves v, v.held.1)

-- `advance_offset` moves the progress of the oldest delivery on, and of no other.
pub advance_offset_refines :
    (q : TxQueue) (ds : List PendingDelivery) (delta : ℕ)
    → Represents q ds
    → let (q', done) = advance_offset q delta in
      let (ds', done') = Fifo.advance_offset ds delta in Represents q' ds' × (done ≡ done')
unfolding advance_offset Fifo.advance_offset
advance_offset_refines q [] delta v = ground (arith, v)
advance_offset_refines q (d ∷ ds) delta v =
    let d' = record d { encoded_offset = u32 (d.encoded_offset + delta) } in
    ground (
      arith,
      v,
      front-held d ds v,
      length-set q.entries q.head d',
      Holds-set_first q.depth q.entries ds q.head d d' v.storage v.head_in (omega arith) v.held,
    )
