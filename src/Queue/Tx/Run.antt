-- ===== src/Queue/Tx/Run.antt =====
-- Whole sequences of calls on a connection's outbound queue.
use net_burner_mqtt_broker.Base.{ℕ, ◌+◌, ◌<◌, ◌≡◌, refl, arith, Bool, List, [], ◌∷◌, Option}
use net_burner_mqtt_broker.Delivery.{PendingDelivery}
use net_burner_mqtt_broker.Queue.Tx.{TxQueue, enqueue, peek, pop, advance_offset}
use net_burner_mqtt_broker.Queue.Tx.Fifo
use net_burner_mqtt_broker.Queue.Tx.Refine.{
  Represents, enqueue_refines, peek_refines, pop_refines, advance_offset_refines,
}

-- A caller's calls, in order, with what each answers.
pub data Call : Type 0 where
  put : PendingDelivery → ℕ → Call
  look take : Call
  advance : ℕ → Call

pub data Reply : Type 0 where
  done : Bool → Reply
  seen : Option PendingDelivery → Reply
  released : Option ℕ → Reply

unfoldable pub run : TxQueue → List Call → List Reply
run q [] = []
run q (put d size ∷ cs) = let (q', b) = enqueue q d size in done b ∷ run q' cs
run q (look ∷ cs) = seen (peek q) ∷ run q cs
run q (take ∷ cs) = let (q', out) = pop q in released out ∷ run q' cs
run q (advance delta ∷ cs) = let (q', b) = advance_offset q delta in done b ∷ run q' cs

unfoldable pub run_fifo : (depth limit : ℕ) → List PendingDelivery → List Call → List Reply
run_fifo depth limit ds [] = []
run_fifo depth limit ds (put d size ∷ cs) =
    let (ds', b) = Fifo.enqueue depth limit ds d size in done b ∷ run_fifo depth limit ds' cs
run_fifo depth limit ds (look ∷ cs) = seen (Fifo.peek ds) ∷ run_fifo depth limit ds cs
run_fifo depth limit ds (take ∷ cs) =
    let (ds', out) = Fifo.pop ds in released out ∷ run_fifo depth limit ds' cs
run_fifo depth limit ds (advance delta ∷ cs) =
    let (ds', b) = Fifo.advance_offset ds delta in done b ∷ run_fifo depth limit ds' cs

-- The sizes that the calls pass leave room for the 32-bit sum.
abbrev pub SmallSizes : ℕ → List Call → Type 0
SmallSizes limit [] = Unit
SmallSizes limit (put d size ∷ cs) = (size + limit < 4294967296) × SmallSizes limit cs
SmallSizes limit (c ∷ cs) = SmallSizes limit cs

-- No call changes the depth or the limit.
abbrev Fixed : TxQueue → TxQueue → Type 0
Fixed q q' = (q'.depth ≡ q.depth) × (q'.logical_limit ≡ q.logical_limit)

enqueue-Fixed : (q : TxQueue) (d : PendingDelivery) (size : ℕ) → Fixed q (enqueue q d size).0
unfolding enqueue
enqueue-Fixed q d size = ground arith

pop-Fixed : (q : TxQueue) → Fixed q (pop q).0
unfolding pop
pop-Fixed q = ground arith

advance_offset-Fixed : (q : TxQueue) (delta : ℕ) → Fixed q (advance_offset q delta).0
unfolding advance_offset
advance_offset-Fixed q delta = ground arith

-- No sequence of calls tells the outbound queue from the bounded first-in first-out list with a byte
-- budget of the deliveries that it holds, as long as the sizes leave room for the 32-bit sum.
pub run_refines :
    (cs : List Call) (q : TxQueue) (ds : List PendingDelivery)
    → Represents q ds
    → SmallSizes q.logical_limit cs
    → run q cs ≡ run_fifo q.depth q.logical_limit ds cs
unfolding run run_fifo
run_refines [] q ds v h = refl
run_refines (put d size ∷ cs) q ds v (h, hs) =
    let (v', e) = enqueue_refines v d size h in
    let (fd, fl) = enqueue-Fixed q d size in rw (run_refines cs _ _ v' (rw fl hs), fd, fl, e)
run_refines (look ∷ cs) q ds v h = rw (peek_refines q ds v, run_refines cs q ds v h)
run_refines (take ∷ cs) q ds v h =
    let (v', e) = pop_refines q ds v in
    let (fd, fl) = pop-Fixed q in rw (run_refines cs _ _ v' (rw fl h), fd, fl, e)
run_refines (advance delta ∷ cs) q ds v h =
    let (v', e) = advance_offset_refines q ds delta v in
    let (fd, fl) = advance_offset-Fixed q delta in rw (run_refines cs _ _ v' (rw fl h), fd, fl, e)
