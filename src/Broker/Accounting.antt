-- ===== src/Broker/Accounting.antt =====
-- The broker's budget of outbound bytes: global_logical_tx_ of libs/mqtt_broker/src/broker.cpp against
-- the queues of all connections.
use net_burner_mqtt_broker.Base.{
  ℕ, zero, suc, ◌+◌, ◌-◌, ◌≤◌, ◌<◌, ◌≡◌, arith, ap, true, not, leb, ◌==◌, ◌||◌, List, [], ◌∷◌, some,
  set, get_elem?, All, All-get, All-set, set_outside, u32, Bool-cases, Option-cases, inl, inr,
}
use net_burner_mqtt_broker.Delivery.{PendingDelivery}
use net_burner_mqtt_broker.Queue.Tx
use net_burner_mqtt_broker.Queue.Tx.{TxQueue}
use net_burner_mqtt_broker.Queue.Tx.Refine.{Represents, pop_refines, enqueue_refines}
use net_burner_mqtt_broker.Queue.Tx.Fifo
use net_burner_mqtt_broker.Inflight.Outbound.{OutboundInflightEntry}
use net_burner_mqtt_broker.Broker.Enqueue.{
  store_retransmit, enqueue_retransmit, estimate, over_bytes,
}
use net_burner_mqtt_broker.MessagePool.{msg_valid, msg_acquire, payload_size}
use net_burner_mqtt_broker.TopicIntern
use net_burner_mqtt_broker.Broker.Limits.{max_tcp_clients, tx_logical_total, tx_logical_per_client}
use net_burner_mqtt_broker.Broker.{Broker, ConnectionSlot}
use net_burner_mqtt_broker.Broker.State.{
  connection_at, put_connection, drop_delivery, fresh_connection,
}
use net_burner_mqtt_broker.Broker.Transport.{pop_delivery, purge_loop, purge_tx_queue}
use mathlib.Core.Option

-- What `pop` takes off the queue's sum is what it reports.
pop_bytes :
    (q : TxQueue) (ds : List PendingDelivery)
    → Represents q ds
    → q.logical_bytes ≡ (Tx.pop q).0.logical_bytes + Option.get_or (Tx.pop q).1 0
unfolding Fifo.pop
pop_bytes q [] v =
    let (kept, out) = pop_refines q [] v in rw out (omega (arith, v.summed, kept.summed))
pop_bytes q (d ∷ ds) v =
    let (kept, out) = pop_refines q (d ∷ ds) v in rw out (omega (arith, v.summed, kept.summed))

enqueue_bytes :
    (q : TxQueue) (ds : List PendingDelivery) (d : PendingDelivery) (size : ℕ)
    → Represents q ds
    → size + q.logical_limit < 4294967296
    → (Tx.enqueue q d size).1 ≡ true
    → (Tx.enqueue q d size).0.logical_bytes ≡ q.logical_bytes + size
unfolding Tx.enqueue
enqueue_bytes q ds d size v small stored = ground (arith, v.budget, v.limit_word)

-- The bytes that wait in the queues of the connections.
unfoldable pub tx_bytes : {W : Type 0} → List (ConnectionSlot W) → ℕ
tx_bytes [] = 0
tx_bytes (c ∷ cs) = c.tx.logical_bytes + tx_bytes cs

-- The queue of a connection holds some deliveries, with the right sum.
abbrev pub HasQueue : {W : Type 0} → ConnectionSlot W → Type 0
HasQueue c = (ds : List PendingDelivery) × Represents c.tx ds

module _ {W : Type 0} where
  -- Every queue is in order, and the global budget in use is the sum over the queues.
  abbrev pub IsAccounted : Broker W → Type 0
  IsAccounted b = All HasQueue b.connections × (b.global_logical_tx ≡ tx_bytes b.connections)

  tx_bytes-set :
      (cs : List (ConnectionSlot W)) (i : ℕ) (c d : ConnectionSlot W)
      → get_elem? cs i ≡ some c
      → tx_bytes (set cs i d) + c.tx.logical_bytes ≡ tx_bytes cs + d.tx.logical_bytes
  unfolding tx_bytes
  tx_bytes-set [] i c d e = ground (arith, e)
  tx_bytes-set (x ∷ cs) zero c d e =
      let same : x.tx.logical_bytes ≡ c.tx.logical_bytes =
        ap (λ o. (Option.get_or o x).tx.logical_bytes) e in
      omega (arith, same)
  tx_bytes-set (x ∷ cs) (suc i) c d e = omega (arith, tx_bytes-set cs i c d e)

  -- A connection and the budget are written together.
  rebalanced :
      (b : Broker W) (id total : ℕ) (c d : ConnectionSlot W)
      → get_elem? b.connections id ≡ some c
      → IsAccounted b
      → HasQueue d
      → total + c.tx.logical_bytes ≡ b.global_logical_tx + d.tx.logical_bytes
      → IsAccounted (record (put_connection b id d) { global_logical_tx = total })
  rebalanced b id total c d inside h queue moved = (
    All-set HasQueue b.connections id d h.0 queue,
    omega (arith, h.1, moved, tx_bytes-set b.connections id c d inside),
  )

  abbrev popped : ConnectionSlot W → ConnectionSlot W
  popped c = record c { tx = (Tx.pop c.tx).0 }

  tx_bytes_over :
      (cs : List (ConnectionSlot W)) (i : ℕ) (c : ConnectionSlot W)
      → get_elem? cs i ≡ some c
      → c.tx.logical_bytes ≤ tx_bytes cs
  unfolding tx_bytes
  tx_bytes_over [] i c e = ground (arith, e)
  tx_bytes_over (x ∷ cs) zero c e =
      let same : x.tx.logical_bytes ≡ c.tx.logical_bytes =
        ap (λ o. (Option.get_or o x).tx.logical_bytes) e in
      omega (arith, same)
  tx_bytes_over (x ∷ cs) (suc i) c e = omega (arith, tx_bytes_over cs i c e)

  pop_delivery-IsAccounted :
      (b : Broker W) (id : ℕ) → IsAccounted b → IsAccounted (pop_delivery b id)
  unfolding pop_delivery Tx.pop Tx.create
  pop_delivery-IsAccounted b id h = elim (Option-cases (get_elem? b.connections id)) [
    | inl outside ↦
        rw (outside, set_outside b.connections id (popped (fresh_connection [])) outside)
          (h.0, ground (arith, h.1))
    | inr (c, inside) ↦
        let (ds, queue) = All-get HasQueue b.connections id h.0 inside in
        let size = Option.get_or (Tx.pop c.tx).1 0 in
        let moved = pop_bytes c.tx ds queue in
        let over = tx_bytes_over b.connections id c inside in
        let fits : leb size b.global_logical_tx ≡ true = ground (arith, moved, over, h.1) in
        let (kept, out) = pop_refines c.tx ds queue in
        rw (inside, fits)
          (rebalanced b id (b.global_logical_tx - size) c (popped c) inside h
            ((Fifo.pop ds).0, kept) (omega (arith, moved, over, h.1)))
  ]

  purge_loop-IsAccounted :
      (fuel : ℕ) (b : Broker W) (id : ℕ) → IsAccounted b → IsAccounted (purge_loop fuel b id)
  unfolding purge_loop
  purge_loop-IsAccounted zero b id h = h
  purge_loop-IsAccounted (suc fuel) b id h = elim (Option-cases (Tx.peek (connection_at b id).tx)) [
    | inl e ↦ rw (purge_loop, e) h
    | inr (pd, e) ↦
        rw (purge_loop, e)
          (purge_loop-IsAccounted fuel (pop_delivery (drop_delivery b pd) id) id
            (pop_delivery-IsAccounted (drop_delivery b pd) id h))
  ]

  -- Purging the queue of a connection keeps the account of the budget: every queue is in order, and
  -- what the broker counts as queued is the sum over all connections.
  pub purge_tx_queue-IsAccounted :
      (b : Broker W) (id : ℕ) → IsAccounted b → IsAccounted (purge_tx_queue b id)
  unfolding purge_tx_queue
  purge_tx_queue-IsAccounted b id h = purge_loop-IsAccounted (connection_at b id).tx.count b id h

  -- Where the delivery fits, `store_retransmit` adds its size to the queue and to the budget.
  store_retransmit-IsAccounted :
      (b : Broker W) (id : ℕ) (entry : OutboundInflightEntry) (est : ℕ) (c : ConnectionSlot W)
      → get_elem? b.connections id ≡ some c
      → IsAccounted b
      → est + c.tx.logical_limit < 4294967296
      → est + b.global_logical_tx < 4294967296
      → IsAccounted (store_retransmit b id entry est)
  unfolding store_retransmit
  store_retransmit-IsAccounted b id entry est c inside h small room =
      let (ds, queue) = All-get HasQueue b.connections id h.0 inside in
      let pd : PendingDelivery = record {
        message = entry.message;
        topic = entry.topic;
        packet_id = entry.packet_id;
        encoded_offset = 0;
        encoded_total_size = u32 est;
        delivery_qos = entry.delivery_qos;
        retain_flag = entry.retain_flag;
        dup_flag = true;
      } in
      let word : u32 est ≡ est = omega arith in
      let small' : u32 est + c.tx.logical_limit < 4294967296 = omega (arith, word) in
      let (kept, done) = enqueue_refines queue pd (u32 est) small' in
      elim (Bool-cases (Tx.enqueue c.tx pd (u32 est)).1) [
        | inr refused ↦ rw (store_retransmit, inside, refused) h
        | inl stored ↦
            rw (store_retransmit, inside, stored)
              (rebalanced b id (u32 (b.global_logical_tx + est)) c
                (record c { tx = (Tx.enqueue c.tx pd (u32 est)).0 }) inside h
                ((Fifo.enqueue c.tx.depth c.tx.logical_limit ds pd (u32 est)).0, kept)
                (omega (arith, enqueue_bytes c.tx ds pd (u32 est) queue small' stored)))
      ]

  -- The account is right, and within the budget of the whole broker.
  abbrev pub IsWithinBudget : Broker W → Type 0
  IsWithinBudget b = IsAccounted b × (b.global_logical_tx ≤ tx_logical_total)

  store_retransmit-total :
      (b : Broker W) (id : ℕ) (entry : OutboundInflightEntry) (est : ℕ)
      → b.global_logical_tx ≤ tx_logical_total
      → u32 (b.global_logical_tx + est) ≤ tx_logical_total
      → (store_retransmit b id entry est).global_logical_tx ≤ tx_logical_total
  unfolding store_retransmit
  store_retransmit-total b id entry est h k = ground arith

  -- A retransmission that is queued, or refused on any of its branches, keeps every queue in order and
  -- the broker's budget the sum over them and within its limit, if its estimated size is below 2 ^ 31
  -- and the queue's limit that of the profile.
  pub enqueue_retransmit-IsWithinBudget :
      (b : Broker W) (id : ℕ) (entry : OutboundInflightEntry) (c : ConnectionSlot W)
      → get_elem? b.connections id ≡ some c
      → c.tx.logical_limit ≡ tx_logical_per_client
      → estimate b id
          (TopicIntern.c_str b.topic_intern entry.topic)
          entry.message
          (payload_size b.msg_pool entry.message)
          entry.delivery_qos
        < 2147483648
      → IsWithinBudget b
      → IsWithinBudget (enqueue_retransmit b id entry)
  unfolding enqueue_retransmit
  enqueue_retransmit-IsWithinBudget b id entry c inside limit small h =
      let est =
        estimate b id (TopicIntern.c_str b.topic_intern entry.topic) entry.message
          (payload_size b.msg_pool entry.message) entry.delivery_qos in
      let pool = (msg_acquire b.msg_pool entry.message).0 in
      let topics = (TopicIntern.acquire b.topic_intern entry.topic).0 in
      elim (Bool-cases (leb max_tcp_clients id || not (connection_at b id).in_use)) [
        | inl idle ↦ rw (enqueue_retransmit, idle) h
        | inr used ↦ elim (Bool-cases (msg_valid b.msg_pool entry.message)) [
          | inr stale ↦ rw (enqueue_retransmit, used, stale) h
          | inl live ↦ elim (Bool-cases (est == 0 || over_bytes b id est)) [
            | inl over ↦ rw (enqueue_retransmit, used, live, over) h
            | inr fits ↦ elim (Bool-cases (msg_acquire b.msg_pool entry.message).1) [
              | inr full ↦ rw (enqueue_retransmit, used, live, fits, full) h
              | inl taken ↦ elim (Bool-cases (TopicIntern.acquire b.topic_intern entry.topic).1) [
                | inr gone ↦ rw (enqueue_retransmit, used, live, fits, taken, gone) h
                | inl named ↦
                    let b2 = record b { msg_pool = pool; topic_intern = topics } in
                    rw (enqueue_retransmit, used, live, fits, taken, named)
                      (
                        store_retransmit-IsAccounted b2 id entry est c inside h.0
                            (omega (arith, limit, small)) (omega (arith, h.1, small)),
                        store_retransmit-total b2 id entry est h.1 (ground (arith, fits)),
                      )
              ]
            ]
          ]
        ]
      ]
