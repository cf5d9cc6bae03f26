-- ===== src/Broker/Teardown.antt =====
-- What a connection slot holds after its client has been disconnected
-- (libs/mqtt_broker/src/broker.cpp).
use net_burner_mqtt_broker.Base.{
  ℕ, zero, suc, ◌≤◌, ◌≡◌, refl, arith, Bool, true, false, leb, ◌==◌, ◌<◌, [], Bool-cases,
  Option-cases, inl, inr, ==_iff, read_back,
}
use net_burner_mqtt_broker.Delivery.{PendingDelivery}
use net_burner_mqtt_broker.Queue.Tx
use net_burner_mqtt_broker.Broker.Limits.{max_tcp_clients}
use net_burner_mqtt_broker.Broker.{Broker, ConnectionSlot, null_session}
use net_burner_mqtt_broker.Broker.State.{
  connection_at, put_connection, drop_delivery, fresh_connection,
}
use net_burner_mqtt_broker.Broker.Sessions.{Router}
use net_burner_mqtt_broker.Broker.Transport.{
  disconnect_transport, disconnect_used, purge_loop, purge_tx_queue, leave_session, tally_slow,
  pop_delivery, close_transport,
}

module _ {W : Type 0} where
  -- A connection with no session and nothing queued.
  abbrev pub IsVacated : ConnectionSlot W → Type 0
  IsVacated c = (c.session ≡ null_session) × (c.tx.count ≡ 0)

  -- A property of the connection that is written, and of an unused slot, holds of what is read.
  pub written :
      (P : ConnectionSlot W → Type 0) (b : Broker W) (id : ℕ) (c : ConnectionSlot W)
      → P c
      → P (fresh_connection [])
      → P (connection_at (put_connection b id c) id)
  written P b id c h k = elim (read_back b.connections id c (fresh_connection [])) [
    | inl e ↦ rw e h
    | inr e ↦ rw e k
  ]

  pop-count :
      (b : Broker W) (id fuel : ℕ) (pd : PendingDelivery)
      → (connection_at b id).tx.count ≤ suc fuel
      → ((connection_at b id).tx.count == 0) ≡ false
      → (connection_at (pop_delivery (drop_delivery b pd) id) id).tx.count ≤ fuel
  unfolding pop_delivery Tx.pop Tx.create
  pop-count b id fuel pd h e =
      written (λ c. c.tx.count ≤ fuel) (drop_delivery b pd) id _ (rw e (omega arith)) (omega arith)

  -- Purging empties the queue.
  purge_loop-count :
      (fuel : ℕ) (b : Broker W) (id : ℕ)
      → (connection_at b id).tx.count ≤ fuel
      → (connection_at (purge_loop fuel b id) id).tx.count ≡ 0
  unfolding purge_loop Tx.peek
  purge_loop-count zero b id h = omega arith
  purge_loop-count (suc fuel) b id h = elim (Bool-cases ((connection_at b id).tx.count == 0)) [
    | inl e ↦ rw (purge_loop, e) ((==_iff _ _).0 e)
    | inr e ↦
        rw (purge_loop, e)
          (purge_loop-count fuel _ id (pop-count b id fuel (Tx.front (connection_at b id).tx) h e))
  ]

  purge_loop-session :
      (fuel : ℕ) (b : Broker W) (id : ℕ)
      → (connection_at b id).session ≡ null_session
      → (connection_at (purge_loop fuel b id) id).session ≡ null_session
  unfolding purge_loop pop_delivery
  purge_loop-session zero b id h = h
  purge_loop-session (suc fuel) b id h = elim (Option-cases (Tx.peek (connection_at b id).tx)) [
    | inl e ↦ rw (purge_loop, e) h
    | inr (pd, e) ↦
        rw (purge_loop, e)
          (purge_loop-session fuel _ id
            (written (λ c. c.session ≡ null_session) (drop_delivery b pd) id _ h refl))
  ]

  abbrev without_session : Broker W → ℕ → Broker W
  without_session b id =
      put_connection b id (record (connection_at b id) { session = null_session })

  purged :
      (b : Broker W) (id : ℕ)
      → IsVacated (connection_at (purge_tx_queue (without_session b id) id) id)
  unfolding purge_tx_queue
  purged b id = (
    purge_loop-session _ _ id (written (λ c. c.session ≡ null_session) b id _ refl refl),
    purge_loop-count (connection_at (without_session b id) id).tx.count (without_session b id) id
        (omega arith),
  )

  close_transport-IsVacated :
      (b : Broker W) (id : ℕ)
      → IsVacated (connection_at b id)
      → IsVacated (connection_at (close_transport b id) id)
  unfolding close_transport Tx.create
  close_transport-IsVacated b id h = elim (Option-cases (connection_at b id).transport.close_conn) [
    | inl e ↦ rw (close_transport, e) h
    | inr (close, e) ↦ elim (Bool-cases (connection_at b id).transport.active) [
      | inl on ↦
          rw (close_transport, e, on)
            (written IsVacated (record b { world = close b.world }) id _ h (refl, refl))
      | inr off ↦ rw (close_transport, e, off) h
    ]
  ]

  tally_slow-IsVacated :
      (slow_consumer : Bool) (b : Broker W) (id : ℕ)
      → IsVacated (connection_at b id)
      → IsVacated (connection_at (tally_slow slow_consumer b) id)
  tally_slow-IsVacated true b id h = h
  tally_slow-IsVacated false b id h = h

  abbrev IsIdle : ConnectionSlot W → Type 0
  IsIdle c = (c.in_use ≡ false) × IsVacated c

  -- From the point where the session has left.
  vacate-IsIdle :
      (slow_consumer : Bool) (b : Broker W) (id : ℕ)
      → let b4 =
          close_transport
            (tally_slow slow_consumer (purge_tx_queue (without_session b id) id))
            id in
        IsIdle (
          connection_at (put_connection b4 id (record (connection_at b4 id) { in_use = false })) id)
  unfolding Tx.create
  vacate-IsIdle slow_consumer b id =
      let c = tally_slow slow_consumer (purge_tx_queue (without_session b id) id) in
      written IsIdle (close_transport c id) id _
        (
          refl,
          close_transport-IsVacated c id (tally_slow-IsVacated slow_consumer _ id (purged b id)),
        )
        (refl, (refl, refl))

  -- Whatever is published while the session of a connection ends, and whatever that leads to, the
  -- connection slot is left unused, with no session, and with nothing in its outbound queue for the
  -- client that takes the slot next.
  pub disconnect_transport-vacates :
      (route : Router W) (b : Broker W) (id : ℕ) (slow_consumer : Bool)
      → id < max_tcp_clients
      → (connection_at b id).in_use ≡ true
      → ((connection_at (disconnect_transport route b id slow_consumer) id).in_use ≡ false)
        × IsVacated (connection_at (disconnect_transport route b id slow_consumer) id)
  unfolding disconnect_transport disconnect_used Tx.create
  disconnect_transport-vacates route b id slow_consumer h used =
      rw (disconnect_transport, small, used, disconnect_used)
        (vacate-IsIdle slow_consumer (leave_session route (purge_tx_queue b id) id slow_consumer)
          id)
    where
      small : leb max_tcp_clients id ≡ false
      small = ground arith
