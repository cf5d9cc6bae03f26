-- ===== src/Queue/Tx/Fifo.antt =====
-- What a connection's outbound queue promises: a bounded first-in first-out list of deliveries with
-- a budget of bytes on the wire. It has no array, no index and no running sum.
use net_burner_mqtt_broker.Base.{ℕ, ◌+◌, Bool, true, false, ltb, leb, ◌||◌, u32, if◌then◌else◌}
use net_burner_mqtt_broker.Base.{List, [], ◌∷◌, ◌++◌, Option, none, some, length}
use net_burner_mqtt_broker.Delivery.{PendingDelivery}

-- The bytes on the wire that the queued deliveries stand for.
abbrev pub total_size : List PendingDelivery → ℕ
total_size [] = 0
total_size (d ∷ ds) = d.encoded_total_size + total_size ds

unfoldable pub enqueue :
    (depth limit : ℕ) → List PendingDelivery → PendingDelivery → ℕ → List PendingDelivery × Bool
enqueue depth limit ds d size =
    if leb depth (length ds) || ltb limit (total_size ds + size)
    then (ds, false)
    else (ds ++ (record d { encoded_total_size = size } ∷ []), true)

unfoldable pub peek : List PendingDelivery → Option PendingDelivery
peek [] = none
peek (d ∷ ds) = some d

unfoldable pub pop : List PendingDelivery → List PendingDelivery × Option ℕ
pop [] = ([], none)
pop (d ∷ ds) = (ds, some d.encoded_total_size)

unfoldable pub advance_offset : List PendingDelivery → ℕ → List PendingDelivery × Bool
advance_offset [] delta = ([], false)
advance_offset (d ∷ ds) delta =
    (record d { encoded_offset = u32 (d.encoded_offset + delta) } ∷ ds, true)
