-- ===== src/Queue.antt =====
-- The two ring buffers of deliveries of libs/mqtt_broker: the outbound queue of a connection
-- (tx_queue) and the offline queue of a session (offline_queue).
mod Holds
pub mod Tx
pub mod Offline
