-- ===== src/Inflight.antt =====
-- libs/mqtt_broker/src/inflight.cpp and include/mqtt_broker/inflight.hpp: what a session has under
-- way at QoS 1 and 2, and how many such messages it may have.
pub mod Limits
pub mod Outbound
pub mod Ids
pub mod PacketId
pub mod Table
pub mod Exchange
pub mod Reach
pub mod Inbound
mod Tests
