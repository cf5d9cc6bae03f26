-- ===== src/Parser.antt =====
-- libs/mqtt_broker/src/parser.cpp with include/mqtt_broker/parser.hpp and parser_state.hpp: the
-- incremental parser of a connection's bytes.
pub mod Packet
pub mod Connect
pub mod Extract
pub mod Subscribe
pub mod Machine
pub mod Chunks
pub mod Settled
pub mod Phases
pub mod Buffers
pub mod Sections
pub mod Acks
pub mod Tests
