-- ===== src/Lib.antt =====
-- Verification of the MQTT 5 broker library in libs/mqtt_broker, whose host-independent core the
-- NetBurner firmware in platforms/netburner/nb-mqtt-broker links against its sockets.
--
-- The broker reads bytes of a connection into packets (parser.cpp, over varint.cpp and wire.cpp),
-- finds the sessions that a published topic reaches (topic_trie.cpp), decides per session how to
-- deliver (subscription_options.cpp), and puts one delivery per session into the queue of its
-- connection (tx_queue.cpp) or, while it is away, of the session (offline_queue.cpp). At QoS 1 and 2
-- inflight.cpp keeps it until the client acknowledges it, and retained_store.cpp keeps the last
-- retained message of each topic. A delivery is two handles: the payload in message_pool.cpp and the
-- topic in topic_intern.cpp, both counted by reference and stamped with a generation. The properties
-- of a packet are kept in property_pool.cpp under the rules of property_rules.cpp. All of this is
-- owned and driven by the class Broker (broker.cpp), which the platform calls when a connection has
-- bytes to read, when it can be written to, and once per tick.
--
-- The files, and the code that each is about:
--   Base            lists over the native numbers, machine words, bit operations, Boolean tests
--   Varint          libs/mqtt_broker/src/varint.cpp: varint_decode, varint_encode,
--                   varint_encoded_size; Varint.Decode and Varint.RoundTrip hold the proofs
--   Wire            libs/mqtt_broker/src/wire.cpp: read_u16_be, write_u16_be, read_u32_be,
--                   write_u32_be, encode_utf8_string, decode_utf8_string
--   Delivery        libs/mqtt_broker/include/mqtt_broker/types.hpp and pending_delivery.hpp:
--                   the handles and PendingDelivery
--   Queue.Tx        libs/mqtt_broker/src/tx_queue.cpp: the ring buffer of a connection; Queue.Tx.Fifo
--                   is its specification, a bounded list with a byte budget
--   Queue.Offline   libs/mqtt_broker/src/offline_queue.cpp: the ring buffer of a session
--   Queue.Holds     what it means for a ring buffer to hold a list
--   Topic           libs/mqtt_broker/src/topic_trie.cpp, the static functions: topic_valid,
--                   filter_valid, topic_matches_filter; Topic.Levels is the specification by levels
--   Trie            libs/mqtt_broker/src/topic_trie.cpp, the stored trie: its nodes (Trie), subscribe
--                   and unsubscribe (Slots), match (Matches); Sound, Again, Linked,
--                   Entering and Reach hold the proofs
--   Subscription    libs/mqtt_broker/src/subscription_options.cpp: subscription_options_valid,
--                   compute_delivery_plan
--   MessagePool     libs/mqtt_broker/src/message_pool.cpp: slots and handles; Blocks is its block
--                   arena and free list, Payload the writing and reading of payloads, Reading the
--                   bytes of a chain; Handles and Separate hold the proofs
--   Inflight        libs/mqtt_broker/src/inflight.cpp: SessionOutboundInflight (Outbound), with
--                   next_packet_id (PacketId), insert and remove (Table, Exchange) and all calls
--                   together (Reach); SessionInboundQoS2 (Inbound);
--                   effective_receive_maximum (Limits)
--   TopicIntern     libs/mqtt_broker/src/topic_intern.cpp: intern, acquire, release, c_str
--   Retained        libs/mqtt_broker/src/retained_store.cpp: put, get, remove, entry_at; Put holds
--                   the proofs
--   PropertyPool    libs/mqtt_broker/src/property_pool.cpp: slots, records and the byte arena;
--                   Exhaustion holds the proofs
--   PropertyRules   libs/mqtt_broker/src/property_rules.cpp: utf8_valid, property_allowed,
--                   single_occurrence, reject_reason; Once compares two of its tables;
--                   validate_properties (Validate), with what it accepts (Repeats), and
--                   parse_and_validate_properties (Parse)
--   Encode          libs/mqtt_broker/src/encode.cpp: the packets that the broker sends; Sizes and
--                   Publish are about the PUBLISH that is emitted in pieces
--   Parser          libs/mqtt_broker/src/parser.cpp: the records (Packet), CONNECT (Connect), what
--                   is taken out of its properties (Extract), SUBSCRIBE and UNSUBSCRIBE (Subscribe),
--                   the state machine (Machine, with Finish and Header); Chunks, Settled, Phases,
--                   Buffers, Sections and Acks hold the proofs
--   Broker          libs/mqtt_broker/src/broker.cpp: the state (Broker, State), sessions and wills
--                   (Sessions), connections (Transport), message expiry (Messages), the outbound
--                   queue (Delivery, Enqueue), route_publish (Routing), flush_offline_queue and
--                   retained messages (Stored), handle_connect (Connect), the other handlers
--                   (Packets, Dispatch), the constructor (Create), on_readable and tick (Loop) and
--                   the diagnostics of the host build (Debug); Limits is
--                   include/mqtt_broker/broker_limits_host.hpp with broker_policy.cpp, Metrics is
--                   include/mqtt_broker/metrics.hpp, and protocol_error.cpp is in Dispatch;
--                   Teardown, Deadlines, Ending, Fanout, Accounting and References hold the proofs
--   MqttTypes       libs/mqtt_broker/include/mqtt_broker/mqtt_types.hpp
--   */Tests         runs on fixed inputs, and the theorems applied to concrete states
--
-- State is passed explicitly: a method that changes its object takes the record of its members and
-- returns the new one, first in a product where it also answers something. A byte string is a list
-- of numbers, a C string the list of its characters before the NUL, a pointer that may be null an
-- Option. Words wrap where the code's words do: size_t has 32 bits, as on the targets, uint16_t 16.
-- An array is a list; where the code would index out of it, the model reads a blank element and
-- writes nothing.
--
-- Fuel: topic_matches_filter calls itself on a shorter filter, so one round more than the filter has
-- characters is enough. release_chain, tail_block and read_blocks follow a chain of distinct blocks
-- and get as many rounds as there are blocks; append_rounds takes a byte in each round and gets as
-- many rounds as there are bytes. try_ids makes the 65535 attempts of the source. take_properties
-- takes a byte at least in each round and gets as many rounds as the section has bytes, emit as many
-- as the buffer. The other loops are structural.
--
-- The broker: the callbacks of a transport and the authentication hook are arguments, functions on a
-- state W of the platform that the broker carries along. route_publish can lead to itself, when a
-- delivery disconnects a client and its will is published: the functions in between take the nested
-- call as an argument, their theorems hold for any, and route_publish itself goes to a depth that
-- the caller gives; a call below it is recorded in the field overrun, since the source has no bound.
-- A pointer to a topic that the source hands on is a TopicPointer, which is read where the source
-- reads it, so that a string that moves meanwhile is seen to move. The loops over a queue get as many
-- rounds as it has deliveries, on_readable as many as there are bytes, and the trie's loops as many as
-- there are nodes or slots, which a chain without a cycle does not exceed.
--
-- Not modelled: the debug log, the limits of the boards' own profiles, the destructors and failed
-- allocations of the broker, and the firmware's platform code, which is input, output and calls into
-- the vendor's libraries.
pub mod Base
pub mod Varint
pub mod Wire
pub mod Delivery
pub mod Queue
pub mod Topic
pub mod Subscription
pub mod MessagePool
pub mod TopicIntern
pub mod Inflight
pub mod Retained
pub mod MqttTypes
pub mod PropertyPool
pub mod PropertyRules
pub mod Encode
pub mod Parser
pub mod Trie
pub mod Broker
