-- ===== src/Parser/Tests.antt =====
-- Runs of the parser, and its theorems at concrete inputs.
use net_burner_mqtt_broker.Base.{ℕ, ◌≡◌, ◌+◌, refl, arith, List, [], ◌∷◌, ◌++◌, none}
use net_burner_mqtt_broker.MqttTypes.{puback, packet_type_from_byte}
use net_burner_mqtt_broker.Varint.{varint_decode}
use net_burner_mqtt_broker.Wire.{read_u16_be}
use net_burner_mqtt_broker.Topic.{topic_valid, is_valid_topic_char}
use net_burner_mqtt_broker.Parser.Packet.{
  ParserLimits, PacketParser, create_parser, reset, complete,
}
use net_burner_mqtt_broker.Parser.Machine.{feed, finish_packet}
use net_burner_mqtt_broker.Parser.Chunks.{feed_pieces}
use net_burner_mqtt_broker.Parser.Buffers.{InBounds, feed-InBounds}
use net_burner_mqtt_broker.Parser.Acks.{Acked, CanHold, encode_ack, of_puback, encode_ack-feed}

abbrev small_limits : ParserLimits
small_limits = record { max_packet_bytes = 64; max_topic_bytes = 32; control_buffer_bytes = 1024 }

abbrev fresh : PacketParser
fresh = create_parser small_limits none none

-- PINGREQ; the byte of the next packet is left.
ping_run : (feed fresh (0xc0 ∷ 0 ∷ 0xc0 ∷ [])).1 ≡ 2
unfolding feed create_parser varint_decode finish_packet packet_type_from_byte
ping_run = refl

-- PUBLISH of "hi" to "a" at level 5.
abbrev hello : List ℕ
hello = 0x30 ∷ 6 ∷ 0 ∷ 1 ∷ b'a' ∷ 0 ∷ b'h' ∷ b'i' ∷ []

hello_run : (feed fresh hello).0.phase ≡ complete
unfolding feed create_parser varint_decode finish_packet packet_type_from_byte topic_valid
    is_valid_topic_char read_u16_be
hello_run = refl

hello_topic : (feed fresh hello).0.packet.topic ≡ b'a' ∷ []
unfolding feed create_parser varint_decode finish_packet packet_type_from_byte topic_valid
    is_valid_topic_char read_u16_be
hello_topic = refl

-- A remaining length of 1 ends within the topic's length, and the topic is read all the same, out of
-- what comes behind the packet.
runs_on : (feed fresh (0x30 ∷ 1 ∷ 0 ∷ 1 ∷ b'a' ∷ [])).1 ≡ 5
unfolding feed create_parser varint_decode finish_packet packet_type_from_byte topic_valid
    is_valid_topic_char read_u16_be
runs_on = refl

-- "a", NUL, "b" is taken for the topic "a".
nul_topic : (feed fresh (0x30 ∷ 6 ∷ 0 ∷ 3 ∷ b'a' ∷ 0 ∷ b'b' ∷ 0 ∷ [])).0.packet.topic ≡ b'a' ∷ []
unfolding feed create_parser varint_decode finish_packet packet_type_from_byte topic_valid
    is_valid_topic_char read_u16_be
nul_topic = refl

feed_pieces_example : feed fresh ((0x30 ∷ 6 ∷ 0 ∷ []) ++ (1 ∷ b'a' ∷ 0 ∷ b'h' ∷ b'i' ∷ [])) ≡ (
    let (p1, n1) = feed fresh (0x30 ∷ 6 ∷ 0 ∷ []) in
    let (p2, n2) = feed p1 (1 ∷ b'a' ∷ 0 ∷ b'h' ∷ b'i' ∷ []) in (p2, n1 + n2))
feed_pieces_example = feed_pieces fresh (0x30 ∷ 6 ∷ 0 ∷ []) (1 ∷ b'a' ∷ 0 ∷ b'h' ∷ b'i' ∷ [])

fresh-InBounds : InBounds fresh
unfolding create_parser
fresh-InBounds = record { rl = omega arith; control = omega arith }

feed-InBounds_example : InBounds (feed fresh hello).0
feed-InBounds_example = feed-InBounds fresh hello fresh-InBounds

encode_ack-feed_example :
    Acked (feed (reset fresh) (encode_ack puback 8 300 0x10 5)) puback 300 0x10 6
unfolding CanHold create_parser
encode_ack-feed_example =
    encode_ack-feed fresh 8 300 0x10 5 of_puback (omega arith) (omega arith) (omega arith)
      (omega arith) (omega arith) tt
