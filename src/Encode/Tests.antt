-- ===== src/Encode/Tests.antt =====
-- Runs of the encoders, and their theorems at concrete inputs.
use net_burner_mqtt_broker.Base.{ℕ, ◌+◌, ◌≡◌, refl, some, true, false, arith, List, [], ◌∷◌, length}
use net_burner_mqtt_broker.Delivery.{MessageHandle}
use net_burner_mqtt_broker.MessagePool.{MessagePool, blank_slot, claimed, msg_valid, props}
use net_burner_mqtt_broker.MessagePool.Payload.{read_payload}
use net_burner_mqtt_broker.MessagePool.Reading.{
  Reads, Stored, Chain, chain_bytes, payload_of, read_payload-Reads,
}
use net_burner_mqtt_broker.MqttTypes.{packet_type_to_byte}
use net_burner_mqtt_broker.Varint.{varint_encode}
use net_burner_mqtt_broker.Wire.{write_u16_be, write_u32_be}
use net_burner_mqtt_broker.Encode.{
  encode_publish, encode_suback, estimate_publish_size, publish_header,
}
use net_burner_mqtt_broker.Encode.Publish.{
  in_pieces, packet_bytes, packet_props, encode_publish-pieces,
}
use net_burner_mqtt_broker.Encode.Sizes.{estimate_publish_size-publish_header}

-- A message of six bytes in two blocks of four.
abbrev six_bytes : MessagePool
six_bytes = record {
  slots = record (claimed blank_slot) { payload_len = 6; first_block = 1; block_count = 2 } ∷ [];
  store = record {
    block_size = 4;
    block_count = 2;
    blocks = record { in_use = true; next = 0xffff } ∷ record { in_use = true; next = 0 } ∷ [];
    block_data = 5 ∷ 6 ∷ 0 ∷ 0 ∷ 1 ∷ 2 ∷ 3 ∷ 4 ∷ [];
    free_block_head = 0xffff;
    blocks_allocated = 2;
    blocks_free = 0;
  };
}

abbrev handle : MessageHandle
handle = record { slot = 0; generation = 1 }

abbrev payload : List ℕ
payload = 1 ∷ 2 ∷ 3 ∷ 4 ∷ 5 ∷ 6 ∷ []

six_bytes-Stored : Stored six_bytes handle
unfolding msg_valid Chain
six_bytes-Stored = record {
  valid = refl;
  arena = omega arith;
  chain = (ground arith, omega arith, (ground arith, omega arith, tt));
  few = omega arith;
  room = omega arith;
}

read_payload-Reads_example : Reads (read_payload six_bytes handle) (payload_of six_bytes handle)
read_payload-Reads_example = read_payload-Reads six_bytes handle six_bytes-Stored

six_bytes-payload : payload_of six_bytes handle ≡ payload
unfolding payload_of chain_bytes
six_bytes-payload = refl

abbrev topic : List ℕ
topic = b'a' ∷ b'/' ∷ b'b' ∷ []

-- A QoS 1 PUBLISH at level 5 with an expiry, in pieces of seven bytes.
encode_publish-pieces_example :
    in_pieces 25
      (λ offset. encode_publish 7 topic false 1 9 false six_bytes handle 6 offset true 60 5)
      0
    ≡ packet_bytes topic false 1 9 false (packet_props six_bytes handle 5) payload true 60 5
unfolding payload_of chain_bytes packet_bytes packet_props publish_header varint_encode
    packet_type_to_byte write_u16_be write_u32_be props msg_valid
encode_publish-pieces_example =
    encode_publish-pieces 7 topic false 1 9 false six_bytes handle payload true 60 5 25
      (omega arith) refl (omega arith) (read_payload-Reads six_bytes handle six_bytes-Stored)
      (omega arith) (omega arith)

estimate_publish_size-publish_header_example :
    estimate_publish_size (some topic) 6 1 2 true 5
    ≡ length (publish_header topic false 1 9 false (1 ∷ 1 ∷ []) 6 true 60 5) + 6
estimate_publish_size-publish_header_example =
    estimate_publish_size-publish_header topic false 1 9 false (1 ∷ 1 ∷ []) 6 true 60 5
      (omega arith)

-- A SUBACK at level 4 knows one failure only.
suback_run : encode_suback 16 7 (1 ∷ 0x87 ∷ []) 4 ≡ 0x90 ∷ 4 ∷ 0 ∷ 7 ∷ 1 ∷ 0x80 ∷ []
unfolding encode_suback varint_encode packet_type_to_byte write_u16_be
suback_run = refl
