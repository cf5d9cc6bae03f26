-- ===== src/MessagePool/Tests.antt =====
-- Runs of the message pool, and its theorems at concrete pools.
use net_burner_mqtt_broker.Base.{
  ℕ, ◌≡◌, refl, arith, true, false, List, [], ◌∷◌, ◌++◌, some, replicate,
}
use net_burner_mqtt_broker.Delivery.{MessageHandle, message_handle_valid}
use net_burner_mqtt_broker.MessagePool.{
  MessagePool, create, claimed, blank_slot, slot_at, first_free, acquire_empty, msg_valid,
  msg_acquire, msg_release, msg_ref_count,
}
use net_burner_mqtt_broker.MessagePool.Blocks.{create_blocks, take_block, tail_block}
use net_burner_mqtt_broker.MessagePool.Payload.{append_payload, read_payload, append_block}
use net_burner_mqtt_broker.MessagePool.Handles
use net_burner_mqtt_broker.MessagePool.Reading.{Chain}
use net_burner_mqtt_broker.MessagePool.Separate.{
  IsSeparate, IsApart, ends, goes, Untouched, other_messages-Untouched,
}

-- Two slots; three blocks of four bytes.
abbrev fresh : MessagePool
fresh = create (record { block_size = 4; block_count = 3; slot_count = 2 }) (replicate 12 0)

abbrev first : MessageHandle
first = record { slot = 0; generation = 1 }

abbrev payload : List ℕ
payload = 1 ∷ 2 ∷ 3 ∷ 4 ∷ 5 ∷ 6 ∷ 7 ∷ []

-- Seven bytes in two appends over two blocks, read back from offset 1.
append_and_read :
    read_payload
      (append_payload
        (append_payload (acquire_empty fresh).0 first (1 ∷ 2 ∷ [])).0
        first
        (3 ∷ 4 ∷ 5 ∷ 6 ∷ 7 ∷ [])).0
      first
      1
      5
    ≡ 2 ∷ 3 ∷ 4 ∷ 5 ∷ 6 ∷ []
unfolding create create_blocks acquire_empty first_free msg_valid append_payload append_block
    read_payload take_block tail_block
append_and_read = refl

abbrev one_held : MessagePool
one_held = record {
  slots = claimed blank_slot ∷ blank_slot ∷ [];
  store = record {
    block_size = 4;
    block_count = 0;
    blocks = [];
    block_data = [];
    free_block_head = 0xffff;
    blocks_allocated = 0;
    blocks_free = 0;
  };
}

abbrev held_twice : MessagePool
held_twice = record {
  slots = record (claimed blank_slot) { ref_count = 2 } ∷ blank_slot ∷ [];
  store = one_held.store;
}

first-valid : msg_valid one_held first ≡ true
unfolding msg_valid message_handle_valid
first-valid = refl

first-count : msg_ref_count one_held first ≡ 1
unfolding msg_ref_count msg_valid message_handle_valid
first-count = refl

twice-valid : msg_valid held_twice first ≡ true
unfolding msg_valid message_handle_valid
twice-valid = refl

twice-count : msg_ref_count held_twice first ≡ 2
unfolding msg_ref_count msg_valid message_handle_valid
twice-count = refl

acquired : (msg_acquire held_twice first).1 ≡ true
unfolding msg_acquire message_handle_valid
acquired = refl

second_free : first_free one_held.slots ≡ some 1
unfolding first_free
second_free = refl

msg_release_last_example :
    let left = msg_release one_held first in
    ((slot_at left 0).in_use ≡ false)
    × (msg_valid left first ≡ false)
    × (msg_valid (acquire_empty left).0 first ≡ false)
msg_release_last_example =
    Handles.msg_release_last one_held first first-valid first-count (omega arith)

msg_release-acquire_example : msg_release (msg_acquire held_twice first).0 first ≡ held_twice
msg_release-acquire_example =
    Handles.msg_release-acquire held_twice first acquired (omega (arith, twice-count))

-- Two messages, each in a block of its own.
abbrev two_messages : MessagePool
two_messages = record {
  slots =
      record (claimed blank_slot) { payload_len = 4; first_block = 0; block_count = 1 }
      ∷ record (claimed blank_slot) { payload_len = 3; first_block = 1; block_count = 1 }
      ∷ [];
  store = record {
    block_size = 4;
    block_count = 2;
    blocks = record { in_use = true; next = 0xffff } ∷ record { in_use = true; next = 0xffff } ∷ [];
    block_data = payload ++ (0 ∷ []);
    free_block_head = 0xffff;
    blocks_allocated = 2;
    blocks_free = 0;
  };
}

abbrev second : MessageHandle
second = record { slot = 1; generation = 1 }

two_messages-IsSeparate : IsSeparate two_messages first second (0 ∷ [])
unfolding msg_valid message_handle_valid IsApart Chain
two_messages-IsSeparate = record {
  slots = omega arith;
  stored = record {
    valid = refl;
    arena = omega arith;
    chain = (omega arith, omega arith, tt);
    few = omega arith;
    room = omega arith;
  };
  walk = goes (omega arith) (omega arith) refl ends;
  blocks = (refl, tt);
}

other_messages-Untouched_example :
    Untouched two_messages (msg_acquire two_messages first).0 second
    × Untouched two_messages (msg_release two_messages first) second
other_messages-Untouched_example =
    other_messages-Untouched two_messages first second (0 ∷ []) two_messages-IsSeparate
