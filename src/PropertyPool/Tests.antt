-- ===== src/PropertyPool/Tests.antt =====
-- Runs of the property pool on fixed inputs.
use net_burner_mqtt_broker.Base.{◌≡◌, refl, arith, false, [], ◌∷◌, replicate}
use net_burner_mqtt_broker.Wire.{write_u16_be}
use net_burner_mqtt_broker.PropertyPool.{
  PropertyPool, PropertyHandle, PropertyRecord, byte_value, create_pool, seed_slots, acquire_slot,
  free_slot, release_slot, handle_valid, append_blob, add_record, add_value, add_u16,
  property_count_of,
}
use net_burner_mqtt_broker.PropertyPool.Exhaustion.{
  Bounded, now, released, acquired, add_value_exhausted,
}

abbrev blank_record : PropertyRecord
blank_record = record {
  id = 0;
  kind = byte_value;
  offset = 0;
  length = 0;
  key_offset = 0;
  key_length = 0;
}

-- One slot and an arena of two bytes.
abbrev small : PropertyPool
small =
    create_pool (record { max_slots = 1; max_properties_per_slot = 16; max_blob_bytes = 2 })
      (replicate 16 blank_record) (replicate 2 0)

abbrev handle : PropertyHandle
handle = record { slot = 0; generation = 1 }

-- A Receive Maximum fills the arena.
abbrev full_arena : PropertyPool
full_arena = (add_u16 (acquire_slot small).0 handle 0x21 20).0

stored_once : property_count_of full_arena handle ≡ 1
unfolding create_pool acquire_slot free_slot seed_slots add_u16 add_value append_blob add_record
    handle_valid property_count_of write_u16_be
stored_once = refl

full_arena-Bounded : Bounded full_arena
unfolding create_pool acquire_slot free_slot seed_slots add_u16 add_value append_blob add_record
    handle_valid write_u16_be
full_arena-Bounded = record { used = omega arith; word = omega arith }

full_arena_used : full_arena.bytes_used ≡ full_arena.blob_cap
unfolding create_pool acquire_slot free_slot seed_slots add_u16 add_value append_blob add_record
    handle_valid write_u16_be
full_arena_used = refl

abbrev recycled : PropertyPool
recycled = (acquire_slot (release_slot full_arena handle)).0

-- The slot is released and acquired again, and its first value is refused.
add_value_exhausted_example :
    add_value recycled (record { slot = 0; generation = 2 }) 0x01 byte_value (1 ∷ [])
    ≡ (recycled, false)
add_value_exhausted_example =
    add_value_exhausted (record { slot = 0; generation = 2 }) 0x01 byte_value 1 []
      full_arena-Bounded full_arena_used (acquired (released handle now))
