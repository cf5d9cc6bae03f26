-- ===== src/PropertyPool.antt =====
-- libs/mqtt_broker/src/property_pool.cpp and include/mqtt_broker/property_pool.hpp: the properties of
-- a packet, sixteen records to a slot, their values in a common byte arena. A method that changes the
-- pool returns it before its answer. Pointers to values are not null, and `data` with `len` is a list.
pub mod Exhaustion
mod Tests
use net_burner_mqtt_broker.Base.{
  ℕ, zero, suc, ◌+◌, ◌*◌, ◌/◌, ◌%◌, ◌-◌, bit_or, Bool, true, false, ◌&&◌, ◌||◌, not, ltb, leb, ◌==◌,
  u16, u32, if◌then◌else◌,
}
use net_burner_mqtt_broker.Base.{
  List, [], ◌∷◌, ◌++◌, Option, none, some, length, get_elem?, set, take, drop, replicate,
}
use net_burner_mqtt_broker.Wire.{write_u16_be, write_u32_be}
use mathlib.Core.Option

pub record PropertyHandle : Type 0 where
  pub slot : ℕ
  pub generation : ℕ

abbrev pub null_property : PropertyHandle
null_property = record { slot = 0xffff; generation = 0xffff }

-- The value kinds, with the source's names for the types that they stand for.
pub data PropertyValueKind : Type 0 where
  byte_value u16_value u32_value utf8_string binary varint user_property : PropertyValueKind

-- `id` is the identifier's byte.
pub record PropertyRecord : Type 0 where
  pub id : ℕ
  pub kind : PropertyValueKind
  pub offset : ℕ
  pub length : ℕ
  pub key_offset : ℕ
  pub key_length : ℕ

pub record PropertyPoolConfig : Type 0 where
  pub max_slots : ℕ
  pub max_properties_per_slot : ℕ
  pub max_blob_bytes : ℕ

pub record PropertySlot : Type 0 where
  pub generation : ℕ
  pub property_count : ℕ
  pub first_record : ℕ
  pub in_use : Bool

-- `slot_cap_` and `record_cap_` are the lengths of the lists.
pub record PropertyPool : Type 0 where
  pub slots : List PropertySlot
  pub records : List PropertyRecord
  pub blob : List ℕ
  pub blob_cap : ℕ
  pub bytes_used : ℕ

abbrev pub props_per_slot : ℕ
props_per_slot = 16

-- The constructor's loop over the slots, from slot `i` on.
unfoldable pub seed_slots : ℕ → ℕ → List PropertySlot
seed_slots i zero = []
seed_slots i (suc n) =
    record {
      generation = 1;
      property_count = 0;
      first_record = u16 (i * props_per_slot);
      in_use = false;
    }
    ∷ seed_slots (i + 1) n

-- The constructor, where the allocations succeed; the records and the arena are what `new` gives.
unfoldable pub create_pool : PropertyPoolConfig → List PropertyRecord → List ℕ → PropertyPool
unfolding seed_slots
create_pool cfg records memory = record {
  slots = seed_slots 0 cfg.max_slots;
  records = records;
  blob = memory;
  blob_cap = cfg.max_blob_bytes;
  bytes_used = 0;
}

abbrev pub blank_slot : PropertySlot
blank_slot = record { generation = 0; property_count = 0; first_record = 0; in_use = false }

abbrev pub slot_of : PropertyPool → ℕ → PropertySlot
slot_of p i = Option.get_or (get_elem? p.slots i) blank_slot

unfoldable pub handle_valid : PropertyPool → PropertyHandle → Bool
handle_valid p h =
    if h.slot == 0xffff || leb (length p.slots) h.slot
    then false
    else (slot_of p h.slot).in_use && (slot_of p h.slot).generation == h.generation

unfoldable pub free_slot : List PropertySlot → Option ℕ
free_slot [] = none
free_slot (s ∷ ss) =
    let rest = Option.map suc (free_slot ss) in if not s.in_use then some 0 else rest

unfoldable pub acquire_slot : PropertyPool → PropertyPool × PropertyHandle
unfolding free_slot
acquire_slot p = elim (free_slot p.slots) [
  | none ↦ (p, null_property)
  | some i ↦ (
    record p { slots = set p.slots i (record (slot_of p i) { in_use = true; property_count = 0 }) },
    record { slot = u16 i; generation = (slot_of p i).generation },
  )
]

unfoldable pub release_slot : PropertyPool → PropertyHandle → PropertyPool
unfolding handle_valid
release_slot p h =
    let s = slot_of p h.slot in
    let g = u16 (s.generation + 1) in
    if not (handle_valid p h) then p else record p {
      slots =
          set p.slots h.slot
            (record s { in_use = false; property_count = 0; generation = if g == 0 then 1 else g });
    }

-- What is stored behind `out_offset`, `none` for the answer false.
unfoldable pub append_blob : PropertyPool → List ℕ → PropertyPool × Option ℕ
append_blob p bytes =
    if ltb p.blob_cap (u32 (p.bytes_used + length bytes)) || ltb 0xffff (length bytes)
    then (p, none)
    else (
      record p {
        blob = take p.bytes_used p.blob ++ bytes ++ drop (p.bytes_used + length bytes) p.blob;
        bytes_used = u32 (p.bytes_used + length bytes);
      },
      some (u16 p.bytes_used),
    )

-- The record that is added, with its fields as arguments.
unfoldable pub add_record : PropertyPool → PropertyHandle → PropertyRecord → PropertyPool × Bool
unfolding handle_valid
add_record p h r =
    let s = slot_of p h.slot in
    let rec_index = h.slot * props_per_slot + s.property_count in
    if not (handle_valid p h)
    then (p, false)
    else if leb props_per_slot s.property_count || leb (length p.records) rec_index
    then (p, false)
    else (
      record p {
        records = set p.records rec_index r;
        slots = set p.slots h.slot (record s { property_count = s.property_count + 1 });
      },
      true,
    )

-- What the `add_` methods share: the bytes of the value and then the record of where they are.
unfoldable pub add_value :
    PropertyPool → PropertyHandle → ℕ → PropertyValueKind → List ℕ → PropertyPool × Bool
unfolding append_blob add_record
add_value p h id kind bytes =
    let (p', offset) = append_blob p bytes in
    elim offset [
      | none ↦ (p', false)
      | some off ↦ add_record p' h (record {
        id = id;
        kind = kind;
        offset = off;
        length = u16 (length bytes);
        key_offset = 0;
        key_length = 0;
      })
    ]

unfoldable pub add_byte : PropertyPool → PropertyHandle → ℕ → ℕ → PropertyPool × Bool
unfolding add_value
add_byte p h id value = add_value p h id byte_value (value ∷ [])

unfoldable pub add_u16 : PropertyPool → PropertyHandle → ℕ → ℕ → PropertyPool × Bool
unfolding add_value
add_u16 p h id value = add_value p h id u16_value (write_u16_be value)

unfoldable pub add_u32 : PropertyPool → PropertyHandle → ℕ → ℕ → PropertyPool × Bool
unfolding add_value
add_u32 p h id value = add_value p h id u32_value (write_u32_be value)

-- The loop of `add_varint` with the room that is left in `buf`.
unfoldable pub varint_bytes : ℕ → ℕ → List ℕ
varint_bytes zero v = []
varint_bytes (suc room) v =
    let rest = varint_bytes room (v / 128) in
    if ltb 0 (v / 128) then bit_or (v % 128) 0x80 ∷ rest else v % 128 ∷ []

unfoldable pub add_varint : PropertyPool → PropertyHandle → ℕ → ℕ → PropertyPool × Bool
unfolding add_value varint_bytes
add_varint p h id value = add_value p h id varint (varint_bytes 4 value)

unfoldable pub add_utf8 : PropertyPool → PropertyHandle → ℕ → List ℕ → PropertyPool × Bool
unfolding add_value
add_utf8 p h id str = add_value p h id utf8_string str

unfoldable pub add_binary : PropertyPool → PropertyHandle → ℕ → List ℕ → PropertyPool × Bool
unfolding add_value
add_binary p h id data_bytes = add_value p h id binary data_bytes

-- The identifier of a User Property is 0x26.
unfoldable pub add_user_property :
    PropertyPool → PropertyHandle → List ℕ → List ℕ → PropertyPool × Bool
unfolding append_blob add_record
add_user_property p h key val =
    let (p1, key_off) = append_blob p key in
    let (p2, val_off) = append_blob p1 val in
    elim key_off [
      | none ↦ (p1, false)
      | some k ↦ elim val_off [
        | none ↦ (p2, false)
        | some v ↦ add_record p2 h (record {
          id = 0x26;
          kind = user_property;
          offset = v;
          length = u16 (length val);
          key_offset = k;
          key_length = u16 (length key);
        })
      ]
    ]

unfoldable pub property_count_of : PropertyPool → PropertyHandle → ℕ
unfolding handle_valid
property_count_of p h = if not (handle_valid p h) then 0 else (slot_of p h.slot).property_count

-- The records from the slot's base on, of which the first `count` are meant; `none` for null.
unfoldable pub records_of : PropertyPool → PropertyHandle → Option (List PropertyRecord)
unfolding handle_valid
records_of p h =
    let base = h.slot * props_per_slot in
    if not (handle_valid p h)
    then none
    else if leb (length p.records) base
    then none
    else some (take (slot_of p h.slot).property_count (drop base p.records))
