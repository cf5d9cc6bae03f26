-- ===== src/MessagePool.antt =====
-- libs/mqtt_broker/src/message_pool.cpp and include/mqtt_broker/message_pool.hpp: slots with
-- reference counts and generations, and payloads in chains of fixed blocks. A method that changes
-- the pool returns it before its result. `size_t` has 32 bits; an index read out of its array
-- answers a blank entry in the model, and a write there changes nothing.
pub mod Blocks
pub mod Payload
pub mod Handles
pub mod Reading
pub mod Separate
mod Tests
use net_burner_mqtt_broker.Base.{
  ℕ, zero, suc, ◌+◌, ◌-◌, Bool, true, false, ◌&&◌, ◌||◌, not, ltb, leb, ◌==◌,
}
use net_burner_mqtt_broker.Base.{
  if◌then◌else◌, List, [], ◌∷◌, Option, none, some, length, get_elem?, set, u16, u32, replicate,
}
use net_burner_mqtt_broker.Delivery.{MessageHandle, null_message, message_handle_valid}
use Blocks.{Block, BlockStore, no_block, create_blocks, release_chain}
use mathlib.Core.Option

pub record MessagePoolConfig : Type 0 where
  pub block_size : ℕ
  pub block_count : ℕ
  pub slot_count : ℕ

abbrev pub message_props_capacity : ℕ
message_props_capacity = 256

-- `props` are the first `props_len` bytes of the array.
pub record Slot : Type 0 where
  pub generation : ℕ
  pub ref_count : ℕ
  pub payload_len : ℕ
  pub first_block : ℕ
  pub block_count : ℕ
  pub in_use : Bool
  pub props_len : ℕ
  pub expiry_interval : ℕ
  pub publish_tick : ℕ
  pub props : List ℕ

pub record MessagePool : Type 0 where
  pub slots : List Slot
  pub store : BlockStore

-- A slot as the constructor leaves it.
abbrev pub blank_slot : Slot
blank_slot = record {
  generation = 1;
  ref_count = 0;
  payload_len = 0;
  first_block = no_block;
  block_count = 0;
  in_use = false;
  props_len = 0;
  expiry_interval = 0;
  publish_tick = 0;
  props = [];
}

-- The constructor, where all three allocations succeed; `memory` is the arena that `new` gives.
unfoldable pub create : MessagePoolConfig → List ℕ → MessagePool
create cfg memory = record {
  slots = replicate (if cfg.slot_count == 0 then cfg.block_count else cfg.slot_count) blank_slot;
  store = create_blocks cfg.block_size cfg.block_count memory;
}

-- `slots_[i]`
abbrev pub slot_at : MessagePool → ℕ → Slot
slot_at p i = Option.get_or (get_elem? p.slots i) blank_slot

abbrev pub put_slot : MessagePool → ℕ → Slot → MessagePool
put_slot p i s = record p { slots = set p.slots i s }

unfoldable pub msg_valid : MessagePool → MessageHandle → Bool
unfolding message_handle_valid
msg_valid p h =
    if not (message_handle_valid h) || leb (length p.slots) h.slot
    then false
    else let s = slot_at p h.slot in s.in_use && s.generation == h.generation

-- The index of the first slot that is not in use.
unfoldable pub first_free : List Slot → Option ℕ
first_free [] = none
first_free (s ∷ ss) =
    let rest = Option.map suc (first_free ss) in if not s.in_use then some 0 else rest

-- What `acquire_empty` writes into the slot; the generation stays, and so do the props bytes.
abbrev pub claimed : Slot → Slot
claimed s = record s {
  in_use = true;
  ref_count = 1;
  payload_len = 0;
  first_block = no_block;
  block_count = 0;
  props_len = 0;
  expiry_interval = 0;
  publish_tick = 0;
}

unfoldable pub acquire_empty : MessagePool → MessagePool × MessageHandle
acquire_empty p = elim (first_free p.slots) [
  | none ↦ (p, null_message)
  | some i ↦ (
    put_slot p i (claimed (slot_at p i)),
    record { slot = u16 i; generation = (slot_at p i).generation },
  )
]

unfoldable pub msg_acquire : MessagePool → MessageHandle → MessagePool × Bool
unfolding msg_valid
msg_acquire p h =
    let s = slot_at p h.slot in
    if not (msg_valid p h)
    then (p, false)
    else if s.ref_count == 0xffff
    then (p, false)
    else (put_slot p h.slot (record s { ref_count = s.ref_count + 1 }), true)

-- `generation++`, with 0 skipped.
abbrev pub next_generation : ℕ → ℕ
next_generation g = if u16 (g + 1) == 0 then 1 else u16 (g + 1)

-- The slot after its last reference has gone.
abbrev pub retired : Slot → Slot
retired s = record s {
  ref_count = 0;
  in_use = false;
  payload_len = 0;
  first_block = no_block;
  block_count = 0;
  props_len = 0;
  expiry_interval = 0;
  publish_tick = 0;
  generation = next_generation s.generation;
}

unfoldable pub msg_release : MessagePool → MessageHandle → MessagePool
unfolding msg_valid
msg_release p h =
    let s = slot_at p h.slot in
    if not (msg_valid p h)
    then p
    else if s.ref_count == 0
    then p
    else if ltb 0 (s.ref_count - 1)
    then put_slot p h.slot (record s { ref_count = s.ref_count - 1 })
    else record {
      slots = set p.slots h.slot (retired s);
      store = release_chain p.store.block_count p.store s.first_block;
    }

-- `bytes` is what `data` points to, `none` for a null pointer.
unfoldable pub set_props : MessagePool → MessageHandle → Option (List ℕ) → MessagePool × Bool
set_props p h none = (p, false)
set_props p h (some bytes) =
    if not (msg_valid p h) || ltb message_props_capacity (length bytes) then (p, false) else (
      put_slot p h.slot
          (record (slot_at p h.slot) { props = bytes; props_len = u16 (length bytes) }),
      true,
    )

-- The property bytes, `none` for the null pointer.
unfoldable pub props : MessagePool → MessageHandle → Option (List ℕ)
props p h =
    if not (msg_valid p h) || (slot_at p h.slot).props_len == 0
    then none
    else some ((slot_at p h.slot).props)

unfoldable pub set_expiry : MessagePool → MessageHandle → ℕ → ℕ → MessagePool
set_expiry p h interval_sec tick =
    if not (msg_valid p h)
    then p
    else put_slot p h.slot
        (record (slot_at p h.slot) { expiry_interval = interval_sec; publish_tick = tick })

unfoldable pub expiry_interval : MessagePool → MessageHandle → ℕ
expiry_interval p h = if not (msg_valid p h) then 0 else (slot_at p h.slot).expiry_interval

unfoldable pub publish_tick : MessagePool → MessageHandle → ℕ
publish_tick p h = if not (msg_valid p h) then 0 else (slot_at p h.slot).publish_tick

unfoldable pub msg_ref_count : MessagePool → MessageHandle → ℕ
msg_ref_count p h = if not (msg_valid p h) then 0 else (slot_at p h.slot).ref_count

unfoldable pub payload_size : MessagePool → MessageHandle → ℕ
payload_size p h = if not (msg_valid p h) then 0 else (slot_at p h.slot).payload_len
