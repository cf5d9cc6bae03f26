-- ===== src/MessagePool/Payload.antt =====
-- Writing payload bytes into a message's chain of blocks and reading them back.
use net_burner_mqtt_broker.Base.{
  ℕ, zero, suc, ◌+◌, ◌-◌, ◌*◌, ◌%◌, Bool, true, false, ◌&&◌, ◌||◌, not, ltb, leb, ◌==◌,
}
use net_burner_mqtt_broker.Base.{
  if◌then◌else◌, List, [], ◌∷◌, ◌++◌, none, some, length, get_elem?, set, u16, u32, take, drop, min,
}
use net_burner_mqtt_broker.Delivery.{MessageHandle}
use net_burner_mqtt_broker.MessagePool.{MessagePool, slot_at, msg_valid}
use net_burner_mqtt_broker.MessagePool.Blocks.{
  BlockStore, no_block, next_of, tail_block, take_block, write_bytes,
}

-- `blocks_[tail].next = blk`
abbrev link_block : BlockStore → ℕ → ℕ → BlockStore
link_block s tail blk = elim (get_elem? s.blocks tail) [
  | none ↦ s
  | some b ↦ record s { blocks = set s.blocks tail (record b { next = blk }) }
]

-- `bytes` are the `len` bytes at `data`.
unfoldable pub append_block : MessagePool → MessageHandle → List ℕ → MessagePool × Bool
append_block p h bytes =
    if not (msg_valid p h) || length bytes == 0 || ltb p.store.block_size (length bytes)
    then (p, false)
    else if p.store.free_block_head == no_block
    then (p, false)
    else let (store, blk) = take_block p.store bytes in
      let s = slot_at p h.slot in
      let first = if s.first_block == no_block then blk else s.first_block in
      let linked =
        if s.first_block == no_block
        then store
        else link_block store (tail_block store.block_count store.blocks s.first_block) blk in
      (
        record {
          slots = set p.slots h.slot (record s {
            first_block = first;
            block_count = u16 (s.block_count + 1);
            payload_len = u32 (s.payload_len + length bytes);
          });
          store = linked;
        },
        true,
      )

-- One round of the loop of `append_payload` on the bytes that are left: the bytes that it does not
-- take, and whether it may go on. It fills the partial tail block before it takes a new one.
append_round : MessagePool → MessageHandle → List ℕ → MessagePool × List ℕ × Bool
unfolding append_block
append_round p h bytes =
    let s = slot_at p h.slot in
    let partial = s.payload_len % p.store.block_size in
    if not (partial == 0) && not (s.first_block == no_block)
    then (let tail = tail_block p.store.block_count p.store.blocks s.first_block in
        let chunk = min (length bytes) (p.store.block_size - partial) in
        let arena =
          write_bytes p.store.block_data (tail * p.store.block_size + partial) (take chunk bytes) in
        (
          record {
            slots = set p.slots h.slot (record s { payload_len = u32 (s.payload_len + chunk) });
            store = record (p.store) { block_data = arena };
          },
          drop chunk bytes,
          true,
        ))
    else (let chunk = min (length bytes) p.store.block_size in
        let (p', done) = append_block p h (take chunk bytes) in (p', drop chunk bytes, done))

-- The loop, on fuel: each round takes a byte at least.
append_rounds : ℕ → MessagePool → MessageHandle → List ℕ → MessagePool × Bool
unfolding append_round
append_rounds fuel p h [] = (p, true)
append_rounds zero p h (b ∷ bytes) = (p, false)
append_rounds (suc fuel) p h (b ∷ bytes) =
    let (p', left, more) = append_round p h (b ∷ bytes) in
    let rest = append_rounds fuel p' h left in if more then rest else (p', false)

unfoldable pub append_payload : MessagePool → MessageHandle → List ℕ → MessagePool × Bool
unfolding append_rounds
append_payload p h bytes =
    if not (msg_valid p h) || length bytes == 0
    then (p, false)
    else append_rounds (length bytes) p h bytes

-- The loop of `read_payload`, on fuel: the bytes still to copy, the offset into the payload that is
-- left, the block at hand and the payload position at which it starts.
unfoldable pub read_blocks : ℕ → BlockStore → ℕ → ℕ → ℕ → ℕ → List ℕ
read_blocks zero s left offset blk pos = []
read_blocks (suc fuel) s left offset blk pos =
    let block_end = pos + s.block_size in
    let skipped = read_blocks fuel s left offset (next_of s.blocks blk) block_end in
    let start = if ltb pos offset then offset - pos else 0 in
    let chunk = min left (s.block_size - start) in
    let copied = take chunk (drop (blk * s.block_size + start) s.block_data) in
    let rest =
      read_blocks fuel s (left - chunk) (offset + chunk) (next_of s.blocks blk) block_end in
    if blk == no_block || leb s.block_count blk || left == 0
    then []
    else if leb block_end offset
    then skipped
    else copied ++ rest

-- The bytes that are stored in `out`, whose number is returned.
unfoldable pub read_payload : MessagePool → MessageHandle → ℕ → ℕ → List ℕ
unfolding read_blocks
read_payload p h offset cap =
    let s = slot_at p h.slot in
    if not (msg_valid p h) || cap == 0
    then []
    else if leb s.payload_len offset
    then []
    else read_blocks p.store.block_count p.store (min (s.payload_len - offset) cap) offset
        s.first_block 0
