-- ===== src/MessagePool/Blocks.antt =====
-- The block part of the pool: the arena, the chains through `next`, and the free list.
use net_burner_mqtt_broker.Base.{ℕ, zero, suc, ◌+◌, ◌*◌, Bool, true, false, ◌&&◌, not, ltb, ◌==◌}
use net_burner_mqtt_broker.Base.{
  if◌then◌else◌, List, [], ◌∷◌, none, some, get_elem?, set, u16, u32, sub32,
}

pub record Block : Type 0 where
  pub in_use : Bool
  pub next : ℕ

-- `blocks_`, `block_data_`, the free list and the two counters.
pub record BlockStore : Type 0 where
  pub block_size : ℕ
  pub block_count : ℕ
  pub blocks : List Block
  pub block_data : List ℕ
  pub free_block_head : ℕ
  pub blocks_allocated : ℕ
  pub blocks_free : ℕ

abbrev pub no_block : ℕ
no_block = 0xffff

-- The constructor's loop over the blocks: each points to the next, the last to none.
unfoldable pub seed_blocks : ℕ → ℕ → List Block
seed_blocks zero i = []
seed_blocks (suc left) i =
    record { in_use = false; next = if left == 0 then no_block else u16 (i + 1) }
    ∷ seed_blocks left (i + 1)

unfoldable pub create_blocks : ℕ → ℕ → List ℕ → BlockStore
unfolding seed_blocks
create_blocks block_size block_count memory = record {
  block_size = block_size;
  block_count = block_count;
  blocks = seed_blocks block_count 0;
  block_data = memory;
  free_block_head = if ltb 0 block_count then 0 else no_block;
  blocks_allocated = 0;
  blocks_free = block_count;
}

-- `blocks_[i].next`
abbrev pub next_of : List Block → ℕ → ℕ
next_of blocks i = elim (get_elem? blocks i) [ none ↦ no_block | some b ↦ b.next ]

-- One round of the loop in `msg_release`: block `blk` goes to the head of the free list.
unfoldable pub free_block : BlockStore → ℕ → BlockStore
free_block s blk = record s {
  blocks = set s.blocks blk (record { in_use = false; next = s.free_block_head });
  free_block_head = blk;
  blocks_allocated = sub32 s.blocks_allocated 1;
  blocks_free = u32 (s.blocks_free + 1);
}

-- The loop in `msg_release`, on fuel: a chain through distinct blocks ends in `block_count` rounds.
unfoldable pub release_chain : ℕ → BlockStore → ℕ → BlockStore
unfolding free_block
release_chain zero s blk = s
release_chain (suc fuel) s blk =
    let rest = release_chain fuel (free_block s blk) (next_of s.blocks blk) in
    if not (blk == no_block) && ltb blk s.block_count then rest else s

-- `tail_block`, on fuel.
unfoldable pub tail_block : ℕ → List Block → ℕ → ℕ
tail_block zero blocks cur = cur
tail_block (suc fuel) blocks cur =
    let rest = tail_block fuel blocks (next_of blocks cur) in
    if not (cur == no_block) && not (next_of blocks cur == no_block) then rest else cur

-- `memcpy(arena + at, bytes, n)`
abbrev pub write_bytes : List ℕ → ℕ → List ℕ → List ℕ
write_bytes arena at [] = arena
write_bytes arena at (b ∷ bytes) = write_bytes (set arena at b) (at + 1) bytes

-- The first half of `append_block`: the head of the free list is taken and filled. The caller has
-- tested that there is one.
unfoldable pub take_block : BlockStore → List ℕ → BlockStore × ℕ
take_block s bytes =
    let blk = s.free_block_head in
    (
      record s {
        free_block_head = next_of s.blocks blk;
        blocks = set s.blocks blk (record { in_use = true; next = no_block });
        block_data = write_bytes s.block_data (blk * s.block_size) bytes;
        blocks_allocated = u32 (s.blocks_allocated + 1);
        blocks_free = sub32 s.blocks_free 1;
      },
      blk,
    )
