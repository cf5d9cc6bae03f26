-- ===== src/MessagePool/Separate.antt =====
-- What a caller sees of one message while another is shared or given back
-- (libs/mqtt_broker/src/message_pool.cpp).
use net_burner_mqtt_broker.Base.{
  ℕ, zero, suc, ◌+◌, ◌-◌, ◌<◌, ◌≡◌, ◌≢◌, refl, arith, ap, sym, ◌∙◌, Bool, true, false, ◌||◌, ◌==◌,
  List, [], ◌∷◌, set, take, drop, get_elem?-set_ne, none, some, Bool-cases, inl, inr, ltb, not,
  ◌&&◌,
}
use net_burner_mqtt_broker.Delivery.{MessageHandle}
use net_burner_mqtt_broker.MessagePool.{
  MessagePool, Slot, slot_at, retired, msg_valid, msg_acquire, msg_release, msg_ref_count,
  payload_size, props, expiry_interval, publish_tick,
}
use net_burner_mqtt_broker.MessagePool.Blocks.{
  Block, BlockStore, no_block, next_of, free_block, release_chain,
}
use net_burner_mqtt_broker.MessagePool.Payload.{read_payload}
use net_burner_mqtt_broker.MessagePool.Handles.{slot_at-put_ne, put-Kept, Kept}
use net_burner_mqtt_broker.MessagePool.Reading.{
  Chain, chain_bytes, payload_of, Stored, read_payload-Reads,
}

-- The block is one of the list.
abbrev pub holds : ℕ → List ℕ → Bool
holds blk [] = false
holds blk (b ∷ bs) = (blk == b) || holds blk bs

-- From `blk` the links lead through the distinct blocks of the list and end there.
pub data Walk (s : BlockStore) : ℕ → List ℕ → Type 0 where
  ends : Walk s 0xffff []
  goes :
      {blk : ℕ} {bs : List ℕ}
      → blk ≢ 0xffff
      → blk < s.block_count
      → holds blk bs ≡ false
      → Walk s (next_of s.blocks blk) bs
      → Walk s blk (blk ∷ bs)

-- None of the first `n` blocks of the chain is in the list.
unfoldable pub IsApart : ℕ → BlockStore → ℕ → List ℕ → Type 0
IsApart zero s blk bs = Unit
IsApart (suc n) s blk bs = (holds blk bs ≡ false) × IsApart n s (next_of s.blocks blk) bs

next_of-set_ne :
    (blocks : List Block) (i j : ℕ) (b : Block)
    → i ≢ j
    → next_of (set blocks i b) j ≡ next_of blocks j
next_of-set_ne blocks i j b h =
    ap (λ o. elim o [ none ↦ no_block | some c ↦ c.next ]) (get_elem?-set_ne blocks i j b h)

free_block-next :
    (s : BlockStore) (blk j : ℕ)
    → (blk == j) ≡ false
    → next_of (free_block s blk).blocks j ≡ next_of s.blocks j
unfolding free_block
free_block-next s blk j h =
    next_of-set_ne s.blocks blk j (record { in_use = false; next = s.free_block_head })
      (λ e. ground (arith, h, e))

-- A walk survives the release of a block that it does not pass.
free_block-Walk :
    (s : BlockStore) (c : ℕ) {blk : ℕ} {bs : List ℕ}
    → holds c bs ≡ false
    → Walk s blk bs
    → Walk (free_block s c) blk bs
unfolding free_block
free_block-Walk s c out ends = ends
free_block-Walk s c {blk} out (goes some_block inside fresh w) = goes some_block inside fresh (
    rw (free_block-next s c blk (ground (arith, out)))
      (free_block-Walk s c (ground (arith, out)) w))

-- The links of the blocks that are not released, the sizes and the bytes of all stay as they are.
record Spares (bs : List ℕ) (s t : BlockStore) : Type 0 where
  links : (j : ℕ) → holds j bs ≡ false → next_of t.blocks j ≡ next_of s.blocks j
  count : t.block_count ≡ s.block_count
  size : t.block_size ≡ s.block_size
  bytes : t.block_data ≡ s.block_data

release_chain-Spares :
    (fuel : ℕ) (s : BlockStore) {blk : ℕ} {bs : List ℕ}
    → Walk s blk bs
    → Spares bs s (release_chain fuel s blk)
unfolding release_chain free_block
release_chain-Spares zero s w = record {
  links = λ j h. refl;
  count = refl;
  size = refl;
  bytes = refl;
}
release_chain-Spares (suc fuel) s ends = record {
  links = λ j h. refl;
  count = refl;
  size = refl;
  bytes = refl;
}
release_chain-Spares (suc fuel) s {blk} (goes {bs = rest} some_block inside fresh w) =
    let live : (not (blk == no_block) && ltb blk s.block_count) ≡ true =
      ground (arith, some_block, inside) in
    let below = release_chain-Spares fuel (free_block s blk) (free_block-Walk s blk fresh w) in
    rw (release_chain, live)
      (record {
        links =
            λ j h. below.links j (ground (arith, h)) ∙ free_block-next s blk j (ground (arith, h));
        count = below.count;
        size = below.size;
        bytes = below.bytes;
      })

chain_bytes-Spares :
    (n : ℕ) (s t : BlockStore) (blk : ℕ) (bs : List ℕ)
    → Spares bs s t
    → IsApart n s blk bs
    → chain_bytes n t blk ≡ chain_bytes n s blk
unfolding chain_bytes IsApart
chain_bytes-Spares zero s t blk bs spares apart = refl
chain_bytes-Spares (suc n) s t blk bs spares (here, later) =
    rw
      (
        spares.links blk here,
        chain_bytes-Spares n s t (next_of s.blocks blk) bs spares later,
        spares.size,
        spares.bytes,
      )
      refl

Chain-Spares :
    (n : ℕ) (s t : BlockStore) (blk : ℕ) (bs : List ℕ)
    → Spares bs s t
    → IsApart n s blk bs
    → Chain n s blk
    → Chain n t blk
unfolding Chain IsApart
Chain-Spares zero s t blk bs spares apart c = tt
Chain-Spares (suc n) s t blk bs spares (here, later) (some_block, inside, c) = (
  some_block,
  rw spares.count inside,
  rw (spares.links blk here) (Chain-Spares n s t (next_of s.blocks blk) bs spares later c),
)

-- The message of `g` is stored as before in `p'`, and its slot is the same.
record Unmoved (p p' : MessagePool) (g : MessageHandle) : Type 0 where
  stored : Stored p' g
  payload : payload_of p' g ≡ payload_of p g
  slot : slot_at p' g.slot ≡ slot_at p g.slot

-- What a caller can ask of `g` is the same in both pools: also every byte of its payload, its
-- properties and its expiry.
pub record Untouched (p p' : MessagePool) (g : MessageHandle) : Type 0 where
  pub handle : Kept p p' g
  pub bytes : (offset n : ℕ) → read_payload p' g offset n ≡ read_payload p g offset n
  pub properties : props p' g ≡ props p g
  pub expiry : expiry_interval p' g ≡ expiry_interval p g
  pub published : publish_tick p' g ≡ publish_tick p g

other_slot-Unmoved :
    (p : MessagePool) (t : BlockStore) (i : ℕ) (s : Slot) (g : MessageHandle) (bs : List ℕ)
    → i ≢ g.slot
    → Stored p g
    → Spares bs p.store t
    → IsApart (slot_at p g.slot).block_count p.store (slot_at p g.slot).first_block bs
    → Unmoved p (record { slots = set p.slots i s; store = t }) g
unfolding payload_of
other_slot-Unmoved p t i s g bs apart st spares sep =
    let same = slot_at-put_ne p.slots i g.slot s apart in
    let n = (slot_at p g.slot).block_count in
    let first = (slot_at p g.slot).first_block in
    record {
      stored = record {
        valid = (put-Kept p t i s g apart).0 ∙ st.valid;
        arena = rw (spares.count, spares.size, spares.bytes) st.arena;
        chain = rw same (Chain-Spares n p.store t first bs spares sep st.chain);
        few = rw (same, spares.count) st.few;
        room = rw (same, spares.size) st.room;
      };
      payload = rw (same, chain_bytes-Spares n p.store t first bs spares sep) refl;
      slot = same;
    }

Unmoved-Untouched :
    (p p' : MessagePool) (g : MessageHandle) → Stored p g → Unmoved p p' g → Untouched p p' g
unfolding msg_valid msg_ref_count payload_size props expiry_interval publish_tick
Unmoved-Untouched p p' g st m = record {
  handle = (
    m.stored.valid ∙ sym st.valid,
    rw (m.stored.valid, st.valid, m.slot) refl,
    rw (m.stored.valid, st.valid, m.slot) refl,
  );
  bytes = λ offset n.
      (read_payload-Reads p' g m.stored).copies offset n
      ∙ ap (λ bytes. take n (drop offset bytes)) m.payload
      ∙ sym ((read_payload-Reads p g st).copies offset n);
  properties = rw (m.stored.valid, st.valid, m.slot) refl;
  expiry = rw (m.stored.valid, st.valid, m.slot) refl;
  published = rw (m.stored.valid, st.valid, m.slot) refl;
}

same-Unmoved : (p : MessagePool) (g : MessageHandle) → Stored p g → Unmoved p p g
same-Unmoved p g st = record { stored = st; payload = refl; slot = refl }

module _ (p : MessagePool) (h g : MessageHandle) (bs : List ℕ) where
  -- The two messages lie in different slots, the chain of `h` through the blocks `bs` has an end, and
  -- `g` is stored in none of them.
  pub record IsSeparate : Type 0 where
    pub slots : h.slot ≢ g.slot
    pub stored : Stored p g
    pub walk : Walk p.store (slot_at p h.slot).first_block bs
    pub blocks : IsApart (slot_at p g.slot).block_count p.store (slot_at p g.slot).first_block bs

  kept_store : (s : Slot) → IsSeparate → Unmoved p (record p { slots = set p.slots h.slot s }) g
  kept_store s sep =
      other_slot-Unmoved p p.store h.slot s g bs sep.slots sep.stored
        (record { links = λ j k. refl; count = refl; size = refl; bytes = refl }) sep.blocks

  msg_acquire-Unmoved : IsSeparate → Unmoved p (msg_acquire p h).0 g
  unfolding msg_acquire
  msg_acquire-Unmoved sep =
      let s = slot_at p h.slot in
      let more = kept_store (record s { ref_count = s.ref_count + 1 }) sep in
      elim (Bool-cases (msg_valid p h)) [
        | inr stale ↦ rw (msg_acquire, stale) (same-Unmoved p g sep.stored)
        | inl live ↦ elim (Bool-cases (s.ref_count == 0xffff)) [
          | inl full ↦ rw (msg_acquire, live, full) (same-Unmoved p g sep.stored)
          | inr room ↦ rw (msg_acquire, live, room) more
        ]
      ]

  msg_release-Unmoved : IsSeparate → Unmoved p (msg_release p h) g
  unfolding msg_release
  msg_release-Unmoved sep =
      let s = slot_at p h.slot in
      let less = kept_store (record s { ref_count = s.ref_count - 1 }) sep in
      let last =
        other_slot-Unmoved p (release_chain p.store.block_count p.store s.first_block) h.slot
          (retired s) g bs sep.slots sep.stored
          (release_chain-Spares p.store.block_count p.store sep.walk) sep.blocks in
      elim (Bool-cases (msg_valid p h)) [
        | inr stale ↦ rw (msg_release, stale) (same-Unmoved p g sep.stored)
        | inl live ↦ elim (Bool-cases (s.ref_count == 0)) [
          | inl unheld ↦ rw (msg_release, live, unheld) (same-Unmoved p g sep.stored)
          | inr held ↦ elim (Bool-cases (ltb 0 (s.ref_count - 1))) [
            | inl shared ↦ rw (msg_release, live, held, shared) less
            | inr alone ↦ rw (msg_release, live, held, alone) last
          ]
        ]
      ]

  -- Taking or giving back a reference to one message, whose chain leads through distinct blocks to its
  -- end, changes nothing for another that is stored in other blocks: neither whether its handle is
  -- valid, nor its count, nor any byte of its payload, its properties and its expiry; even when it was
  -- the last reference and the blocks go back to the free list.
  pub other_messages-Untouched :
      IsSeparate → Untouched p (msg_acquire p h).0 g × Untouched p (msg_release p h) g
  other_messages-Untouched sep = (
    Unmoved-Untouched p (msg_acquire p h).0 g sep.stored (msg_acquire-Unmoved sep),
    Unmoved-Untouched p (msg_release p h) g sep.stored (msg_release-Unmoved sep),
  )
