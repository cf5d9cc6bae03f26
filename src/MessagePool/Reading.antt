-- ===== src/MessagePool/Reading.antt =====
-- Reading a payload out of its chain of blocks in libs/mqtt_broker/src/message_pool.cpp.
use net_burner_mqtt_broker.Base.{
  ℕ, zero, suc, ◌+◌, ◌-◌, ◌*◌, ◌≤◌, ◌<◌, min, ◌≡◌, ◌≢◌, refl, sym, ap, ◌∙◌, arith, true, false,
  Bool-cases, inl, inr, ◌||◌, leb, ltb, ◌==◌, if◌then◌else◌, List, [], ◌++◌, length, take, drop,
  length-take, length-drop, take-plus, drop-plus, take-drop-take, drop-append_left,
  drop-append_right, drop_all,
}
use native.Mathlib.Nat.{mul-le-mul_left, mul_comm, suc-mul}
use net_burner_mqtt_broker.Delivery.{MessageHandle}
use net_burner_mqtt_broker.MessagePool.{MessagePool, slot_at, msg_valid}
use net_burner_mqtt_broker.MessagePool.Blocks.{BlockStore, no_block, next_of}
use net_burner_mqtt_broker.MessagePool.Payload.{read_blocks, read_payload}

-- `read` copies from `payload`: from an offset on, a number of bytes or as many as there are.
pub record Reads (read : ℕ → ℕ → List ℕ) (payload : List ℕ) : Type 0 where
  pub copies : (offset n : ℕ) → read offset n ≡ take n (drop offset payload)

-- The bytes of a block, and of `n` blocks of a chain.
abbrev block_bytes : BlockStore → ℕ → List ℕ
block_bytes s blk = take s.block_size (drop (blk * s.block_size) s.block_data)

unfoldable pub chain_bytes : ℕ → BlockStore → ℕ → List ℕ
chain_bytes zero s blk = []
chain_bytes (suc n) s blk = block_bytes s blk ++ chain_bytes n s (next_of s.blocks blk)

-- A chain of at least `n` blocks.
unfoldable pub Chain : ℕ → BlockStore → ℕ → Type 0
Chain zero s blk = Unit
Chain (suc n) s blk = (blk ≢ no_block) × (blk < s.block_count) × Chain n s (next_of s.blocks blk)

read_nothing :
    (fuel : ℕ) (s : BlockStore) (offset blk pos : ℕ) → read_blocks fuel s 0 offset blk pos ≡ []
unfolding read_blocks
read_nothing zero s offset blk pos = refl
read_nothing (suc fuel) s offset blk pos = ground arith

length-block_bytes :
    (s : BlockStore) (blk : ℕ)
    → s.block_count * s.block_size ≤ length s.block_data
    → blk < s.block_count
    → length (block_bytes s blk) ≡ s.block_size
length-block_bytes s blk h b =
    let room = mul-le-mul_left s.block_size b in
    let two = mul_comm s.block_size (suc blk) in
    let three = mul_comm s.block_size s.block_count in
    let more = suc-mul blk s.block_size in
    omega (
      arith,
      length-take s.block_size (drop (blk * s.block_size) s.block_data),
      length-drop (blk * s.block_size) s.block_data,
      room,
      two,
      three,
      more,
      h,
    )

-- The part of the block from `start` on.
block_part :
    (s : BlockStore) (blk start chunk : ℕ)
    → start + chunk ≤ s.block_size
    → take chunk (drop (blk * s.block_size + start) s.block_data)
      ≡ take chunk (drop start (block_bytes s blk))
block_part s blk start chunk h =
    let k : min (s.block_size - start) chunk ≡ chunk = omega (arith, h) in
    ap (take chunk)
      (drop-plus (blk * s.block_size + start) (blk * s.block_size) start s.block_data refl)
    ∙ sym (
        take-drop-take chunk start s.block_size (drop (blk * s.block_size) s.block_data)
        ∙ ap (λ i. take i (drop start (drop (blk * s.block_size) s.block_data))) k)

-- What a round copies out of its block, and what the rounds behind it copy.
block_and_rest :
    (s : BlockStore) (blk start chunk left : ℕ) (rest tail : List ℕ)
    → length (block_bytes s blk) ≡ s.block_size
    → start + chunk ≤ s.block_size
    → chunk ≤ left
    → tail ≡ take (left - chunk) (drop (start + chunk) (block_bytes s blk ++ rest))
    → take chunk (drop (blk * s.block_size + start) s.block_data) ++ tail
      ≡ take left (drop start (block_bytes s blk ++ rest))
block_and_rest s blk start chunk left rest tail size h k e =
    let all = block_bytes s blk ++ rest in
    let part =
      block_part s blk start chunk h
      ∙ sym (drop-append_left chunk start (block_bytes s blk) rest (omega (arith, size, h))) in
    ap (λ t. t ++ tail) part
    ∙ ap (λ t. take chunk (drop start all) ++ t)
        (e ∙ ap (take (left - chunk)) (drop-plus (start + chunk) start chunk all refl))
    ∙ sym (take-plus left chunk (left - chunk) (drop start all) (omega (arith, k)))

-- The loop copies from the chain, where the chain has as many blocks as are asked for.
pub read_blocks-Chain :
    (fuel n : ℕ) (s : BlockStore) (left offset blk pos : ℕ)
    → s.block_count * s.block_size ≤ length s.block_data
    → Chain n s blk
    → n ≤ fuel
    → pos ≤ offset
    → offset + left ≤ pos + n * s.block_size
    → read_blocks fuel s left offset blk pos ≡ take left (drop (offset - pos) (chain_bytes n s blk))
unfolding read_blocks chain_bytes Chain
read_blocks-Chain fuel n s zero offset blk pos d c f p l = read_nothing fuel s offset blk pos
read_blocks-Chain fuel zero s (suc left) offset blk pos d c f p l = absurd (ground (arith, l, p))
read_blocks-Chain zero (suc n) s (suc left) offset blk pos d c f p l = absurd (omega (arith, f))
read_blocks-Chain (suc fuel) (suc n) s (suc left) offset blk pos d c f p l =
    let bytes = block_bytes s blk in
    let rest = chain_bytes n s (next_of s.blocks blk) in
    let size = length-block_bytes s blk d (c.1) in
    let more = suc-mul n s.block_size in
    let there : (blk == no_block || leb s.block_count blk || suc left == 0) ≡ false =
      ground (arith, c.0, c.1) in
    elim (Bool-cases (leb (pos + s.block_size) offset)) [
      | inl e ↦
          rw (there, e)
            (read_blocks-Chain fuel n s (suc left) offset (next_of s.blocks blk)
                (pos + s.block_size) d c.2 (omega (arith, f)) (ground (arith, e))
                (omega (arith, l, more))
              ∙ sym (
                  ap (take (suc left)) (
                    drop-append_right (offset - pos) (offset - (pos + s.block_size)) bytes rest
                      (ground (arith, e, size)))))
      | inr e ↦
          let start = offset - pos in
          let from : (if ltb pos offset then offset - pos else 0) ≡ start = ground (arith, p) in
          let inside : start < s.block_size = ground (arith, e, p) in
          elim (Bool-cases (leb (suc left) (s.block_size - start))) [
            | inl i ↦
                let chunk : min (suc left) (s.block_size - start) ≡ suc left = ground (arith, i) in
                let none : suc left - suc left ≡ 0 = omega arith in
                rw (there, e, from, chunk, none)
                  (block_and_rest s blk start (suc left) (suc left) rest _ size
                    (ground (arith, i, inside)) (omega arith)
                    (rw none (
                      read_nothing fuel s (offset + suc left) (next_of s.blocks blk)
                        (pos + s.block_size))))
            | inr i ↦
                let n' = (s.block_size - start) in
                let chunk : min (suc left) n' ≡ n' = ground (arith, i) in
                let next = pos + s.block_size in
                rw (there, e, from, chunk)
                  (block_and_rest s blk start n' (suc left) rest _ size (omega (arith, inside))
                    (ground (arith, i))
                    (read_blocks-Chain fuel n s (suc left - n') (offset + n') (next_of s.blocks blk)
                        next d c.2 (omega (arith, f)) (ground (arith, inside, p))
                        (ground (arith, i, l, more, inside, p))
                      ∙ sym (
                          ap (take (suc left - n')) (
                            drop-append_right (start + n') (offset + n' - next) bytes rest
                              (ground (arith, size, inside, p))))))
          ]
    ]

-- The payload of the message in a slot.
unfoldable pub payload_of : MessagePool → MessageHandle → List ℕ
payload_of p h =
    let s = slot_at p h.slot in take s.payload_len (chain_bytes s.block_count p.store s.first_block)

-- The blocks of a message: as many as its length needs, in a chain, and no more than the pool has.
pub record Stored (p : MessagePool) (h : MessageHandle) : Type 0 where
  pub valid : msg_valid p h ≡ true
  pub arena : p.store.block_count * p.store.block_size ≤ length p.store.block_data
  pub chain : Chain (slot_at p h.slot).block_count p.store (slot_at p h.slot).first_block
  pub few : (slot_at p h.slot).block_count ≤ p.store.block_count
  pub room : (slot_at p h.slot).payload_len ≤ (slot_at p h.slot).block_count * p.store.block_size

read_payload_at :
    (p : MessagePool) (h : MessageHandle) (offset n : ℕ)
    → Stored p h
    → read_payload p h offset n ≡ take n (drop offset (payload_of p h))
unfolding read_payload payload_of
read_payload_at p h offset zero st = rw (read_payload, st.valid) refl
read_payload_at p h offset (suc n) st =
    let s = slot_at p h.slot in
    let bytes = chain_bytes s.block_count p.store s.first_block in
    let whole : offset - 0 ≡ offset = omega arith in
    let some_room : (suc n == 0) ≡ false = ground arith in
    elim (Bool-cases (leb s.payload_len offset)) [
      | inl e ↦
          let short = length-take s.payload_len bytes in
          rw (read_payload, st.valid, some_room, e)
            (sym (
              ap (take (suc n))
                (drop_all offset (take s.payload_len bytes) (ground (arith, e, short)))))
      | inr e ↦
          rw (read_payload, st.valid, some_room, e)
            (read_blocks-Chain p.store.block_count s.block_count p.store
                (min (s.payload_len - offset) (suc n)) offset s.first_block 0 st.arena st.chain
                st.few (omega arith) (ground (arith, e, st.room))
              ∙ ap (λ i. take (min (s.payload_len - offset) (suc n)) (drop i bytes)) whole
              ∙ sym (take-drop-take (suc n) offset s.payload_len bytes))
    ]

-- For a message stored in a chain of enough blocks, `read_payload` copies from the payload that the
-- blocks carry: from any offset on any number of bytes, or as many as there are.
pub read_payload-Reads :
    (p : MessagePool) (h : MessageHandle) → Stored p h → Reads (read_payload p h) (payload_of p h)
read_payload-Reads p h st = record { copies = λ offset n. read_payload_at p h offset n st }
