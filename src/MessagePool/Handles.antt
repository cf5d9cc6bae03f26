-- ===== src/MessagePool/Handles.antt =====
-- The life of a message handle: claimed, shared, given back, stale.
use net_burner_mqtt_broker.Base.{
  ℕ, zero, suc, ◌+◌, ◌-◌, ◌≤◌, ◌<◌, ◌≡◌, ◌≢◌, arith, ap, ◌∙◌, true, false, ◌==◌, ==_iff, Bool-cases,
}
use net_burner_mqtt_broker.Base.{
  List, [], ◌∷◌, some, length, get_elem?, set, Option-cases, inl, inr, length-set,
  get_elem?-set_self, get_elem?-set_ne, get_elem?_total, set-set, set-get_elem?,
}
use net_burner_mqtt_broker.Delivery.{MessageHandle, message_handle_valid}
use net_burner_mqtt_broker.MessagePool.{
  MessagePool, Slot, blank_slot, slot_at, claimed, retired, first_free,
}
use net_burner_mqtt_broker.MessagePool.{
  msg_valid, acquire_empty, msg_acquire, msg_release, msg_ref_count, payload_size,
}
use mathlib.Core.Option
use net_burner_mqtt_broker.MessagePool.Blocks.{BlockStore, release_chain}

slot_at-put_self :
    (ss : List Slot) (i : ℕ) (s : Slot)
    → i < length ss
    → Option.get_or (get_elem? (set ss i s) i) blank_slot ≡ s
slot_at-put_self ss i s h = ap (λ o. Option.get_or o blank_slot) (get_elem?-set_self ss i s h)

pub slot_at-put_ne :
    (ss : List Slot) (i j : ℕ) (s : Slot)
    → i ≢ j
    → Option.get_or (get_elem? (set ss i s) j) blank_slot
      ≡ Option.get_or (get_elem? ss j) blank_slot
slot_at-put_ne ss i j s h = ap (λ o. Option.get_or o blank_slot) (get_elem?-set_ne ss i j s h)

-- What a valid handle says of its slot.
record Live (p : MessagePool) (h : MessageHandle) : Type 0 where
  inside : h.slot < length p.slots
  proper : message_handle_valid h ≡ true
  used : (slot_at p h.slot).in_use ≡ true
  current : (slot_at p h.slot).generation ≡ h.generation

msg_valid-Live : (p : MessagePool) (h : MessageHandle) → msg_valid p h ≡ true → Live p h
unfolding msg_valid
msg_valid-Live p h e = ground arith

first_free-found :
    (ss : List Slot) (i : ℕ)
    → first_free ss ≡ some i
    → (i < length ss) × ((Option.get_or (get_elem? ss i) blank_slot).in_use ≡ false)
unfolding first_free
first_free-found [] i e = ground arith
first_free-found (s ∷ ss) zero e = elim (Option-cases (first_free ss)) [
  | inl n ↦ ground arith
  | inr (j, n) ↦ ground arith
]
first_free-found (s ∷ ss) (suc i) e = elim (Option-cases (first_free ss)) [
  | inl n ↦ ground arith
  | inr (j, n) ↦ ground (arith, first_free-found ss i)
]

-- A handle whose generation its slot does not have stays stale when a slot is claimed.
claimed_stale :
    (p : MessagePool) (h : MessageHandle)
    → (slot_at p h.slot).generation ≢ h.generation
    → msg_valid (acquire_empty p).0 h ≡ false
unfolding acquire_empty msg_valid
claimed_stale p h old = elim (Option-cases (first_free p.slots)) [
  | inl full ↦ rw (acquire_empty, full) (ground (arith, old))
  | inr (i, free) ↦
      let inside = (first_free-found p.slots i free).0 in
      elim (Bool-cases (i == h.slot)) [
        | inl same ↦
            let e : i ≡ h.slot = (==_iff _ _).0 same in
            rw (acquire_empty, free, e)
              (ground (
                arith,
                old,
                slot_at-put_self p.slots h.slot (claimed (slot_at p h.slot)) (rw e at inside),
              ))
        | inr other ↦
            rw (acquire_empty, free)
              (ground (
                arith,
                old,
                other,
                slot_at-put_ne p.slots i h.slot (claimed (slot_at p i))
                    (λ e. ground (arith, e, other)),
              ))
      ]
]

-- The last release marks the slot unused and makes the handle, of a 16-bit generation, stale, and every
-- copy of it: it is valid no more, and not valid again after the next `acquire_empty`, whichever slot
-- that hands out.
pub msg_release_last :
    (p : MessagePool) (h : MessageHandle)
    → msg_valid p h ≡ true
    → msg_ref_count p h ≡ 1
    → h.generation < 65536
    → let left = msg_release p h in
      ((slot_at left h.slot).in_use ≡ false)
      × (msg_valid left h ≡ false)
      × (msg_valid (acquire_empty left).0 h ≡ false)
unfolding msg_release msg_ref_count
msg_release_last p h v one word =
    let live = msg_valid-Live p h v in
    let gone = slot_at-put_self p.slots h.slot (retired (slot_at p h.slot)) live.inside in
    let left = msg_release p h in
    let at : slot_at left h.slot ≡ retired (slot_at p h.slot) = ground (arith, v, one, gone) in
    (
      ap (λ s. s.in_use) at,
      ground (arith, live, gone),
      claimed_stale left h (λ e. ground (arith, live, word, e, ap (λ s. s.generation) at)),
    )

put_back :
    (ss : List Slot) (i : ℕ) (s : Slot)
    → i < length ss
    → set (set ss i s) i (Option.get_or (get_elem? ss i) blank_slot) ≡ ss
put_back ss i s h =
    let (v, e) = get_elem?_total ss i h in
    set-set ss i s (Option.get_or (get_elem? ss i) blank_slot) ∙ rw e (set-get_elem? ss i e)

-- A reference that is taken and given back leaves the whole pool as it was.
pub msg_release-acquire :
    (p : MessagePool) (h : MessageHandle)
    → (msg_acquire p h).1 ≡ true
    → 0 < msg_ref_count p h
    → msg_release (msg_acquire p h).0 h ≡ p
unfolding msg_release msg_acquire msg_ref_count
msg_release-acquire p h e pos =
    let s = slot_at p h.slot in
    let more = record s { ref_count = s.ref_count + 1 } in
    let v : msg_valid p h ≡ true = ground arith in
    let live = msg_valid-Live p h v in
    ground (
      arith,
      live,
      length-set p.slots h.slot more,
      slot_at-put_self p.slots h.slot more live.inside,
      put_back p.slots h.slot more live.inside,
    )

-- Where a slot is free, `acquire_empty` hands out a valid handle with one reference and no payload,
-- to a slot that no valid handle named before.
pub acquire_empty-fresh :
    (p : MessagePool) {i : ℕ}
    → first_free p.slots ≡ some i
    → length p.slots ≤ 65535
    → let (p', h) = acquire_empty p in
      (msg_valid p' h ≡ true)
      × (msg_ref_count p' h ≡ 1)
      × (payload_size p' h ≡ 0)
      × (msg_valid p h ≡ false)
unfolding acquire_empty msg_valid msg_ref_count payload_size message_handle_valid
acquire_empty-fresh p {i} e small =
    let (inside, unused) = first_free-found p.slots i e in
    let c = claimed (slot_at p i) in
    ground (arith, slot_at-put_self p.slots i c inside, length-set p.slots i c)

-- Whether `g` is valid, its count and the length of its payload are the same in both pools.
abbrev pub Kept : MessagePool → MessagePool → MessageHandle → Type 0
Kept p p' g =
    (msg_valid p' g ≡ msg_valid p g)
    × (msg_ref_count p' g ≡ msg_ref_count p g)
    × (payload_size p' g ≡ payload_size p g)

pub put-Kept :
    (p : MessagePool) (store : BlockStore) (i : ℕ) (s : Slot) (g : MessageHandle)
    → i ≢ g.slot
    → Kept p (record { slots = set p.slots i s; store = store }) g
unfolding msg_valid msg_ref_count payload_size
put-Kept p store i s g apart =
    ground (arith, slot_at-put_ne p.slots i g.slot s apart, length-set p.slots i s)

-- Taking or giving back a reference to one slot changes neither the validity nor the count nor the
-- length of the payload of a handle to another.
pub other_handles-Kept :
    (p : MessagePool) (h g : MessageHandle)
    → h.slot ≢ g.slot
    → Kept p (msg_acquire p h).0 g × Kept p (msg_release p h) g
other_handles-Kept p h g apart = (acquired, released)
  where
    s : Slot
    s = slot_at p h.slot

    acquired : Kept p (msg_acquire p h).0 g
    acquired =
        unfold msg_acquire in
        ground (arith, put-Kept p p.store h.slot (record s { ref_count = s.ref_count + 1 }) g apart)

    released : Kept p (msg_release p h) g
    released =
        unfold msg_release in
        ground (
          arith,
          put-Kept p p.store h.slot (record s { ref_count = s.ref_count - 1 }) g apart,
          put-Kept p (release_chain p.store.block_count p.store s.first_block) h.slot (retired s) g
              apart,
        )

-- Below the limit of 65535 a further reference counts one more and keeps the handle valid; giving
-- one back while others are left counts one less and keeps it valid too.
pub shared_handle-counts :
    (p : MessagePool) (h : MessageHandle)
    → msg_valid p h ≡ true
    → msg_ref_count p h < 65535
    → 1 < msg_ref_count p h
    → (msg_ref_count (msg_acquire p h).0 h ≡ msg_ref_count p h + 1)
      × (msg_valid (msg_acquire p h).0 h ≡ true)
      × (msg_ref_count (msg_release p h) h + 1 ≡ msg_ref_count p h)
      × (msg_valid (msg_release p h) h ≡ true)
unfolding msg_acquire msg_release msg_ref_count
shared_handle-counts p h v low more =
    let s = slot_at p h.slot in
    let up = record s { ref_count = s.ref_count + 1 } in
    let down = record s { ref_count = s.ref_count - 1 } in
    let live = msg_valid-Live p h v in
    ground (
      arith,
      live,
      length-set p.slots h.slot up,
      length-set p.slots h.slot down,
      slot_at-put_self p.slots h.slot up live.inside,
      slot_at-put_self p.slots h.slot down live.inside,
    )

-- A reference that has been taken is counted.
pub msg_acquire_counted :
    (p : MessagePool) (h : MessageHandle)
    → (msg_acquire p h).1 ≡ true
    → msg_ref_count (msg_acquire p h).0 h ≡ msg_ref_count p h + 1
unfolding msg_acquire msg_ref_count
msg_acquire_counted p h taken =
    let s = slot_at p h.slot in
    let v : msg_valid p h ≡ true = ground arith in
    let live = msg_valid-Live p h v in
    ground (
      arith,
      v,
      live,
      slot_at-put_self p.slots h.slot (record s { ref_count = s.ref_count + 1 }) live.inside,
      length-set p.slots h.slot (record s { ref_count = s.ref_count + 1 }),
    )
