-- ===== src/PropertyPool/Exhaustion.antt =====
-- The byte arena of the property pool over a sequence of calls.
use net_burner_mqtt_broker.Base.{
  ℕ, ◌+◌, ◌≤◌, ◌≡◌, refl, arith, false, List, ◌∷◌, Option-cases, inl, inr,
}
use net_burner_mqtt_broker.PropertyPool.{
  PropertyPool, PropertyHandle, PropertyRecord, PropertyValueKind, acquire_slot, release_slot,
  append_blob, add_record, add_value, add_user_property, free_slot,
}

-- The arena is not overfull, and a value's length cannot carry the 32-bit sum over.
pub record Bounded (p : PropertyPool) : Type 0 where
  pub used : p.bytes_used ≤ p.blob_cap
  pub word : p.blob_cap + 65536 ≤ 4294967296

record Grown (p q : PropertyPool) : Type 0 where
  cap : q.blob_cap ≡ p.blob_cap
  more : p.bytes_used ≤ q.bytes_used
  used : q.bytes_used ≤ q.blob_cap

Grown-Bounded : (p q : PropertyPool) → Bounded p → Grown p q → Bounded q
Grown-Bounded p q b g = record { used = g.used; word = omega (arith, g.cap, b.word) }

Grown-trans : (p q r : PropertyPool) → Grown p q → Grown q r → Grown p r
Grown-trans p q r g h = record {
  cap = omega (arith, g.cap, h.cap);
  more = omega (arith, g.more, h.more);
  used = h.used;
}

append_blob-Grown :
    (p : PropertyPool) (bytes : List ℕ) → Bounded p → Grown p (append_blob p bytes).0
unfolding append_blob
append_blob-Grown p bytes b = ground (arith, b)

add_record-Grown :
    (p : PropertyPool) (h : PropertyHandle) (r : PropertyRecord)
    → Bounded p
    → Grown p (add_record p h r).0
unfolding add_record
add_record-Grown p h r b = ground (arith, b)

add_value-Grown :
    (p : PropertyPool) (h : PropertyHandle) (id : ℕ) (kind : PropertyValueKind) (bytes : List ℕ)
    → Bounded p
    → Grown p (add_value p h id kind bytes).0
unfolding add_value
add_value-Grown p h id kind bytes b =
    let g = append_blob-Grown p bytes b in
    elim (Option-cases (append_blob p bytes).1) [
      | inl n ↦ rw (add_value, n) g
      | inr (off, n) ↦
          rw (add_value, n)
            (Grown-trans p (append_blob p bytes).0 _ g (
              add_record-Grown (append_blob p bytes).0 h _
                (Grown-Bounded p (append_blob p bytes).0 b g)))
    ]

release_slot-Grown :
    (p : PropertyPool) (h : PropertyHandle) → Bounded p → Grown p (release_slot p h)
unfolding release_slot
release_slot-Grown p h b = ground (arith, b)

acquire_slot-Grown : (p : PropertyPool) → Bounded p → Grown p (acquire_slot p).0
unfolding acquire_slot
acquire_slot-Grown p b = elim (Option-cases (free_slot p.slots)) [
  | inl n ↦ ground (arith, b, n)
  | inr (i, n) ↦ ground (arith, b, n)
]

add_user_property-Grown :
    (p : PropertyPool) (h : PropertyHandle) (key val : List ℕ)
    → Bounded p
    → Grown p (add_user_property p h key val).0
unfolding add_user_property
add_user_property-Grown p h key val b =
    let p1 = (append_blob p key).0 in
    let p2 = (append_blob p1 val).0 in
    let g = append_blob-Grown p key b in
    let g' = Grown-trans p p1 p2 g (append_blob-Grown p1 val (Grown-Bounded p p1 b g)) in
    elim (Option-cases (append_blob p key).1) [
      | inl n ↦ rw (add_user_property, n) g
      | inr (k, n) ↦ elim (Option-cases (append_blob p1 val).1) [
        | inl m ↦ rw (add_user_property, n, m) g'
        | inr (v, m) ↦
            rw (add_user_property, n, m)
              (Grown-trans p p2 _ g' (add_record-Grown p2 h _ (Grown-Bounded p p2 b g')))
      ]
    ]

-- The pools that calls of the class lead to from `p`.
pub data Later (p : PropertyPool) : PropertyPool → Type 0 where
  now : Later p p
  acquired : {q : PropertyPool} → Later p q → Later p (acquire_slot q).0
  released : {q : PropertyPool} (h : PropertyHandle) → Later p q → Later p (release_slot q h)
  added :
      {q : PropertyPool} (h : PropertyHandle) (id : ℕ) (kind : PropertyValueKind) (bytes : List ℕ)
      → Later p q
      → Later p (add_value q h id kind bytes).0
  paired :
      {q : PropertyPool} (h : PropertyHandle) (key val : List ℕ)
      → Later p q
      → Later p (add_user_property q h key val).0

Later-Grown : {p q : PropertyPool} → Bounded p → Later p q → Grown p q
Later-Grown b now = record { cap = refl; more = omega arith; used = b.used }
Later-Grown {p} b (acquired {q} l) =
    let g = Later-Grown b l in
    Grown-trans p q (acquire_slot q).0 g (acquire_slot-Grown q (Grown-Bounded p q b g))
Later-Grown {p} b (released {q} h l) =
    let g = Later-Grown b l in
    Grown-trans p q (release_slot q h) g (release_slot-Grown q h (Grown-Bounded p q b g))
Later-Grown {p} b (added {q} h id kind bytes l) =
    let g = Later-Grown b l in
    Grown-trans p q _ g (add_value-Grown q h id kind bytes (Grown-Bounded p q b g))
Later-Grown {p} b (paired {q} h key val l) =
    let g = Later-Grown b l in
    Grown-trans p q _ g (add_user_property-Grown q h key val (Grown-Bounded p q b g))

-- Once the arena is full it stays full: whatever slots are released and acquired, no value that has
-- a byte is ever stored again.
pub add_value_exhausted :
    {p q : PropertyPool} (h : PropertyHandle) (id : ℕ) (kind : PropertyValueKind) (byte : ℕ)
    (bytes : List ℕ)
    → Bounded p
    → p.bytes_used ≡ p.blob_cap
    → Later p q
    → add_value q h id kind (byte ∷ bytes) ≡ (q, false)
unfolding add_value append_blob
add_value_exhausted {p} {q} h id kind byte bytes b full l =
    let g = Later-Grown b l in ground (arith, b, g)
