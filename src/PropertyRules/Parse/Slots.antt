-- ===== src/PropertyRules/Parse/Slots.antt =====
-- What parsing does to the slots of the pool.
use net_burner_mqtt_broker.Base.{
  ℕ, zero, suc, ◌+◌, ◌≡◌, refl, sym, ap, ◌∙◌, arith, Bool, List, [], ◌∷◌, length, set, map,
  get_elem?, Option-cases, inl, inr, u8, drop,
}
use net_burner_mqtt_broker.MqttTypes.{PacketType}
use net_burner_mqtt_broker.Varint.{varint_decode}
use net_burner_mqtt_broker.PropertyPool.{
  PropertyPool, PropertySlot, PropertyRecord, PropertyHandle, PropertyValueKind, byte_value,
  u16_value, u32_value, utf8_string, binary, varint, user_property, blank_slot, slot_of,
}
use net_burner_mqtt_broker.PropertyPool.{
  append_blob, add_record, add_value, add_byte, add_u16, add_u32, add_varint, add_utf8, add_binary,
  add_user_property,
}
use net_burner_mqtt_broker.PropertyRules.Parse.{take_value, take_property, take_properties, kind_of}
use net_burner_mqtt_broker.PropertyRules.Parse.Fuel.{Taken-cases}
use mathlib.Core.Option

-- Whether the slot is taken, and its generation.
abbrev pub mark : PropertySlot → Bool × ℕ
mark s = (s.in_use, s.generation)

abbrev pub marks : PropertyPool → List (Bool × ℕ)
marks p = map mark p.slots

map-set_same {ℓ} :
    {B : Type ℓ} (f : PropertySlot → B) (ss : List PropertySlot) (i : ℕ) (s : PropertySlot)
    → f s ≡ f (Option.get_or (get_elem? ss i) blank_slot)
    → map f (set ss i s) ≡ map f ss
map-set_same f [] i s h = refl
map-set_same f (t ∷ ss) zero s h = rw h refl
map-set_same f (t ∷ ss) (suc i) s h = ap (λ r. f t ∷ r) (map-set_same f ss i s h)

add_record-marks :
    (p : PropertyPool) (h : PropertyHandle) (r : PropertyRecord)
    → marks (add_record p h r).0 ≡ marks p
unfolding add_record
add_record-marks p h r =
    let s = slot_of p h.slot in
    ground (
      arith,
      map-set_same mark p.slots h.slot (record s { property_count = s.property_count + 1 }) refl,
    )

append_blob-slots : (p : PropertyPool) (bytes : List ℕ) → (append_blob p bytes).0.slots ≡ p.slots
unfolding append_blob
append_blob-slots p bytes = ground arith

add_value-marks :
    (p : PropertyPool) (h : PropertyHandle) (id : ℕ) (kind : PropertyValueKind) (bytes : List ℕ)
    → marks (add_value p h id kind bytes).0 ≡ marks p
unfolding add_value
add_value-marks p h id kind bytes = elim (Option-cases (append_blob p bytes).1) [
  | inl n ↦ rw (add_value, n) (ap (map mark) (append_blob-slots p bytes))
  | inr (off, n) ↦
      rw (add_value, n)
        (add_record-marks (append_blob p bytes).0 h _ ∙ ap (map mark) (append_blob-slots p bytes))
]

add_user_property-marks :
    (p : PropertyPool) (h : PropertyHandle) (key val : List ℕ)
    → marks (add_user_property p h key val).0 ≡ marks p
unfolding add_user_property
add_user_property-marks p h key val =
    let p1 = (append_blob p key).0 in
    let one = ap (map mark) (append_blob-slots p key) in
    let two = ap (map mark) (append_blob-slots p1 val) ∙ one in
    elim (Option-cases (append_blob p key).1) [
      | inl n ↦ rw (add_user_property, n) one
      | inr (k, n) ↦ elim (Option-cases (append_blob p1 val).1) [
        | inl m ↦ rw (add_user_property, n, m) two
        | inr (v, m) ↦
            rw (add_user_property, n, m) (add_record-marks (append_blob p1 val).0 h _ ∙ two)
      ]
    ]

take_value-marks :
    (kind : PropertyValueKind) (p : PropertyPool) (h : PropertyHandle) (id : ℕ) (cursor : List ℕ)
    → marks (take_value kind p h id cursor).0 ≡ marks p
unfolding take_value add_byte add_u16 add_u32 add_varint add_utf8 add_binary
take_value-marks byte_value p h id cursor = grind (arith, add_value-marks)
take_value-marks u16_value p h id cursor = grind (arith, add_value-marks)
take_value-marks u32_value p h id cursor = grind (arith, add_value-marks)
take_value-marks varint p h id cursor = grind (arith, add_value-marks)
take_value-marks utf8_string p h id cursor = grind (arith, add_value-marks)
take_value-marks binary p h id cursor = grind (arith, add_value-marks)
take_value-marks user_property p h id cursor = grind (arith, add_user_property-marks)

take_property-marks :
    (packet : PacketType) (p : PropertyPool) (h : PropertyHandle) (cursor : List ℕ)
    → marks (take_property packet p h cursor).0 ≡ marks p
unfolding take_property
take_property-marks packet p h cursor =
    let d = varint_decode cursor in
    elim (Option-cases (kind_of (u8 d.value))) [
      | inl n ↦ ground (arith, n)
      | inr (kind, n) ↦
          ground (arith, n, take_value-marks kind p h (u8 d.value) (drop d.bytes_consumed cursor))
    ]

pub take_properties-marks :
    (fuel : ℕ) (packet : PacketType) (p : PropertyPool) (h : PropertyHandle) (cursor : List ℕ)
    → marks (take_properties fuel packet p h cursor).0 ≡ marks p
unfolding take_properties
take_properties-marks fuel packet p h [] = refl
take_properties-marks zero packet p h (c ∷ cs) = refl
take_properties-marks (suc fuel) packet p h (c ∷ cs) =
    elim (Taken-cases (take_property packet p h (c ∷ cs)).1) [
      | inl (reason, e) ↦ rw (take_properties, e) (take_property-marks packet p h (c ∷ cs))
      | inr (rest, e) ↦
          rw (take_properties, e)
            (take_properties-marks fuel packet (take_property packet p h (c ∷ cs)).0 h rest
              ∙ take_property-marks packet p h (c ∷ cs))
    ]

mark_at :
    (ss : List PropertySlot) (i : ℕ)
    → Option.get_or (get_elem? (map mark ss) i) (mark blank_slot)
      ≡ mark (Option.get_or (get_elem? ss i) blank_slot)
mark_at [] i = refl
mark_at (s ∷ ss) zero = refl
mark_at (s ∷ ss) (suc i) = mark_at ss i

pub same_mark :
    (p q : PropertyPool) (i : ℕ) → marks p ≡ marks q → mark (slot_of p i) ≡ mark (slot_of q i)
same_mark p q i e =
    sym (mark_at p.slots i)
    ∙ ap (λ ms. Option.get_or (get_elem? ms i) (mark blank_slot)) e
    ∙ mark_at q.slots i

pub length-map {ℓ} :
    {B : Type ℓ} (f : PropertySlot → B) (ss : List PropertySlot) → length (map f ss) ≡ length ss
length-map f [] = refl
length-map f (s ∷ ss) = ap suc (length-map f ss)
