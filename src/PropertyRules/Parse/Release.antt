-- ===== src/PropertyRules/Parse/Release.antt =====
-- A property section that is refused: the slot that its parsing took is given back.
use net_burner_mqtt_broker.Base.{
  ℕ, zero, suc, ◌+◌, ◌≤◌, ◌<◌, ◌≡◌, refl, sym, ap, ◌∙◌, arith, Bool, true, false, List, [], ◌∷◌,
  none, some, length, set, map, length-set, get_elem?-set_self, if◌then◌else◌, ◌==◌, Option-cases,
  inl, inr, u16, drop, take,
}
use net_burner_mqtt_broker.MqttTypes.{PacketType}
use net_burner_mqtt_broker.Varint.{varint_decode}
use net_burner_mqtt_broker.PropertyPool.{
  PropertyPool, PropertySlot, PropertyHandle, null_property, blank_slot, slot_of, free_slot,
}
use net_burner_mqtt_broker.PropertyPool.{acquire_slot, release_slot, handle_valid}
use net_burner_mqtt_broker.PropertyRules.Parse.{take_properties, parse_and_validate_properties}
use mathlib.Core.Option
use net_burner_mqtt_broker.PropertyRules.Parse.Slots.{
  mark, marks, take_properties-marks, same_mark, length-map,
}

-- Which slots are taken.
abbrev pub taken_slots : PropertyPool → List Bool
taken_slots p = map (λ (s : PropertySlot). s.in_use) p.slots

taken-marks :
    (ss : List PropertySlot)
    → map (λ (s : PropertySlot). s.in_use) ss ≡ map (λ (m : Bool × ℕ). m.0) (map mark ss)
taken-marks [] = refl
taken-marks (s ∷ ss) = ap (λ r. s.in_use ∷ r) (taken-marks ss)

taken-set :
    (ss : List PropertySlot) (i : ℕ) (s : PropertySlot)
    → map (λ (s : PropertySlot). s.in_use) (set ss i s)
      ≡ set (map (λ (s : PropertySlot). s.in_use) ss) i s.in_use
taken-set [] i s = refl
taken-set (t ∷ ss) zero s = refl
taken-set (t ∷ ss) (suc i) s = ap (λ r. t.in_use ∷ r) (taken-set ss i s)

-- Taking a free slot and giving it back.
taken_back :
    (ss : List PropertySlot) (i : ℕ)
    → free_slot ss ≡ some i
    → (i < length ss)
      × (set (set (map (λ (s : PropertySlot). s.in_use) ss) i true) i false
          ≡ map (λ (s : PropertySlot). s.in_use) ss)
unfolding free_slot
taken_back [] i e = ground arith
taken_back (s ∷ ss) zero e = elim (Option-cases (free_slot ss)) [
  | inl n ↦ ground (arith, n)
  | inr (j, n) ↦ ground (arith, n)
]
taken_back (s ∷ ss) (suc i) e = elim (Option-cases (free_slot ss)) [
  | inl n ↦ absurd (ground (arith, n))
  | inr (j, n) ↦ ground (arith, n, taken_back ss i)
]

-- Releasing a valid handle marks its slot as free, and no other.
release-taken_slots :
    (p : PropertyPool) (i g : ℕ)
    → i < 65535
    → i < length p.slots
    → mark (slot_of p i) ≡ (true, g)
    → taken_slots (release_slot p (record { slot = i; generation = g }))
      ≡ set (taken_slots p) i false
unfolding release_slot
release-taken_slots p i g small inside live =
    let valid : handle_valid p (record { slot = i; generation = g }) ≡ true =
      unfold handle_valid in
      ground (arith, ap (λ (m : Bool × ℕ). m.0) live, ap (λ (m : Bool × ℕ). m.1) live) in
    let s = slot_of p i in
    let n = u16 (s.generation + 1) in
    ground (
      arith,
      valid,
      taken-set p.slots i
          (record s { in_use = false; property_count = 0; generation = if n == 0 then 1 else n }),
    )

acquired :
    (pool : PropertyPool) (i : ℕ)
    → free_slot pool.slots ≡ some i
    → i < 65535
    → acquire_slot pool ≡ (
      record pool {
        slots = set pool.slots i (record (slot_of pool i) { in_use = true; property_count = 0 });
      },
      record { slot = i; generation = (slot_of pool i).generation },
    )
unfolding acquire_slot
acquired pool i e small = rw (acquire_slot, e) (ground arith)

-- A slot that was acquired, and after it any values stored, can be given back: the slots that are
-- taken are those from before.
release-acquire :
    (pool p2 : PropertyPool) (i : ℕ)
    → free_slot pool.slots ≡ some i
    → length pool.slots ≤ 65535
    → marks p2 ≡ marks (acquire_slot pool).0
    → taken_slots (release_slot p2 (acquire_slot pool).1) ≡ taken_slots pool
release-acquire pool p2 i e small same =
    let (inside, back) = taken_back pool.slots i e in
    let claimed : PropertySlot = record (slot_of pool i) { in_use = true; property_count = 0 } in
    let p1 : PropertyPool = record pool { slots = set pool.slots i claimed } in
    let got = acquired pool i e (omega arith) in
    let same1 : marks p2 ≡ marks p1 =
      same ∙ ap (λ (a : PropertyPool × PropertyHandle). marks a.0) got in
    let many : length p2.slots ≡ length pool.slots =
      sym (length-map mark p2.slots)
      ∙ ap length same1
      ∙ length-map mark p1.slots
      ∙ length-set pool.slots i claimed in
    let live : mark (slot_of p2 i) ≡ (true, claimed.generation) =
      same_mark p2 p1 i same1
      ∙ ap (λ o. mark (Option.get_or o blank_slot))
          (get_elem?-set_self pool.slots i claimed inside) in
    ap (λ (a : PropertyPool × PropertyHandle). taken_slots (release_slot p2 a.1)) got
    ∙ release-taken_slots p2 i claimed.generation (omega arith) (omega (arith, many)) live
    ∙ ap (λ l. set l i false)
        (taken-marks p2.slots
          ∙ ap (map (λ (m : Bool × ℕ). m.0)) same1
          ∙ sym (taken-marks p1.slots)
          ∙ taken-set pool.slots i claimed)
    ∙ back

free_slot-none :
    (pool : PropertyPool) → free_slot pool.slots ≡ none → acquire_slot pool ≡ (pool, null_property)
unfolding acquire_slot
free_slot-none pool e = rw (acquire_slot, e) refl

acquired-valid :
    (pool : PropertyPool) (i : ℕ)
    → free_slot pool.slots ≡ some i
    → length pool.slots ≤ 65535
    → handle_valid (acquire_slot pool).0 (acquire_slot pool).1 ≡ true
unfolding handle_valid
acquired-valid pool i e small =
    let (inside, back) = taken_back pool.slots i e in
    let claimed : PropertySlot = record (slot_of pool i) { in_use = true; property_count = 0 } in
    ap (λ (a : PropertyPool × PropertyHandle). handle_valid a.0 a.1)
      (acquired pool i e (omega arith))
    ∙ ground
        (arith, get_elem?-set_self pool.slots i claimed inside, length-set pool.slots i claimed)

null_property-invalid : (p : PropertyPool) → handle_valid p null_property ≡ false
unfolding handle_valid
null_property-invalid p = refl

-- A property section that is refused, for whatever reason, leaves no slot taken that was free: the
-- handle is null, and the slots that are taken are those from before.
pub parse_and_validate_properties_refused :
    (packet : PacketType) (bytes : List ℕ) (pool : PropertyPool)
    → length pool.slots ≤ 65535
    → (parse_and_validate_properties packet bytes pool).2.ok ≡ false
    → ((parse_and_validate_properties packet bytes pool).1 ≡ null_property)
      × (taken_slots (parse_and_validate_properties packet bytes pool).0 ≡ taken_slots pool)
unfolding parse_and_validate_properties
parse_and_validate_properties_refused packet bytes pool small refusal =
    let d = varint_decode bytes in
    let section = take d.value (drop d.bytes_consumed bytes) in
    let (pool1, h) = acquire_slot pool in
    let run = take_properties (length section) packet pool1 h section in
    elim (Option-cases (free_slot pool.slots)) [
      | inl n ↦ ground (
        arith,
        ap (λ (a : PropertyPool × PropertyHandle). handle_valid a.0 a.1) (free_slot-none pool n)
            ∙ null_property-invalid pool,
        ap (λ (a : PropertyPool × PropertyHandle). taken_slots a.0) (free_slot-none pool n),
      )
      | inr (i, n) ↦
          let back =
            release-acquire pool run.0 i n small
              (take_properties-marks (length section) packet pool1 h section) in
          let valid = acquired-valid pool i n small in
          elim (Option-cases run.1) [
            | inl m ↦ ground (arith, m, back, valid)
            | inr (reason, m) ↦ ground (arith, m, back, valid)
          ]
    ]
