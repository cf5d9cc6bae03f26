-- ===== src/Parser/Sections.antt =====
-- A property section of no properties, as `parse_and_validate_properties` of
-- libs/mqtt_broker/src/property_rules.cpp answers it.
use net_burner_mqtt_broker.Base.{
  ℕ, ◌≤◌, ◌<◌, ◌≡◌, refl, true, leb, arith, List, [], ◌∷◌, length, some,
}
use net_burner_mqtt_broker.MqttTypes.{PacketType}
use net_burner_mqtt_broker.Varint.{varint_decode}
use net_burner_mqtt_broker.Base.{
  Bool-cases, ◌*◌, length-set, get_elem?-set_self, Option-cases, inl, inr, u16,
}
use net_burner_mqtt_broker.PropertyPool.{
  PropertyPool, PropertySlot, PropertyHandle, acquire_slot, handle_valid, free_slot, slot_of,
  records_of,
}
use net_burner_mqtt_broker.PropertyRules.Validate.{validate_properties, accepted}
use net_burner_mqtt_broker.PropertyRules.Parse.{parse_and_validate_properties}

free_slot_bound : (ss : List PropertySlot) (i : ℕ) → free_slot ss ≡ some i → i < length ss
unfolding free_slot
free_slot_bound [] i e = ground arith
free_slot_bound (s ∷ ss) i e = elim (Option-cases (free_slot ss)) [
  | inl n ↦ ground (arith, n)
  | inr (j, n) ↦ ground (arith, n, free_slot_bound ss j n)
]

-- The handle of a new slot stands for that slot, which has no property yet.
acquire_slot-empty :
    (pool : PropertyPool) (i : ℕ)
    → free_slot pool.slots ≡ some i
    → length pool.slots ≤ 65535
    → let (pool', h) = acquire_slot pool in
      (handle_valid pool' h ≡ true) × ((slot_of pool' h.slot).property_count ≡ 0)
unfolding acquire_slot handle_valid
acquire_slot-empty pool i e l =
    let b = free_slot_bound pool.slots i e in
    let w : u16 i ≡ i = ground (arith, b, l) in
    rw (acquire_slot, e, w, get_elem?-set_self pool.slots i _ b, length-set pool.slots i)
      (ground (arith, b, l))

no_properties-accepted :
    (type : PacketType) (h : PropertyHandle) (pool : PropertyPool)
    → handle_valid pool h ≡ true
    → (slot_of pool h.slot).property_count ≡ 0
    → validate_properties type h pool ≡ accepted
unfolding validate_properties records_of
no_properties-accepted type h pool v c =
    elim (Bool-cases (leb (length pool.records) (h.slot * 16))) [
      | inl e ↦ rw (v, e) refl
      | inr e ↦ rw (v, e, c) refl
    ]

pub empty_section-parsed :
    (type : PacketType) (pool : PropertyPool) (i : ℕ)
    → free_slot pool.slots ≡ some i
    → length pool.slots ≤ 65535
    → parse_and_validate_properties type (0 ∷ []) pool
      ≡ ((acquire_slot pool).0, (acquire_slot pool).1, accepted)
unfolding parse_and_validate_properties varint_decode
empty_section-parsed type pool i e l =
    let (v, c) = acquire_slot-empty pool i e l in
    rw (v, no_properties-accepted type (acquire_slot pool).1 (acquire_slot pool).0 v c) refl
