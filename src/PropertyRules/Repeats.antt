-- ===== src/PropertyRules/Repeats.antt =====
-- What `validate_properties` of libs/mqtt_broker/src/property_rules.cpp lets through: its loop, with the
-- array of the identifiers seen so far, against rules on the list of properties as a whole.
use net_burner_mqtt_broker.Base.{
  ℕ, ◌≡◌, refl, arith, ap, ◌∙◌, Bool, true, false, ◌&&◌, ◌||◌, not, ◌==◌, ==_iff, if◌then◌else◌,
  List, [], ◌∷◌, Option, none, some, Bool-cases, Option-cases, inl, inr,
}
use net_burner_mqtt_broker.MqttTypes.{PacketType, id_user_property, id_reason_string}
use net_burner_mqtt_broker.PropertyPool.{
  PropertyPool, PropertyHandle, PropertyRecord, handle_valid, records_of,
}
use net_burner_mqtt_broker.PropertyRules.{property_allowed, single_occurrence, one_of}
use net_burner_mqtt_broker.PropertyRules.Once.{single_occurrence-property_allowed}
use net_burner_mqtt_broker.PropertyRules.Validate.{
  check_value, check_record, check_records, validate_properties,
}

-- The properties that may stand more than once.
abbrev pub may_repeat : ℕ → Bool
may_repeat id = id == id_user_property || id == id_reason_string

abbrev passes : Option ℕ → Bool
passes none = true
passes (some reason) = false

-- The packet may carry the property, and its value is legal.
abbrev lawful : PacketType → List ℕ → PropertyRecord → Bool
lawful packet blob r = property_allowed packet r.id && passes (check_value r.kind blob r)

unfoldable pub all_lawful : PacketType → List ℕ → List PropertyRecord → Bool
all_lawful packet blob [] = true
all_lawful packet blob (r ∷ rs) = lawful packet blob r && all_lawful packet blob rs

unfoldable pub stands_in : ℕ → List PropertyRecord → Bool
stands_in id [] = false
stands_in id (r ∷ rs) = r.id == id || stands_in id rs

-- No property stands twice but those that may.
unfoldable pub none_repeated : List PropertyRecord → Bool
unfolding stands_in
none_repeated [] = true
none_repeated (r ∷ rs) = (may_repeat r.id || not (stands_in r.id rs)) && none_repeated rs

-- None of the properties has been seen but those that may stand more than once.
unfoldable unseen : List ℕ → List PropertyRecord → Bool
unseen seen [] = true
unseen seen (r ∷ rs) = (may_repeat r.id || not (one_of r.id seen)) && unseen seen rs

unseen-none : (rs : List PropertyRecord) → unseen [] rs ≡ true
unfolding unseen one_of
unseen-none [] = refl
unseen-none (r ∷ rs) = ground (arith, unseen-none rs)

unseen-step :
    (x : ℕ) (seen : List ℕ) (rs : List PropertyRecord)
    → may_repeat x ≡ false
    → unseen (x ∷ seen) rs ≡ (unseen seen rs && not (stands_in x rs))
unfolding unseen stands_in one_of
unseen-step x seen [] h = refl
unseen-step x seen (r ∷ rs) h = elim (Bool-cases (r.id == x)) [
  | inl same ↦
      let e : r.id ≡ x = (==_iff _ _).0 same in
      let once : may_repeat r.id ≡ false = rw e h in
      ground (arith, same, once, unseen-step x seen rs h)
  | inr other ↦ ground (arith, other, unseen-step x seen rs h)
]

check_record-passes :
    (packet : PacketType) (blob seen : List ℕ) (r : PropertyRecord)
    → passes (check_record packet blob seen r)
      ≡ (lawful packet blob r && (may_repeat r.id || not (one_of r.id seen)))
unfolding check_record
check_record-passes packet blob seen r = elim (Bool-cases (property_allowed packet r.id)) [
  | inr e ↦ rw (check_record, e) refl
  | inl e ↦
      let once = single_occurrence-property_allowed packet r.id e in
      elim (Bool-cases (may_repeat r.id)) [
        | inl often ↦
            let free : single_occurrence r.id ≡ false = once ∙ ap not often in
            rw (check_record, e, free, often) (ground arith)
        | inr not_often ↦
            let bound : single_occurrence r.id ≡ true = once ∙ ap not not_often in
            elim (Bool-cases (one_of r.id seen)) [
              | inl s ↦ rw (check_record, e, bound, not_often, s) (ground arith)
              | inr s ↦ rw (check_record, e, bound, not_often, s) (ground arith)
            ]
      ]
]

check_records-step :
    (packet : PacketType) (blob seen : List ℕ) (r : PropertyRecord) (rs : List PropertyRecord)
    → (check_records packet blob seen (r ∷ rs)).ok ≡ (
        passes (check_record packet blob seen r)
        && (check_records packet blob (if single_occurrence r.id then r.id ∷ seen else seen) rs).ok)
unfolding check_records
check_records-step packet blob seen r rs = elim (Option-cases (check_record packet blob seen r)) [
  | inl e ↦ rw (check_records, e) refl
  | inr (reason, e) ↦ rw (check_records, e) refl
]

check_records-ok :
    (packet : PacketType) (blob seen : List ℕ) (rs : List PropertyRecord)
    → (check_records packet blob seen rs).ok
      ≡ (all_lawful packet blob rs && unseen seen rs && none_repeated rs)
unfolding check_records all_lawful unseen none_repeated
check_records-ok packet blob seen [] = refl
check_records-ok packet blob seen (r ∷ rs) =
    let step = check_records-step packet blob seen r rs in
    let test = check_record-passes packet blob seen r in
    elim (Bool-cases (property_allowed packet r.id)) [
      | inr e ↦ step ∙ rw (test, e) refl
      | inl e ↦
          let once = single_occurrence-property_allowed packet r.id e in
          elim (Bool-cases (may_repeat r.id)) [
            | inl often ↦
                let free : single_occurrence r.id ≡ false = once ∙ ap not often in
                let below = check_records-ok packet blob seen rs in
                step ∙ rw (test, e, free, often, below) (ground arith)
            | inr not_often ↦
                let bound : single_occurrence r.id ≡ true = once ∙ ap not not_often in
                let below = check_records-ok packet blob (r.id ∷ seen) rs in
                let split = unseen-step r.id seen rs not_often in
                step ∙ rw (test, e, bound, not_often, below, split) (ground arith)
          ]
    ]

-- `validate_properties` lets a list of stored properties through exactly if the packet may carry each,
-- each value is legal, and no property stands twice but User Property and Reason String, which may
-- stand any number of times.
pub validate_properties-ok :
    (packet : PacketType) (props : PropertyHandle) (pool : PropertyPool) {rs : List PropertyRecord}
    → handle_valid pool props ≡ true
    → records_of pool props ≡ some rs
    → (validate_properties packet props pool).ok
      ≡ (all_lawful packet pool.blob rs && none_repeated rs)
unfolding validate_properties
validate_properties-ok packet props pool {rs} valid stored =
    rw (validate_properties, valid, stored, check_records-ok packet pool.blob [] rs, unseen-none rs)
      (ground arith)
