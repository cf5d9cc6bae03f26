-- ===== src/PropertyRules/Validate.antt =====
-- `validate_properties` of libs/mqtt_broker/src/property_rules.cpp: the rules on a whole list of
-- stored properties.
use net_burner_mqtt_broker.Base.{
  ℕ, Bool, true, false, ◌&&◌, ◌||◌, not, ◌==◌, if◌then◌else◌, List, [], ◌∷◌, Option, none, some,
  take, drop,
}
use net_burner_mqtt_broker.MqttTypes.{
  PacketType, id_receive_maximum, id_topic_alias, reason_success, reason_protocol_error,
  reason_topic_alias_invalid,
}
use net_burner_mqtt_broker.Wire.{read_u16_be}
use net_burner_mqtt_broker.PropertyPool.{
  PropertyPool, PropertyHandle, PropertyRecord, PropertyValueKind, byte_value, u16_value, u32_value,
  utf8_string, binary, varint, user_property, handle_valid, records_of,
}
use net_burner_mqtt_broker.PropertyRules.{
  utf8_valid, property_allowed, single_occurrence, reject_reason, one_of,
}
use mathlib.Core.Option

pub record PropertyValidationResult : Type 0 where
  pub ok : Bool
  pub reason : ℕ

abbrev pub accepted : PropertyValidationResult
accepted = record { ok = true; reason = reason_success }

abbrev pub refused : ℕ → PropertyValidationResult
refused reason = record { ok = false; reason = reason }

-- The value's tests by its kind: the reason of the refusal, if there is one.
unfoldable pub check_value : PropertyValueKind → List ℕ → PropertyRecord → Option ℕ
check_value utf8_string blob r =
    if not (utf8_valid (some (take r.length (drop r.offset blob))))
    then some reason_protocol_error
    else none
check_value user_property blob r =
    if not (utf8_valid (some (take r.key_length (drop r.key_offset blob))))
      || not (utf8_valid (some (take r.length (drop r.offset blob))))
    then some reason_protocol_error
    else none
check_value u16_value blob r =
    let v = read_u16_be (drop r.offset blob) in
    if r.id == id_receive_maximum
    then (if v == 0 then some reason_protocol_error else none)
    else if r.id == id_topic_alias && not (v == 0)
    then some reason_topic_alias_invalid
    else none
check_value byte_value blob r = none
check_value u32_value blob r = none
check_value binary blob r = none
check_value varint blob r = none

-- One round of the loop; `seen` are the identifiers that stand in the array of that name.
unfoldable pub check_record : PacketType → List ℕ → List ℕ → PropertyRecord → Option ℕ
unfolding check_value
check_record packet blob seen r =
    if not (property_allowed packet r.id)
    then some (reject_reason packet r.id)
    else if single_occurrence r.id && one_of r.id seen
    then some reason_protocol_error
    else check_value r.kind blob r

unfoldable pub check_records :
    PacketType → List ℕ → List ℕ → List PropertyRecord → PropertyValidationResult
unfolding check_record
check_records packet blob seen [] = accepted
check_records packet blob seen (r ∷ rs) =
    let rest =
      check_records packet blob (if single_occurrence r.id then r.id ∷ seen else seen) rs in
    elim (check_record packet blob seen r) [ some reason ↦ refused reason | none ↦ rest ]

unfoldable pub validate_properties :
    PacketType → PropertyHandle → PropertyPool → PropertyValidationResult
unfolding check_records
validate_properties packet props pool =
    if not (handle_valid pool props)
    then accepted
    else check_records packet pool.blob [] (Option.get_or (records_of pool props) [])
