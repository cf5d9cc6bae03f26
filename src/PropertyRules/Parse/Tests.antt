-- ===== src/PropertyRules/Parse/Tests.antt =====
-- The theorems on property sections at concrete inputs.
use net_burner_mqtt_broker.Base.{◌≡◌, refl, arith, [], ◌∷◌}
use net_burner_mqtt_broker.MqttTypes.{publish}
use net_burner_mqtt_broker.Varint.{varint_decode}
use net_burner_mqtt_broker.PropertyPool.{
  PropertyPool, PropertyHandle, blank_slot, null_property, acquire_slot, handle_valid, free_slot,
}
use net_burner_mqtt_broker.PropertyRules.Parse.{take_properties, parse_and_validate_properties}
use net_burner_mqtt_broker.PropertyRules.{property_allowed}
use net_burner_mqtt_broker.PropertyRules.Parse.Fuel.{take_properties_enough}
use net_burner_mqtt_broker.PropertyRules.Parse.Release.{
  taken_slots, parse_and_validate_properties_refused,
}

abbrev two_slots : PropertyPool
two_slots = record {
  slots = blank_slot ∷ blank_slot ∷ [];
  records = [];
  blob = [];
  blob_cap = 64;
  bytes_used = 0;
}

abbrev handle : PropertyHandle
handle = record { slot = 0; generation = 1 }

-- A Topic Alias, with more rounds than it has bytes.
take_properties_enough_example :
    take_properties 3 publish two_slots handle (0x23 ∷ 0 ∷ 5 ∷ [])
    ≡ take_properties 9 publish two_slots handle (0x23 ∷ 0 ∷ 5 ∷ [])
take_properties_enough_example =
    take_properties_enough 3 9 publish two_slots handle (0x23 ∷ 0 ∷ 5 ∷ []) (omega arith)
      (omega arith)

-- A property that does not exist.
parse_and_validate_properties_refused_example :
    ((parse_and_validate_properties publish (1 ∷ 0x7f ∷ []) two_slots).1 ≡ null_property)
    × (taken_slots (parse_and_validate_properties publish (1 ∷ 0x7f ∷ []) two_slots).0
        ≡ taken_slots two_slots)
unfolding parse_and_validate_properties varint_decode acquire_slot free_slot handle_valid
    take_properties property_allowed
parse_and_validate_properties_refused_example =
    parse_and_validate_properties_refused publish (1 ∷ 0x7f ∷ []) two_slots (omega arith) refl
