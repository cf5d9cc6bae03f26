-- ===== src/PropertyRules/Once.antt =====
-- Which of the properties that a packet may carry are checked for being there once only.
use net_burner_mqtt_broker.Base.{ℕ, ◌≡◌, arith, true, ◌||◌, not, ◌==◌}
use net_burner_mqtt_broker.MqttTypes.{
  PacketType, connect, publish, subscribe, connack, puback, pubrec, pubrel, pubcomp, disconnect,
  id_user_property, id_reason_string,
}
use net_burner_mqtt_broker.PropertyRules.{property_allowed, single_occurrence, one_of}

-- Of the properties that a packet of any type may carry, all but User Property and Reason String are
-- checked for being there once only; a repeated Reason String is let through.
pub single_occurrence-property_allowed :
    (packet : PacketType) (id : ℕ)
    → property_allowed packet id ≡ true
    → single_occurrence id ≡ not (id == id_user_property || id == id_reason_string)
unfolding property_allowed single_occurrence one_of
single_occurrence-property_allowed connect id h = ground arith
single_occurrence-property_allowed publish id h = ground arith
single_occurrence-property_allowed subscribe id h = ground arith
single_occurrence-property_allowed connack id h = ground arith
single_occurrence-property_allowed puback id h = ground arith
single_occurrence-property_allowed pubrec id h = ground arith
single_occurrence-property_allowed pubrel id h = ground arith
single_occurrence-property_allowed pubcomp id h = ground arith
single_occurrence-property_allowed disconnect id h = ground arith
single_occurrence-property_allowed _ id h = cc
