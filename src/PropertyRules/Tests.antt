-- ===== src/PropertyRules/Tests.antt =====
-- Runs of the rules on fixed inputs.
use net_burner_mqtt_broker.Base.{ℕ, ◌&&◌, ◌≡◌, refl, true, false, [], ◌∷◌, some}
use net_burner_mqtt_broker.MqttTypes.{
  id_reason_string, id_session_expiry_interval, disconnect, publish, subscribe, id_topic_alias,
  id_subscription_identifier,
}
use net_burner_mqtt_broker.PropertyRules.{
  utf8_valid, utf8_loop, continued, continuations, property_allowed, one_of, reject_reason,
  is_subscribe, single_occurrence,
}
use net_burner_mqtt_broker.PropertyPool.{
  PropertyPool, PropertyHandle, PropertyRecord, utf8_string, u32_value, handle_valid, records_of,
}
use net_burner_mqtt_broker.PropertyRules.Validate.{
  validate_properties, check_records, check_record, check_value,
}
use net_burner_mqtt_broker.PropertyRules.Repeats.{all_lawful, none_repeated, validate_properties-ok}

-- The euro sign, and the same with its last byte missing.
euro : utf8_valid (some (b'a' ∷ 0xe2 ∷ 0x82 ∷ 0xac ∷ b'z' ∷ [])) ≡ true
unfolding utf8_valid utf8_loop continued continuations
euro = refl

cut_euro : utf8_valid (some (b'a' ∷ 0xe2 ∷ 0x82 ∷ [])) ≡ false
unfolding utf8_valid utf8_loop continued continuations
cut_euro = refl

alias_on_publish : property_allowed publish id_topic_alias ≡ true
unfolding property_allowed one_of
alias_on_publish = refl

no_subscription_identifier : reject_reason subscribe id_subscription_identifier ≡ 0xa1
unfolding reject_reason is_subscribe
no_subscription_identifier = refl

-- A DISCONNECT with two Reason Strings, "a" and "b", and then one with two Session Expiry Intervals,
-- which a client may send there and must not repeat.
abbrev reason_string : ℕ → PropertyRecord
reason_string at = record {
  id = id_reason_string;
  kind = utf8_string;
  offset = at;
  length = 1;
  key_offset = 0;
  key_length = 0;
}

abbrev session_expiry : PropertyRecord
session_expiry = record {
  id = id_session_expiry_interval;
  kind = u32_value;
  offset = 0;
  length = 4;
  key_offset = 0;
  key_length = 0;
}

abbrev two_of : PropertyRecord → PropertyRecord → PropertyPool
two_of one two = record {
  slots = record { generation = 1; property_count = 2; first_record = 0; in_use = true } ∷ [];
  records = one ∷ two ∷ [];
  blob = b'a' ∷ b'b' ∷ b'c' ∷ b'd' ∷ [];
  blob_cap = 64;
  bytes_used = 4;
}

abbrev handle : PropertyHandle
handle = record { slot = 0; generation = 1 }

repeated_reason_string :
    (validate_properties disconnect handle (two_of (reason_string 0) (reason_string 1))).ok ≡ true
unfolding validate_properties handle_valid records_of check_records check_record check_value
    property_allowed one_of single_occurrence utf8_valid utf8_loop continued continuations
repeated_reason_string = refl

repeated_session_expiry :
    (validate_properties disconnect handle (two_of session_expiry session_expiry)).ok ≡ false
unfolding validate_properties handle_valid records_of check_records check_record check_value
    property_allowed one_of single_occurrence
repeated_session_expiry = refl

validate_properties-ok_example :
    (validate_properties disconnect handle (two_of session_expiry session_expiry)).ok ≡ (
      all_lawful disconnect (b'a' ∷ b'b' ∷ b'c' ∷ b'd' ∷ []) (session_expiry ∷ session_expiry ∷ [])
      && none_repeated (session_expiry ∷ session_expiry ∷ []))
unfolding handle_valid records_of
validate_properties-ok_example =
    validate_properties-ok disconnect handle (two_of session_expiry session_expiry) refl refl
