-- ===== src/PropertyRules/Parse/Fuel.antt =====
-- The loop over the properties ends: a round leaves fewer bytes.
use net_burner_mqtt_broker.Base.{
  ℕ, zero, suc, ◌+◌, ◌≤◌, ◌<◌, ◌≡◌, refl, arith, List, [], ◌∷◌, length, drop, length-drop,
  Option-cases, inl, inr, ◌⊎◌, u8,
}
use net_burner_mqtt_broker.MqttTypes.{PacketType}
use net_burner_mqtt_broker.Varint.{varint_decode}
use net_burner_mqtt_broker.Varint.Consumed.{varint_decode_consumed}
use net_burner_mqtt_broker.PropertyPool.{
  PropertyPool, PropertyHandle, PropertyValueKind, byte_value, u16_value, u32_value, utf8_string,
  binary, varint, user_property,
}
use net_burner_mqtt_broker.Wire.{read_u16_be}
use net_burner_mqtt_broker.PropertyRules.Parse.{
  Taken, stopped, left, take_value, take_property, take_properties, kind_of,
}

-- What is left is no longer than `cursor`.
abbrev NotLonger : ℕ → Taken → Type 0
NotLonger n (stopped reason) = Unit
NotLonger n (left rest) = length rest ≤ n

take_value-NotLonger :
    (kind : PropertyValueKind) (pool : PropertyPool) (h : PropertyHandle) (id : ℕ) (cursor : List ℕ)
    → NotLonger (length cursor) (take_value kind pool h id cursor).1
unfolding take_value
take_value-NotLonger byte_value pool h id cursor = ground (arith, length-drop 1 cursor)
take_value-NotLonger u16_value pool h id cursor = ground (arith, length-drop 2 cursor)
take_value-NotLonger u32_value pool h id cursor = ground (arith, length-drop 4 cursor)
take_value-NotLonger varint pool h id cursor =
    ground (arith, length-drop (varint_decode cursor).bytes_consumed cursor)
take_value-NotLonger utf8_string pool h id cursor =
    ground (arith, length-drop (2 + read_u16_be cursor) cursor)
take_value-NotLonger binary pool h id cursor =
    ground (arith, length-drop (2 + read_u16_be cursor) cursor)
take_value-NotLonger user_property pool h id cursor = ground (
  arith,
  length-drop (4 + read_u16_be cursor + read_u16_be (drop (2 + read_u16_be cursor) cursor)) cursor,
)

pub Taken-cases :
    (t : Taken) → ((reason : ℕ) × (t ≡ stopped reason)) ⊎ ((rest : List ℕ) × (t ≡ left rest))
Taken-cases (stopped reason) = inl (reason, refl)
Taken-cases (left rest) = inr (rest, refl)

-- What a round leaves is shorter.
take_property-shorter :
    (packet : PacketType) (pool : PropertyPool) (h : PropertyHandle) (cursor rest : List ℕ)
    → (take_property packet pool h cursor).1 ≡ left rest
    → length rest < length cursor
unfolding take_property
take_property-shorter packet pool h cursor rest e =
    let d = varint_decode cursor in
    elim (Option-cases (kind_of (u8 d.value))) [
      | inl n ↦ absurd (ground (arith, n))
      | inr (kind, n) ↦ ground (
        arith,
        n,
        varint_decode_consumed cursor,
        length-drop d.bytes_consumed cursor,
        take_value-NotLonger kind pool h (u8 d.value) (drop d.bytes_consumed cursor),
      )
    ]

-- The fuel that the code is given is enough: more changes nothing.
pub take_properties_enough :
    (a b : ℕ) (packet : PacketType) (pool : PropertyPool) (h : PropertyHandle) (cursor : List ℕ)
    → length cursor ≤ a
    → length cursor ≤ b
    → take_properties a packet pool h cursor ≡ take_properties b packet pool h cursor
unfolding take_properties
take_properties_enough a b packet pool h [] p q = refl
take_properties_enough zero b packet pool h (c ∷ cs) p q = absurd (omega arith)
take_properties_enough (suc a) zero packet pool h (c ∷ cs) p q = absurd (omega arith)
take_properties_enough (suc a) (suc b) packet pool h (c ∷ cs) p q =
    elim (Taken-cases (take_property packet pool h (c ∷ cs)).1) [
      | inl (reason, e) ↦ rw (take_properties, e) refl
      | inr (rest, e) ↦
          let fewer = take_property-shorter packet pool h (c ∷ cs) rest e in
          rw (take_properties, e)
            (take_properties_enough a b packet (take_property packet pool h (c ∷ cs)).0 h rest
              (omega arith) (omega arith))
    ]
