-- ===== src/Subscription/Options.antt =====
-- The Subscription Options byte: which bytes are accepted, field by field.
use net_burner_mqtt_broker.Base.{
  ℕ, ◌+◌, ◌*◌, ◌<◌, ◌≡◌, refl, arith, ◌&&◌, leb, ◌==◌, table, if◌then◌else◌,
}
use net_burner_mqtt_broker.Base.{table_sound}
use net_burner_mqtt_broker.Subscription.{SubscriptionOptions, subscription_options_valid}

-- The byte that carries the fields, from bit 0 up: two bits of QoS, No Local, Retain As Published,
-- two bits of Retain Handling, two reserved bits.
unfoldable pub options_byte : SubscriptionOptions → ℕ
options_byte o =
    o.max_qos
    + 4 * o.no_local
    + 8 * o.retain_as_published
    + 16 * o.retain_handling
    + 64 * o.reserved

-- The widths of the bit fields.
pub record InWidth (o : SubscriptionOptions) : Type 0 where
  pub qos : o.max_qos < 4
  pub local : o.no_local < 2
  pub rap : o.retain_as_published < 2
  pub handling : o.retain_handling < 4
  pub rest : o.reserved < 4

accepted : ℕ → ℕ
unfolding subscription_options_valid
accepted b = if subscription_options_valid b then 1 else 0

accepted-below : (b : ℕ) → b < 256 → accepted b ≡ (if leb 48 b then 0 else 1)
unfolding table accepted
accepted-below = table_sound 256 _ _ refl

-- A byte is accepted exactly when its reserved bits are 0 and its Retain Handling is at most 2,
-- whatever QoS, No Local and Retain As Published say.
pub subscription_options_valid-fields :
    (o : SubscriptionOptions)
    → InWidth o
    → subscription_options_valid (options_byte o) ≡ (o.reserved == 0 && leb o.retain_handling 2)
unfolding options_byte
subscription_options_valid-fields o w = ground (arith, shown, accepted-below (options_byte o))
  where
    shown :
        accepted (options_byte o) ≡ (if subscription_options_valid (options_byte o) then 1 else 0)
    shown = unfold accepted in refl
