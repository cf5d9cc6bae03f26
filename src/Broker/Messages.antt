-- ===== src/Broker/Messages.antt =====
-- Message expiry and metadata in libs/mqtt_broker/src/broker.cpp.
use net_burner_mqtt_broker.Base.{
  ℕ, ◌-◌, Bool, true, false, not, leb, ltb, ◌==◌, if◌then◌else◌, some, sub32,
}
use net_burner_mqtt_broker.Delivery.{MessageHandle}
use net_burner_mqtt_broker.MessagePool.{
  MessagePool, message_props_capacity, msg_valid, set_props, set_expiry, expiry_interval,
  publish_tick,
}
use net_burner_mqtt_broker.PropertyPool.{PropertyHandle}
use net_burner_mqtt_broker.Encode.{serialize_forward_properties}
use net_burner_mqtt_broker.Topic.{is_empty}
use net_burner_mqtt_broker.Broker.{Broker}

-- `current_tick_ - publish_tick`, in 32 bits.
abbrev pub elapsed : ℕ → ℕ → ℕ
elapsed now since = sub32 now since

-- What `message_expiry_state` stores in `*remaining` for an interval that is not 0.
unfoldable pub remaining_expiry : ℕ → ℕ → ℕ → ℕ
remaining_expiry interval now since =
    if leb interval (elapsed now since) then 1 else interval - elapsed now since

module _ {W : Type 0} where
  unfoldable pub attach_publish_metadata : Broker W → MessageHandle → PropertyHandle → ℕ → Broker W
  unfolding is_empty
  attach_publish_metadata b msg handle tick =
      let (bytes, expiry) =
        serialize_forward_properties b.prop_pool handle message_props_capacity in
      let pool1 : MessagePool =
        if is_empty bytes then b.msg_pool else (set_props b.msg_pool msg (some bytes)).0 in
      let pool2 : MessagePool = if ltb 0 expiry then set_expiry pool1 msg expiry tick else pool1 in
      if not (msg_valid b.msg_pool msg) then b else record b { msg_pool = pool2 }

  unfoldable pub message_expired : Broker W → MessageHandle → Bool
  message_expired b msg =
      let interval = expiry_interval b.msg_pool msg in
      if interval == 0
      then false
      else leb interval (elapsed b.current_tick (publish_tick b.msg_pool msg))

  -- `*has_expiry` and `*remaining`.
  unfoldable pub message_expiry_state : Broker W → MessageHandle → Bool × ℕ
  unfolding remaining_expiry
  message_expiry_state b msg =
      let interval = expiry_interval b.msg_pool msg in
      if ltb 0 interval
      then (true, remaining_expiry interval b.current_tick (publish_tick b.msg_pool msg))
      else (false, 0)
