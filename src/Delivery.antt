-- ===== src/Delivery.antt =====
-- Handles and queued deliveries: libs/mqtt_broker/include/mqtt_broker/types.hpp, the TopicHandle of
-- topic_intern.hpp and pending_delivery.hpp. Fields hold words; the code keeps each in its width.
use net_burner_mqtt_broker.Base.{ℕ, Bool, ◌||◌, ◌&&◌, not, ◌==◌}

-- A slot of the message pool with the generation at which it was handed out.
pub record MessageHandle : Type 0 where
  pub slot : ℕ
  pub generation : ℕ

abbrev pub null_message : MessageHandle
null_message = record { slot = 0xffff; generation = 0xffff }

unfoldable pub message_handle_valid : MessageHandle → Bool
message_handle_valid h = not (h.slot == 0xffff) || not (h.generation == 0xffff)

unfoldable pub message_handle_equal : MessageHandle → MessageHandle → Bool
message_handle_equal a b = a.slot == b.slot && a.generation == b.generation

pub record TopicHandle : Type 0 where
  pub slot : ℕ
  pub generation : ℕ

abbrev pub null_topic : TopicHandle
null_topic = record { slot = 0xffff; generation = 0xffff }

pub record PendingDelivery : Type 0 where
  pub message : MessageHandle
  pub topic : TopicHandle
  pub packet_id : ℕ
  pub encoded_offset : ℕ
  pub encoded_total_size : ℕ
  pub delivery_qos : ℕ
  pub retain_flag : Bool
  pub dup_flag : Bool
