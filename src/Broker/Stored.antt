-- ===== src/Broker/Stored.antt =====
-- Messages kept for later in libs/mqtt_broker/src/broker.cpp: the offline queue of a session that
-- resumes, and the retained messages.
use net_burner_mqtt_broker.Base.{
  ℕ, zero, suc, ◌+◌, true, false, ◌||◌, not, leb, ◌==◌, if◌then◌else◌, List, none, some, set,
  bit_and,
}
use net_burner_mqtt_broker.Delivery.{TopicHandle}
use net_burner_mqtt_broker.MessagePool.{payload_size}
use net_burner_mqtt_broker.Topic.{topic_matches_filter, is_empty}
use net_burner_mqtt_broker.Retained
use net_burner_mqtt_broker.Retained.{remove_retained}
use net_burner_mqtt_broker.Queue.Offline
use net_burner_mqtt_broker.Broker.Limits.{max_tcp_clients, max_retained_entries}
use net_burner_mqtt_broker.Broker.Metrics.{expired}
use net_burner_mqtt_broker.Broker.{Broker, SessionHandle, is_connected, topic_pointer}
use net_burner_mqtt_broker.Broker.State.{
  session_at, offline_at, drop_delivery, counted, session_record, deref,
}
use net_burner_mqtt_broker.Broker.Sessions.{Router}
use net_burner_mqtt_broker.Broker.Messages.{message_expired}
use net_burner_mqtt_broker.Broker.Enqueue.{enqueue_delivery, within_qos}
use net_burner_mqtt_broker.Broker.Routing.{retain_handling_of}
use mathlib.Core.Option

module _ {W : Type 0} where
  abbrev pop_offline : Broker W → ℕ → Broker W
  pop_offline b i = record b {
    offline_queues = set b.offline_queues i (Offline.pop (offline_at b i)).0;
  }

  -- The loop of `flush_offline_queue`. Each round but the last takes a delivery out.
  unfoldable pub flush_loop : Router W → ℕ → Broker W → ℕ → SessionHandle → Broker W
  flush_loop route zero b id session = b
  flush_loop route (suc fuel) b id session = elim (Offline.peek (offline_at b session.slot)) [
    | none ↦ b
    | some pd ↦ elim (message_expired b pd.message) [
      | true ↦
          let b1 = drop_delivery (counted expired b) pd in
          flush_loop route fuel (pop_offline b1 session.slot) id session
      | false ↦
          let (b1, queued) =
            enqueue_delivery route b id session (topic_pointer b.topic_intern pd.topic) pd.message
              (payload_size b.msg_pool pd.message) pd.delivery_qos pd.retain_flag in
          elim queued [
            | false ↦ b1
            | true ↦ flush_loop route fuel (pop_offline b1 session.slot) id session
          ]
    ]
  ]

  unfoldable pub flush_offline_queue : Router W → Broker W → ℕ → SessionHandle → Broker W
  unfolding flush_loop
  flush_offline_queue route b id session =
      if leb max_tcp_clients session.slot
      then b
      else flush_loop route (suc (offline_at b session.slot).count) b id session

  -- The body of the loops over the retained messages: an expired one is removed.
  unfoldable pub remove_expired : Broker W → TopicHandle → Broker W
  remove_expired b th =
      let (store, pool, topics) = remove_retained b.retained th b.msg_pool (some b.topic_intern) in
      counted expired (record b {
        retained = store;
        msg_pool = pool;
        topic_intern = Option.get_or topics b.topic_intern;
      })

  -- One round of `deliver_retained_for_filter`, for the entry at `k`.
  unfoldable pub deliver_retained_at :
      Router W → Broker W → ℕ → SessionHandle → List ℕ → ℕ → ℕ → Broker W
  unfolding remove_expired is_empty
  deliver_retained_at route b id session filter options_byte k =
      elim (Retained.stored_at b.retained k) [
        | none ↦ b
        | some stored ↦
            let (th, msg) = stored in
            let pointer = topic_pointer b.topic_intern th in
            if is_empty (deref b pointer)
              || not (topic_matches_filter (some (deref b pointer)) (some filter))
            then b
            else if message_expired b msg
            then remove_expired b th
            else (enqueue_delivery route b id session pointer msg (payload_size b.msg_pool msg)
                (within_qos (bit_and options_byte 0x03)) true).0
      ]

  unfoldable pub deliver_retained_from :
      ℕ → Router W → Broker W → ℕ → SessionHandle → List ℕ → ℕ → ℕ → Broker W
  unfolding deliver_retained_at
  deliver_retained_from zero route b id session filter options_byte k = b
  deliver_retained_from (suc left) route b id session filter options_byte k =
      deliver_retained_from left route
        (deliver_retained_at route b id session filter options_byte k) id session filter
        options_byte (k + 1)

  -- With a filter that is not null.
  unfoldable pub deliver_retained_for_filter :
      Router W → Broker W → ℕ → SessionHandle → List ℕ → ℕ → Broker W
  unfolding deliver_retained_from
  deliver_retained_for_filter route b id session filter options_byte =
      elim (session_record b session) [
        | none ↦ b
        | some i ↦
            if not (is_connected (session_at b i).state) || retain_handling_of options_byte == 2
            then b
            else deliver_retained_from max_retained_entries route b id session filter options_byte 0
      ]
