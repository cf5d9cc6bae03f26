-- ===== src/Broker/Routing.antt =====
-- Routing in libs/mqtt_broker/src/broker.cpp: a PUBLISH to its subscribers, retained messages to a new
-- subscription, and the offline queue of a session that resumes.
use net_burner_mqtt_broker.Base.{
  ℕ, zero, suc, ◌/◌, ◌^◌, ◌*◌, Bool, true, false, ◌&&◌, ◌||◌, not, leb, ltb, ◌==◌, if◌then◌else◌,
  List, [], ◌∷◌, none, some, set, take, map, bit_and,
}
use net_burner_mqtt_broker.Delivery.{MessageHandle, TopicHandle, PendingDelivery}
use net_burner_mqtt_broker.MessagePool.{msg_acquire}
use net_burner_mqtt_broker.TopicIntern
use net_burner_mqtt_broker.Subscription.{SubscriptionMatch, DeliveryPlan, compute_delivery_plan}
use net_burner_mqtt_broker.Trie.{TopicSubscription}
use net_burner_mqtt_broker.Trie.Matches.{match_topic}
use net_burner_mqtt_broker.Retained
use net_burner_mqtt_broker.Retained.{remove_retained}
use net_burner_mqtt_broker.Queue.Offline
use net_burner_mqtt_broker.Broker.Limits.{max_tcp_clients, max_subs_per_client}
use net_burner_mqtt_broker.Broker.Metrics.{exhaustion, quota_and_queue}
use net_burner_mqtt_broker.Broker.{Broker, TopicPointer, is_connected, is_offline}
use net_burner_mqtt_broker.Broker.State.{
  session_at, offline_at, drop_message, drop_topic, drop_delivery, counted, session_record,
  session_of, deref,
}
use net_burner_mqtt_broker.Broker.Sessions.{Router}
use net_burner_mqtt_broker.Broker.Enqueue.{enqueue_delivery}
use mathlib.Core.Option

-- `(options_byte >> 4) & 0x03`
abbrev pub retain_handling_of : ℕ → ℕ
retain_handling_of options_byte = bit_and (options_byte / 2 ^ 4) 0x03

-- An element of `sm` for an element of `matches`.
unfoldable pub plan_match : TopicSubscription → SubscriptionMatch
plan_match m = record {
  session_id = m.session_id;
  max_qos = m.max_qos;
  options = record {
    max_qos = m.max_qos;
    no_local = bit_and (m.options_byte / 2 ^ 2) 0x01;
    retain_as_published = bit_and (m.options_byte / 2 ^ 3) 0x01;
    retain_handling = retain_handling_of m.options_byte;
    reserved = 0;
  };
}

-- The elements of `matches` that are the session's.
unfoldable pub matches_of : ℕ → List TopicSubscription → List TopicSubscription
matches_of sid [] = []
matches_of sid (m ∷ ms) =
    let rest = matches_of sid ms in if m.session_id == sid then m ∷ rest else rest

-- The loop over `seen_sessions`.
unfoldable pub seen_before : ℕ → List ℕ → Bool
seen_before sid [] = false
seen_before sid (s ∷ seen) = s == sid || seen_before sid seen

unfoldable pub plan_for_session : ℕ → ℕ → ℕ → List TopicSubscription → DeliveryPlan
unfolding matches_of plan_match
plan_for_session publish_qos pub_id sid ms =
    compute_delivery_plan publish_qos pub_id
      (map plan_match (take max_subs_per_client (matches_of sid ms)))

-- What the calls of a routing share: the topic, the QoS of the publication, its RETAIN flag, the
-- payload with its length, the publisher's session and all matches.
pub record Publication : Type 0 where
  pub topic : TopicPointer
  pub publish_qos : ℕ
  pub retain : Bool
  pub payload : MessageHandle
  pub payload_len : ℕ
  pub pub_id : ℕ
  pub matches : List TopicSubscription

module _ {W : Type 0} where
  unfoldable pub enqueue_offline : Broker W → ℕ → PendingDelivery → Broker W × Bool
  enqueue_offline b i pd =
      let (pool, has_message) = msg_acquire b.msg_pool pd.message in
      let b1 = record b { msg_pool = pool } in
      let (topics, has_topic) = TopicIntern.acquire b1.topic_intern pd.topic in
      let b2 = record b1 { topic_intern = topics } in
      let (queue, stored) = Offline.enqueue (offline_at b i) pd in
      if leb max_tcp_clients i
      then (b, false)
      else if not has_message
      then (b1, false)
      else if not has_topic
      then (drop_message b1 pd.message, false)
      else if not stored
      then (counted quota_and_queue (drop_delivery b2 pd), false)
      else (record b2 { offline_queues = set b.offline_queues i queue }, true)

  -- The branch of `route_publish` for a session that is offline.
  unfoldable pub store_offline : Broker W → ℕ → Publication → ℕ → Bool → Broker W
  unfolding enqueue_offline
  store_offline b sid p qos out_retain =
      let (topics, th) = TopicIntern.intern b.topic_intern (some (deref b p.topic)) in
      let b1 = record b { topic_intern = topics } in
      let (pool, has_message) = msg_acquire b1.msg_pool p.payload in
      let pd : PendingDelivery = record {
        message = p.payload;
        topic = th;
        packet_id = 0;
        encoded_offset = 0;
        encoded_total_size = 0;
        delivery_qos = qos;
        retain_flag = out_retain;
        dup_flag = false;
      } in
      let (b2, queued) = enqueue_offline (record b1 { msg_pool = pool }) sid pd in
      if not (TopicIntern.valid topics th)
      then b1
      else if not has_message
      then drop_topic b1 th
      else if not queued
      then drop_delivery b2 pd
      else b2

  -- What `route_publish` does for a session, with its plan.
  unfoldable pub route_to : Router W → Broker W → Publication → ℕ → DeliveryPlan → Broker W
  unfolding store_offline
  route_to route b p sid plan =
      let s = session_at b sid in
      let out_retain = p.retain && plan.retain_as_published in
      if not plan.deliver
      then b
      else elim (session_record b (record { slot = sid; generation = s.self.generation })) [
        | none ↦ b
        | some i ↦
            if is_offline s.state && ltb 0 plan.effective_qos
            then store_offline b sid p plan.effective_qos out_retain
            else if not (is_connected s.state)
            then b
            else (enqueue_delivery route b s.transport_id s.self p.topic p.payload p.payload_len
                plan.effective_qos out_retain).0
      ]

  -- The loop of `route_publish`.
  unfoldable pub route_loop :
      Router W → Broker W → Publication → List ℕ → List TopicSubscription → Broker W
  unfolding seen_before route_to
  route_loop route b p seen [] = b
  route_loop route b p seen (m ∷ ms) =
      let sid = m.session_id in
      let plan = plan_for_session p.publish_qos p.pub_id sid p.matches in
      elim (seen_before sid seen) [
        | true ↦ route_loop route b p seen ms
        | false ↦ route_loop route (route_to route b p sid plan) p (sid ∷ seen) ms
      ]

  -- The retained message of the topic is set or removed.
  unfoldable pub retain_message : Broker W → TopicHandle → MessageHandle → ℕ → Broker W
  retain_message b th payload payload_len =
      let (store, pool, topics) = remove_retained b.retained th b.msg_pool (some b.topic_intern) in
      let (store', pool', topics', stored) =
        Retained.put b.retained th payload b.msg_pool b.topic_intern in
      let b1 = record b { retained = store'; msg_pool = pool'; topic_intern = topics' } in
      if payload_len == 0
      then record b {
        retained = store;
        msg_pool = pool;
        topic_intern = Option.get_or topics b.topic_intern;
      }
      else if not stored
      then counted exhaustion b1
      else b1

  -- `route_publish`; `route` stands for the calls of itself that it leads to.
  unfoldable pub route_once : Router W → Router W
  unfolding retain_message route_loop
  route_once route b publisher topic publish_qos retain payload payload_len =
      let (topics, th) = TopicIntern.intern b.topic_intern (some (deref b topic)) in
      let b1 = record b { topic_intern = topics } in
      let b2 : Broker W = if retain then retain_message b1 th payload payload_len else b1 in
      let ms = match_topic b2.topic_trie (deref b2 topic) (max_subs_per_client * 2) in
      let publication : Publication = record {
        topic = topic;
        publish_qos = publish_qos;
        retain = retain;
        payload = payload;
        payload_len = payload_len;
        pub_id = elim (session_of b2 publisher) [
          | none ↦ 0xffff
          | some i ↦ (session_at b2 i).self.slot
        ];
        matches = ms;
      } in
      if not (TopicIntern.valid topics th)
      then counted exhaustion b1
      else drop_topic (route_loop route b2 publication [] ms) th

  -- `route_publish` with up to `depth` calls of itself inside one another. A call below them is
  -- recorded in `overrun`.
  unfoldable pub route_publish : ℕ → Router W
  unfolding route_once
  route_publish zero b publisher topic qos retain payload len = record b { overrun = true }
  route_publish (suc depth) b publisher topic qos retain payload len =
      route_once (route_publish depth) b publisher topic qos retain payload len
