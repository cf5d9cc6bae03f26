-- ===== src/Broker/References.antt =====
-- The references to a message that the broker takes and gives back (libs/mqtt_broker/src/broker.cpp).
use net_burner_mqtt_broker.Base.{
  ℕ, ◌<◌, ◌≡◌, ◌≢◌, refl, arith, Bool, true, false, not, leb, ◌||◌, List, none, some, set,
  Bool-cases, Option-cases, inl, inr,
}
use net_burner_mqtt_broker.Delivery.{PendingDelivery}
use net_burner_mqtt_broker.MessagePool.{msg_acquire, msg_release, msg_ref_count}
use net_burner_mqtt_broker.MessagePool.Handles.{msg_release-acquire, msg_acquire_counted}
use net_burner_mqtt_broker.TopicIntern
use net_burner_mqtt_broker.Broker.Limits.{max_tcp_clients}
use net_burner_mqtt_broker.Broker.{Broker}
use net_burner_mqtt_broker.Broker.State.{deref, connection_at, inbound_at}
use net_burner_mqtt_broker.Broker.Routing.{Publication, enqueue_offline, store_offline}
use net_burner_mqtt_broker.Topic.{is_empty}
use net_burner_mqtt_broker.MqttTypes.{reason_success}
use net_burner_mqtt_broker.Parser.Packet.{ParsedPacket}
use net_burner_mqtt_broker.Inflight.Inbound.{find_staged, insert_staged}
use net_burner_mqtt_broker.Broker.Sessions.{Router}
use net_burner_mqtt_broker.Broker.Transport.{write_with, write_bytes, send_pubrec}
use net_burner_mqtt_broker.Broker.Packets.{staged_entry_at, stage_publish, publish_exactly_once}

module _ {W : Type 0} where
  -- An offline delivery that the queue takes holds two references to its message and to its topic.
  pub enqueue_offline_acquires :
      (b : Broker W) (i : ℕ) (pd : PendingDelivery)
      → (enqueue_offline b i pd).1 ≡ true
      → ((enqueue_offline b i pd).0.msg_pool ≡ (msg_acquire b.msg_pool pd.message).0)
        × ((enqueue_offline b i pd).0.topic_intern
            ≡ (TopicIntern.acquire b.topic_intern pd.topic).0)
  unfolding enqueue_offline
  enqueue_offline_acquires b i pd e = (ground arith, ground arith)

  enqueue_offline_takes :
      (b : Broker W) (i : ℕ) (pd : PendingDelivery)
      → (enqueue_offline b i pd).1 ≡ true
      → (msg_acquire b.msg_pool pd.message).1 ≡ true
  unfolding enqueue_offline
  enqueue_offline_takes b i pd e = ground arith

  enqueue_offline_refused :
      (b : Broker W) (i : ℕ) (pd : PendingDelivery)
      → (enqueue_offline b i pd).1 ≡ false
      → (enqueue_offline b i pd).0.offline_queues ≡ b.offline_queues
  unfolding enqueue_offline
  enqueue_offline_refused b i pd e = ground arith

  -- What `store_offline` puts into the queue, and where it stands by then.
  abbrev offline_delivery : Broker W → Publication → ℕ → Bool → PendingDelivery
  offline_delivery b p qos out_retain = record {
    message = p.payload;
    topic = (TopicIntern.intern b.topic_intern (some (deref b p.topic))).1;
    packet_id = 0;
    encoded_offset = 0;
    encoded_total_size = 0;
    delivery_qos = qos;
    retain_flag = out_retain;
    dup_flag = false;
  }

  abbrev with_message : Broker W → Publication → Broker W
  with_message b p = record b {
    topic_intern = (TopicIntern.intern b.topic_intern (some (deref b p.topic))).0;
    msg_pool = (msg_acquire b.msg_pool p.payload).0;
  }

  -- When a publication is queued for a session that is offline, giving back the one reference that the
  -- queue stands for leaves the pool with one more than it had: the call takes two.
  pub store_offline_leaks :
      (b : Broker W) (sid : ℕ) (p : Publication) (qos : ℕ) (out_retain : Bool)
      → (store_offline b sid p qos out_retain).offline_queues ≢ b.offline_queues
      → msg_release (store_offline b sid p qos out_retain).msg_pool p.payload
        ≡ (msg_acquire b.msg_pool p.payload).0
  unfolding store_offline
  store_offline_leaks b sid p qos out_retain changed =
      let (topics, th) = TopicIntern.intern b.topic_intern (some (deref b p.topic)) in
      let pd = offline_delivery b p qos out_retain in
      let b1 = with_message b p in
      elim (Bool-cases (TopicIntern.valid topics th)) [
        | inr bad ↦ absurd (changed (rw (store_offline, bad) refl))
        | inl named ↦ elim (Bool-cases (msg_acquire b.msg_pool p.payload).1) [
          | inr none_left ↦ absurd (changed (rw (store_offline, named, none_left) refl))
          | inl taken ↦ elim (Bool-cases (enqueue_offline b1 sid pd).1) [
            | inr full ↦ absurd (
                changed
                  (rw (store_offline, named, taken, full) (enqueue_offline_refused b1 sid pd full)))
            | inl queued ↦
                let (pool, again) = enqueue_offline_acquires b1 sid pd queued in
                rw (store_offline, named, taken, queued, pool)
                  (msg_release-acquire b1.msg_pool p.payload
                    (enqueue_offline_takes b1 sid pd queued)
                    (rw (msg_acquire_counted b.msg_pool p.payload taken) (omega arith)))
          ]
        ]
      ]

  write_bytes-msg_pool :
      (b : Broker W) (id : ℕ) (bytes : List ℕ) → (write_bytes b id bytes).0.msg_pool ≡ b.msg_pool
  unfolding write_bytes write_with
  write_bytes-msg_pool b id bytes =
      elim (Bool-cases
        (leb max_tcp_clients id || is_empty bytes || not (connection_at b id).in_use)) [
          | inl stop ↦ rw (write_bytes, stop) refl
          | inr goes ↦ elim (Option-cases (connection_at b id).transport.write) [
            | inl none_set ↦ rw (write_bytes, goes, none_set) refl
            | inr (write, set) ↦ rw (write_bytes, goes, set) refl
          ]
        ]

  send_pubrec-msg_pool :
      (b : Broker W) (id packet_id reason : ℕ)
      → (send_pubrec b id packet_id reason).0.msg_pool ≡ b.msg_pool
  send_pubrec-msg_pool b id packet_id reason = elim (Bool-cases (leb max_tcp_clients id)) [
    | inl e ↦ rw e refl
    | inr e ↦ rw e (write_bytes-msg_pool b id _)
  ]

  stage_publish-msg_pool :
      (route : Router W) (b : Broker W) (id slot k : ℕ) (pkt : ParsedPacket)
      → (insert_staged
          (inbound_at b slot)
          pkt.packet_id
          (some pkt.topic)
          pkt.payload
          pkt.payload_len
          pkt.retain
          pkt.qos
          pkt.dup).1
        ≡ some k
      → (stage_publish route b id slot pkt).msg_pool ≡ b.msg_pool
  unfolding stage_publish
  stage_publish-msg_pool route b id slot k pkt taken =
      let t =
        (insert_staged (inbound_at b slot) pkt.packet_id (some pkt.topic) pkt.payload
          pkt.payload_len pkt.retain pkt.qos pkt.dup).0 in
      elim (Bool-cases
        (staged_entry_at (record b { inbound = set b.inbound slot t }) slot k).pubrec_sent) [
          | inl sent_before ↦ rw (stage_publish, taken, sent_before) refl
          | inr new ↦
              rw (stage_publish, taken, new)
                (send_pubrec-msg_pool _ id pkt.packet_id reason_success)
        ]

  -- A QoS 2 PUBLISH whose identifier is not staged yet, and that the table takes: giving back the one
  -- reference that the table holds, as the PUBREL does, leaves the pool as it was when the packet
  -- came, with the reference of the parser still counted.
  pub publish_exactly_once_leaks :
      (route : Router W) (b : Broker W) (id slot k : ℕ) (pkt : ParsedPacket)
      → find_staged pkt.packet_id (inbound_at b slot).entries ≡ none
      → (msg_acquire b.msg_pool pkt.payload).1 ≡ true
      → 0 < msg_ref_count b.msg_pool pkt.payload
      → (insert_staged
          (inbound_at b slot)
          pkt.packet_id
          (some pkt.topic)
          pkt.payload
          pkt.payload_len
          pkt.retain
          pkt.qos
          pkt.dup).1
        ≡ some k
      → msg_release (publish_exactly_once route b id slot pkt).msg_pool pkt.payload ≡ b.msg_pool
  unfolding publish_exactly_once
  publish_exactly_once_leaks route b id slot k pkt new taken counted_before stored =
      let b1 = record b { msg_pool = (msg_acquire b.msg_pool pkt.payload).0 } in
      rw (publish_exactly_once, new, taken, stage_publish-msg_pool route b1 id slot k pkt stored)
        (msg_release-acquire b.msg_pool pkt.payload taken counted_before)
