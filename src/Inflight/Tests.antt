-- ===== src/Inflight/Tests.antt =====
-- Runs of the tables on fixed inputs, and the theorems on such tables.
use net_burner_mqtt_broker.Base.{◌≡◌, refl, arith, true, false, some}
use net_burner_mqtt_broker.Delivery.{MessageHandle, TopicHandle}
use net_burner_mqtt_broker.Base.{[], ◌∷◌}
use net_burner_mqtt_broker.Inflight.Inbound.{nothing_staged, insert_staged}
use net_burner_mqtt_broker.Inflight.Inbound.Duplicates.{insert_staged_again}
use net_burner_mqtt_broker.Inflight.PacketId.{Fresh, next_packet_id-Fresh}
use net_burner_mqtt_broker.Inflight.Exchange.{IsValid}
use net_burner_mqtt_broker.Inflight.Reach.{Reachable, started, inserted, Reachable-IsValid}
use net_burner_mqtt_broker.Inflight.Outbound.{
  SessionOutboundInflight, awaiting_pubrec, empty_table, insert, next_packet_id,
}

abbrev message : MessageHandle
message = record { slot = 3; generation = 1 }

abbrev topic : TopicHandle
topic = record { slot = 2; generation = 4 }

abbrev one_sent : SessionOutboundInflight
one_sent = (insert empty_table 1 message topic 1 false awaiting_pubrec).0

-- The cursor at its last value, and the identifier 65535 in use.
abbrev wrapping : SessionOutboundInflight
wrapping = record (insert empty_table 65535 message topic 2 false awaiting_pubrec).0 {
  next_id = 65535;
}

one_sent-Reachable : Reachable one_sent
one_sent-Reachable = inserted 1 message topic 1 false awaiting_pubrec started

wrapped_id : (next_packet_id wrapping).1 ≡ 1
unfolding next_packet_id insert empty_table
wrapped_id = refl

again_refused : (insert one_sent 1 message topic 1 false awaiting_pubrec).1 ≡ false
unfolding insert empty_table
again_refused = refl

next_packet_id-Fresh_example :
    Fresh wrapping.entries ((next_packet_id wrapping).0.next_id, (next_packet_id wrapping).1)
unfolding insert empty_table
next_packet_id-Fresh_example = next_packet_id-Fresh wrapping (omega arith) (omega arith)

Reachable-IsValid_example : IsValid one_sent
Reachable-IsValid_example = Reachable-IsValid one_sent-Reachable

-- A QoS 2 PUBLISH to "a", and the same identifier again with the topic "b".
insert_staged_again_example :
    insert_staged
      (insert_staged nothing_staged 7
        (some (b'a' ∷ []))
        (record { slot = 3; generation = 1 })
        5
        false
        2
        false).0
      7
      (some (b'b' ∷ []))
      (record { slot = 4; generation = 1 })
      6
      false
      2
      true
    ≡ (
      (insert_staged nothing_staged 7
          (some (b'a' ∷ []))
          (record { slot = 3; generation = 1 })
          5
          false
          2
          false).0,
      some 0,
    )
unfolding insert_staged nothing_staged
insert_staged_again_example =
    insert_staged_again nothing_staged 7 0 (b'a' ∷ []) (b'b' ∷ [])
      (record { slot = 3; generation = 1 }) (record { slot = 4; generation = 1 }) 5 6 false false 2
      2 false true refl
