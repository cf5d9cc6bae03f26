-- ===== src/Inflight/Inbound/Duplicates.antt =====
-- A QoS 2 PUBLISH that arrives again before its PUBREL.
use net_burner_mqtt_broker.Base.{
  ℕ, zero, suc, ◌≡◌, refl, arith, Bool, true, Bool-cases, Option-cases, none, some, inl, inr, List,
  [], ◌∷◌, set, ◌==◌,
}
use net_burner_mqtt_broker.Delivery.{MessageHandle}
use net_burner_mqtt_broker.Inflight.Inbound.{
  SessionInboundQoS2, InboundQoS2Entry, find_staged, first_unused, stage, stages, staged_entry,
  insert_staged, store_unused,
}

-- The entry that is stored is found under its identifier, if no other is.
find_staged-set :
    (id : ℕ) (e : InboundQoS2Entry) (es : List InboundQoS2Entry) (i : ℕ)
    → stages id e ≡ true
    → find_staged id es ≡ none
    → first_unused es ≡ some i
    → find_staged id (set es i e) ≡ some i
unfolding find_staged first_unused
find_staged-set id e [] i h n f = ground (arith, f)
find_staged-set id e (x ∷ es) zero h n f = rw h refl
find_staged-set id e (x ∷ es) (suc i) h n f = elim (Option-cases (first_unused es)) [
  | inl u ↦ ground (arith, u)
  | inr (j, u) ↦ elim (Option-cases (find_staged id es)) [
    | inl v ↦ ground (arith, u, v, find_staged-set id e es j h v u)
    | inr (k, v) ↦ ground (arith, u, v)
  ]
]

stage_again :
    (t : SessionInboundQoS2) (e d : InboundQoS2Entry) (i : ℕ)
    → e.in_use ≡ true
    → d.packet_id ≡ e.packet_id
    → (stage t e).1 ≡ some i
    → stage (stage t e).0 d ≡ ((stage t e).0, some i)
unfolding stage store_unused
stage_again t e d i u s h =
    let held : stages e.packet_id e ≡ true = ground (arith, u) in
    elim (Bool-cases (e.packet_id == 0)) [
      | inl z ↦ absurd (ground (arith, z, h))
      | inr z ↦ elim (Option-cases (find_staged e.packet_id t.entries)) [
        | inr (k, f) ↦ ground (arith, z, f, s, h)
        | inl f ↦ elim (Option-cases (first_unused t.entries)) [
          | inl n ↦ absurd (ground (arith, z, f, n, h))
          | inr (j, n) ↦
              ground (arith, z, f, n, s, h, find_staged-set e.packet_id e t.entries j held f n)
        ]
      ]
    ]

-- A QoS 2 message that the table has taken is staged once: when a PUBLISH with its identifier comes
-- again, whatever else it carries, the table stays as it is and the answer is the entry from before.
pub insert_staged_again :
    (t : SessionInboundQoS2) (packet_id i : ℕ) (topic topic' : List ℕ)
    (payload payload' : MessageHandle) (len len' : ℕ) (retain retain' : Bool) (qos qos' : ℕ)
    (dup dup' : Bool)
    → (insert_staged t packet_id (some topic) payload len retain qos dup).1 ≡ some i
    → insert_staged
        ((insert_staged t packet_id (some topic) payload len retain qos dup).0)
        packet_id
        (some topic')
        payload'
        len'
        retain'
        qos'
        dup'
      ≡ ((insert_staged t packet_id (some topic) payload len retain qos dup).0, some i)
unfolding insert_staged
insert_staged_again t packet_id i topic topic' payload payload' len len' retain retain' qos qos' dup
      dup' h =
    stage_again t (staged_entry packet_id topic payload len retain qos dup)
      (staged_entry packet_id topic' payload' len' retain' qos' dup') i refl refl h
