-- ===== src/Inflight/Exchange.antt =====
-- The operations of the outbound table: when a delivery is accepted, what an acknowledgement takes
-- away, and the invariant that packet identifiers are different and not 0.
use net_burner_mqtt_broker.Base.{
  ℕ, ◌+◌, ◌≤◌, ◌<◌, ◌≡◌, ◌≢◌, refl, arith, ap, ◌∙◌, Bool, true, false, ◌||◌, ◌&&◌, not, ◌==◌, leb,
  if◌then◌else◌, List, length, Option, none, some, set, Option-cases, Bool-cases, inl, inr,
}
use net_burner_mqtt_broker.Delivery.{MessageHandle, TopicHandle}
use net_burner_mqtt_broker.MessagePool.{MessagePool}
use net_burner_mqtt_broker.TopicIntern.{TopicInternPool}
use net_burner_mqtt_broker.Inflight.Limits.{qos_inflight_per_client, effective_receive_maximum}
use net_burner_mqtt_broker.Inflight.Ids.{member, distinct}
use net_burner_mqtt_broker.Inflight.PacketId.{used_ids, found-find, next_packet_id-Fresh}
use net_burner_mqtt_broker.Inflight.Table.{held, Stored, store_first-Stored, erase-Erased}
use net_burner_mqtt_broker.Inflight.Outbound.{
  SessionOutboundInflight, OutboundInflightEntry, OutboundQoS2Phase, awaiting_pubrec, blank_entry,
  count, find, found,
}
use net_burner_mqtt_broker.Inflight.Outbound.{at_capacity, insert, remove, next_packet_id}

-- The table has its whole capacity, and the identifiers in use are different and not 0.
pub record IsValid (t : SessionOutboundInflight) : Type 0 where
  pub size : length t.entries ≡ qos_inflight_per_client
  pub apart : distinct (used_ids t.entries) ≡ true
  pub no_zero : member 0 (used_ids t.entries) ≡ false
  pub word : t.next_id < 65536

-- The entry that `insert` stores.
abbrev pub delivery_entry :
    ℕ → MessageHandle → TopicHandle → ℕ → Bool → OutboundQoS2Phase → OutboundInflightEntry
delivery_entry id msg topic qos retain phase = record {
  in_use = true;
  packet_id = id;
  message = msg;
  topic = topic;
  delivery_qos = qos;
  retain_flag = retain;
  qos2_phase = if leb 2 qos then phase else awaiting_pubrec;
}

unused-held :
    (id : ℕ) (es : List OutboundInflightEntry) → found (find id es) ≡ false → held id es ≡ none
unfolding held
unused-held id es h = elim (Option-cases (find id es)) [
  | inl n ↦ rw n refl
  | inr (i, n) ↦ absurd (ground (arith, n))
]

held-unused :
    (id : ℕ) (es : List OutboundInflightEntry) → member id (used_ids es) ≡ false → held id es ≡ none
held-unused id es h = unused-held id es (found-find id es ∙ h)

module _ (id : ℕ) (msg : MessageHandle) (topic : TopicHandle) (qos : ℕ) (retain : Bool)
    (phase : OutboundQoS2Phase) where
  -- What `insert` does on every branch: a delivery with a usable identifier is stored while there is
  -- room, and everything else is refused with no change.
  abbrev Inserted : SessionOutboundInflight → SessionOutboundInflight × Bool → Type 0
  Inserted t (t', answer) =
      (answer ≡ (not (id == 0) && not (found (find id t.entries)) && not (at_capacity t)))
      × (answer ≡ false → t' ≡ t)
      × (answer ≡ true → Stored (delivery_entry id msg topic qos retain phase) t.entries t'.entries)
      × (t'.next_id ≡ t.next_id)

  insert-Inserted :
      (t : SessionOutboundInflight)
      → length t.entries ≡ qos_inflight_per_client
      → Inserted t (insert t id msg topic qos retain phase)
  unfolding insert at_capacity
  insert-Inserted t size =
      elim (Bool-cases (id == 0 || found (find id t.entries) || at_capacity t)) [
        | inl refused ↦ ground (arith, refused)
        | inr welcome ↦
            let (es', q, s) =
              store_first-Stored (delivery_entry id msg topic qos retain phase) t.entries refl
                (ground arith) in
            rw q (ground (arith, welcome, s))
      ]

  -- `insert` answers true exactly for an identifier that is not 0 and not in use, while there is
  -- room: the loop always finds the free entry, and the return behind it is never reached.
  pub insert_accepts :
      (t : SessionOutboundInflight)
      → length t.entries ≡ qos_inflight_per_client
      → (insert t id msg topic qos retain phase).1
        ≡ (not (id == 0) && not (found (find id t.entries)) && not (at_capacity t))
  insert_accepts t size = (insert-Inserted t size).0

  -- After a delivery is accepted, `find` leads to an entry with exactly what was given, and every
  -- other identifier leads to what it led to before.
  pub insert-held :
      (t : SessionOutboundInflight) (x : ℕ)
      → length t.entries ≡ qos_inflight_per_client
      → (insert t id msg topic qos retain phase).1 ≡ true
      → x ≢ id
      → let t' = (insert t id msg topic qos retain phase).0 in
        (held id t'.entries ≡ some (delivery_entry id msg topic qos retain phase))
        × (held x t'.entries ≡ held x t.entries)
        × (count t'.entries ≡ count t.entries + 1)
  insert-held t x size ok other =
      let (answer, same, stored, next) = insert-Inserted t size in
      let s = stored ok in
      let free : found (find id t.entries) ≡ false = ground arith in
      (s.itself (unused-held id t.entries free), s.others x other, s.one_more)

  pub insert-IsValid :
      (t : SessionOutboundInflight) → IsValid t → IsValid (insert t id msg topic qos retain phase).0
  insert-IsValid t v =
      let (answer, same, stored, next) = insert-Inserted t v.size in
      elim (Bool-cases (insert t id msg topic qos retain phase).1) [
        | inr refused ↦ rw (same refused) v
        | inl taken ↦
            let s = stored taken in
            record {
              size = s.size ∙ v.size;
              apart = ground (arith, s.apart, v.apart, found-find id t.entries);
              no_zero = ground (arith, s.ids 0, v.no_zero);
              word = rw next v.word;
            }
      ]

  insert-free :
      (t : SessionOutboundInflight)
      → length t.entries ≡ qos_inflight_per_client
      → at_capacity t ≡ false
      → 0 < id
      → find id t.entries ≡ none
      → (insert t id msg topic qos retain phase).1 ≡ true
  insert-free t size room pos unused = insert_accepts t size ∙ ground (arith, room, pos, unused)

next_packet_id-entries : (t : SessionOutboundInflight) → (next_packet_id t).0.entries ≡ t.entries
unfolding next_packet_id
next_packet_id-entries t = refl

-- While there is room, the identifier that `next_packet_id` hands out is accepted by `insert`.
pub insert-next_packet_id :
    (t : SessionOutboundInflight) (msg : MessageHandle) (topic : TopicHandle) (qos : ℕ)
    (retain : Bool) (phase : OutboundQoS2Phase)
    → IsValid t
    → at_capacity t ≡ false
    → let (t', id) = next_packet_id t in (insert t' id msg topic qos retain phase).1 ≡ true
insert-next_packet_id t msg topic qos retain phase v room =
    let f = next_packet_id-Fresh t v.word (omega (arith, v.size)) in
    let same = next_packet_id-entries t in
    insert-free (next_packet_id t).1 msg topic qos retain phase (next_packet_id t).0
      (ap length same ∙ v.size)
      (unfold at_capacity in (ap (λ es. leb qos_inflight_per_client (count es)) same ∙ room))
      f.positive (ap (find (next_packet_id t).1) same ∙ f.unused)

pub next_packet_id-IsValid :
    (t : SessionOutboundInflight) → IsValid t → IsValid (next_packet_id t).0
next_packet_id-IsValid t v =
    let f = next_packet_id-Fresh t v.word (omega (arith, v.size)) in
    let same = next_packet_id-entries t in
    record {
      size = ap length same ∙ v.size;
      apart = ap (λ es. distinct (used_ids es)) same ∙ v.apart;
      no_zero = ap (λ es. member 0 (used_ids es)) same ∙ v.no_zero;
      word = rw f.onward (ground arith);
    }

-- An acknowledgement of a delivery under way is answered true and takes away that delivery, counted
-- once, and no other.
pub remove-held :
    (t : SessionOutboundInflight) (id x : ℕ) (pool : Option MessagePool)
    (topics : Option TopicInternPool)
    → IsValid t
    → found (find id t.entries) ≡ true
    → x ≢ id
    → let (t', answer, pool', topics') = remove t id pool topics in
      (answer ≡ true)
      × (held id t'.entries ≡ none)
      × (held x t'.entries ≡ held x t.entries)
      × (count t'.entries + 1 ≡ count t.entries)
unfolding remove
remove-held t id x pool topics v there other = elim (Option-cases (find id t.entries)) [
  | inl n ↦ absurd (ground (arith, n))
  | inr (i, n) ↦
      let s = erase-Erased id i t.entries n in
      rw (remove, n)
        (
          refl,
          held-unused id (set t.entries i blank_entry) (s.itself v.apart),
          s.others x other,
          s.one_less,
        )
]

pub remove-IsValid :
    (t : SessionOutboundInflight) (id : ℕ) (pool : Option MessagePool)
    (topics : Option TopicInternPool)
    → IsValid t
    → IsValid (remove t id pool topics).0
unfolding remove
remove-IsValid t id pool topics v = elim (Option-cases (find id t.entries)) [
  | inl n ↦ rw (remove, n) v
  | inr (i, n) ↦
      let s = erase-Erased id i t.entries n in
      rw (remove, n)
        (record {
          size = s.size ∙ v.size;
          apart = s.apart v.apart;
          no_zero = ground (arith, s.fewer 0, v.no_zero);
          word = v.word;
        })
]

-- While fewer deliveries are under way than the Receive Maximum in effect, the table has room, and
-- that maximum never exceeds what the client asked for.
pub effective_receive_maximum-at_capacity :
    (t : SessionOutboundInflight) (client : ℕ)
    → 0 < client
    → count t.entries < effective_receive_maximum client
    → (at_capacity t ≡ false) × (effective_receive_maximum client ≤ client)
unfolding effective_receive_maximum at_capacity
effective_receive_maximum-at_capacity t client asked room = ground arith
