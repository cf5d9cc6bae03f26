-- ===== src/Parser/Phases.antt =====
-- The same for the phases of `consume_byte` in libs/mqtt_broker/src/parser.cpp behind the remaining
-- length.
use net_burner_mqtt_broker.Base.{
  ℕ, ◌≤◌, ◌≡◌, refl, Bool, true, false, Bool-cases, Option-cases, inl, inr, arith, List, [], ◌∷◌,
  ◌++◌, leb, length, length-append, if◌then◌else◌,
}
use net_burner_mqtt_broker.MqttTypes.{
  PacketType, reserved, connect, connack, publish, puback, pubrec, pubrel, pubcomp, subscribe,
  suback, unsubscribe, unsuback, pingreq, pingresp, disconnect, auth,
}
use net_burner_mqtt_broker.Varint.{VarintResult, ok, need_more, too_large, overflow, varint_decode}
use net_burner_mqtt_broker.Parser.Packet.{PacketParser}
use net_burner_mqtt_broker.Parser.Machine.{
  buffered, finish_packet, publish_topic, header_publish, header_subscribe, header_connect,
  header_ack, header_disconnect, header_other, header_as, consume_variable_header, properties_done,
  properties_target, consume_properties, payload_buffered, payload_publish, payload_as,
  consume_payload,
}
use net_burner_mqtt_broker.Parser.Settled.{Settled, enter_error-Settled, finish_packet-Settled}

if-Settled :
    (rl : List ℕ) (c : Bool) (p q : PacketParser)
    → Settled rl p
    → Settled rl q
    → Settled rl (if c then p else q)
if-Settled rl true p q s t = s
if-Settled rl false p q s t = t

nothing_fits : 0 ≤ 1024
nothing_fits = omega arith

publish_topic-Settled :
    (rl : List ℕ) (p : PacketParser) → Settled rl p → Settled rl (publish_topic p)
unfolding publish_topic
publish_topic-Settled rl p s =
    search (if-Settled, enter_error-Settled, finish_packet-Settled, nothing_fits) depth 12

header_publish-Settled :
    (rl : List ℕ) (p : PacketParser) → Settled rl p → Settled rl (header_publish p)
unfolding header_publish
header_publish-Settled rl p s =
    search (if-Settled, enter_error-Settled, publish_topic-Settled) depth 12

header_subscribe-Settled :
    (rl : List ℕ) (p : PacketParser) → Settled rl p → Settled rl (header_subscribe p)
unfolding header_subscribe
header_subscribe-Settled rl p s = ground (arith, s)

header_connect-Settled :
    (rl : List ℕ) (p : PacketParser) → Settled rl p → Settled rl (header_connect p)
unfolding header_connect
header_connect-Settled rl p s = search (if-Settled, enter_error-Settled, nothing_fits) depth 12

header_ack-Settled : (rl : List ℕ) (p : PacketParser) → Settled rl p → Settled rl (header_ack p)
unfolding header_ack
header_ack-Settled rl p s = grind (arith, finish_packet-Settled)

header_disconnect-Settled :
    (rl : List ℕ) (p : PacketParser) → Settled rl p → Settled rl (header_disconnect p)
unfolding header_disconnect
header_disconnect-Settled rl p s = grind (arith, finish_packet-Settled)

header_other-Settled : (rl : List ℕ) (p : PacketParser) → Settled rl p → Settled rl (header_other p)
unfolding header_other
header_other-Settled rl p s = grind (arith, finish_packet-Settled)

header_as-Settled :
    (type : PacketType) (rl : List ℕ) (p : PacketParser)
    → Settled rl p
    → Settled rl (header_as type p)
unfolding header_as
header_as-Settled reserved rl p s = header_other-Settled rl p s
header_as-Settled connect rl p s = header_connect-Settled rl p s
header_as-Settled connack rl p s = header_other-Settled rl p s
header_as-Settled publish rl p s = header_publish-Settled rl p s
header_as-Settled puback rl p s = header_ack-Settled rl p s
header_as-Settled pubrec rl p s = header_ack-Settled rl p s
header_as-Settled pubrel rl p s = header_ack-Settled rl p s
header_as-Settled pubcomp rl p s = header_ack-Settled rl p s
header_as-Settled subscribe rl p s = header_subscribe-Settled rl p s
header_as-Settled suback rl p s = header_other-Settled rl p s
header_as-Settled unsubscribe rl p s = header_subscribe-Settled rl p s
header_as-Settled unsuback rl p s = header_other-Settled rl p s
header_as-Settled pingreq rl p s = header_other-Settled rl p s
header_as-Settled pingresp rl p s = header_other-Settled rl p s
header_as-Settled disconnect rl p s = header_disconnect-Settled rl p s
header_as-Settled auth rl p s = header_other-Settled rl p s

pub consume_variable_header-Settled :
    (rl : List ℕ) (p : PacketParser) (b : ℕ)
    → Settled rl p
    → Settled rl (consume_variable_header p b)
unfolding consume_variable_header
consume_variable_header-Settled rl p b s = ground (
  arith,
  s,
  length-append p.control_buf (b ∷ []),
  enter_error-Settled rl p 0x81 s.fits,
  header_as-Settled p.packet.type rl (buffered p b),
)

properties_done-Settled :
    (rl : List ℕ) (p : PacketParser) → Settled rl p → Settled rl (properties_done p)
unfolding properties_done
properties_done-Settled rl p s = elim (Option-cases p.prop_pool) [
  | inl n ↦
      rw (properties_done, n) (search (if-Settled, finish_packet-Settled, nothing_fits) depth 12)
  | inr (pool, n) ↦
      rw (properties_done, n)
        (search (if-Settled, enter_error-Settled, finish_packet-Settled, nothing_fits) depth 12)
]

properties_target-Settled :
    (rl : List ℕ) (p : PacketParser) → Settled rl p → Settled rl (properties_target p)
unfolding properties_target
properties_target-Settled rl p s =
    if-Settled rl _ p (properties_done p) s (properties_done-Settled rl p s)

-- What holds after each answer of the decoder holds after its answer.
pub by_answer :
    (P : PacketParser → Type 0) (r : VarintResult) (o n t v : PacketParser)
    → (r ≡ ok → P o)
    → (r ≡ need_more → P n)
    → P t
    → P v
    → P (elim r [ ok ↦ o | need_more ↦ n | too_large ↦ t | overflow ↦ v ])
by_answer P ok o n t v ho hn ht hv = ho refl
by_answer P need_more o n t v ho hn ht hv = hn refl
by_answer P too_large o n t v ho hn ht hv = ht
by_answer P overflow o n t v ho hn ht hv = hv

pub consume_properties-Settled :
    (rl : List ℕ) (p : PacketParser) (b : ℕ) → Settled rl p → Settled rl (consume_properties p b)
unfolding consume_properties
consume_properties-Settled rl p b s = elim (Bool-cases (leb 1024 (length p.control_buf))) [
  | inl full ↦ rw (consume_properties, full) (enter_error-Settled rl p _ s.fits)
  | inr room ↦
      let s' : Settled rl (buffered p b) =
        ground (arith, s, length-append p.control_buf (b ∷ [])) in
      let wrong = enter_error-Settled rl (buffered p b) 0x81 s'.fits in
      rw (consume_properties, room)
        (if-Settled rl p.property_len_known _ _ (properties_target-Settled rl (buffered p b) s') (
          by_answer (Settled rl) (varint_decode (buffered p b).control_buf).result _ _ _ _
            (λ e. properties_target-Settled rl _ (record {
              fits = record { same = s'.fits.same; control = s'.fits.control };
              phase = s'.phase;
            }))
            (λ e. s') wrong wrong))
]

payload_buffered-Settled :
    (rl : List ℕ) (p : PacketParser) (b : ℕ) → Settled rl p → Settled rl (payload_buffered p b)
unfolding payload_buffered
payload_buffered-Settled rl p b s =
    let p' : PacketParser = record p { control_buf = p.control_buf ++ (b ∷ []) } in
    ground (
      arith,
      s,
      length-append p.control_buf (b ∷ []),
      enter_error-Settled rl p 0x81 s.fits,
      finish_packet-Settled rl p',
    )

payload_publish-Settled :
    (rl : List ℕ) (p : PacketParser) (b : ℕ) → Settled rl p → Settled rl (payload_publish p b)
unfolding payload_publish
payload_publish-Settled rl p b s = elim (Option-cases p.msg_pool) [
  | inl n ↦ rw (payload_publish, n) (search (if-Settled, finish_packet-Settled) depth 12)
  | inr (pool, n) ↦
      rw (payload_publish, n)
        (search (if-Settled, enter_error-Settled, finish_packet-Settled) depth 12)
]

payload_as-Settled :
    (type : PacketType) (rl : List ℕ) (p : PacketParser) (b : ℕ)
    → Settled rl p
    → Settled rl (payload_as type p b)
unfolding payload_as
payload_as-Settled reserved rl p b s =
    if-Settled rl _ (finish_packet p) p (finish_packet-Settled rl p s.fits) s
payload_as-Settled connect rl p b s = payload_buffered-Settled rl p b s
payload_as-Settled connack rl p b s =
    if-Settled rl _ (finish_packet p) p (finish_packet-Settled rl p s.fits) s
payload_as-Settled publish rl p b s = payload_publish-Settled rl p b s
payload_as-Settled puback rl p b s =
    if-Settled rl _ (finish_packet p) p (finish_packet-Settled rl p s.fits) s
payload_as-Settled pubrec rl p b s =
    if-Settled rl _ (finish_packet p) p (finish_packet-Settled rl p s.fits) s
payload_as-Settled pubrel rl p b s =
    if-Settled rl _ (finish_packet p) p (finish_packet-Settled rl p s.fits) s
payload_as-Settled pubcomp rl p b s =
    if-Settled rl _ (finish_packet p) p (finish_packet-Settled rl p s.fits) s
payload_as-Settled subscribe rl p b s = payload_buffered-Settled rl p b s
payload_as-Settled suback rl p b s =
    if-Settled rl _ (finish_packet p) p (finish_packet-Settled rl p s.fits) s
payload_as-Settled unsubscribe rl p b s = payload_buffered-Settled rl p b s
payload_as-Settled unsuback rl p b s =
    if-Settled rl _ (finish_packet p) p (finish_packet-Settled rl p s.fits) s
payload_as-Settled pingreq rl p b s =
    if-Settled rl _ (finish_packet p) p (finish_packet-Settled rl p s.fits) s
payload_as-Settled pingresp rl p b s =
    if-Settled rl _ (finish_packet p) p (finish_packet-Settled rl p s.fits) s
payload_as-Settled disconnect rl p b s =
    if-Settled rl _ (finish_packet p) p (finish_packet-Settled rl p s.fits) s
payload_as-Settled auth rl p b s =
    if-Settled rl _ (finish_packet p) p (finish_packet-Settled rl p s.fits) s

pub consume_payload-Settled :
    (rl : List ℕ) (p : PacketParser) (b : ℕ) → Settled rl p → Settled rl (consume_payload p b)
unfolding consume_payload
consume_payload-Settled rl p b s = payload_as-Settled p.packet.type rl _ b (ground (arith, s))
