-- ===== src/Parser/Settled.antt =====
-- What the parser of libs/mqtt_broker/src/parser.cpp leaves of its buffers: errors, the end of a packet
-- and the start of its body.
use net_burner_mqtt_broker.Base.{
  ℕ, ◌≤◌, ◌≡◌, refl, Bool, true, false, Option-cases, inl, inr, arith, List, length,
}
use net_burner_mqtt_broker.MqttTypes.{
  PacketType, reserved, connect, connack, publish, puback, pubrec, pubrel, pubcomp, subscribe,
  suback, unsubscribe, unsuback, pingreq, pingresp, disconnect, auth,
}
use net_burner_mqtt_broker.Parser.Packet.{
  PacketParser, ParsedPacket, ParsePhase, remaining_length_phase, error,
}
use net_burner_mqtt_broker.Parser.Machine.{
  drop_active, drop_properties, drop_will_properties, drop_will_payload, enter_error,
  finish_connect, finish_publish, finish_subscription, finish_as, finish_packet, begin_publish,
  begin_as, begin_body,
}

-- `rl_buf` holds `rl`, and `control_buf` no more bytes than its array has.
pub record Fits (rl : List ℕ) (p : PacketParser) : Type 0 where
  pub same : p.rl_buf ≡ rl
  pub control : length p.control_buf ≤ 1024

abbrev pub reads_length : ParsePhase → Bool
reads_length remaining_length_phase = true
reads_length _ = false

-- The same, in a phase that does not write to `rl_buf`.
pub record Settled (rl : List ℕ) (p : PacketParser) : Type 0 where
  pub fits : Fits rl p
  pub phase : reads_length p.phase ≡ false

drop_active-Settled : (rl : List ℕ) (p : PacketParser) → Settled rl p → Settled rl (drop_active p)
unfolding drop_active
drop_active-Settled rl p s = elim (Option-cases p.msg_pool) [
  | inl n ↦ rw (drop_active, n) s
  | inr (pool, n) ↦ ground (arith, s, n)
]

drop_properties-Settled :
    (rl : List ℕ) (p : PacketParser) → Settled rl p → Settled rl (drop_properties p)
unfolding drop_properties
drop_properties-Settled rl p s = elim (Option-cases p.prop_pool) [
  | inl n ↦ rw (drop_properties, n) s
  | inr (pool, n) ↦ ground (arith, s, n)
]

drop_will_properties-Settled :
    (rl : List ℕ) (p : PacketParser) → Settled rl p → Settled rl (drop_will_properties p)
unfolding drop_will_properties
drop_will_properties-Settled rl p s = elim (Option-cases p.prop_pool) [
  | inl n ↦ rw (drop_will_properties, n) s
  | inr (pool, n) ↦ ground (arith, s, n)
]

drop_will_payload-Settled :
    (rl : List ℕ) (p : PacketParser) → Settled rl p → Settled rl (drop_will_payload p)
unfolding drop_will_payload
drop_will_payload-Settled rl p s = elim (Option-cases p.msg_pool) [
  | inl n ↦ rw (drop_will_payload, n) s
  | inr (pool, n) ↦ ground (arith, s, n)
]

pub enter_error-Settled :
    (rl : List ℕ) (p : PacketParser) (reason : ℕ) → Fits rl p → Settled rl (enter_error p reason)
unfolding enter_error
enter_error-Settled rl p reason f =
    let p0 : PacketParser = record p { phase = error; error_reason = reason } in
    let p1 = drop_active p0 in
    let p2 = drop_properties p1 in
    drop_will_payload-Settled rl (drop_will_properties p2) (
      drop_will_properties-Settled rl p2 (
        drop_properties-Settled rl p1 (
          drop_active-Settled rl p0
            (record { fits = record { same = f.same; control = f.control }; phase = refl }))))

finish_connect-Settled :
    (rl : List ℕ) (p : PacketParser) → Fits rl p → Settled rl (finish_connect p)
unfolding finish_connect
finish_connect-Settled rl p f = grind (arith, enter_error-Settled)

finish_publish-Settled :
    (rl : List ℕ) (p : PacketParser) → Fits rl p → Settled rl (finish_publish p)
unfolding finish_publish
finish_publish-Settled rl p f = elim (Option-cases p.msg_pool) [
  | inl n ↦ ground (arith, f, n)
  | inr (pool, n) ↦ ground (arith, f, n)
]

finish_subscription-Settled :
    (rl : List ℕ) (p : PacketParser) (r : ParsedPacket × Bool)
    → Fits rl p
    → Settled rl (finish_subscription p r)
unfolding finish_subscription
finish_subscription-Settled rl p (pkt, parsed) f = grind (arith, enter_error-Settled)

finish_as-Settled :
    (type : PacketType) (rl : List ℕ) (p : PacketParser) → Fits rl p → Settled rl (finish_as type p)
unfolding finish_as
finish_as-Settled reserved rl p f = ground (arith, f)
finish_as-Settled connect rl p f = finish_connect-Settled rl p f
finish_as-Settled connack rl p f = ground (arith, f)
finish_as-Settled publish rl p f = finish_publish-Settled rl p f
finish_as-Settled puback rl p f = ground (arith, f)
finish_as-Settled pubrec rl p f = ground (arith, f)
finish_as-Settled pubrel rl p f = ground (arith, f)
finish_as-Settled pubcomp rl p f = ground (arith, f)
finish_as-Settled subscribe rl p f = finish_subscription-Settled rl p _ f
finish_as-Settled suback rl p f = ground (arith, f)
finish_as-Settled unsubscribe rl p f = finish_subscription-Settled rl p _ f
finish_as-Settled unsuback rl p f = ground (arith, f)
finish_as-Settled pingreq rl p f = ground (arith, f)
finish_as-Settled pingresp rl p f = ground (arith, f)
finish_as-Settled disconnect rl p f = ground (arith, f)
finish_as-Settled auth rl p f = ground (arith, f)

pub finish_packet-Settled :
    (rl : List ℕ) (p : PacketParser) → Fits rl p → Settled rl (finish_packet p)
unfolding finish_packet
finish_packet-Settled rl p f = finish_as-Settled p.packet.type rl p f

begin_publish-Settled : (rl : List ℕ) (p : PacketParser) → Fits rl p → Settled rl (begin_publish p)
unfolding begin_publish
begin_publish-Settled rl p f = elim (Option-cases p.msg_pool) [
  | inl n ↦ ground (arith, f, n)
  | inr (pool, n) ↦ rw (begin_publish, n) (grind (arith, enter_error-Settled))
]

pub begin_as-Settled :
    (type : PacketType) (rl : List ℕ) (p : PacketParser) → Fits rl p → Settled rl (begin_as type p)
unfolding begin_as
begin_as-Settled reserved rl p f = ground (arith, f)
begin_as-Settled connect rl p f = ground (arith, f)
begin_as-Settled connack rl p f = ground (arith, f)
begin_as-Settled publish rl p f = begin_publish-Settled rl p f
begin_as-Settled puback rl p f = ground (arith, f)
begin_as-Settled pubrec rl p f = ground (arith, f)
begin_as-Settled pubrel rl p f = ground (arith, f)
begin_as-Settled pubcomp rl p f = ground (arith, f)
begin_as-Settled subscribe rl p f = ground (arith, f)
begin_as-Settled suback rl p f = ground (arith, f)
begin_as-Settled unsubscribe rl p f = ground (arith, f)
begin_as-Settled unsuback rl p f = ground (arith, f)
begin_as-Settled pingreq rl p f = ground (arith, f)
begin_as-Settled pingresp rl p f = ground (arith, f)
begin_as-Settled disconnect rl p f = ground (arith, f)
begin_as-Settled auth rl p f = ground (arith, f)

pub begin_body-Settled :
    (rl : List ℕ) (p : PacketParser) (value : ℕ) → p.rl_buf ≡ rl → Settled rl (begin_body p value)
unfolding begin_body
begin_body-Settled rl p value e =
    grind (arith, enter_error-Settled, finish_packet-Settled, begin_as-Settled)
