-- ===== src/Parser/Buffers.antt =====
-- The arrays of the parser in libs/mqtt_broker/src/parser.cpp: what is written to `rl_buf_` and to
-- `control_buf_`.
use net_burner_mqtt_broker.Base.{
  ℕ, ◌+◌, ◌≤◌, ◌≡◌, refl, ap, true, false, arith, List, [], ◌∷◌, ◌++◌, ltb, length, length-append,
  if◌then◌else◌,
}
use net_burner_mqtt_broker.Varint.{varint_decode}
use net_burner_mqtt_broker.Varint.Consumed.{varint_decode_needs}
use net_burner_mqtt_broker.Parser.Packet.{
  PacketParser, ParsePhase, idle, fixed_header_phase, remaining_length_phase, variable_header,
  properties_phase, payload_phase, complete, error,
}
use net_burner_mqtt_broker.Parser.Machine.{
  enter_error, consume_fixed_header, consume_remaining_length, consume_variable_header,
  consume_properties, consume_payload, consume_in, consume_byte, feed,
}
use net_burner_mqtt_broker.Parser.Settled.{
  Settled, reads_length, enter_error-Settled, begin_body-Settled,
}
use net_burner_mqtt_broker.Parser.Phases.{
  by_answer, consume_variable_header-Settled, consume_properties-Settled, consume_payload-Settled,
}

-- The bytes in `rl_buf` and, in the phase that stores one more without a test, that one are at most
-- the four for which the array has room; so is `control_buf`, whose writes are tested, at most 1024.
pub record InBounds (p : PacketParser) : Type 0 where
  pub rl : length p.rl_buf + (if reads_length p.phase then 1 else 0) ≤ 4
  pub control : length p.control_buf ≤ 1024

Settled-InBounds : (rl : List ℕ) (p : PacketParser) → length rl ≤ 4 → Settled rl p → InBounds p
Settled-InBounds rl p l s = record {
  rl = rw (s.phase, s.fits.same) (omega (arith, l));
  control = s.fits.control;
}

consume_remaining_length-InBounds :
    (p : PacketParser) (b : ℕ)
    → length p.rl_buf ≤ 3
    → length p.control_buf ≤ 1024
    → reads_length p.phase ≡ true
    → InBounds (consume_remaining_length p b)
unfolding consume_remaining_length
consume_remaining_length-InBounds p b l c e =
    let rl = p.rl_buf ++ (b ∷ []) in
    let p' : PacketParser = record p { rl_buf = rl } in
    let four : length rl ≤ 4 = omega (arith, l, length-append p.rl_buf (b ∷ [])) in
    let wrong =
      Settled-InBounds rl (enter_error p' 0x81) four
        (enter_error-Settled rl p' 0x81 (record { same = refl; control = c })) in
    let short : ltb 4 (length rl) ≡ false = ground (arith, four) in
    rw (consume_remaining_length, short)
      (by_answer InBounds (varint_decode rl).result _ _ _ _
        (λ a. Settled-InBounds rl _ four (begin_body-Settled rl p' (varint_decode rl).value refl))
        (λ a. record { rl = rw e (omega (arith, varint_decode_needs rl a)); control = c }) wrong
        wrong)

fixed_header-InBounds :
    (p : PacketParser) (b : ℕ) → InBounds p → InBounds (consume_fixed_header p b)
unfolding consume_fixed_header
fixed_header-InBounds p b i = record { rl = omega arith; control = i.control }

-- A step that keeps the parser settled keeps the bounds.
step-InBounds :
    (step : PacketParser → ℕ → PacketParser)
    → ((rl : List ℕ) (p : PacketParser) (b : ℕ) → Settled rl p → Settled rl (step p b))
    → (p : PacketParser) (b : ℕ) → reads_length p.phase ≡ false
    → InBounds p
    → InBounds (step p b)
step-InBounds step keeps p b e i =
    Settled-InBounds p.rl_buf (step p b) (omega (arith, i.rl)) (
      keeps p.rl_buf p b (record { fits = record { same = refl; control = i.control }; phase = e }))

consume_in-InBounds :
    (ph : ParsePhase) (p : PacketParser) (b : ℕ)
    → p.phase ≡ ph
    → InBounds p
    → InBounds (consume_in ph p b).0
unfolding consume_in
consume_in-InBounds idle p b e i = fixed_header-InBounds p b i
consume_in-InBounds fixed_header_phase p b e i = fixed_header-InBounds p b i
consume_in-InBounds remaining_length_phase p b e i =
    consume_remaining_length-InBounds p b (ground (arith, i.rl, e)) i.control (ap reads_length e)
consume_in-InBounds variable_header p b e i =
    step-InBounds consume_variable_header consume_variable_header-Settled p b (ap reads_length e) i
consume_in-InBounds properties_phase p b e i =
    step-InBounds consume_properties consume_properties-Settled p b (ap reads_length e) i
consume_in-InBounds payload_phase p b e i =
    step-InBounds consume_payload consume_payload-Settled p b (ap reads_length e) i
consume_in-InBounds complete p b e i = i
consume_in-InBounds error p b e i = i

-- The parser's buffers keep within their arrays, whatever bytes arrive and whatever state, within
-- these bounds, the parser is in.
pub feed-InBounds : (p : PacketParser) (bytes : List ℕ) → InBounds p → InBounds (feed p bytes).0
unfolding feed consume_byte
feed-InBounds p [] i = i
feed-InBounds p (b ∷ bytes) i =
    let next = consume_in-InBounds p.phase p b refl i in
    ground (arith, i, next, feed-InBounds (consume_byte p b).0 bytes next)
