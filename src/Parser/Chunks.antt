-- ===== src/Parser/Chunks.antt =====
-- How `feed` of libs/mqtt_broker/src/parser.cpp takes bytes that arrive in pieces.
use net_burner_mqtt_broker.Base.{
  ℕ, ◌+◌, ◌≡◌, refl, ap, true, false, Bool-cases, inl, inr, arith, List, [], ◌∷◌, ◌++◌,
}
use net_burner_mqtt_broker.Parser.Packet.{
  PacketParser, ParsePhase, idle, fixed_header_phase, remaining_length_phase, variable_header,
  properties_phase, payload_phase, complete, error,
}
use net_burner_mqtt_broker.Parser.Machine.{consume_in, consume_byte, has_ended, feed}

consume_in-count :
    (ph : ParsePhase) (p : PacketParser) (b : ℕ) → has_ended ph ≡ false → (consume_in ph p b).1 ≡ 1
unfolding consume_in
consume_in-count idle p b h = refl
consume_in-count fixed_header_phase p b h = refl
consume_in-count remaining_length_phase p b h = refl
consume_in-count variable_header p b h = refl
consume_in-count properties_phase p b h = refl
consume_in-count payload_phase p b h = refl
consume_in-count complete p b h = absurd (ground (arith, h))
consume_in-count error p b h = absurd (ground (arith, h))

pub consume_byte-count :
    (p : PacketParser) (b : ℕ) → has_ended p.phase ≡ false → (consume_byte p b).1 ≡ 1
unfolding consume_byte
consume_byte-count p b h = consume_in-count p.phase p b h

pub feed_ended :
    (p : PacketParser) (bytes : List ℕ) → has_ended p.phase ≡ true → feed p bytes ≡ (p, 0)
unfolding feed
feed_ended p [] h = refl
feed_ended p (b ∷ bytes) h = rw h

pub feed_cons :
    (p : PacketParser) (b : ℕ) (bytes : List ℕ)
    → has_ended p.phase ≡ false
    → feed p (b ∷ bytes)
      ≡ ((feed ((consume_byte p b).0) bytes).0, 1 + (feed ((consume_byte p b).0) bytes).1)
unfolding feed
feed_cons p b bytes h = rw (h, consume_byte-count p b h) refl

-- One call of `feed` on bytes does what two calls do on two pieces of them: the parser is left the
-- same, and the numbers of bytes taken add up.
pub feed_pieces :
    (p : PacketParser) (xs ys : List ℕ)
    → feed p (xs ++ ys) ≡ (let (p1, n1) = feed p xs in let (p2, n2) = feed p1 ys in (p2, n1 + n2))
unfolding feed
feed_pieces p [] ys = ap (λ n. ((feed p ys).0, n)) (omega arith)
feed_pieces p (x ∷ xs) ys = elim (Bool-cases (has_ended p.phase)) [
  | inl e ↦ rw (e, feed_ended p ys e) refl
  | inr e ↦
      rw (e, consume_byte-count p x e, feed_pieces ((consume_byte p x).0) xs ys)
        (ap (λ n. ((feed ((feed ((consume_byte p x).0) xs).0) ys).0, n)) (omega arith))
]
