-- ===== src/Encode/Publish.antt =====
-- The windows in which `encode_publish` of libs/mqtt_broker/src/encode.cpp emits a PUBLISH.
use net_burner_mqtt_broker.Base.{
  ℕ, zero, suc, ◌+◌, ◌-◌, ◌≤◌, ◌<◌, ◌≡◌, refl, sym, ap, ◌∙◌, arith, Bool, false, Bool-cases, inl,
  inr, leb, ltb, ◌==◌, List, [], ◌++◌, length, length-append, take, drop, window, window_split,
  window-append_left, drop-append_right, length-window, min, u32,
}
use net_burner_mqtt_broker.Encode.{emit, publish_header, encode_publish}
use net_burner_mqtt_broker.Encode.Sizes.{estimate_publish_size-publish_header}
use net_burner_mqtt_broker.Base.{
  ◌&&◌, if◌then◌else◌, length-drop, drop-plus, take-rest, take_all, take_nil, drop_all, length-take,
}
use net_burner_mqtt_broker.Delivery.{MessageHandle}
use net_burner_mqtt_broker.MessagePool.{MessagePool, props}
use net_burner_mqtt_broker.MessagePool.Payload.{read_payload}
use net_burner_mqtt_broker.MessagePool.Reading.{Reads}
use mathlib.Core.Option

window_empty : (pos end : ℕ) (xs : List ℕ) → end ≤ pos → window pos end xs ≡ []
window_empty pos end xs h = let none_left : end - pos ≡ 0 = omega (arith, h) in rw none_left refl

-- A round that stops at `stop` and what follows it.
window_round :
    (pos stop end : ℕ) (xs rest : List ℕ)
    → pos ≤ stop
    → stop ≤ end
    → rest ≡ window (pos + (stop - pos)) end xs
    → window pos stop xs ++ rest ≡ window pos end xs
window_round pos stop end xs rest h k e =
    let there : pos + (stop - pos) ≡ stop = omega (arith, h) in
    ap (λ r. window pos stop xs ++ r) (e ∙ ap (λ n. window n end xs) there)
    ∙ sym (window_split pos stop end xs h k)

from_header :
    (pos stop end : ℕ) (header payload rest : List ℕ)
    → pos ≤ stop
    → stop ≤ end
    → stop ≤ length header
    → rest ≡ window (pos + (stop - pos)) end (header ++ payload)
    → take (stop - pos) (drop pos header) ++ rest ≡ window pos end (header ++ payload)
from_header pos stop end header payload rest h k l e =
    ap (λ w. w ++ rest) (sym (window-append_left pos stop header payload l h))
    ∙ window_round pos stop end (header ++ payload) rest h k e

from_payload :
    (pos end : ℕ) (header payload : List ℕ)
    → length header ≤ pos
    → take (end - pos) (drop (pos - length header) payload) ≡ window pos end (header ++ payload)
from_payload pos end header payload h =
    ap (take (end - pos))
      (sym (drop-append_right pos (pos - length header) header payload (omega (arith, h))))

-- With a round for each byte the loop emits the window of the header and the payload behind it.
pub emit-window :
    (fuel : ℕ) (header : List ℕ) (read : ℕ → ℕ → List ℕ) (payload : List ℕ) (pos end : ℕ)
    → Reads read payload
    → end ≤ length header + length payload
    → end - pos ≤ fuel
    → emit fuel header read pos end ≡ window pos end (header ++ payload)
unfolding emit
emit-window zero header read payload pos end r t f = sym (window_empty pos end _ (omega (arith, f)))
emit-window (suc fuel) header read payload pos end r t f =
    let all = header ++ payload in
    let hlen = length header in
    elim (Bool-cases (leb end pos)) [
      | inl e ↦ rw e (sym (window_empty pos end all (ground (arith, e))))
      | inr e ↦ elim (Bool-cases (ltb pos hlen)) [
        | inl i ↦ elim (Bool-cases (ltb end hlen)) [
          | inl s ↦
              rw (e, i, s)
                (from_header pos end end header payload _ (ground (arith, e)) (omega arith)
                  (ground (arith, s))
                  (emit-window fuel header read payload (pos + (end - pos)) end r t
                    (omega (arith, f))))
          | inr s ↦
              rw (e, i, s)
                (from_header pos hlen end header payload _ (ground (arith, i)) (ground (arith, s))
                  (omega arith)
                  (emit-window fuel header read payload (pos + (hlen - pos)) end r t
                    (ground (arith, f, i, e))))
        ]
        | inr i ↦
            let copied = window pos end all in
            let whole : end ≤ length all = omega (arith, t, length-append header payload) in
            let n = length-window pos end all whole in
            let c =
              r.copies (pos - hlen) (end - pos)
              ∙ from_payload pos end header payload (ground (arith, i)) in
            let filled : (length copied == 0) ≡ false = ground (arith, n, e) in
            rw (e, i, c, filled)
              (window_round pos end end all _ (ground (arith, e)) (omega arith) (
                emit-window fuel header read payload (pos + length copied) end r t
                  (ground (arith, f, n, e))
                ∙ ap (λ m. window (pos + m) end all) n))
      ]
    ]

-- The property bytes that go into a PUBLISH for a protocol level, and the whole packet.
unfoldable pub packet_props : MessagePool → MessageHandle → ℕ → List ℕ
packet_props pool msg level = if leb 5 level then Option.get_or (props pool msg) [] else []

unfoldable pub packet_bytes : List ℕ → Bool → ℕ → ℕ → Bool → List ℕ → List ℕ → Bool → ℕ → ℕ → List ℕ
packet_bytes topic retain qos packet_id dup prop_bytes payload has_expiry expiry level =
    publish_header topic retain qos packet_id dup prop_bytes (length payload)
      (has_expiry && leb 5 level) expiry level
    ++ payload

take-window :
    (room pos : ℕ) (xs : List ℕ)
    → pos ≤ length xs
    → window pos (min (pos + room) (length xs)) xs ≡ take room (drop pos xs)
take-window room pos xs h = elim (Bool-cases (leb (pos + room) (length xs))) [
  | inl e ↦
      let n : min (pos + room) (length xs) - pos ≡ room = ground (arith, e) in
      ap (λ n. take n (drop pos xs)) n
  | inr e ↦
      let n : min (pos + room) (length xs) - pos ≡ length xs - pos = ground (arith, e) in
      let d = length-drop pos xs in
      ap (λ n. take n (drop pos xs)) n
      ∙ take_all (length xs - pos) (drop pos xs) (omega (arith, d))
      ∙ sym (take_all room (drop pos xs) (ground (arith, d, e)))
]

-- One call of `encode_publish`, for a QoS of at most 2, an identifier if the QoS is not 0 and a
-- buffer of some bytes, stores the part of the packet that starts at the offset and fills the
-- buffer, or what is left; behind the packet's end nothing. The message's payload is read right,
-- and the sizes do not carry a 32-bit word over.
pub encode_publish-window :
    (room : ℕ) (topic : List ℕ) (retain : Bool) (qos packet_id : ℕ) (dup : Bool)
    (pool : MessagePool) (msg : MessageHandle) (payload : List ℕ) (offset : ℕ) (has_expiry : Bool)
    (expiry level : ℕ)
    → qos ≤ 2
    → (ltb 0 qos && packet_id == 0) ≡ false
    → 0 < room
    → offset + room < 4294967296
    → Reads (read_payload pool msg) payload
    → encode_publish room topic retain qos packet_id dup pool msg
        (length payload)
        offset
        has_expiry
        expiry
        level
      ≡ take room (
          drop offset (
            packet_bytes topic retain qos packet_id dup
              (packet_props pool msg level)
              payload
              has_expiry
              expiry
              level))
unfolding encode_publish packet_bytes packet_props
encode_publish-window room topic retain qos packet_id dup pool msg payload offset has_expiry expiry
      level q i c w r =
    let bytes = packet_props pool msg level in
    let v5 = leb 5 level in
    let header =
      publish_header topic retain qos packet_id dup bytes (length payload) (has_expiry && v5) expiry
        level in
    let all = header ++ payload in
    let legal : ltb 2 qos ≡ false = ground (arith, q) in
    let some_room : (room == 0) ≡ false = ground (arith, c) in
    let size =
      estimate_publish_size-publish_header topic retain qos packet_id dup bytes (length payload)
        (has_expiry && v5) expiry level q in
    let word : u32 (offset + room) ≡ offset + room = omega (arith, w) in
    let n = length-append header payload in
    elim (Bool-cases (leb (length all) offset)) [
      | inl e ↦
          rw (encode_publish, size, legal, i, some_room, sym n, e)
            (sym (take_nil room) ∙ ap (take room) (sym (drop_all offset all (ground (arith, e)))))
      | inr e ↦
          rw (encode_publish, size, legal, i, some_room, sym n, e, word)
            (emit-window room header (read_payload pool msg) payload offset
                (min (offset + room) (length all)) r (omega (arith, n)) (omega arith)
              ∙ take-window room offset all (ground (arith, e)))
    ]

-- The bytes of `rounds` calls, each of which starts where the last one ended.
pub in_pieces : ℕ → (ℕ → List ℕ) → ℕ → List ℕ
in_pieces zero send offset = []
in_pieces (suc rounds) send offset =
    send offset ++ in_pieces rounds send (offset + length (send offset))

pieces-rest :
    (rounds room : ℕ) (send : ℕ → List ℕ) (all : List ℕ) (offset : ℕ)
    → ((at : ℕ) → at ≤ length all → send at ≡ take room (drop at all))
    → 0 < room
    → offset ≤ length all
    → length all - offset ≤ rounds
    → in_pieces rounds send offset ≡ drop offset all
unfolding in_pieces
pieces-rest zero room send all offset s c l r = sym (drop_all offset all (omega (arith, r)))
pieces-rest (suc rounds) room send all offset s c l r =
    let piece = take room (drop offset all) in
    let n = length-take room (drop offset all) in
    let d = length-drop offset all in
    rw (s offset l) (
      ap (λ t. piece ++ t)
        (pieces-rest rounds room send all (offset + length piece) s c (omega (arith, n, d, l))
            (omega (arith, n, d, l, c, r))
          ∙ drop-plus (offset + length piece) offset (length piece) all refl)
      ∙ take-rest room (drop offset all))

-- However small the buffer is, from one byte on, successive calls of `encode_publish`, each from where the last one
-- ended, store the whole packet and nothing else, with no more calls than the packet has bytes; for
-- a QoS of at most 2, an identifier if the QoS is not 0, a payload that is read right and sizes
-- that do not carry a 32-bit word over.
pub encode_publish-pieces :
    (room : ℕ) (topic : List ℕ) (retain : Bool) (qos packet_id : ℕ) (dup : Bool)
    (pool : MessagePool) (msg : MessageHandle) (payload : List ℕ) (has_expiry : Bool)
    (expiry level rounds : ℕ)
    → qos ≤ 2
    → (ltb 0 qos && packet_id == 0) ≡ false
    → 0 < room
    → Reads (read_payload pool msg) payload
    → let all =
        packet_bytes topic retain qos packet_id dup
          (packet_props pool msg level)
          payload
          has_expiry
          expiry
          level in
      length all + room < 4294967296
      → length all ≤ rounds
      → in_pieces rounds
          (λ offset.
            encode_publish room topic retain qos packet_id dup pool msg
              (length payload)
              offset
              has_expiry
              expiry
              level)
          0
        ≡ all
encode_publish-pieces room topic retain qos packet_id dup pool msg payload has_expiry expiry level
      rounds q i c r w f =
    let all =
      packet_bytes topic retain qos packet_id dup (packet_props pool msg level) payload has_expiry
        expiry level in
    pieces-rest rounds room _ all 0
      (λ at l.
        encode_publish-window room topic retain qos packet_id dup pool msg payload at has_expiry
          expiry level q i c (omega (arith, l, w)) r)
      c (omega arith) (omega (arith, f))
