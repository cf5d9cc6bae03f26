-- ===== src/Varint/Consumed.antt =====
-- How many bytes a successful decoding takes, whatever the bytes are.
use net_burner_mqtt_broker.Base.{
  ℕ, zero, suc, ◌+◌, ◌≤◌, ◌≡◌, ◌*◌, bit_and, u32, arith, List, [], ◌∷◌, length,
}
use net_burner_mqtt_broker.Varint.{ok, need_more, varint_loop, varint_exit, varint_decode}

loop_consumed :
    (len rounds : ℕ) (bs : List ℕ) (i value multiplier : ℕ)
    → (varint_loop len rounds bs i value multiplier).result ≡ ok
    → let d = varint_loop len rounds bs i value multiplier in
      (i + 1 ≤ d.bytes_consumed) × (d.bytes_consumed ≤ i + length bs)
unfolding varint_loop varint_exit
loop_consumed len zero bs i value multiplier h = ground arith
loop_consumed len (suc rounds) [] i value multiplier h = ground arith
loop_consumed len (suc rounds) (b ∷ bs) i value multiplier h = ground (
  arith,
  loop_consumed len rounds bs (i + 1) (u32 (value + u32 (bit_and b 0x7f * multiplier)))
      (u32 (multiplier * 128)),
)

pub varint_decode_consumed :
    (bs : List ℕ)
    → (varint_decode bs).result ≡ ok
    → (1 ≤ (varint_decode bs).bytes_consumed) × ((varint_decode bs).bytes_consumed ≤ length bs)
unfolding varint_decode
varint_decode_consumed bs h = ground (arith, loop_consumed (length bs) 4 bs 0 0 1 h)

loop_needs :
    (len rounds : ℕ) (bs : List ℕ) (i value multiplier : ℕ)
    → (varint_loop len rounds bs i value multiplier).result ≡ need_more
    → len ≤ 3
unfolding varint_loop varint_exit
loop_needs len zero bs i value multiplier h = ground arith
loop_needs len (suc rounds) [] i value multiplier h = ground arith
loop_needs len (suc rounds) (b ∷ bs) i value multiplier h = ground (
  arith,
  loop_needs len rounds bs (i + 1) (u32 (value + u32 (bit_and b 0x7f * multiplier)))
      (u32 (multiplier * 128)),
)

pub varint_decode_needs : (bs : List ℕ) → (varint_decode bs).result ≡ need_more → length bs ≤ 3
unfolding varint_decode
varint_decode_needs bs h = loop_needs (length bs) 4 bs 0 0 1 h
