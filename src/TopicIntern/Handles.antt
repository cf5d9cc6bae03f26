-- ===== src/TopicIntern/Handles.antt =====
-- The life of a topic handle: shared, given back, stale; and what the missing limit on references does.
use net_burner_mqtt_broker.Base.{
  ℕ, ◌+◌, ◌<◌, ◌≡◌, ◌≢◌, refl, arith, ap, true, false, List, [], length, get_elem?, set, map,
  length-set, get_elem?-set_self, get_elem?-map, u16,
}
use net_burner_mqtt_broker.Delivery.{TopicHandle}
use net_burner_mqtt_broker.TopicIntern.{
  TopicInternPool, Entry, blank_entry, entry_at, valid, acquire, release, ref_count, c_str, retired,
  moved,
}
use mathlib.Core.Option

record Live (p : TopicInternPool) (h : TopicHandle) : Type 0 where
  proper : h.slot ≢ 0xffff
  inside : h.slot < length p.entries
  used : (entry_at p h.slot).in_use ≡ true
  current : (entry_at p h.slot).generation ≡ h.generation

valid-Live : (p : TopicInternPool) (h : TopicHandle) → valid p h ≡ true → Live p h
unfolding valid
valid-Live p h e = ground arith

put_self :
    (es : List Entry) (i : ℕ) (e : Entry)
    → i < length es
    → Option.get_or (get_elem? (set es i e) i) blank_entry ≡ e
put_self es i e h = ap (λ o. Option.get_or o blank_entry) (get_elem?-set_self es i e h)

retired_stays : (start len : ℕ) (e : Entry) → moved start len (retired e) ≡ retired e
retired_stays start len e = refl

-- The last release makes the handle stale: it is no longer valid, and its text reads as empty.
pub release_last :
    (p : TopicInternPool) (h : TopicHandle)
    → valid p h ≡ true
    → ref_count p h ≡ 1
    → h.generation < 65536
    → (valid (release p h) h ≡ false) × (c_str (release p h) h ≡ [])
unfolding c_str
release_last p h v one word = (stale, rw stale)
  where
    e : Entry
    e = entry_at p h.slot

    live : Live p h
    live = valid-Live p h v

    gone :
        Option.get_or
          (get_elem?
            (map (moved e.offset (e.length + 1)) (set p.entries h.slot (retired e)))
            h.slot)
          blank_entry
        ≡ retired e
    gone =
        ap (λ o. Option.get_or o blank_entry)
          (get_elem?-map (moved e.offset (e.length + 1)) (set p.entries h.slot (retired e)) h.slot
            (get_elem?-set_self p.entries h.slot (retired e) live.inside))

    stale : valid (release p h) h ≡ false
    stale = unfold release ref_count valid in ground (arith, live, gone)

-- References to one topic are counted in 16 bits with no limit: the 65536th makes the count 0, and
-- from then on `release` does nothing, so the entry is never freed.
pub acquire_wraps :
    (p : TopicInternPool) (h : TopicHandle)
    → valid p h ≡ true
    → ref_count p h ≡ 65535
    → ((acquire p h).1 ≡ true)
      × (ref_count (acquire p h).0 h ≡ 0)
      × (release (acquire p h).0 h ≡ (acquire p h).0)
unfolding acquire release ref_count
acquire_wraps p h v full =
    let e = entry_at p h.slot in
    let live = valid-Live p h v in
    let more = record e { ref_count = u16 (e.ref_count + 1) } in
    ground
      (arith, live, length-set p.entries h.slot more, put_self p.entries h.slot more live.inside)
