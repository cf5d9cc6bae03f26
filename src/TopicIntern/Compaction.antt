-- ===== src/TopicIntern/Compaction.antt =====
-- The hole that the last release of a topic leaves in the arena, and the other topics.
use net_burner_mqtt_broker.Base.{ℕ, ◌+◌, ◌-◌, ◌≤◌, ◌<◌, ◌≡◌, ◌≢◌, arith, ap, ◌∙◌, true}
use net_burner_mqtt_broker.Base.{
  List, map, some, length, get_elem?, set, take, drop, ◌⊎◌, length-take, length-drop, u16, sub32,
}
use net_burner_mqtt_broker.Base.{
  get_elem?-append_left, get_elem?-append_right, get_elem?-take, get_elem?-drop, get_elem?-map,
  get_elem?-set_ne,
}
use net_burner_mqtt_broker.Delivery.{TopicHandle}
use net_burner_mqtt_broker.TopicIntern.{
  TopicInternPool, Entry, entry_at, valid, release, ref_count, close_hole, moved, retired,
}

module _ (blob : List ℕ) (hole_start hole_len tail : ℕ)
    (fits : hole_start + hole_len + tail ≤ length blob) where
  -- Before the hole the arena is as it was.
  closed_before :
      (i : ℕ)
      → i < hole_start
      → get_elem? (close_hole blob hole_start hole_len tail) i ≡ get_elem? blob i
  closed_before i h =
      get_elem?-append_left (take hole_start blob) _ i (omega (arith, length-take hole_start blob))
      ∙ get_elem?-take hole_start blob i h

  -- What stood behind the hole has moved forward by its length.
  closed_behind :
      (i : ℕ)
      → hole_start ≤ i
      → i < hole_start + tail
      → get_elem? (close_hole blob hole_start hole_len tail) i ≡ get_elem? blob (i + hole_len)
  closed_behind i h k =
      get_elem?-append_right (take hole_start blob) _ i (i - hole_start)
        (omega (arith, length-take hole_start blob))
      ∙ get_elem?-append_left (take tail (drop (hole_start + hole_len) blob)) _ (i - hole_start) (
          omega (
            arith,
            length-take tail (drop (hole_start + hole_len) blob),
            length-drop (hole_start + hole_len) blob,
          ))
      ∙ get_elem?-take tail (drop (hole_start + hole_len) blob) (i - hole_start) (omega arith)
      ∙ get_elem?-drop (hole_start + hole_len) blob (i - hole_start) (i + hole_len) (omega arith)

-- Entry `e` lies inside the used part of the arena, apart from entry `gone`, with its NUL.
pub record Placed (p : TopicInternPool) (gone e : Entry) : Type 0 where
  pub used : e.in_use ≡ true
  pub inside : e.offset + e.length + 1 ≤ p.bytes_used
  pub word : e.offset < 65536
  pub apart : (e.offset + e.length + 1 ≤ gone.offset) ⊎ (gone.offset + gone.length + 1 ≤ e.offset)

-- When the last reference to a topic goes, each byte of every other topic, its NUL included, is
-- found at that topic's new offset.
pub release-bytes_kept :
    (p : TopicInternPool) (h : TopicHandle) (j k : ℕ) {e : Entry}
    → valid p h ≡ true
    → ref_count p h ≡ 1
    → (entry_at p h.slot).offset + (entry_at p h.slot).length + 1 ≤ p.bytes_used
    → p.bytes_used ≤ length p.blob
    → p.bytes_used < 4294967296
    → h.slot ≢ j
    → get_elem? p.entries j ≡ some e
    → Placed p (entry_at p h.slot) e
    → k ≤ e.length
    → get_elem? (release p h).blob ((entry_at (release p h) j).offset + k)
      ≡ get_elem? p.blob (e.offset + k)
unfolding release ref_count
release-bytes_kept p h j k {e} v one inside room word apart at placed hk =
    ground (arith, entry, before, behind)
  where
    gone : Entry
    gone = entry_at p h.slot

    hole : ℕ
    hole = gone.length + 1

    tail : ℕ
    tail = sub32 p.bytes_used (gone.offset + hole)

    entry :
        get_elem? (map (moved gone.offset hole) (set p.entries h.slot (retired gone))) j
        ≡ some (moved gone.offset hole e)
    entry =
        get_elem?-map (moved gone.offset hole) (set p.entries h.slot (retired gone)) j
          (get_elem?-set_ne p.entries h.slot j (retired gone) apart ∙ at)

    before :
        e.offset + k < gone.offset
        → get_elem? (close_hole p.blob gone.offset hole tail) (e.offset + k)
          ≡ get_elem? p.blob (e.offset + k)
    before = closed_before p.blob gone.offset hole tail (omega arith) (e.offset + k)

    behind :
        gone.offset + hole ≤ e.offset
        → get_elem? (close_hole p.blob gone.offset hole tail) (u16 (e.offset - hole) + k)
          ≡ get_elem? p.blob (e.offset + k)
    behind h' =
        closed_behind p.blob gone.offset hole tail (omega arith) (u16 (e.offset - hole) + k)
          (omega arith) (omega arith)
        ∙ ap (get_elem? p.blob) (omega arith)
