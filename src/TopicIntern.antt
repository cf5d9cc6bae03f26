-- ===== src/TopicIntern.antt =====
-- libs/mqtt_broker/src/topic_intern.cpp and include/mqtt_broker/topic_intern.hpp: topic strings, each
-- kept once in a common byte arena, under handles with reference counts and generations.
pub mod Handles
pub mod Compaction
mod Tests
use net_burner_mqtt_broker.Base.{
  ℕ, zero, suc, ◌+◌, ◌-◌, Bool, true, false, ◌&&◌, ◌||◌, not, ltb, leb, ◌==◌,
}
use net_burner_mqtt_broker.Base.{
  if◌then◌else◌, List, [], ◌∷◌, ◌++◌, map, Option, none, some, length, get_elem?, set, take, drop,
  replicate, u16, sub32,
}
use net_burner_mqtt_broker.Delivery.{TopicHandle, null_topic}
use net_burner_mqtt_broker.Topic.{topic_valid, same_bytes}
use mathlib.Core.Option

pub record TopicInternConfig : Type 0 where
  pub max_topics : ℕ
  pub max_bytes : ℕ
  pub max_topic_len : ℕ

pub record Entry : Type 0 where
  pub generation : ℕ
  pub ref_count : ℕ
  pub offset : ℕ
  pub length : ℕ
  pub in_use : Bool

pub record TopicInternPool : Type 0 where
  pub entries : List Entry
  pub blob : List ℕ
  pub blob_cap : ℕ
  pub topic_count : ℕ
  pub bytes_used : ℕ

abbrev pub blank_entry : Entry
blank_entry = record { generation = 1; ref_count = 0; offset = 0; length = 0; in_use = false }

-- The constructor; `memory` is the arena that `new` gives. `offset` and `length` are set with `in_use`.
unfoldable pub create : TopicInternConfig → List ℕ → TopicInternPool
create cfg memory = record {
  entries = replicate cfg.max_topics blank_entry;
  blob = memory;
  blob_cap = cfg.max_bytes;
  topic_count = 0;
  bytes_used = 0;
}

abbrev pub entry_at : TopicInternPool → ℕ → Entry
entry_at p i = Option.get_or (get_elem? p.entries i) blank_entry

abbrev pub put_entry : TopicInternPool → ℕ → Entry → TopicInternPool
put_entry p i e = record p { entries = set p.entries i e }

unfoldable pub valid : TopicInternPool → TopicHandle → Bool
valid p h =
    if h.slot == 0xffff || leb (length p.entries) h.slot
    then false
    else let e = entry_at p h.slot in e.in_use && e.generation == h.generation

-- The bytes of an entry in the arena.
abbrev pub stored : List ℕ → Entry → List ℕ
stored blob e = take e.length (drop e.offset blob)

-- The first entry in use that holds `topic`.
unfoldable pub find_topic : List ℕ → List ℕ → List Entry → Option ℕ
find_topic blob topic [] = none
find_topic blob topic (e ∷ es) =
    let rest = Option.map suc (find_topic blob topic es) in
    if e.in_use && e.length == length topic && same_bytes (stored blob e) topic
    then some 0
    else rest

unfoldable pub find_unused : List Entry → Option ℕ
find_unused [] = none
find_unused (e ∷ es) =
    let rest = Option.map suc (find_unused es) in if not e.in_use then some 0 else rest

-- `memcpy(blob + at, bytes, n)` inside the arena.
abbrev pub overwrite : List ℕ → ℕ → List ℕ → List ℕ
overwrite blob at bytes = take at blob ++ (bytes ++ drop (at + length bytes) blob)

-- The handle that `intern` returns for entry `i`.
abbrev handle_of : TopicInternPool → ℕ → TopicHandle
handle_of p i = record { slot = u16 i; generation = (entry_at p i).generation }

-- `topic` is the argument, `none` for a null pointer.
unfoldable pub intern : TopicInternPool → Option (List ℕ) → TopicInternPool × TopicHandle
unfolding find_topic find_unused
intern p none = (p, null_topic)
intern p (some topic) =
    if not (topic_valid (some topic)) || length topic == 0
    then (p, null_topic)
    else elim (find_topic p.blob topic p.entries) [
      | some i ↦ (
        put_entry p i (record (entry_at p i) { ref_count = u16 ((entry_at p i).ref_count + 1) }),
        handle_of p i,
      )
      | none ↦
          if ltb p.blob_cap (p.bytes_used + length topic + 1)
          then (p, null_topic)
          else elim (find_unused p.entries) [
            | none ↦ (p, null_topic)
            | some i ↦ (
              record p {
                entries = set p.entries i (record (entry_at p i) {
                  in_use = true;
                  ref_count = 1;
                  offset = u16 p.bytes_used;
                  length = u16 (length topic);
                });
                blob = overwrite p.blob p.bytes_used (topic ++ (0 ∷ []));
                bytes_used = p.bytes_used + length topic + 1;
                topic_count = p.topic_count + 1;
              },
              handle_of p i,
            )
          ]
    ]

unfoldable pub acquire : TopicInternPool → TopicHandle → TopicInternPool × Bool
unfolding valid
acquire p h =
    let e = entry_at p h.slot in
    if not (valid p h)
    then (p, false)
    else (put_entry p h.slot (record e { ref_count = u16 (e.ref_count + 1) }), true)

-- The entry after its last reference has gone.
abbrev pub retired : Entry → Entry
retired e = record e {
  ref_count = 0;
  in_use = false;
  generation = if u16 (e.generation + 1) == 0 then 1 else u16 (e.generation + 1);
}

-- `memmove(blob + hole_start, blob + hole_start + hole_len, tail)`
abbrev pub close_hole : List ℕ → ℕ → ℕ → ℕ → List ℕ
close_hole blob hole_start hole_len tail =
    overwrite blob hole_start (take tail (drop (hole_start + hole_len) blob))

-- The offset of an entry behind the hole falls by the hole's length.
abbrev pub moved : ℕ → ℕ → Entry → Entry
moved hole_start hole_len e =
    if e.in_use && ltb hole_start e.offset
    then record e { offset = u16 (e.offset - hole_len) }
    else e

unfoldable pub release : TopicInternPool → TopicHandle → TopicInternPool
unfolding valid
release p h =
    let e = entry_at p h.slot in
    if not (valid p h)
    then p
    else if e.ref_count == 0
    then p
    else if ltb 0 (e.ref_count - 1)
    then put_entry p h.slot (record e { ref_count = e.ref_count - 1 })
    else let hole_len = e.length + 1 in
      let tail = sub32 p.bytes_used (e.offset + hole_len) in
      record p {
        entries = map (moved e.offset hole_len) (set p.entries h.slot (retired e));
        blob = close_hole p.blob e.offset hole_len tail;
        topic_count = sub32 p.topic_count 1;
        bytes_used = sub32 p.bytes_used hole_len;
      }

unfoldable pub ref_count : TopicInternPool → TopicHandle → ℕ
ref_count p h = if not (valid p h) then 0 else (entry_at p h.slot).ref_count

-- The characters before the NUL.
abbrev pub until_nul : List ℕ → List ℕ
until_nul [] = []
until_nul (c ∷ s) = let rest = until_nul s in if c == 0 then [] else c ∷ rest

unfoldable pub c_str : TopicInternPool → TopicHandle → List ℕ
c_str p h = if not (valid p h) then [] else until_nul (drop (entry_at p h.slot).offset p.blob)
