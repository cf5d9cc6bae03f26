-- ===== src/Retained.antt =====
-- libs/mqtt_broker/src/retained_store.cpp and include/mqtt_broker/retained_store.hpp: one message per
-- topic, kept under references of its own. The pools are arguments, `none` for a null pointer, and
-- are returned as a method leaves them.
pub mod Put
mod Tests
use net_burner_mqtt_broker.Base.{
  ℕ, zero, suc, ◌+◌, ◌-◌, Bool, true, false, ◌&&◌, ◌||◌, not, ltb, leb, ◌==◌, u32, sub32,
  if◌then◌else◌,
}
use net_burner_mqtt_broker.Base.{
  List, [], ◌∷◌, Option, none, some, length, get_elem?, set, replicate,
}
use net_burner_mqtt_broker.Delivery.{MessageHandle, TopicHandle, null_message, null_topic}
use net_burner_mqtt_broker.MessagePool.{
  MessagePool, msg_valid, msg_acquire, msg_release, payload_size,
}
use net_burner_mqtt_broker.TopicIntern.{TopicInternPool, valid, acquire, release}
use mathlib.Core.Option

pub record RetainedStoreConfig : Type 0 where
  pub max_entries : ℕ
  pub max_bytes : ℕ

pub record RetainedEntry : Type 0 where
  pub topic : TopicHandle
  pub message : MessageHandle
  pub in_use : Bool

-- `allocated` says that `entries_` is not null; `cap_` is the length of `entries`.
pub record RetainedStore : Type 0 where
  pub allocated : Bool
  pub entries : List RetainedEntry
  pub count : ℕ
  pub bytes_used : ℕ
  pub byte_limit : ℕ

abbrev pub vacant : RetainedEntry
vacant = record { topic = null_topic; message = null_message; in_use = false }

-- The constructor, where the allocation succeeds.
unfoldable pub create : RetainedStoreConfig → RetainedStore
create cfg = record {
  allocated = true;
  entries = replicate cfg.max_entries vacant;
  count = 0;
  bytes_used = 0;
  byte_limit = cfg.max_bytes;
}

abbrev pub same_topic : TopicHandle → TopicHandle → Bool
same_topic a b = a.slot == b.slot && a.generation == b.generation

abbrev pub keeps : TopicHandle → RetainedEntry → Bool
keeps topic e = e.in_use && same_topic e.topic topic

-- The index of the first entry of the topic, and of the first that is not in use.
unfoldable pub find_retained : TopicHandle → List RetainedEntry → Option ℕ
find_retained topic [] = none
find_retained topic (e ∷ es) =
    let rest = Option.map suc (find_retained topic es) in if keeps topic e then some 0 else rest

unfoldable pub find_vacant : List RetainedEntry → Option ℕ
find_vacant [] = none
find_vacant (e ∷ es) =
    let rest = Option.map suc (find_vacant es) in if not e.in_use then some 0 else rest

abbrev pub entry_at : List RetainedEntry → ℕ → RetainedEntry
entry_at es i = Option.get_or (get_elem? es i) vacant

-- The branch of `put` that replaces the message of entry `i`.
unfoldable pub replace_message :
    RetainedStore → ℕ → MessageHandle → MessagePool → RetainedStore × MessagePool × Bool
replace_message s i msg pool =
    let e = entry_at s.entries i in
    let payload_len = payload_size pool msg in
    let old_len = payload_size pool e.message in
    if ltb old_len payload_len && ltb s.byte_limit (u32 (sub32 s.bytes_used old_len + payload_len))
    then (s, pool, false)
    else let (pool', acquired) = msg_acquire (msg_release pool e.message) msg in
      if not acquired
      then (
        record s {
          entries = set s.entries i (record e { in_use = false });
          count = sub32 s.count 1;
        },
        pool',
        false,
      )
      else (
        record s {
          entries = set s.entries i (record e { message = msg });
          bytes_used = u32 (
              (if leb old_len s.bytes_used then s.bytes_used - old_len else s.bytes_used)
              + payload_len);
        },
        pool',
        true,
      )

-- The branch of `put` for a topic that has no entry.
unfoldable pub add_message :
    RetainedStore
    → TopicHandle
    → MessageHandle
    → MessagePool
    → TopicInternPool
    → RetainedStore × MessagePool × TopicInternPool × Bool
unfolding find_vacant
add_message s topic msg pool intern =
    let payload_len = payload_size pool msg in
    let (pool', has_message) = msg_acquire pool msg in
    let (intern', has_topic) = acquire intern topic in
    if ltb s.byte_limit (u32 (s.bytes_used + payload_len))
    then (s, pool, intern, false)
    else elim (find_vacant s.entries) [
      | none ↦ (s, pool, intern, false)
      | some i ↦
          if not has_message
          then (s, pool', intern, false)
          else if not has_topic
          then (s, msg_release pool' msg, intern', false)
          else (
            record s {
              entries = set s.entries i (record { topic = topic; message = msg; in_use = true });
              count = u32 (s.count + 1);
              bytes_used = u32 (s.bytes_used + payload_len);
            },
            pool',
            intern',
            true,
          )
    ]

-- `put` with pools that are there; with a null pool the code returns false at once.
unfoldable pub put :
    RetainedStore
    → TopicHandle
    → MessageHandle
    → MessagePool
    → TopicInternPool
    → RetainedStore × MessagePool × TopicInternPool × Bool
unfolding find_retained replace_message add_message
put s topic msg pool intern =
    if not s.allocated || not (valid intern topic) || not (msg_valid pool msg)
    then (s, pool, intern, false)
    else elim (find_retained topic s.entries) [
      | some i ↦
          let (s', pool', answer) = replace_message s i msg pool in (s', pool', intern, answer)
      | none ↦ add_message s topic msg pool intern
    ]

unfoldable pub get_message : TopicHandle → List RetainedEntry → MessageHandle
get_message topic [] = null_message
get_message topic (e ∷ es) =
    let rest = get_message topic es in if keeps topic e then e.message else rest

unfoldable pub get : RetainedStore → TopicHandle → MessageHandle
unfolding get_message
get s topic = if not s.allocated then null_message else get_message topic s.entries

-- `entry_at` with pointers that are not null: what is stored behind them, `none` for false.
unfoldable pub stored_at : RetainedStore → ℕ → Option (TopicHandle × MessageHandle)
stored_at s index =
    if not s.allocated || leb (length s.entries) index
    then none
    else if not (entry_at s.entries index).in_use
    then none
    else some ((entry_at s.entries index).topic, (entry_at s.entries index).message)

-- `remove`, with a message pool that is there; with a null one the code returns at once.
unfoldable pub remove_retained :
    RetainedStore
    → TopicHandle
    → MessagePool
    → Option TopicInternPool
    → RetainedStore × MessagePool × Option TopicInternPool
unfolding find_retained
remove_retained s topic pool intern =
    if not s.allocated then (s, pool, intern) else elim (find_retained topic s.entries) [
      | none ↦ (s, pool, intern)
      | some i ↦
          let e = entry_at s.entries i in
          let len = payload_size pool e.message in
          (
            record s {
              entries = set s.entries i vacant;
              count = if ltb 0 s.count then s.count - 1 else s.count;
              bytes_used = if leb len s.bytes_used then s.bytes_used - len else s.bytes_used;
            },
            msg_release pool e.message,
            Option.map (λ p. release p e.topic) intern,
          )
    ]
