-- ===== src/TopicIntern/Tests.antt =====
-- Runs of the interning pool, and its theorems at concrete pools.
use net_burner_mqtt_broker.Base.{
  ℕ, ◌+◌, ◌≡◌, refl, arith, true, [], ◌∷◌, some, replicate, get_elem?, inr,
}
use net_burner_mqtt_broker.Delivery.{TopicHandle}
use net_burner_mqtt_broker.Topic.{topic_valid, is_valid_topic_char, same_bytes}
use net_burner_mqtt_broker.TopicIntern.{
  TopicInternPool, Entry, create, intern, valid, release, ref_count, c_str, entry_at,
}
use net_burner_mqtt_broker.TopicIntern.Compaction.{Placed, release-bytes_kept}

abbrev entry_of : ℕ → ℕ → ℕ → Entry
entry_of refs offset length = record {
  generation = 1;
  ref_count = refs;
  offset = offset;
  length = length;
  in_use = true;
}

-- "ab" and "c" in an arena of eight bytes.
abbrev two_topics : ℕ → TopicInternPool
two_topics refs = record {
  entries = entry_of refs 0 2 ∷ entry_of 1 3 1 ∷ [];
  blob = b'a' ∷ b'b' ∷ 0 ∷ b'c' ∷ 0 ∷ 9 ∷ 9 ∷ 9 ∷ [];
  blob_cap = 8;
  topic_count = 2;
  bytes_used = 5;
}

abbrev ab : TopicHandle
ab = record { slot = 0; generation = 1 }

abbrev c_handle : TopicHandle
c_handle = record { slot = 1; generation = 1 }

intern_and_release :
    let p = create (record { max_topics = 2; max_bytes = 8; max_topic_len = 8 }) (replicate 8 9) in
    let p1 = (intern p (some (b'a' ∷ b'b' ∷ []))).0 in
    let p2 = (intern p1 (some (b'c' ∷ []))).0 in c_str (release p2 ab) c_handle ≡ b'c' ∷ []
unfolding create intern topic_valid is_valid_topic_char same_bytes release c_str
intern_and_release = refl

ab-valid : (refs : ℕ) → valid (two_topics refs) ab ≡ true
unfolding valid
ab-valid refs = refl

ab-count : (refs : ℕ) → ref_count (two_topics refs) ab ≡ refs
unfolding ref_count valid
ab-count refs = refl

c-Placed : Placed (two_topics 1) (entry_of 1 0 2) (entry_of 1 3 1)
c-Placed = record {
  used = refl;
  inside = omega arith;
  word = omega arith;
  apart = inr (omega arith);
}

-- The byte "c" and its NUL move from 3 to 0.
release-bytes_kept_example :
    get_elem? (release (two_topics 1) ab).blob ((entry_at (release (two_topics 1) ab) 1).offset + 1)
    ≡ some 0
release-bytes_kept_example =
    release-bytes_kept (two_topics 1) ab 1 1 (ab-valid 1) (ab-count 1) (omega arith) (omega arith)
      (omega arith) (omega arith) refl c-Placed (omega arith)
