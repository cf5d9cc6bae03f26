-- ===== src/Retained/Put.antt =====
-- What `get` answers after `put`.
use net_burner_mqtt_broker.Base.{
  ℕ, zero, suc, ◌≡◌, arith, true, false, List, [], ◌∷◌, none, some, set, Option-cases, inl, inr,
}
use net_burner_mqtt_broker.Delivery.{MessageHandle, TopicHandle}
use net_burner_mqtt_broker.MessagePool.{MessagePool}
use net_burner_mqtt_broker.TopicIntern.{TopicInternPool}
use net_burner_mqtt_broker.Retained.{
  RetainedStore, RetainedEntry, same_topic, find_retained, find_vacant, entry_at,
}
use net_burner_mqtt_broker.Retained.{replace_message, add_message, put, get_message, get}

-- Writing the found entry of the topic anew.
get-replaced :
    (topic g : TopicHandle) (es : List RetainedEntry) (i : ℕ) (msg : MessageHandle)
    → find_retained topic es ≡ some i
    → same_topic g topic ≡ false
    → let es' = set es i (record (entry_at es i) { message = msg }) in
      (get_message topic es' ≡ msg) × (get_message g es' ≡ get_message g es)
unfolding find_retained get_message
get-replaced topic g [] i msg h other = cc
get-replaced topic g (e ∷ es) zero msg h other = elim (Option-cases (find_retained topic es)) [
  | inl n ↦ ground (arith, n)
  | inr (j, n) ↦ ground (arith, n)
]
get-replaced topic g (e ∷ es) (suc i) msg h other = elim (Option-cases (find_retained topic es)) [
  | inl n ↦ absurd (ground (arith, n))
  | inr (j, n) ↦ ground (arith, n, get-replaced topic g es i msg (ground (arith, n)) other)
]

-- Writing a new entry where none was in use.
get-added :
    (topic g : TopicHandle) (es : List RetainedEntry) (i : ℕ) (msg : MessageHandle)
    → find_retained topic es ≡ none
    → find_vacant es ≡ some i
    → same_topic g topic ≡ false
    → let es' = set es i (record { topic = topic; message = msg; in_use = true }) in
      (get_message topic es' ≡ msg) × (get_message g es' ≡ get_message g es)
unfolding find_retained find_vacant get_message
get-added topic g [] i msg h v other = cc
get-added topic g (e ∷ es) zero msg h v other = elim (Option-cases (find_vacant es)) [
  | inl n ↦ ground (arith, n)
  | inr (j, n) ↦ ground (arith, n)
]
get-added topic g (e ∷ es) (suc i) msg h v other = elim (Option-cases (find_vacant es)) [
  | inl n ↦ absurd (ground (arith, n))
  | inr (j, n) ↦ elim (Option-cases (find_retained topic es)) [
    | inl m ↦ ground (arith, n, m, get-added topic g es i msg m (ground (arith, n)) other)
    | inr (k, m) ↦ absurd (ground (arith, m))
  ]
]

replaced :
    (s : RetainedStore) (topic g : TopicHandle) (i : ℕ) (msg : MessageHandle) (pool : MessagePool)
    → find_retained topic s.entries ≡ some i
    → same_topic g topic ≡ false
    → (replace_message s i msg pool).2 ≡ true
    → let s' = (replace_message s i msg pool).0 in
      (get_message topic s'.entries ≡ msg)
      × (get_message g s'.entries ≡ get_message g s.entries)
      × (s'.allocated ≡ s.allocated)
unfolding replace_message
replaced s topic g i msg pool h other ok =
    ground (arith, get-replaced topic g s.entries i msg h other)

added :
    (s : RetainedStore) (topic g : TopicHandle) (msg : MessageHandle) (pool : MessagePool)
    (intern : TopicInternPool)
    → find_retained topic s.entries ≡ none
    → same_topic g topic ≡ false
    → (add_message s topic msg pool intern).3 ≡ true
    → let s' = (add_message s topic msg pool intern).0 in
      (get_message topic s'.entries ≡ msg)
      × (get_message g s'.entries ≡ get_message g s.entries)
      × (s'.allocated ≡ s.allocated)
unfolding add_message
added s topic g msg pool intern h other ok = elim (Option-cases (find_vacant s.entries)) [
  | inl n ↦ absurd (ground (arith, n))
  | inr (i, n) ↦ ground (arith, n, get-added topic g s.entries i msg h n other)
]

-- After `put` succeeds, `get` answers the new message for the topic, whether it had one before or
-- not, and for every other topic what it answered before.
pub get-put :
    (s : RetainedStore) (topic g : TopicHandle) (msg : MessageHandle) (pool : MessagePool)
    (intern : TopicInternPool)
    → same_topic g topic ≡ false
    → (put s topic msg pool intern).3 ≡ true
    → (get (put s topic msg pool intern).0 topic ≡ msg)
      × (get (put s topic msg pool intern).0 g ≡ get s g)
unfolding put get
get-put s topic g msg pool intern other ok = elim (Option-cases (find_retained topic s.entries)) [
  | inr (i, n) ↦ ground (arith, n, replaced s topic g i msg pool n other)
  | inl n ↦ ground (arith, n, added s topic g msg pool intern n other)
]
