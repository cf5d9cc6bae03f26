-- ===== src/Trie/Again.antt =====
-- Subscribing again to the same filter (libs/mqtt_broker/src/topic_trie.cpp).
use net_burner_mqtt_broker.Base.{
  ℕ, zero, suc, ◌≤◌, ◌<◌, ◌≡◌, refl, arith, ap, ◌∙◌, Bool, true, false, not, leb, ◌==◌, ◌&&◌, ◌||◌,
  List, [], ◌∷◌, ◌⊎◌, Option, none, some, length, set, get_elem?, take, Bool-cases, inl, inr,
  Option-cases, get_elem?-set_self, get_elem?-lt,
}
use net_burner_mqtt_broker.Topic.{next_segment, segment_len, starts_with, is_empty, filter_valid}
use net_burner_mqtt_broker.Topic.Validity.{same_bytes_refl}
use net_burner_mqtt_broker.Subscription.{subscription_options_valid}
use net_burner_mqtt_broker.Trie.{
  TopicTrie, SubEntry, sub_at, node_at, put_node, put_sub, alloc_node, add_child, find_or_add_child,
  enter_segment, enter_path,
}
use net_burner_mqtt_broker.Trie.Slots.{
  subscribes, find_sub, find_free_sub, fill_slot, add_subscription, subscribe, count_subs,
  subscription_count,
}

refused {ℓ} : {A : Type ℓ} {b : Bool} → b ≡ true → b ≡ false → A
refused h k = absurd cc

-- The path of a filter leaves the subscriptions alone.
alloc_node-subs : (t : TopicTrie) → (alloc_node t).0.subs ≡ t.subs
unfolding alloc_node
alloc_node-subs t = ground arith

add_child-subs :
    (t : TopicTrie) (parent : ℕ) (segment : List ℕ) (plus hash : Bool)
    → (add_child t parent segment plus hash).0.subs ≡ t.subs
unfolding add_child
add_child-subs t parent segment plus hash = ground (arith, alloc_node-subs t)

find_or_add_child-subs :
    (t : TopicTrie) (parent : ℕ) (segment : List ℕ) (plus hash : Bool)
    → (find_or_add_child t parent segment plus hash).0.subs ≡ t.subs
unfolding find_or_add_child
find_or_add_child-subs t parent segment plus hash =
    ground (arith, add_child-subs t parent segment plus hash)

enter_segment-subs :
    (t : TopicTrie) (node : ℕ) (cur : List ℕ) → (enter_segment t node cur).0.subs ≡ t.subs
unfolding enter_segment
enter_segment-subs t node cur =
    let literal = find_or_add_child-subs t node (take (segment_len cur) cur) false false in
    let wildcard = find_or_add_child-subs t node [] (starts_with b'+' cur) (starts_with b'#' cur) in
    elim (Bool-cases (not (starts_with b'+' cur) && not (starts_with b'#' cur))) [
      | inl plain ↦ elim (Bool-cases (leb 256 (segment_len cur))) [
        | inl long ↦ rw (enter_segment, plain, long) refl
        | inr fits ↦ rw (enter_segment, plain, fits) (ground (arith, literal))
      ]
      | inr wild ↦ rw (enter_segment, wild) (ground (arith, wildcard))
    ]

enter_path-subs :
    (fuel : ℕ) (t : TopicTrie) (node : ℕ) (cur : Option (List ℕ))
    → (enter_path fuel t node cur).0.subs ≡ t.subs
unfolding enter_path
enter_path-subs zero t node cur = refl
enter_path-subs (suc fuel) t node none = refl
enter_path-subs (suc fuel) t node (some []) = refl
enter_path-subs (suc fuel) t node (some (c ∷ s)) =
    let first = enter_segment-subs t node (c ∷ s) in
    let below =
      enter_path-subs fuel (enter_segment t node (c ∷ s)).0 (enter_segment t node (c ∷ s)).1
        (next_segment (c ∷ s)) in
    elim (Bool-cases ((enter_segment t node (c ∷ s)).1 == 0xffff)) [
      | inl full ↦ rw (enter_path, full) first
      | inr goes ↦ rw (enter_path, goes) (below ∙ first)
    ]

module _ (session : ℕ) (filter : List ℕ) where
  -- Writing a subscription of the session to the filter, in its own slot or where it has none.
  find_sub-set :
      (es : List SubEntry) (i : ℕ) (e : SubEntry)
      → i < length es
      → subscribes session filter e ≡ true
      → ((find_sub session filter es ≡ none) ⊎ (find_sub session filter es ≡ some i))
      → find_sub session filter (set es i e) ≡ some i
  unfolding find_sub
  find_sub-set [] i e h k f = absurd (omega arith)
  find_sub-set (x ∷ xs) zero e h k f = ground arith
  find_sub-set (x ∷ xs) (suc i) e h k f = elim (Bool-cases (subscribes session filter x)) [
    | inl own ↦ ground (arith, own, f)
    | inr other ↦ elim (Option-cases (find_sub session filter xs)) [
      | inl n ↦ ground (arith, other, find_sub-set xs i e (omega arith) k (inl n))
      | inr (j, s) ↦
          ground
            (arith, other, find_sub-set xs i e (omega arith) k (inr (ground (arith, other, s, f))))
    ]
  ]

  find_sub_found :
      (es : List SubEntry) (i : ℕ)
      → find_sub session filter es ≡ some i
      → (e : SubEntry) × (get_elem? es i ≡ some e) × (subscribes session filter e ≡ true)
  unfolding find_sub
  find_sub_found [] i h = ground arith
  find_sub_found (x ∷ xs) i h = elim (Bool-cases (subscribes session filter x)) [
    | inl own ↦ let zeroth : i ≡ 0 = ground (arith, own, h) in (x, rw zeroth refl, own)
    | inr other ↦ elim (Option-cases (find_sub session filter xs)) [
      | inl n ↦ absurd (ground (arith, other, n, h))
      | inr (j, s) ↦
          let next : i ≡ suc j = ground (arith, other, s, h) in
          let (e, at, is) = find_sub_found xs j s in (e, rw next at, is)
    ]
  ]

find_free_sub-lt : (es : List SubEntry) (i : ℕ) → find_free_sub es ≡ some i → i < length es
unfolding find_free_sub
find_free_sub-lt [] i h = ground arith
find_free_sub-lt (x ∷ xs) i h = elim (Option-cases (find_free_sub xs)) [
  | inl n ↦ ground (arith, n, h)
  | inr (j, s) ↦ ground (arith, s, h, find_free_sub-lt xs j s)
]

take_all : (n : ℕ) (s : List ℕ) → length s ≤ n → take n s ≡ s
take_all zero [] h = refl
take_all zero (c ∷ s) h = absurd (omega arith)
take_all (suc n) [] h = refl
take_all (suc n) (c ∷ s) h = ap (λ l. c ∷ l) (take_all n s (omega arith))

module _ (session : ℕ) (filter : List ℕ) where
  -- What `fill_slot` stores.
  abbrev added : TopicTrie → ℕ → ℕ → ℕ → ℕ → SubEntry
  added t slot node max_qos options_byte = record {
    sub_id = t.next_sub_id;
    session_id = session;
    max_qos = max_qos;
    options_byte = options_byte;
    node_id = node;
    next = (node_at t node).first_sub;
    filter = take 255 filter;
    in_use = true;
  }

  -- The session has the subscription `id` to the filter.
  abbrev pub HasSubscription : TopicTrie → Option ℕ → Type 0
  HasSubscription t id =
      (i : ℕ) × (find_sub session filter t.subs ≡ some i) × (some (sub_at t i).sub_id ≡ id)

  fill_slot-HasSubscription :
      (t : TopicTrie) (slot node max_qos options_byte : ℕ)
      → length filter ≤ 255
      → slot < length t.subs
      → find_sub session filter t.subs ≡ none
      → HasSubscription
          (fill_slot t slot node filter session max_qos options_byte).0
          (fill_slot t slot node filter session max_qos options_byte).1.out_sub_id
  unfolding fill_slot subscribes
  fill_slot-HasSubscription t slot node max_qos options_byte short h new = (
    slot,
    find_sub-set session filter t.subs slot _ h own (inl new),
    rw (get_elem?-set_self t.subs slot (added t slot node max_qos options_byte) h) refl,
  )
    where
      own : subscribes session filter (added t slot node max_qos options_byte) ≡ true
      own = rw (subscribes, take_all 255 filter short, same_bytes_refl filter) (ground arith)

  add_subscription-HasSubscription :
      (t : TopicTrie) (max_qos options_byte : ℕ)
      → length filter ≤ 255
      → find_sub session filter t.subs ≡ none
      → (add_subscription t filter session max_qos options_byte).1.accepted ≡ true
      → HasSubscription
          (add_subscription t filter session max_qos options_byte).0
          (add_subscription t filter session max_qos options_byte).1.out_sub_id
  unfolding add_subscription
  add_subscription-HasSubscription t max_qos options_byte short new accepted =
      elim (Option-cases (find_free_sub t.subs)) [
        | inl full ↦ refused accepted (rw (add_subscription, full) refl)
        | inr (slot, free) ↦
            let entered = enter_path (suc (length filter)) t t.root (some filter) in
            let same : entered.0.subs ≡ t.subs =
              enter_path-subs (suc (length filter)) t t.root (some filter) in
            let room : slot < length entered.0.subs = rw same (find_free_sub-lt t.subs slot free) in
            let fresh : find_sub session filter entered.0.subs ≡ none = rw same new in
            elim (Bool-cases (entered.1 == 0xffff)) [
              | inl out ↦ refused accepted (rw (add_subscription, free, out) refl)
              | inr goes ↦ elim (Bool-cases (is_empty filter)) [
                | inl e ↦
                    rw (add_subscription, free, goes, e)
                      (fill_slot-HasSubscription
                        (put_node entered.0 entered.1
                          (record (node_at entered.0 entered.1) { terminal = true }))
                        slot entered.1 max_qos options_byte short room fresh)
                | inr e ↦
                    rw (add_subscription, free, goes, e)
                      (fill_slot-HasSubscription entered.0 slot entered.1 max_qos options_byte short
                        room fresh)
              ]
            ]
      ]

count_subs-set :
    (es : List SubEntry) (i : ℕ) (e e' : SubEntry)
    → get_elem? es i ≡ some e
    → e'.in_use ≡ e.in_use
    → count_subs (set es i e') ≡ count_subs es
unfolding count_subs
count_subs-set [] i e e' h k = refl
count_subs-set (x ∷ xs) zero e e' h k = let same : x.in_use ≡ e'.in_use = cc in rw same refl
count_subs-set (x ∷ xs) (suc i) e e' h k = rw (count_subs-set xs i e e' h k) refl

-- The session has it after any `subscribe` that is accepted.
subscribe-HasSubscription :
    (t : TopicTrie) (filter : List ℕ) (session max_qos options_byte : ℕ)
    → length filter ≤ 255
    → (subscribe t (some filter) session max_qos options_byte).1.accepted ≡ true
    → HasSubscription session filter
        (subscribe t (some filter) session max_qos options_byte).0
        (subscribe t (some filter) session max_qos options_byte).1.out_sub_id
unfolding subscribe
subscribe-HasSubscription t filter session max_qos options_byte short accepted =
    elim (Bool-cases
      (not (filter_valid (some filter)) || not (subscription_options_valid options_byte))) [
        | inl bad ↦ refused accepted (rw (subscribe, bad) refl)
        | inr good ↦ elim (Option-cases (find_sub session filter t.subs)) [
          | inl new ↦
              rw (subscribe, good, new)
                (add_subscription-HasSubscription session filter t max_qos options_byte short new
                  (rw (subscribe, good, new) at accepted))
          | inr (i, s) ↦
              let (e, at, is) = find_sub_found session filter t.subs i s in
              let room = get_elem?-lt t.subs i at in
              rw (subscribe, good, s)
                (
                  i,
                  find_sub-set session filter t.subs i
                      (record (sub_at t i) { max_qos = max_qos; options_byte = options_byte }) room
                      (rw at is) (inr s),
                  rw
                      (get_elem?-set_self t.subs i
                        (record (sub_at t i) { max_qos = max_qos; options_byte = options_byte })
                        room)
                      refl,
                )
        ]
      ]

accepted_valid :
    (t : TopicTrie) (filter : List ℕ) (session max_qos options_byte : ℕ)
    → (subscribe t (some filter) session max_qos options_byte).1.accepted ≡ true
    → filter_valid (some filter) ≡ true
unfolding subscribe
accepted_valid t filter session max_qos options_byte accepted =
    elim (Bool-cases (filter_valid (some filter))) [
      | inl e ↦ e
      | inr e ↦ refused accepted (rw (subscribe, e) refl)
    ]

-- `subscribe` where the session has the subscription `i`.
subscribe_held :
    (t : TopicTrie) (filter : List ℕ) (session max_qos options_byte i : ℕ)
    → filter_valid (some filter) ≡ true
    → subscription_options_valid options_byte ≡ true
    → find_sub session filter t.subs ≡ some i
    → subscribe t (some filter) session max_qos options_byte ≡ (
      put_sub t i (record (sub_at t i) { max_qos = max_qos; options_byte = options_byte }),
      record { accepted = true; out_sub_id = some (sub_at t i).sub_id; out_existed = true },
    )
unfolding subscribe
subscribe_held t filter session max_qos options_byte i valid legal s =
    rw (subscribe, valid, legal, s) refl

-- The subscription `i` of the session to the filter has another QoS and other options in `t'`, and the
-- tries are the same otherwise.
abbrev pub UpdatedInPlace : TopicTrie → TopicTrie → ℕ → List ℕ → ℕ → ℕ → ℕ → Type 0
UpdatedInPlace t t' session filter max_qos options_byte i =
    (find_sub session filter t.subs ≡ some i)
    × ((sub_at t' i).max_qos ≡ max_qos)
    × ((sub_at t' i).options_byte ≡ options_byte)
    × (t' ≡ put_sub t i (record (sub_at t i) { max_qos = max_qos; options_byte = options_byte }))

-- A session that has subscribed to a filter of at most 255 characters and subscribes to it again, with
-- any QoS and any legal options, is told that the subscription existed and keeps its identifier; the
-- number of subscriptions stays as it is, and the session's subscription to the filter has the new
-- QoS and the new options, which is all that changes in the trie.
pub subscribe_again :
    (t : TopicTrie) (filter : List ℕ) (session max_qos options_byte max_qos' options_byte' : ℕ)
    → length filter ≤ 255
    → (subscribe t (some filter) session max_qos options_byte).1.accepted ≡ true
    → subscription_options_valid options_byte' ≡ true
    → let first = subscribe t (some filter) session max_qos options_byte in
      let again = subscribe first.0 (some filter) session max_qos' options_byte' in
      (again.1 ≡ record { accepted = true; out_sub_id = first.1.out_sub_id; out_existed = true })
      × (subscription_count again.0 ≡ subscription_count first.0)
      × ((i : ℕ) × UpdatedInPlace first.0 again.0 session filter max_qos' options_byte' i)
unfolding subscription_count
subscribe_again t filter session max_qos options_byte max_qos' options_byte' short accepted legal =
    let first = subscribe t (some filter) session max_qos options_byte in
    let (i, s, id) =
      subscribe-HasSubscription t filter session max_qos options_byte short accepted in
    let (e, at, is) = find_sub_found session filter first.0.subs i s in
    let valid = accepted_valid t filter session max_qos options_byte accepted in
    let new : SubEntry = record (sub_at first.0 i) {
      max_qos = max_qos';
      options_byte = options_byte';
    } in
    let stored = get_elem?-set_self first.0.subs i new (get_elem?-lt first.0.subs i at) in
    rw (subscribe_held first.0 filter session max_qos' options_byte' i valid legal s) (
      rw id refl,
      count_subs-set first.0.subs i e _ at (rw at refl),
      (i, (s, rw stored refl, rw stored refl, refl)),
    )
