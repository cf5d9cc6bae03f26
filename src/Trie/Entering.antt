-- ===== src/Trie/Entering.antt =====
-- Subscribing keeps the nodes of the trie linked (libs/mqtt_broker/src/topic_trie.cpp).
use net_burner_mqtt_broker.Base.{
  ℕ, zero, suc, ◌<◌, refl, arith, Bool, true, false, not, leb, ◌==◌, ◌&&◌, ◌||◌, if◌then◌else◌,
  List, [], ◌∷◌, Option, none, some, length, take, Bool-cases, inl, inr, Option-cases, u16,
}
use net_burner_mqtt_broker.Topic.{next_segment, segment_len, starts_with}
use net_burner_mqtt_broker.Trie.{
  TopicTrie, Node, node_at, put_node, find_child, find_or_add_child, enter_segment, enter_path,
}
use net_burner_mqtt_broker.Topic.{is_empty, filter_valid}
use net_burner_mqtt_broker.Subscription.{subscription_options_valid}
use net_burner_mqtt_broker.Trie.Slots.{
  find_sub, find_free_sub, fill_slot, add_subscription, subscribe,
}
use net_burner_mqtt_broker.Trie.Linked.{
  IsLinked, Entered, relabel-IsLinked, other_subs-IsLinked, add_child-Entered, find_child-below,
}

find_or_add_child-Entered :
    (t : TopicTrie) (parent : ℕ) (segment : List ℕ) (plus hash : Bool)
    → parent < t.node_count
    → IsLinked t
    → Entered t (find_or_add_child t parent segment plus hash)
unfolding find_or_add_child
find_or_add_child-Entered t parent segment plus hash h l =
    elim (Option-cases
      (find_child (length t.nodes) t ((node_at t parent).first_child) segment plus hash)) [
        | inl new ↦ rw (find_or_add_child, new) (add_child-Entered t parent segment plus hash h l)
        | inr (child, old) ↦
            rw (find_or_add_child, old)
              (
                l,
                omega arith,
                inr (
                    find_child-below (length t.nodes) t _ segment plus hash l
                      ((l.linked parent h).1) old),
              )
      ]

-- The end of `enter_segment`.
abbrev marked : TopicTrie × ℕ → TopicTrie × ℕ
marked r =
    if r.1 == 0xffff
    then r
    else (put_node r.0 r.1 (record (node_at r.0 r.1) { terminal = true }), r.1)

marked-Entered : (t : TopicTrie) (r : TopicTrie × ℕ) → Entered t r → Entered t (marked r)
marked-Entered t r (l, more, link) = elim (Bool-cases (r.1 == 0xffff)) [
  | inl full ↦ rw full (l, more, link)
  | inr goes ↦
      let below : r.1 < r.0.node_count = ground (arith, goes, link) in
      rw goes (
        relabel-IsLinked r.0 r.1 (record (node_at r.0 r.1) { terminal = true }) refl refl l,
        more,
        link,
      )
]

enter_segment-Entered :
    (t : TopicTrie) (node : ℕ) (cur : List ℕ)
    → node < t.node_count
    → IsLinked t
    → Entered t (enter_segment t node cur)
unfolding enter_segment
enter_segment-Entered t node cur h l =
    let plus = starts_with b'+' cur in
    let hash = starts_with b'#' cur in
    elim (Bool-cases (not plus && not hash)) [
      | inl plain ↦ elim (Bool-cases (leb 256 (segment_len cur))) [
        | inl long ↦
            rw (enter_segment, plain, long)
              (marked-Entered t (t, 0xffff) (l, omega arith, inl refl))
        | inr fits ↦
            rw (enter_segment, plain, fits)
              (marked-Entered t (find_or_add_child t node (take (segment_len cur) cur) false false)
                (find_or_add_child-Entered t node (take (segment_len cur) cur) false false h l))
      ]
      | inr wild ↦
          rw (enter_segment, wild)
            (marked-Entered t (find_or_add_child t node [] plus hash)
              (find_or_add_child-Entered t node [] plus hash h l))
    ]

enter_path-Entered :
    (fuel : ℕ) (t : TopicTrie) (node : ℕ) (cur : Option (List ℕ))
    → node < t.node_count
    → IsLinked t
    → Entered t (enter_path fuel t node cur)
unfolding enter_path
enter_path-Entered zero t node cur h l = (l, omega arith, inl refl)
enter_path-Entered (suc fuel) t node none h l = (l, omega arith, inr h)
enter_path-Entered (suc fuel) t node (some []) h l = (l, omega arith, inr h)
enter_path-Entered (suc fuel) t node (some (c ∷ s)) h l =
    let r = enter_segment t node (c ∷ s) in
    let (l', more, link) = enter_segment-Entered t node (c ∷ s) h l in
    elim (Bool-cases (r.1 == 0xffff)) [
      | inl full ↦ rw (enter_path, full) (l', more, inl refl)
      | inr goes ↦
          let below : r.1 < r.0.node_count = ground (arith, goes, link) in
          let (l2, more2, link2) =
            enter_path-Entered fuel r.0 r.1 (next_segment (c ∷ s)) below l' in
          rw (enter_path, goes) (l2, omega (arith, more, more2), link2)
    ]

fill_slot-IsLinked :
    (t : TopicTrie) (slot node : ℕ) (filter : List ℕ) (session max_qos options_byte : ℕ)
    → IsLinked t
    → IsLinked (fill_slot t slot node filter session max_qos options_byte).0
unfolding fill_slot
fill_slot-IsLinked t slot node filter session max_qos options_byte l =
    other_subs-IsLinked _ _ _
      (relabel-IsLinked t node (record (node_at t node) { first_sub = u16 slot }) refl refl l)

add_subscription-IsLinked :
    (t : TopicTrie) (filter : List ℕ) (session max_qos options_byte : ℕ)
    → IsLinked t
    → IsLinked (add_subscription t filter session max_qos options_byte).0
unfolding add_subscription
add_subscription-IsLinked t filter session max_qos options_byte l =
    elim (Option-cases (find_free_sub t.subs)) [
      | inl full ↦ rw (add_subscription, full) l
      | inr (slot, free) ↦
          let r = enter_path (suc (length filter)) t t.root (some filter) in
          let (l', more, link) =
            enter_path-Entered (suc (length filter)) t t.root (some filter) l.top l in
          elim (Bool-cases (r.1 == 0xffff)) [
            | inl out ↦ rw (add_subscription, free, out) l'
            | inr goes ↦
                let below : r.1 < r.0.node_count = ground (arith, goes, link) in
                let node : Node = record (node_at r.0 r.1) { terminal = true } in
                elim (Bool-cases (is_empty filter)) [
                  | inl e ↦
                      rw (add_subscription, free, goes, e)
                        (fill_slot-IsLinked (put_node r.0 r.1 node) slot r.1 filter session max_qos
                          options_byte (relabel-IsLinked r.0 r.1 node refl refl l'))
                  | inr e ↦
                      rw (add_subscription, free, goes, e)
                        (fill_slot-IsLinked r.0 slot r.1 filter session max_qos options_byte l')
                ]
          ]
    ]

-- Whatever is subscribed to, and on every branch, the links of the nodes stay in order: a child stands behind its parent, and a sibling before the one that leads
-- to it, within the nodes that have been handed out.
pub subscribe-IsLinked :
    (t : TopicTrie) (filter : Option (List ℕ)) (session max_qos options_byte : ℕ)
    → IsLinked t
    → IsLinked (subscribe t filter session max_qos options_byte).0
unfolding subscribe
subscribe-IsLinked t none session max_qos options_byte l = l
subscribe-IsLinked t (some filter) session max_qos options_byte l =
    elim (Bool-cases
      (not (filter_valid (some filter)) || not (subscription_options_valid options_byte))) [
        | inl bad ↦ rw (subscribe, bad) l
        | inr good ↦ elim (Option-cases (find_sub session filter t.subs)) [
          | inl new ↦
              rw (subscribe, good, new)
                (add_subscription-IsLinked t filter session max_qos options_byte l)
          | inr (i, old) ↦ rw (subscribe, good, old) (other_subs-IsLinked t _ t.next_sub_id l)
        ]
      ]
