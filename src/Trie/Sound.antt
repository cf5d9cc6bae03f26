-- ===== src/Trie/Sound.antt =====
-- What match_topic hands out (libs/mqtt_broker/src/topic_trie.cpp): only subscriptions that match.
use net_burner_mqtt_broker.Base.{
  ℕ, zero, suc, ◌≤◌, ◌≡◌, refl, arith, true, false, not, leb, ◌==◌, ◌&&◌, ◌||◌, List, [], ◌∷◌, ◌++◌,
  Option, some, length, All, All-append, length-append, Bool-cases, inl, inr,
}
use net_burner_mqtt_broker.Topic.{topic_matches_filter, topic_valid}
use net_burner_mqtt_broker.Trie.{TopicTrie, TopicSubscription, sub_at, node_at}
use net_burner_mqtt_broker.Trie.Matches.{
  Visit, result_of, collect_subs, visit_child, visit_children, collect_matches, match_topic,
  same_segment, used_up,
}

module _ (t : TopicTrie) (topic : List ℕ) (out_cap : ℕ) where
  -- The result is that of a slot in use whose filter matches the topic.
  abbrev pub IsMatch : TopicSubscription → Type 0
  IsMatch r =
      (sid : ℕ) × ((sub_at t sid).in_use ≡ true)
      × (topic_matches_filter (some topic) (some (sub_at t sid).filter) ≡ true)
      × (r ≡ result_of (sub_at t sid))

  -- The entries of `out` that are written are matches, and there is room for them.
  abbrev pub IsSound : List TopicSubscription → Type 0
  IsSound out = All IsMatch out × (length out ≤ out_cap)

  abbrev KeepsSound : Visit → Type 0
  KeepsSound visit =
      (node : ℕ) (rest : Option (List ℕ)) (out : List TopicSubscription)
      → IsSound out
      → IsSound (visit node rest out)

  collect_subs-IsSound :
      (fuel sid : ℕ) (out : List TopicSubscription)
      → IsSound out
      → IsSound (collect_subs fuel t topic out_cap sid out)
  unfolding collect_subs
  collect_subs-IsSound zero sid out h = h
  collect_subs-IsSound (suc fuel) sid out h =
      elim (Bool-cases (sid == 0xffff || leb out_cap (length out))) [
        | inl stop ↦ rw (collect_subs, stop) h
        | inr goes ↦
            elim (Bool-cases (
              (sub_at t sid).in_use
              && topic_matches_filter (some topic) (some (sub_at t sid).filter))) [
                | inr skip ↦
                    rw (collect_subs, goes, skip)
                      (collect_subs-IsSound fuel (sub_at t sid).next out h)
                | inl take ↦
                    rw (collect_subs, goes, take)
                      (collect_subs-IsSound fuel (sub_at t sid).next _ (added take goes))
              ]
      ]
    where
      added :
          ((sub_at t sid).in_use && topic_matches_filter (some topic) (some (sub_at t sid).filter))
            ≡ true
          → (sid == 0xffff || leb out_cap (length out)) ≡ false
          → IsSound (out ++ (result_of (sub_at t sid) ∷ []))
      added e g = (
        All-append IsMatch out _ h.0 ((sid, ground (arith, e), ground (arith, e), refl), tt),
        rw (length-append out (result_of (sub_at t sid) ∷ [])) (ground (arith, g)),
      )

  visit_child-IsSound :
      (visit : Visit) (rest : Option (List ℕ)) (child : ℕ) (out : List TopicSubscription)
      → KeepsSound visit
      → IsSound out
      → IsSound (visit_child visit t rest child out)
  unfolding visit_child
  visit_child-IsSound visit rest child out k h =
      elim (Bool-cases (node_at t child).is_wildcard_hash) [
        | inl e ↦ rw (visit_child, e) (k _ _ _ h)
        | inr e ↦ elim (Bool-cases (node_at t child).is_wildcard_plus) [
          | inl p ↦ rw (visit_child, e, p) (k _ _ _ h)
          | inr p ↦ elim (Bool-cases (same_segment (node_at t child).segment rest)) [
            | inl s ↦ rw (visit_child, e, p, s) (k _ _ _ h)
            | inr s ↦ rw (visit_child, e, p, s) h
          ]
        ]
      ]

  visit_children-IsSound :
      (fuel : ℕ) (visit : Visit) (rest : Option (List ℕ)) (child : ℕ) (out : List TopicSubscription)
      → KeepsSound visit
      → IsSound out
      → IsSound (visit_children fuel visit t rest child out)
  unfolding visit_children
  visit_children-IsSound zero visit rest child out k h = h
  visit_children-IsSound (suc fuel) visit rest child out k h = elim (Bool-cases (child == 0xffff)) [
    | inl e ↦ rw (visit_children, e) h
    | inr e ↦
        rw (visit_children, e)
          (visit_children-IsSound fuel visit rest _ _ k
            (visit_child-IsSound visit rest child out k h))
  ]

  collect_matches-IsSound : (depth : ℕ) → KeepsSound (collect_matches depth t topic out_cap)
  unfolding collect_matches
  collect_matches-IsSound zero node rest out h = h
  collect_matches-IsSound (suc depth) node rest out h = elim (Bool-cases (node == 0xffff)) [
    | inl e ↦ rw (collect_matches, e) h
    | inr e ↦ elim (Bool-cases (node_at t node).is_wildcard_hash) [
      | inl w ↦
          rw (collect_matches, e, w)
            (collect_subs-IsSound (length t.subs) (node_at t node).first_sub out h)
      | inr w ↦ elim (Bool-cases (used_up rest && (node_at t node).terminal)) [
        | inl u ↦
            rw (collect_matches, e, w, u)
              (visit_children-IsSound (length t.nodes) _ rest (node_at t node).first_child
                (collect_subs (length t.subs) t topic out_cap (node_at t node).first_sub out)
                (collect_matches-IsSound depth)
                (collect_subs-IsSound (length t.subs) (node_at t node).first_sub out h))
        | inr u ↦
            rw (collect_matches, e, w, u)
              (visit_children-IsSound (length t.nodes) _ rest (node_at t node).first_child out
                (collect_matches-IsSound depth) h)
      ]
    ]
  ]

  -- Whatever the nodes hold, each result of a routing is the session, identifier, QoS and options of a
  -- subscription in use whose filter matches the topic, and there are no more results than `out_cap`.
  pub match_topic-IsSound : IsSound (match_topic t topic out_cap)
  unfolding match_topic
  match_topic-IsSound = elim (Bool-cases (not (topic_valid (some topic)))) [
    | inl e ↦ rw (match_topic, e) (tt, omega arith)
    | inr e ↦
        rw (match_topic, e)
          (collect_matches-IsSound (suc (length t.nodes)) t.root (some topic) [] (tt, omega arith))
  ]
