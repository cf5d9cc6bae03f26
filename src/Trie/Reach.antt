-- ===== src/Trie/Reach.antt =====
-- The trie over the life of the broker: what its constructor and the calls of
-- libs/mqtt_broker/src/topic_trie.cpp lead to.
use net_burner_mqtt_broker.Base.{
  ℕ, zero, suc, ◌+◌, ◌≤◌, ◌<◌, ◌≡◌, refl, arith, false, leb, ◌==◌, ◌&&◌, ◌||◌, List, ◌∷◌, map, take,
  Option, length, get_elem?, replicate, Bool-cases, Option-cases, inl, inr, u16, length-replicate,
}
use mathlib.Core.Option
use net_burner_mqtt_broker.Trie.{
  TopicTrie, TopicTrieConfig, SubEntry, Node, node_at, sub_at, zero_node, create_trie, released,
  alloc_node,
}
use net_burner_mqtt_broker.Trie.Slots.{
  Cursor, at_node, at_sub, cursor_get, cursor_set, unlink_loop, unlink_sub, remove_sub, find_sub,
  unsubscribe, remove_subs_of, unsubscribe_all, subscribe,
}
use net_burner_mqtt_broker.Trie.Linked.{IsLinked, NodeLinked, relabel-IsLinked, other_subs-IsLinked}
use net_burner_mqtt_broker.Trie.Entering.{subscribe-IsLinked}

-- The tries that calls of the class lead to from a new one.
pub data Reachable : TopicTrie → Type 0 where
  constructed :
      (cfg : TopicTrieConfig) (memory : List SubEntry)
      → 0 < cfg.max_nodes
      → cfg.max_nodes ≤ 0xffff
      → Reachable (create_trie cfg memory)
  subscribed :
      {t : TopicTrie} (filter : Option (List ℕ)) (session max_qos options_byte : ℕ)
      → Reachable t
      → Reachable (subscribe t filter session max_qos options_byte).0
  unsubscribed :
      {t : TopicTrie} (filter : List ℕ) (session : ℕ)
      → Reachable t
      → Reachable (unsubscribe t filter session).0
  left : {t : TopicTrie} (session : ℕ) → Reachable t → Reachable (unsubscribe_all t session)

cursor_set-IsLinked :
    (t : TopicTrie) (cur : Cursor) (v : ℕ) → IsLinked t → IsLinked (cursor_set t cur v)
unfolding cursor_set
cursor_set-IsLinked t (at_node n) v l =
    relabel-IsLinked t n (record (node_at t n) { first_sub = v }) refl refl l
cursor_set-IsLinked t (at_sub i) v l = other_subs-IsLinked t _ t.next_sub_id l

unlink_loop-IsLinked :
    (hops : ℕ) (t : TopicTrie) (cur : Cursor) (slot : ℕ)
    → IsLinked t
    → IsLinked (unlink_loop hops t cur slot)
unfolding unlink_loop
unlink_loop-IsLinked zero t cur slot l = l
unlink_loop-IsLinked (suc hops) t cur slot l =
    let found = cursor_get t cur in
    elim (Bool-cases (found == 0xffff)) [
      | inl ended ↦ rw (unlink_loop, ended) l
      | inr goes ↦ elim (Bool-cases (found == slot)) [
        | inl here ↦ rw (unlink_loop, goes, here) (cursor_set-IsLinked t cur (sub_at t slot).next l)
        | inr other ↦
            rw (unlink_loop, goes, other) (unlink_loop-IsLinked hops t (at_sub found) slot l)
      ]
    ]

remove_sub-IsLinked : (t : TopicTrie) (i : ℕ) → IsLinked t → IsLinked (remove_sub t i)
unfolding remove_sub unlink_sub
remove_sub-IsLinked t i l =
    let node = (sub_at t (u16 i)).node_id in
    elim (Bool-cases (node == 0xffff || leb (length t.nodes) node)) [
      | inl out ↦ rw out (other_subs-IsLinked t _ t.next_sub_id l)
      | inr inside ↦
          let t' = unlink_loop (length t.subs) t (at_node node) (u16 i) in
          rw inside (
            other_subs-IsLinked t' _ t'.next_sub_id
              (unlink_loop-IsLinked (length t.subs) t (at_node node) (u16 i) l))
    ]

unsubscribe-IsLinked :
    (t : TopicTrie) (filter : List ℕ) (session : ℕ)
    → IsLinked t
    → IsLinked (unsubscribe t filter session).0
unfolding unsubscribe
unsubscribe-IsLinked t filter session l = elim (Option-cases (find_sub session filter t.subs)) [
  | inl e ↦ rw (unsubscribe, e) l
  | inr (i, e) ↦ rw (unsubscribe, e) (remove_sub-IsLinked t i l)
]

remove_subs_of-IsLinked :
    (n i session : ℕ) (t : TopicTrie) → IsLinked t → IsLinked (remove_subs_of n i session t)
unfolding remove_subs_of
remove_subs_of-IsLinked zero i session t l = l
remove_subs_of-IsLinked (suc n) i session t l =
    elim (Bool-cases ((sub_at t i).in_use && (sub_at t i).session_id == session)) [
      | inl its ↦
          rw (remove_subs_of, its)
            (remove_subs_of-IsLinked n (i + 1) session (remove_sub t i) (remove_sub-IsLinked t i l))
      | inr other ↦ rw (remove_subs_of, other) (remove_subs_of-IsLinked n (i + 1) session t l)
    ]

unsubscribe_all-IsLinked :
    (t : TopicTrie) (session : ℕ) → IsLinked t → IsLinked (unsubscribe_all t session)
unfolding unsubscribe_all
unsubscribe_all-IsLinked t session l = remove_subs_of-IsLinked (length t.subs) 0 session t l

-- The root of a new trie.
abbrev root_node : Node
root_node = record zero_node { first_child = 0xffff; next_sibling = 0xffff; first_sub = 0xffff }

root_node-NodeLinked :
    (n i : ℕ)
    → i < 1
    → NodeLinked 1 i (Option.get_or (get_elem? (root_node ∷ replicate n zero_node) i) zero_node)
root_node-NodeLinked n zero h = (inl refl, inl refl, inl refl)
root_node-NodeLinked n (suc i) h = ground (arith, h)

-- A new trie with `suc n` nodes, one of which has been handed out.
abbrev rooted : ℕ → List SubEntry → TopicTrie
rooted n subs = record {
  nodes = root_node ∷ replicate n zero_node;
  node_count = 1;
  root = 0;
  subs = subs;
  next_sub_id = 1;
}

rooted-IsLinked : (n : ℕ) (subs : List SubEntry) → suc n ≤ 0xffff → IsLinked (rooted n subs)
rooted-IsLinked n subs word = record {
  room = omega arith;
  word = omega (arith, length-replicate n zero_node, word);
  top = omega arith;
  linked = root_node-NodeLinked n;
}

sized_trie-IsLinked :
    (n m : ℕ) (memory : List SubEntry)
    → 0 < n
    → n ≤ 0xffff
    → IsLinked (create_trie (record { max_nodes = n; max_subscriptions = m }) memory)
unfolding create_trie alloc_node
sized_trie-IsLinked zero m memory pos word = ground (arith, pos)
sized_trie-IsLinked (suc n) m memory pos word =
    let room : leb (length (replicate (suc n) zero_node)) 0 ≡ false = ground arith in
    rw room (rooted-IsLinked n (map released (take m memory)) word)

create_trie-IsLinked :
    (cfg : TopicTrieConfig) (memory : List SubEntry)
    → 0 < cfg.max_nodes
    → cfg.max_nodes ≤ 0xffff
    → IsLinked (create_trie cfg memory)
create_trie-IsLinked cfg memory pos word =
    sized_trie-IsLinked cfg.max_nodes cfg.max_subscriptions memory pos word

-- In a trie that was made for 1 to 65535 nodes, whatever is subscribed to and unsubscribed from, the
-- links of the nodes are in order: the root is one of the nodes that have been handed out, a child
-- stands behind its parent and a sibling before the one that leads to it, so that no chain of
-- children has a cycle.
pub Reachable-IsLinked : (t : TopicTrie) → Reachable t → IsLinked t
Reachable-IsLinked t (constructed cfg memory pos word) = create_trie-IsLinked cfg memory pos word
Reachable-IsLinked t (subscribed filter session max_qos options_byte r) =
    subscribe-IsLinked _ filter session max_qos options_byte (Reachable-IsLinked _ r)
Reachable-IsLinked t (unsubscribed filter session r) =
    unsubscribe-IsLinked _ filter session (Reachable-IsLinked _ r)
Reachable-IsLinked t (left session r) = unsubscribe_all-IsLinked _ session (Reachable-IsLinked _ r)
