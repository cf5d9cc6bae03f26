-- ===== src/Trie.antt =====
-- The stored trie of libs/mqtt_broker/src/topic_trie.cpp: nodes for the segments of the filters, and
-- the subscriptions chained to the node where their filter ends. A `uint16_t` link is an index, and
-- 0xffff stands for none. `node_cap_` and `sub_cap_` are the lengths of the two arrays. Strings are
-- lists of characters before the NUL; the last byte of `filter`, which the code never writes, is
-- taken for the NUL.
pub mod Matches
pub mod Sound
pub mod Again
pub mod Linked
pub mod Entering
pub mod Reach
pub mod Slots
mod Tests
use net_burner_mqtt_broker.Base.{
  ℕ, zero, suc, ◌+◌, Bool, true, false, ◌&&◌, ◌||◌, not, leb, ◌==◌, if◌then◌else◌, List, [], ◌∷◌,
  ◌++◌, Option, none, some, length, get_elem?, set, take, replicate, map, u16,
}
use net_burner_mqtt_broker.Topic.{
  topic_valid, filter_valid, topic_matches_filter, next_segment, segment_len, same_bytes, is_empty,
  starts_with,
}
use net_burner_mqtt_broker.Subscription.{subscription_options_valid}
use mathlib.Core.Option

pub record TopicTrieConfig : Type 0 where
  pub max_nodes : ℕ
  pub max_subscriptions : ℕ

pub record TopicSubscription : Type 0 where
  pub sub_id : ℕ
  pub session_id : ℕ
  pub max_qos : ℕ
  pub options_byte : ℕ

pub record Node : Type 0 where
  pub segment : List ℕ
  pub first_child : ℕ
  pub next_sibling : ℕ
  pub first_sub : ℕ
  pub terminal : Bool
  pub is_wildcard_plus : Bool
  pub is_wildcard_hash : Bool

pub record SubEntry : Type 0 where
  pub sub_id : ℕ
  pub session_id : ℕ
  pub max_qos : ℕ
  pub options_byte : ℕ
  pub node_id : ℕ
  pub next : ℕ
  pub filter : List ℕ
  pub in_use : Bool

pub record TopicTrie : Type 0 where
  pub nodes : List Node
  pub node_count : ℕ
  pub root : ℕ
  pub subs : List SubEntry
  pub next_sub_id : ℕ

-- A node after `memset`.
abbrev pub zero_node : Node
zero_node = record {
  segment = [];
  first_child = 0;
  next_sibling = 0;
  first_sub = 0;
  terminal = false;
  is_wildcard_plus = false;
  is_wildcard_hash = false;
}

-- Read in place of an entry outside the array.
abbrev pub no_sub : SubEntry
no_sub = record {
  sub_id = 0;
  session_id = 0;
  max_qos = 0;
  options_byte = 0;
  node_id = 0xffff;
  next = 0xffff;
  filter = [];
  in_use = false;
}

abbrev pub node_at : TopicTrie → ℕ → Node
node_at t i = Option.get_or (get_elem? t.nodes i) zero_node

abbrev pub sub_at : TopicTrie → ℕ → SubEntry
sub_at t i = Option.get_or (get_elem? t.subs i) no_sub

abbrev pub put_node : TopicTrie → ℕ → Node → TopicTrie
put_node t i n = record t { nodes = set t.nodes i n }

abbrev pub put_sub : TopicTrie → ℕ → SubEntry → TopicTrie
put_sub t i e = record t { subs = set t.subs i e }

unfoldable pub alloc_node : TopicTrie → TopicTrie × ℕ
alloc_node t =
    let id = u16 t.node_count in
    if leb (length t.nodes) t.node_count then (t, 0xffff) else (
      record t {
        nodes = set t.nodes id (record (node_at t id) {
          first_child = 0xffff;
          next_sibling = 0xffff;
          first_sub = 0xffff;
        });
        node_count = t.node_count + 1;
      },
      id,
    )

-- `subs_[i].in_use = false`
abbrev pub released : SubEntry → SubEntry
released e = record e { in_use = false }

-- The constructor; `memory` is the array of subscriptions that `new` gives.
unfoldable pub create_trie : TopicTrieConfig → List SubEntry → TopicTrie
unfolding alloc_node
create_trie cfg memory =
    let (t, root) = alloc_node (record {
      nodes = replicate cfg.max_nodes zero_node;
      node_count = 0;
      root = 0;
      subs = map released (take cfg.max_subscriptions memory);
      next_sub_id = 1;
    }) in
    record t { root = root }

-- The tests on a child in `find_or_add_child`.
unfoldable pub is_child : Node → List ℕ → Bool → Bool → Bool
unfolding same_bytes
is_child n segment plus hash =
    plus && n.is_wildcard_plus
    || hash && n.is_wildcard_hash
    || not plus && not hash && same_bytes n.segment segment

-- The loop over the children of a node. A chain has no more links than there are nodes.
unfoldable pub find_child : ℕ → TopicTrie → ℕ → List ℕ → Bool → Bool → Option ℕ
unfolding is_child
find_child zero t child segment plus hash = none
find_child (suc fuel) t child segment plus hash =
    let rest = find_child fuel t ((node_at t child).next_sibling) segment plus hash in
    if child == 0xffff
    then none
    else if is_child (node_at t child) segment plus hash
    then some child
    else rest

-- The new child is put before the others.
unfoldable pub add_child : TopicTrie → ℕ → List ℕ → Bool → Bool → TopicTrie × ℕ
unfolding alloc_node
add_child t parent segment plus hash =
    let (t1, id) = alloc_node t in
    let n = node_at t1 id in
    let t2 = put_node t1 id (record n {
      segment = if not plus && not hash then take 255 segment else n.segment;
      is_wildcard_plus = plus;
      is_wildcard_hash = hash;
      next_sibling = (node_at t1 parent).first_child;
    }) in
    if id == 0xffff
    then (t1, id)
    else (put_node t2 parent (record (node_at t2 parent) { first_child = id }), id)

unfoldable pub find_or_add_child : TopicTrie → ℕ → List ℕ → Bool → Bool → TopicTrie × ℕ
unfolding find_child add_child
find_or_add_child t parent segment plus hash =
    elim (find_child (length t.nodes) t ((node_at t parent).first_child) segment plus hash) [
      | some child ↦ (t, child)
      | none ↦ add_child t parent segment plus hash
    ]

-- The body of the loop of `subscribe` for the segments at `cur`.
unfoldable pub enter_segment : TopicTrie → ℕ → List ℕ → TopicTrie × ℕ
unfolding find_or_add_child starts_with segment_len
enter_segment t node cur =
    let plus = starts_with b'+' cur in
    let hash = starts_with b'#' cur in
    let len = segment_len cur in
    let (t', child) =
      if not plus && not hash
      then if leb 256 len then (t, 0xffff) else find_or_add_child t node (take len cur) false false
      else find_or_add_child t node [] plus hash in
    if child == 0xffff
    then (t', child)
    else (put_node t' child (record (node_at t' child) { terminal = true }), child)

-- The loop of `subscribe` along the filter; 0xffff stands for the early returns. Each round goes to a
-- shorter string, so `length filter` + 1 rounds are enough.
unfoldable pub enter_path : ℕ → TopicTrie → ℕ → Option (List ℕ) → TopicTrie × ℕ
unfolding enter_segment next_segment
enter_path zero t node cur = (t, 0xffff)
enter_path (suc fuel) t node none = (t, node)
enter_path (suc fuel) t node (some []) = (t, node)
enter_path (suc fuel) t node (some (c ∷ s)) =
    let (t', child) = enter_segment t node (c ∷ s) in
    let rest = enter_path fuel t' child (next_segment (c ∷ s)) in
    if child == 0xffff then (t', 0xffff) else rest
