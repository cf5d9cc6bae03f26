-- ===== src/Trie/Slots.antt =====
-- Subscriptions of the trie: subscribe and unsubscribe of libs/mqtt_broker/src/topic_trie.cpp.
use net_burner_mqtt_broker.Base.{
  ℕ, zero, suc, ◌+◌, Bool, true, false, ◌&&◌, ◌||◌, not, leb, ◌==◌, if◌then◌else◌, List, [], ◌∷◌,
  Option, none, some, length, set, take, u16,
}
use net_burner_mqtt_broker.Topic.{filter_valid, same_bytes, is_empty}
use net_burner_mqtt_broker.Subscription.{subscription_options_valid}
use net_burner_mqtt_broker.Trie.{
  TopicTrie, SubEntry, released, node_at, sub_at, put_node, put_sub, enter_path,
}
use mathlib.Core.Option

-- `in_use && session_id == … && strcmp(filter, …) == 0`
unfoldable pub subscribes : ℕ → List ℕ → SubEntry → Bool
unfolding same_bytes
subscribes session filter e = e.in_use && e.session_id == session && same_bytes e.filter filter

unfoldable pub find_sub : ℕ → List ℕ → List SubEntry → Option ℕ
unfolding subscribes
find_sub session filter [] = none
find_sub session filter (e ∷ es) =
    let rest = Option.map suc (find_sub session filter es) in
    if subscribes session filter e then some 0 else rest

unfoldable pub find_free_sub : List SubEntry → Option ℕ
find_free_sub [] = none
find_free_sub (e ∷ es) =
    let rest = Option.map suc (find_free_sub es) in if not e.in_use then some 0 else rest

-- What `subscribe` returns and stores behind its pointers: the answer, `*out_sub_id` and
-- `*out_existed`.
pub record SubscribeResult : Type 0 where
  pub accepted : Bool
  pub out_sub_id : Option ℕ
  pub out_existed : Bool

abbrev pub not_subscribed : SubscribeResult
not_subscribed = record { accepted = false; out_sub_id = none; out_existed = false }

-- The end of `subscribe`: slot `slot` is filled and put first in the chain of `node`.
unfoldable pub fill_slot : TopicTrie → ℕ → ℕ → List ℕ → ℕ → ℕ → ℕ → TopicTrie × SubscribeResult
fill_slot t slot node filter session_id max_qos options_byte = (
  record t {
    next_sub_id = u16 (t.next_sub_id + 1);
    subs = set t.subs slot (record {
      sub_id = t.next_sub_id;
      session_id = session_id;
      max_qos = max_qos;
      options_byte = options_byte;
      node_id = node;
      next = (node_at t node).first_sub;
      filter = take 255 filter;
      in_use = true;
    });
    nodes = set t.nodes node (record (node_at t node) { first_sub = u16 slot });
  },
  record { accepted = true; out_sub_id = some t.next_sub_id; out_existed = false },
)

-- `subscribe` for a session and a filter that have no subscription.
unfoldable pub add_subscription : TopicTrie → List ℕ → ℕ → ℕ → ℕ → TopicTrie × SubscribeResult
unfolding find_free_sub enter_path fill_slot
add_subscription t filter session_id max_qos options_byte = elim (find_free_sub t.subs) [
  | none ↦ (t, not_subscribed)
  | some slot ↦
      let (t', node) = enter_path (suc (length filter)) t t.root (some filter) in
      let ended : TopicTrie =
        if is_empty filter
        then put_node t' node (record (node_at t' node) { terminal = true })
        else t' in
      if node == 0xffff
      then (t', not_subscribed)
      else fill_slot ended slot node filter session_id max_qos options_byte
]

-- With pointers that are not null but for the filter's, which may be.
unfoldable pub subscribe : TopicTrie → Option (List ℕ) → ℕ → ℕ → ℕ → TopicTrie × SubscribeResult
unfolding find_sub add_subscription
subscribe t none session_id max_qos options_byte = (t, not_subscribed)
subscribe t (some filter) session_id max_qos options_byte =
    if not (filter_valid (some filter)) || not (subscription_options_valid options_byte)
    then (t, not_subscribed)
    else elim (find_sub session_id filter t.subs) [
      | some i ↦ (
        put_sub t i (record (sub_at t i) { max_qos = max_qos; options_byte = options_byte }),
        record { accepted = true; out_sub_id = some (sub_at t i).sub_id; out_existed = true },
      )
      | none ↦ add_subscription t filter session_id max_qos options_byte
    ]

-- Where the pointer `cur` of `unlink_sub` points: to the head of a node or to the link of a slot.
pub data Cursor : Type 0 where
  at_node : ℕ → Cursor
  at_sub : ℕ → Cursor

unfoldable pub cursor_get : TopicTrie → Cursor → ℕ
cursor_get t (at_node n) = (node_at t n).first_sub
cursor_get t (at_sub i) = (sub_at t i).next

unfoldable pub cursor_set : TopicTrie → Cursor → ℕ → TopicTrie
cursor_set t (at_node n) v = put_node t n (record (node_at t n) { first_sub = v })
cursor_set t (at_sub i) v = put_sub t i (record (sub_at t i) { next = v })

-- The loop of `unlink_sub`; the fuel is the number of hops that are left.
unfoldable pub unlink_loop : ℕ → TopicTrie → Cursor → ℕ → TopicTrie
unfolding cursor_get cursor_set
unlink_loop zero t cur slot = t
unlink_loop (suc hops) t cur slot =
    let found = cursor_get t cur in
    let rest = unlink_loop hops t (at_sub found) slot in
    if found == 0xffff
    then t
    else if found == slot
    then cursor_set t cur (sub_at t slot).next
    else rest

unfoldable pub unlink_sub : TopicTrie → ℕ → TopicTrie
unfolding unlink_loop
unlink_sub t slot =
    let node = (sub_at t slot).node_id in
    let unlinked : TopicTrie =
      if node == 0xffff || leb (length t.nodes) node
      then t
      else unlink_loop (length t.subs) t (at_node node) slot in
    put_sub unlinked slot (record (sub_at unlinked slot) { next = 0xffff })

-- `unlink_sub(i); subs_[i].in_use = false;`
unfoldable pub remove_sub : TopicTrie → ℕ → TopicTrie
unfolding unlink_sub
remove_sub t i = let t' = unlink_sub t (u16 i) in put_sub t' i (released (sub_at t' i))

unfoldable pub unsubscribe : TopicTrie → List ℕ → ℕ → TopicTrie × Bool
unfolding find_sub remove_sub
unsubscribe t filter session_id = elim (find_sub session_id filter t.subs) [
  | none ↦ (t, false)
  | some i ↦ (remove_sub t i, true)
]

unfoldable pub count_subs : List SubEntry → ℕ
count_subs [] = 0
count_subs (e ∷ es) = let n = count_subs es in if e.in_use then n + 1 else n

unfoldable pub subscription_count : TopicTrie → ℕ
unfolding count_subs
subscription_count t = count_subs t.subs

-- The loop of `unsubscribe_all` from slot `i` on, over `left` slots.
unfoldable pub remove_subs_of : ℕ → ℕ → ℕ → TopicTrie → TopicTrie
unfolding remove_sub
remove_subs_of zero i session_id t = t
remove_subs_of (suc left) i session_id t =
    remove_subs_of left (i + 1) session_id
      (if (sub_at t i).in_use && (sub_at t i).session_id == session_id then remove_sub t i else t)

unfoldable pub unsubscribe_all : TopicTrie → ℕ → TopicTrie
unfolding remove_subs_of
unsubscribe_all t session_id = remove_subs_of (length t.subs) 0 session_id t
