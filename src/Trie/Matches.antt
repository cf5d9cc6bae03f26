-- ===== src/Trie/Matches.antt =====
-- Routing through the trie: collect_matches and match of libs/mqtt_broker/src/topic_trie.cpp.
use net_burner_mqtt_broker.Base.{
  ℕ, zero, suc, Bool, false, ◌&&◌, ◌||◌, not, leb, ◌==◌, if◌then◌else◌, List, [], ◌∷◌, ◌++◌, Option,
  none, some, length, take,
}
use net_burner_mqtt_broker.Topic.{
  topic_valid, topic_matches_filter, next_segment, segment_len, same_bytes, is_empty,
}
use net_burner_mqtt_broker.Trie.{TopicTrie, TopicSubscription, SubEntry, node_at, sub_at}
use mathlib.Core.Option

-- What is stored in `out` for a subscription.
unfoldable pub result_of : SubEntry → TopicSubscription
result_of e = record {
  sub_id = e.sub_id;
  session_id = e.session_id;
  max_qos = e.max_qos;
  options_byte = e.options_byte;
}

-- The loop over the chain of subscriptions from slot `sid` on. `*count` is the length of `out`; the
-- fuel is the number of slots, which a chain without a cycle does not exceed.
unfoldable pub collect_subs :
    ℕ → TopicTrie → List ℕ → ℕ → ℕ → List TopicSubscription → List TopicSubscription
unfolding result_of
collect_subs zero t topic out_cap sid out = out
collect_subs (suc fuel) t topic out_cap sid out =
    let e = sub_at t sid in
    let taken : List TopicSubscription =
      if e.in_use && topic_matches_filter (some topic) (some e.filter)
      then out ++ (result_of e ∷ [])
      else out in
    let rest = collect_subs fuel t topic out_cap e.next taken in
    if sid == 0xffff || leb out_cap (length out) then out else rest

-- `rest == nullptr || *rest == '\0'`
abbrev pub used_up : Option (List ℕ) → Bool
used_up rest = is_empty (Option.get_or rest [])

abbrev pub next_of : Option (List ℕ) → Option (List ℕ)
next_of none = none
next_of (some s) = next_segment s

-- `strncmp(segment, rest, len) == 0 && segment[len] == '\0'`, with the length of the segment at `rest`.
unfoldable pub same_segment : List ℕ → Option (List ℕ) → Bool
unfolding same_bytes segment_len
same_segment segment none = false
same_segment segment (some rest) =
    let len = segment_len rest in
    same_bytes (take len segment) (take len rest) && length segment == len

-- What follows is `collect_matches`: `Visit` is the call on a child, with `rest` and `out`.
abbrev pub Visit : Type 0
Visit = ℕ → Option (List ℕ) → List TopicSubscription → List TopicSubscription

-- The body of the loop over the children.
unfoldable pub visit_child :
    Visit → TopicTrie → Option (List ℕ) → ℕ → List TopicSubscription → List TopicSubscription
unfolding same_segment
visit_child visit t rest child out =
    if (node_at t child).is_wildcard_hash
    then visit child (some []) out
    else if (node_at t child).is_wildcard_plus
    then visit child (some (Option.get_or (next_of rest) [])) out
    else if same_segment (node_at t child).segment rest
    then visit child (next_of rest) out
    else out

unfoldable pub visit_children :
    ℕ → Visit → TopicTrie → Option (List ℕ) → ℕ → List TopicSubscription → List TopicSubscription
unfolding visit_child
visit_children zero visit t rest child out = out
visit_children (suc fuel) visit t rest child out =
    let below =
      visit_children fuel visit t rest ((node_at t child).next_sibling)
        (visit_child visit t rest child out) in
    if child == 0xffff then out else below

-- Each call goes to a child, so the number of nodes bounds the depth.
unfoldable pub collect_matches : ℕ → TopicTrie → List ℕ → ℕ → Visit
unfolding collect_subs visit_children
collect_matches zero t topic out_cap node rest out = out
collect_matches (suc depth) t topic out_cap node rest out =
    let n = node_at t node in
    let own = collect_subs (length t.subs) t topic out_cap n.first_sub out in
    let below =
      visit_children (length t.nodes) (collect_matches depth t topic out_cap) t rest n.first_child
        (if used_up rest && n.terminal then own else out) in
    if node == 0xffff then out else if n.is_wildcard_hash then own else below

-- The entries of `out` that are written, for a topic pointer that is not null.
unfoldable pub match_topic : TopicTrie → List ℕ → ℕ → List TopicSubscription
unfolding collect_matches
match_topic t topic out_cap =
    if not (topic_valid (some topic))
    then []
    else collect_matches (suc (length t.nodes)) t topic out_cap t.root (some topic) []
