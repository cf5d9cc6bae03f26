-- ===== src/Trie/Tests.antt =====
-- Runs of the trie, and its theorems at concrete inputs.
use net_burner_mqtt_broker.Base.{
  ℕ, ◌≡◌, refl, arith, true, false, inr, List, [], ◌∷◌, some, length, replicate,
}
use net_burner_mqtt_broker.Topic.{
  topic_valid, is_valid_topic_char, filter_valid, is_empty, topic_matches_filter,
}
use net_burner_mqtt_broker.Subscription.{subscription_options_valid}
use net_burner_mqtt_broker.Trie.Linked.{IsLinked, find_child_enough}
use net_burner_mqtt_broker.Trie.Reach.{
  Reachable, constructed, subscribed, unsubscribed, Reachable-IsLinked,
}
use net_burner_mqtt_broker.Trie.Sound.{IsSound, match_topic-IsSound}
use net_burner_mqtt_broker.Trie.Again.{UpdatedInPlace, subscribe_again}
use net_burner_mqtt_broker.Trie.{TopicTrie, create_trie, no_sub, find_child}
use net_burner_mqtt_broker.Trie.Slots.{subscribe, unsubscribe, subscription_count, unsubscribe_all}
use net_burner_mqtt_broker.Trie.Matches.{match_topic}

abbrev empty_trie : TopicTrie
unfolding create_trie
empty_trie = create_trie (record { max_nodes = 6; max_subscriptions = 3 }) (replicate 3 no_sub)

-- "a/b", "a/+" and "#".
abbrev a_b : List ℕ
a_b = b'a' ∷ b'/' ∷ b'b' ∷ []

abbrev a_plus : List ℕ
a_plus = b'a' ∷ b'/' ∷ b'+' ∷ []

abbrev hash_only : List ℕ
hash_only = b'#' ∷ []

abbrev three : TopicTrie
unfolding subscribe
three =
    let t1 = (subscribe empty_trie (some a_b) 1 2 2).0 in
    let t2 = (subscribe t1 (some a_plus) 2 1 1).0 in (subscribe t2 (some hash_only) 1 0 0).0

three-count : length (match_topic three a_b 8) ≡ 3
unfolding match_topic topic_valid is_valid_topic_char filter_valid subscription_options_valid
    is_empty topic_matches_filter three empty_trie
three-count = refl

after_unsubscribe : length (match_topic ((unsubscribe three a_plus 2).0) a_b 8) ≡ 2
unfolding match_topic unsubscribe topic_valid is_valid_topic_char filter_valid
    subscription_options_valid is_empty topic_matches_filter three empty_trie
after_unsubscribe = refl

after_all : subscription_count (unsubscribe_all three 1) ≡ 1
unfolding subscription_count unsubscribe_all topic_valid is_valid_topic_char filter_valid
    subscription_options_valid is_empty topic_matches_filter three empty_trie
after_all = refl

match_topic-IsSound_example : IsSound three a_b 2 (match_topic three a_b 2)
match_topic-IsSound_example = match_topic-IsSound three a_b 2

-- Session 1 subscribes again to "a/b", at QoS 1 and with No Local.
subscribe_again_example :
    let first = subscribe three (some a_b) 1 2 2 in
    let again = subscribe first.0 (some a_b) 1 1 5 in
    (again.1 ≡ record { accepted = true; out_sub_id = first.1.out_sub_id; out_existed = true })
    × (subscription_count again.0 ≡ subscription_count first.0)
    × ((i : ℕ) × UpdatedInPlace first.0 again.0 1 a_b 1 5 i)
unfolding subscribe filter_valid is_valid_topic_char subscription_options_valid three empty_trie
    is_empty
subscribe_again_example = subscribe_again three a_b 1 2 2 1 5 (omega arith) refl refl

-- "a/+" is subscribed to, and given up.
abbrev a_plus_on : TopicTrie
a_plus_on = (subscribe empty_trie (some a_plus) 2 1 1).0

a_plus_on-Reachable : Reachable a_plus_on
unfolding create_trie empty_trie
a_plus_on-Reachable = subscribed (some a_plus) 2 1 1 (
    constructed (record { max_nodes = 6; max_subscriptions = 3 }) (replicate 3 no_sub) (omega arith)
      (omega arith))

Reachable-IsLinked_example : IsLinked (unsubscribe a_plus_on a_plus 2).0
Reachable-IsLinked_example =
    Reachable-IsLinked (unsubscribe a_plus_on a_plus 2).0
      (unsubscribed a_plus 2 a_plus_on-Reachable)

-- The node of "a", which "a/+" put behind the root.
find_child_enough_example :
    find_child 2 a_plus_on 1 (b'a' ∷ []) false false
    ≡ find_child 6 a_plus_on 1 (b'a' ∷ []) false false
unfolding create_trie subscribe filter_valid is_valid_topic_char subscription_options_valid is_empty
find_child_enough_example =
    find_child_enough 2 6 a_plus_on 1 (b'a' ∷ []) false false
      (Reachable-IsLinked a_plus_on a_plus_on-Reachable) (inr (omega arith)) (inr (omega arith))
      (inr (omega arith))
