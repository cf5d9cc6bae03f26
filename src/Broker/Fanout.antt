-- ===== src/Broker/Fanout.antt =====
-- Which sessions route_publish of libs/mqtt_broker/src/broker.cpp serves, and how often.
use net_burner_mqtt_broker.Base.{
  ℕ, ◌≡◌, refl, arith, true, false, ◌||◌, ◌==◌, if◌then◌else◌, List, [], ◌∷◌, All, Bool-cases, inl,
  inr, ==_iff,
}
use net_burner_mqtt_broker.Trie.{TopicSubscription}
use net_burner_mqtt_broker.Broker.{Broker}
use net_burner_mqtt_broker.Broker.Sessions.{Router}
use net_burner_mqtt_broker.Broker.Routing.{
  Publication, seen_before, plan_for_session, route_to, route_loop,
}

-- The sessions of the matches that are not in `seen`, each where it comes first.
unfoldable pub reached : List ℕ → List TopicSubscription → List ℕ
unfolding seen_before
reached seen [] = []
reached seen (m ∷ ms) =
    let skip = reached seen ms in
    let take = m.session_id ∷ reached (m.session_id ∷ seen) ms in
    if seen_before m.session_id seen then skip else take

-- One round of routing for each session of a list, with its plan.
unfoldable pub route_each : {W : Type 0} → Router W → Broker W → Publication → List ℕ → Broker W
route_each route b p [] = b
route_each route b p (sid ∷ sids) =
    route_each route
      (route_to route b p sid (plan_for_session p.publish_qos p.pub_id sid p.matches)) p sids

-- No number stands twice in the list.
abbrev pub Distinct : List ℕ → Type 0
Distinct [] = Unit
Distinct (x ∷ xs) = (seen_before x xs ≡ false) × Distinct xs

-- Every match belongs to a session of the list.
abbrev pub Serves : List ℕ → List TopicSubscription → Type 0
Serves sids ms = All (λ m. seen_before m.session_id sids ≡ true) ms

reached-new :
    (x : ℕ) (seen : List ℕ) (ms : List TopicSubscription)
    → seen_before x seen ≡ true
    → seen_before x (reached seen ms) ≡ false
unfolding reached
reached-new x seen [] h = refl
reached-new x seen (m ∷ ms) h = elim (Bool-cases (seen_before m.session_id seen)) [
  | inl old ↦ rw (reached, old) (reached-new x seen ms h)
  | inr new ↦ elim (Bool-cases (m.session_id == x)) [
    | inl same ↦
        let e : m.session_id ≡ x = (==_iff _ _).0 same in absurd (ground (arith, rw e at new, h))
    | inr other ↦
        rw (reached, new, seen_before, other)
          (reached-new x (m.session_id ∷ seen) ms (rw (seen_before, other) h))
  ]
]

reached-Distinct : (seen : List ℕ) (ms : List TopicSubscription) → Distinct (reached seen ms)
unfolding reached
reached-Distinct seen [] = tt
reached-Distinct seen (m ∷ ms) = elim (Bool-cases (seen_before m.session_id seen)) [
  | inl old ↦ rw (reached, old) (reached-Distinct seen ms)
  | inr new ↦
      rw (reached, new)
        (
          reached-new m.session_id (m.session_id ∷ seen) ms (ground arith),
          reached-Distinct (m.session_id ∷ seen) ms,
        )
]

All-imply :
    {P Q : TopicSubscription → Type 0} (ms : List TopicSubscription)
    → ((m : TopicSubscription) → P m → Q m)
    → All P ms
    → All Q ms
All-imply [] f h = tt
All-imply (m ∷ ms) f h = (f m h.0, All-imply ms f h.1)

-- What has been seen before, or is served in what follows.
abbrev Covers : List ℕ → List ℕ → TopicSubscription → Type 0
Covers seen sids m = (seen_before m.session_id seen || seen_before m.session_id sids) ≡ true

Covers-head :
    (x : ℕ) (seen sids : List ℕ) (m : TopicSubscription)
    → Covers (x ∷ seen) sids m
    → Covers seen (x ∷ sids) m
unfolding seen_before
Covers-head x seen sids m h = ground arith

reached_again :
    (m : TopicSubscription) (seen : List ℕ) (ms : List TopicSubscription)
    → seen_before m.session_id seen ≡ true
    → reached seen (m ∷ ms) ≡ reached seen ms
unfolding reached
reached_again m seen ms old = rw (reached, old) refl

reached_first :
    (m : TopicSubscription) (seen : List ℕ) (ms : List TopicSubscription)
    → seen_before m.session_id seen ≡ false
    → reached seen (m ∷ ms) ≡ m.session_id ∷ reached (m.session_id ∷ seen) ms
unfolding reached
reached_first m seen ms new = rw (reached, new) refl

covers_self : (x : ℕ) (seen sids : List ℕ) → (seen_before x (x ∷ seen) || seen_before x sids) ≡ true
unfolding seen_before
covers_self x seen sids = ground arith

Covers-as :
    (seen sids sids' : List ℕ) (ms : List TopicSubscription)
    → sids' ≡ sids
    → All (Covers seen sids) ms
    → All (Covers seen sids') ms
Covers-as seen sids sids' ms e h = All-imply ms (λ m k. rw e k) h

reached-Covers :
    (seen : List ℕ) (ms : List TopicSubscription) → All (Covers seen (reached seen ms)) ms
reached-Covers seen [] = tt
reached-Covers seen (m ∷ ms) = elim (Bool-cases (seen_before m.session_id seen)) [
  | inl old ↦
      Covers-as seen (reached seen ms) _ (m ∷ ms) (reached_again m seen ms old)
        (rw old refl, reached-Covers seen ms)
  | inr new ↦
      let sids = reached (m.session_id ∷ seen) ms in
      Covers-as seen (m.session_id ∷ sids) _ (m ∷ ms) (reached_first m seen ms new) (
        Covers-head m.session_id seen sids m (covers_self m.session_id seen sids),
        All-imply ms (Covers-head m.session_id seen sids) (reached-Covers (m.session_id ∷ seen) ms),
      )
]

route_loop-each :
    {W : Type 0} (route : Router W) (b : Broker W) (p : Publication) (seen : List ℕ)
    (ms : List TopicSubscription)
    → route_loop route b p seen ms ≡ route_each route b p (reached seen ms)
unfolding route_loop route_each reached
route_loop-each route b p seen [] = refl
route_loop-each route b p seen (m ∷ ms) = elim (Bool-cases (seen_before m.session_id seen)) [
  | inl old ↦ rw (route_loop, reached, old) (route_loop-each route b p seen ms)
  | inr new ↦
      rw (route_loop, reached, new)
        (route_loop-each route
          (route_to route b p m.session_id
            (plan_for_session p.publish_qos p.pub_id m.session_id p.matches))
          p (m.session_id ∷ seen) ms)
]

-- However many subscriptions of a session match, and whatever the nested calls do, the loop of
-- route_publish is one round of routing for each session of a list, in which no session stands twice,
-- and to which every match belongs.
pub route_loop_once :
    {W : Type 0} (route : Router W) (b : Broker W) (p : Publication) (ms : List TopicSubscription)
    → (sids : List ℕ) × (route_loop route b p [] ms ≡ route_each route b p sids)
      × Distinct sids
      × Serves sids ms
unfolding seen_before
route_loop_once route b p ms = (
  reached [] ms,
  route_loop-each route b p [] ms,
  reached-Distinct [] ms,
  All-imply ms (λ m h. h) (reached-Covers [] ms),
)
