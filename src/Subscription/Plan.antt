-- ===== src/Subscription/Plan.antt =====
-- The merged plan: what it promises to the subscriber, and the order of the filters.
use net_burner_mqtt_broker.Base.{
  ℕ, ◌≤◌, ◌≡◌, refl, arith, sym, ◌∙◌, min, max, Bool, true, false, ◌||◌, not, ◌==◌,
}
use net_burner_mqtt_broker.Base.{if◌then◌else◌, List, [], ◌∷◌, All, Bool-cases, inl, inr}
use net_burner_mqtt_broker.Subscription.{
  SubscriptionMatch, DeliveryPlan, PlanLoop, ineligible, merge_match, merge_matches,
  compute_delivery_plan, no_delivery, loop_start,
}
use mathlib.Core.List.{Permᴰ, Perm}
use mathlib.Core.Logic.{∥∥₁_elim}
use mathlib.Core.HLevel.{hedberg}
use net_burner_mqtt_broker.Base.{ℕ_discrete}

-- The filters that count: all but the publisher's own with No Local.
abbrev pub eligible : ℕ → List SubscriptionMatch → List SubscriptionMatch
eligible p [] = []
eligible p (m ∷ ms) = let rest = eligible p ms in if ineligible p m then rest else m ∷ rest

abbrev pub highest_qos : List SubscriptionMatch → ℕ
highest_qos [] = 0
highest_qos (m ∷ ms) = max m.max_qos (highest_qos ms)

abbrev pub some_rap : List SubscriptionMatch → Bool
some_rap [] = false
some_rap (m ∷ ms) = not (m.options.retain_as_published == 0) || some_rap ms

abbrev pub lowest_rh : List SubscriptionMatch → ℕ
lowest_rh [] = 3
lowest_rh (m ∷ ms) = min m.options.retain_handling (lowest_rh ms)

abbrev pub is_any : List SubscriptionMatch → Bool
is_any [] = false
is_any (m ∷ ms) = true

-- The plan for a list of filters that all count.
unfoldable pub plan_for : ℕ → List SubscriptionMatch → DeliveryPlan
plan_for publish_qos ms =
    if is_any ms
    then record {
      deliver = true;
      effective_qos = min publish_qos (highest_qos ms);
      retain_as_published = some_rap ms;
      retain_handling = lowest_rh ms;
    }
    else no_delivery

record Merged (p : ℕ) (l : PlanLoop) (ms : List SubscriptionMatch) (out : PlanLoop) : Type 0 where
  qos : out.max_eligible_qos ≡ max l.max_eligible_qos (highest_qos (eligible p ms))
  any : out.any_eligible ≡ (l.any_eligible || is_any (eligible p ms))
  rap : out.any_rap ≡ (l.any_rap || some_rap (eligible p ms))
  rh : l.rh_min ≤ 3 → out.rh_min ≡ min l.rh_min (lowest_rh (eligible p ms))

merge_matches-Merged :
    (p : ℕ) (l : PlanLoop) (ms : List SubscriptionMatch) → Merged p l ms (merge_matches p l ms)
unfolding merge_matches merge_match
merge_matches-Merged p l [] = ground arith
merge_matches-Merged p l (m ∷ ms) = ground (arith, merge_matches-Merged p (merge_match p l m) ms)

lowest_rh-le : (ms : List SubscriptionMatch) → lowest_rh ms ≤ 3
lowest_rh-le [] = omega arith
lowest_rh-le (m ∷ ms) = omega (arith, lowest_rh-le ms)

-- The loop merges exactly the filters that count: the message is delivered if there is one, at the
-- lower of the publisher's QoS and their highest, with Retain As Published if one of them sets it,
-- and with their lowest Retain Handling. A filter that is the publisher's own with No Local is
-- passed over and does not suppress the others.
pub compute_delivery_plan-plan_for :
    (publish_qos p : ℕ) (ms : List SubscriptionMatch)
    → compute_delivery_plan publish_qos p ms ≡ plan_for publish_qos (eligible p ms)
unfolding compute_delivery_plan plan_for
compute_delivery_plan-plan_for publish_qos p ms =
    ground (arith, merge_matches-Merged p loop_start ms, lowest_rh-le (eligible p ms))

record Alike (xs ys : List SubscriptionMatch) : Type 0 where
  qos : highest_qos xs ≡ highest_qos ys
  any : is_any xs ≡ is_any ys
  rap : some_rap xs ≡ some_rap ys
  rh : lowest_rh xs ≡ lowest_rh ys

or_swap : (a b c : Bool) → (a || (b || c)) ≡ (b || (a || c))
or_swap true true c = refl
or_swap true false c = refl
or_swap false true c = refl
or_swap false false c = refl

cons-Alike :
    (p : ℕ) (b : SubscriptionMatch) (xs ys : List SubscriptionMatch)
    → Alike (eligible p xs) (eligible p ys)
    → Alike (eligible p (b ∷ xs)) (eligible p (b ∷ ys))
cons-Alike p b xs ys v = ground (arith, v)

swap-Alike :
    (a b : SubscriptionMatch) (ms : List SubscriptionMatch) → Alike (a ∷ b ∷ ms) (b ∷ a ∷ ms)
swap-Alike a b ms = record {
  qos = omega arith;
  any = refl;
  rap =
      or_swap (not (a.options.retain_as_published == 0)) (not (b.options.retain_as_published == 0))
        (some_rap ms);
  rh = omega arith;
}

eligible_swap-Alike :
    (p : ℕ) (a b : SubscriptionMatch) (ms : List SubscriptionMatch)
    → Alike (eligible p (a ∷ b ∷ ms)) (eligible p (b ∷ a ∷ ms))
eligible_swap-Alike p a b ms = elim (Bool-cases (ineligible p a)) [
  | inl out ↦ rw out (record { qos = refl; any = refl; rap = refl; rh = refl })
  | inr in_a ↦ elim (Bool-cases (ineligible p b)) [
    | inl out ↦ rw (in_a, out) (record { qos = refl; any = refl; rap = refl; rh = refl })
    | inr in_b ↦ rw (in_a, in_b) (swap-Alike a b (eligible p ms))
  ]
]

eligible-Alike :
    (p : ℕ) {xs ys : List SubscriptionMatch} → Permᴰ xs ys → Alike (eligible p xs) (eligible p ys)
eligible-Alike p Permᴰ.nil = record { qos = refl; any = refl; rap = refl; rh = refl }
eligible-Alike p (Permᴰ.cons {b = b} {l₁ = xs} {l₂ = ys} e h) =
    rw e (cons-Alike p b xs ys (eligible-Alike p h))
eligible-Alike p (Permᴰ.swap {a = a} {b = b} {l = l} e e') =
    rw (← e, ← e') (eligible_swap-Alike p a b l)
eligible-Alike p (Permᴰ.trans h k) =
    let u = eligible-Alike p h in
    let v = eligible-Alike p k in
    record { qos = u.qos ∙ v.qos; any = u.any ∙ v.any; rap = u.rap ∙ v.rap; rh = u.rh ∙ v.rh }

DeliveryPlan-discrete : Discrete DeliveryPlan
DeliveryPlan-discrete = hlevel ℕ_discrete

-- The plan does not depend on the order in which the session's filters are found in the trie.
pub compute_delivery_plan_perm :
    (publish_qos p : ℕ) (xs ys : List SubscriptionMatch)
    → Perm xs ys
    → compute_delivery_plan publish_qos p xs ≡ compute_delivery_plan publish_qos p ys
compute_delivery_plan_perm publish_qos p xs ys h =
    ∥∥₁_elim h (hedberg DeliveryPlan-discrete _ _) λ d.
      compute_delivery_plan-plan_for publish_qos p xs
      ∙ alike (eligible-Alike p d)
      ∙ sym (compute_delivery_plan-plan_for publish_qos p ys)
  where
    alike :
        Alike (eligible p xs) (eligible p ys)
        → plan_for publish_qos (eligible p xs) ≡ plan_for publish_qos (eligible p ys)
    alike v = unfold plan_for in rw (v.qos, v.any, v.rap, v.rh)

-- What a plan grants to one filter.
abbrev pub Serves : ℕ → DeliveryPlan → SubscriptionMatch → Type 0
Serves publish_qos plan m =
    (plan.deliver ≡ true)
    × (min publish_qos m.max_qos ≤ plan.effective_qos)
    × (plan.retain_handling ≤ m.options.retain_handling)

All-served :
    (publish_qos hi : ℕ) (rap : Bool) (lo : ℕ) (ms : List SubscriptionMatch)
    → highest_qos ms ≤ hi
    → lo ≤ lowest_rh ms
    → All
        (Serves publish_qos (record {
          deliver = true;
          effective_qos = min publish_qos hi;
          retain_as_published = rap;
          retain_handling = lo;
        }))
        ms
All-served publish_qos hi rap lo [] h k = tt
All-served publish_qos hi rap lo (m ∷ ms) h k = (
  (refl, omega arith, omega arith),
  All-served publish_qos hi rap lo ms (omega arith) (omega arith),
)

plan_for-Serves :
    (publish_qos : ℕ) (ms : List SubscriptionMatch)
    → ((plan_for publish_qos ms).effective_qos ≤ publish_qos)
      × All (Serves publish_qos (plan_for publish_qos ms)) ms
unfolding plan_for
plan_for-Serves publish_qos [] = (omega arith, tt)
plan_for-Serves publish_qos (m ∷ ms) = (
  omega arith,
  All-served publish_qos (highest_qos (m ∷ ms)) (some_rap (m ∷ ms)) (lowest_rh (m ∷ ms)) (m ∷ ms)
      (omega arith) (omega arith),
)

-- A session is served at least as well as each of its filters that count asks: a delivery is
-- planned, at no more than the publisher's QoS, no less than the filter's grant allows, and with no
-- stricter Retain Handling than the filter's.
pub compute_delivery_plan-Serves :
    (publish_qos p : ℕ) (ms : List SubscriptionMatch)
    → ((compute_delivery_plan publish_qos p ms).effective_qos ≤ publish_qos)
      × All (Serves publish_qos (compute_delivery_plan publish_qos p ms)) (eligible p ms)
compute_delivery_plan-Serves publish_qos p ms =
    rw (compute_delivery_plan-plan_for publish_qos p ms)
      (plan_for-Serves publish_qos (eligible p ms))
