-- ===== src/Subscription.antt =====
-- libs/mqtt_broker/src/subscription_options.cpp and include/mqtt_broker/subscription_options.hpp:
-- the Subscription Options byte, and the merge of the filters by which one session matches.
pub mod Plan
pub mod Options
mod Tests
use net_burner_mqtt_broker.Base.{
  ℕ, ◌/◌, ◌^◌, min, max, bit_and, Bool, true, false, ◌&&◌, ◌||◌, not, ltb, leb, ◌==◌,
}
use net_burner_mqtt_broker.Base.{if◌then◌else◌, List, [], ◌∷◌}

-- The bit fields of the options byte.
pub record SubscriptionOptions : Type 0 where
  pub max_qos : ℕ
  pub no_local : ℕ
  pub retain_as_published : ℕ
  pub retain_handling : ℕ
  pub reserved : ℕ

pub record SubscriptionMatch : Type 0 where
  pub max_qos : ℕ
  pub options : SubscriptionOptions
  pub session_id : ℕ

pub record DeliveryPlan : Type 0 where
  pub deliver : Bool
  pub effective_qos : ℕ
  pub retain_as_published : Bool
  pub retain_handling : ℕ

unfoldable pub subscription_options_valid : ℕ → Bool
subscription_options_valid options_byte =
    let rh = bit_and (options_byte / 2 ^ 4) 0x03 in
    let reserved = bit_and (options_byte / 2 ^ 6) 0x03 in reserved == 0 && leb rh 2

-- The variables of the loop of `compute_delivery_plan`.
pub record PlanLoop : Type 0 where
  pub max_eligible_qos : ℕ
  pub any_eligible : Bool
  pub any_rap : Bool
  pub rh_min : ℕ

-- No Local set, on the publisher's own session.
pub ineligible : ℕ → SubscriptionMatch → Bool
ineligible publisher_session m = not (m.options.no_local == 0) && m.session_id == publisher_session

merge_match : ℕ → PlanLoop → SubscriptionMatch → PlanLoop
unfolding ineligible
merge_match publisher_session l m = if ineligible publisher_session m then l else record {
  max_eligible_qos = max l.max_eligible_qos m.max_qos;
  any_eligible = true;
  any_rap = if not (m.options.retain_as_published == 0) then true else l.any_rap;
  rh_min = if ltb m.options.retain_handling l.rh_min then m.options.retain_handling else l.rh_min;
}

merge_matches : ℕ → PlanLoop → List SubscriptionMatch → PlanLoop
merge_matches publisher_session l [] = l
merge_matches publisher_session l (m ∷ ms) =
    merge_matches publisher_session (merge_match publisher_session l m) ms

abbrev pub no_delivery : DeliveryPlan
no_delivery = record {
  deliver = false;
  effective_qos = 0;
  retain_as_published = false;
  retain_handling = 0;
}

abbrev loop_start : PlanLoop
loop_start = record { max_eligible_qos = 0; any_eligible = false; any_rap = false; rh_min = 3 }

-- `matches` with `match_count`; a null pointer or a count of 0 is the empty list.
unfoldable pub compute_delivery_plan : ℕ → ℕ → List SubscriptionMatch → DeliveryPlan
unfolding merge_matches merge_match
compute_delivery_plan publish_qos publisher_session ms =
    let l = merge_matches publisher_session loop_start ms in
    if not l.any_eligible then no_delivery else record {
      deliver = true;
      effective_qos = min publish_qos l.max_eligible_qos;
      retain_as_published = l.any_rap;
      retain_handling = l.rh_min;
    }
