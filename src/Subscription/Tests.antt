-- ===== src/Subscription/Tests.antt =====
-- The merge of overlapping filters at concrete matches.
use net_burner_mqtt_broker.Base.{ℕ, ◌≡◌, refl, true, false, [], ◌∷◌}
use net_burner_mqtt_broker.Subscription.{
  SubscriptionOptions, SubscriptionMatch, compute_delivery_plan,
}
use net_burner_mqtt_broker.Subscription.Plan.{
  eligible, plan_for, compute_delivery_plan-plan_for, compute_delivery_plan_perm,
}
use mathlib.Core.List.{Permᴰ}

abbrev option_bits : ℕ → ℕ → ℕ → SubscriptionOptions
option_bits no_local rap rh = record {
  max_qos = 2;
  no_local = no_local;
  retain_as_published = rap;
  retain_handling = rh;
  reserved = 0;
}

-- One filter of session 7 with No Local, and two without.
abbrev own : SubscriptionMatch
own = record { max_qos = 2; options = option_bits 1 1 0; session_id = 7 }

abbrev low : SubscriptionMatch
low = record { max_qos = 0; options = option_bits 0 0 1; session_id = 7 }

abbrev high : SubscriptionMatch
high = record { max_qos = 1; options = option_bits 0 0 2; session_id = 7 }

plan_run :
    compute_delivery_plan 2 7 (own ∷ low ∷ high ∷ [])
    ≡ record { deliver = true; effective_qos = 1; retain_as_published = false; retain_handling = 1 }
unfolding compute_delivery_plan
plan_run = refl

compute_delivery_plan-plan_for_example :
    compute_delivery_plan 2 7 (own ∷ low ∷ []) ≡ plan_for 2 (eligible 7 (own ∷ low ∷ []))
compute_delivery_plan-plan_for_example = compute_delivery_plan-plan_for 2 7 (own ∷ low ∷ [])

compute_delivery_plan_perm_example :
    compute_delivery_plan 2 7 (own ∷ low ∷ []) ≡ compute_delivery_plan 2 7 (low ∷ own ∷ [])
compute_delivery_plan_perm_example =
    compute_delivery_plan_perm 2 7 (own ∷ low ∷ []) (low ∷ own ∷ [])
      ∣ Permᴰ.swap {a = own} {b = low} {l = []} refl refl ∣₁
