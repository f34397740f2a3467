-- ===== src/Connection/FastFallback/Examples.antt =====
-- A race of three routes at concrete inputs.
use openwire.Base.{ℕ, ◌≡◌, refl, true, false, List, [], ◌∷◌, Option, none, some, arith}
use openwire.Policy.Types.{WireError, WireErrorKind, EstablishmentStage, wire_error}
use openwire.Connection.Planning.{RoutePlan}
use openwire.Connection.Examples.{example_route}
use openwire.Connection.FastFallback.{
  FastFallbackMessage, started, connected, failed_with, race_start, race_won, race_lost, LossReason,
  dial_route_plan,
}
use openwire.Connection.FastFallback.Accounting.{endings}
use openwire.Connection.FastFallback.Reports.{Told, dial_route_plan-Told}

abbrev three_routes : RoutePlan
three_routes = record {
  routes = example_route ∷ example_route ∷ example_route ∷ [];
  fast_fallback_stagger = 250;
}

abbrev exhausted : WireError
exhausted = wire_error WireErrorKind.connect

abbrev refused : WireError
refused = record exhausted {
  establishment =
      some record { stage = EstablishmentStage.tcp; retryable = true; connect_timeout = false };
}

-- The first route is refused, the third is faster than the second.
abbrev messages : List (FastFallbackMessage ℕ)
messages =
    started 0
    ∷ failed_with 0 refused []
    ∷ started 1
    ∷ started 2
    ∷ connected 2 77
    ∷ connected 1 78
    ∷ []

abbrev never_refuses : ℕ → Option WireError
never_refuses index = none

dial_route_plan-Told_example :
    Told
      (dial_route_plan exhausted 5 never_refuses three_routes messages).1
      (endings 1 (dial_route_plan exhausted 5 never_refuses three_routes messages).0.events)
dial_route_plan-Told_example =
    dial_route_plan-Told exhausted 5 never_refuses three_routes messages
      (omega arith, (omega arith, (omega arith, (omega arith, (omega arith, (omega arith, tt))))))
      ((refl, (refl, (refl, (refl, tt)))), ((refl, tt), (tt, tt))) 1 (omega arith)

race_test :
    (dial_route_plan exhausted 5 never_refuses three_routes messages).0.events
    ≡ race_lost 1 LossReason.canceled
      ∷ race_won 2
      ∷ race_start 2
      ∷ race_start 1
      ∷ race_lost 0 LossReason.connect_failed
      ∷ race_start 0
      ∷ []
unfolding dial_route_plan
race_test = refl
