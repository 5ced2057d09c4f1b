-- ===== src/Aggregation/Blind.antt =====
-- Arrays that the policy lets through whatever their length.
use liop.Common.{ℕ, ◌≡◌, Option, List}
use liop.Value.{Value, Elements, no_elements, element, reparse}
use liop.Value.Reparse.{IsParser}
use liop.Aggregation.{
  Enforce, Judged, aggregate, out_of_fuel, judge_value, no_violation,
  violates_aggregation_first_policy,
}

module _ {F : Type 0} (parse : List ℕ → Option (Value F)) (records_count : Option ℕ) where
  -- Each element by itself is let through.
  abbrev pub EachAggregate : Enforce → Elements F → Type 0
  EachAggregate policy no_elements = Unit
  EachAggregate policy (element v es) =
      (violates_aggregation_first_policy parse policy records_count v ≡ aggregate)
      × EachAggregate policy es

  module _ (parser : IsParser parse) where
    abbrev at : Enforce → ℕ → List ℕ → Judged
    at policy = reparse parse no_violation out_of_fuel (judge_value policy records_count)
