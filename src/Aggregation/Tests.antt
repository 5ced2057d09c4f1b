-- ===== src/Aggregation/Tests.antt =====
-- Outputs with numbers that are natural, and a parser for one text.
use liop.Common.{
  ℕ, ◌≡◌, ◌≢◌, refl, Bool-cases, inl, inr, Option, none, some, List, arith, if◌then◌else◌,
}
use liop.Common.Bytes.{bytes_eq, bytes_eq_iff}
use liop.Common.Text.{codes}
use liop.Pii.{trim, drop_spaces}
use liop.Value.{
  Value, Elements, Entries, object, array, number, text, element, no_elements, entry, no_entries,
  weight, json_of, walk,
}
use liop.Value.Reparse.{IsParser}
use liop.Aggregation.{
  Enforce, on, by_policy, aggregate, violation, out_of_fuel, violates_aggregation_first_policy,
  unwrap_for_aggregation_policy_scan, every_primitive,
}
use liop.Aggregation.Small.{Reached, itself, in_text, in_array, here, Small, violates-Small}
use liop.Aggregation.Ends.{judged_and_unwrapped, text_as_value, mcp_result}

abbrev row : Entries ℕ
row = entry (codes "sum") (number 7) no_entries

abbrev rows : Value ℕ
rows = array (element (object row) no_elements)

abbrev quoted : List ℕ
quoted = codes "[{\"sum\":7}]"

abbrev parse : List ℕ → Option (Value ℕ)
parse t = if bytes_eq t quoted then some rows else none

parse-IsParser : IsParser parse
unfolding weight
parse-IsParser = record {
  fits = λ t v p. elim (Bool-cases (bytes_eq t quoted)) [
    | inl same ↦ ground (arith, bytes_eq_iff t quoted)
    | inr other ↦ ground arith
  ];
}

quoted-rows : json_of parse quoted ≡ some rows
unfolding json_of trim drop_spaces bytes_eq
quoted-rows = refl

input_aggregate : violates_aggregation_first_policy parse on (some 5) (text quoted) ≡ aggregate
unfolding violates_aggregation_first_policy walk trim bytes_eq
input_aggregate = refl

row-Reached : Reached parse (object row) (text quoted)
unfolding every_primitive
row-Reached = in_text quoted-rows (in_array refl here itself)

violates-Small_example : Small on (some 5) (object row)
violates-Small_example =
    violates-Small parse (some 5) on (object row) (text quoted) (λ h. cc) row-Reached
      input_aggregate

judged_and_unwrapped_example :
    (violates_aggregation_first_policy parse on (some 5) (mcp_result quoted) ≢ out_of_fuel)
    × (unwrap_for_aggregation_policy_scan parse (mcp_result quoted) ≢ none)
judged_and_unwrapped_example =
    judged_and_unwrapped parse parse-IsParser on (some 5) (mcp_result quoted)

text_as_value_example :
    (violates_aggregation_first_policy parse on none (text quoted)
      ≡ violates_aggregation_first_policy parse on none rows)
    × (unwrap_for_aggregation_policy_scan parse (text quoted)
        ≡ unwrap_for_aggregation_policy_scan parse rows)
    × (unwrap_for_aggregation_policy_scan parse (mcp_result quoted)
        ≡ unwrap_for_aggregation_policy_scan parse rows)
text_as_value_example = text_as_value parse parse-IsParser on none quoted rows quoted-rows

abbrev two_rows : Enforce
two_rows = by_policy (record { max_output_rows = some 2; allow_primitive_arrays = none })

abbrev three_rows : Elements ℕ
three_rows = element (object row) (element (object row) (element (object row) no_elements))

too_many_rows : violates_aggregation_first_policy parse two_rows none (array three_rows) ≡ violation
unfolding violates_aggregation_first_policy walk
too_many_rows = refl
