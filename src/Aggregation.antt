-- ===== src/Aggregation.antt =====
-- The policy that only aggregates leave the server (sdks/typescript/src/server/index.ts,
-- `unwrapForAggregationPolicyScan` and `violatesAggregationFirstPolicy`). An object has no two fields of
-- one name.
pub mod Small
pub mod Ends
pub mod Blind
mod Tests
use liop.Common.{
  ℕ, Bool, true, false, not, ◌&&◌, ◌||◌, Option, none, some, List, [], ◌∷◌, ◌++◌, if◌then◌else◌,
  ltb, coalesce_to,
}
use liop.Common.Bytes.{bytes_eq}
use liop.Common.Text.{codes}
use liop.Value.{
  Value, Elements, Entries, undefined, null, boolean, number, text, array, object, no_elements,
  element, no_entries, entry, count_entries, count_elements, field, walk,
}

pub record AggregationPolicy : Type 0 where
  pub max_output_rows : Option ℕ
  pub allow_primitive_arrays : Option Bool

-- `boolean | AggregationPolicy`, or absent.
pub data Enforce : Type 0 where
  off : Enforce
  on : Enforce
  by_policy : AggregationPolicy → Enforce

-- What the recursion through an output comes to.
pub data Judged : Type 0 where
  aggregate : Judged
  violation : Judged
  out_of_fuel : Judged

-- `||` on what `violatesAggregationFirstPolicy` returns.
abbrev pub or_else : Judged → Judged → Judged
or_else aggregate b = b
or_else violation b = violation
or_else out_of_fuel b = out_of_fuel

unfoldable pub max_rows : Enforce → ℕ
max_rows off = 10
max_rows on = 10
max_rows (by_policy p) = coalesce_to p.max_output_rows 10

unfoldable pub allow_primitives : Enforce → Bool
allow_primitives off = true
allow_primitives on = true
allow_primitives (by_policy p) = coalesce_to p.allow_primitive_arrays true

-- `recordsCount !== undefined && recordsCount > 0 && recordsCount < 10`
unfoldable pub is_small_dataset : Option ℕ → Bool
is_small_dataset none = false
is_small_dataset (some n) = ltb 0 n && ltb n 10

abbrev pub no_violation : List ℕ → Judged
no_violation t = aggregate

-- `texts.join("\n")`
unfoldable pub join_lines : List (List ℕ) → List ℕ
join_lines [] = []
join_lines (t ∷ []) = t
join_lines (t ∷ u ∷ ts) = t ++ b'\n' ∷ join_lines (u ∷ ts)

module _ {F : Type 0} where
  -- `typeof v === "object" && v !== null`
  abbrev pub is_object : Value F → Bool
  is_object undefined = false
  is_object null = false
  is_object (boolean b) = false
  is_object (number x) = false
  is_object (text t) = false
  is_object (array es) = true
  is_object (object es) = true

  unfoldable pub every_object : Elements F → Bool
  every_object no_elements = true
  every_object (element v es) = is_object v && every_object es

  unfoldable pub every_primitive : Elements F → Bool
  every_primitive no_elements = true
  every_primitive (element v es) = not (is_object v) && every_primitive es

  unfoldable pub some_object : Entries F → Bool
  some_object no_entries = false
  some_object (entry k v es) = is_object v || some_object es

  -- What an array and an object come to by themselves; the last argument is what is within them.
  unfoldable pub judge_array : Enforce → Elements F → Judged → Judged
  unfolding max_rows allow_primitives every_object every_primitive
  judge_array policy no_elements inner = aggregate
  judge_array policy (element v es) inner =
      if every_object (element v es)
      then (if ltb (max_rows policy) (count_elements (element v es)) then violation else inner)
      else if every_primitive (element v es)
      then (if allow_primitives policy then aggregate else violation)
      else inner

  unfoldable pub judge_object : Enforce → Option ℕ → Entries F → Judged → Judged
  unfolding max_rows is_small_dataset some_object
  judge_object policy records_count es inner =
      if is_small_dataset records_count && (ltb 3 (count_entries es) || some_object es)
      then violation
      else if ltb (max_rows policy) (count_entries es)
      then violation
      else inner

  module _ (policy : Enforce) (records_count : Option ℕ) where
    unfoldable mutual
      unfolding judge_array judge_object

      pub judge_value : (List ℕ → Judged) → Value F → Judged
      judge_value again undefined = aggregate
      judge_value again null = aggregate
      judge_value again (boolean b) = aggregate
      judge_value again (number x) = aggregate
      judge_value again (text t) = again t
      judge_value again (array es) = judge_array policy es (judge_elements again es)
      judge_value again (object es) = judge_object policy records_count es (judge_entries again es)

      pub judge_elements : (List ℕ → Judged) → Elements F → Judged
      judge_elements again no_elements = aggregate
      judge_elements again (element v es) = or_else (judge_value again v) (judge_elements again es)

      pub judge_entries : (List ℕ → Judged) → Entries F → Judged
      judge_entries again no_entries = aggregate
      judge_entries again (entry k v es) = or_else (judge_value again v) (judge_entries again es)

  -- With the policy in force.
  unfoldable pub judge : (List ℕ → Option (Value F)) → Enforce → Option ℕ → Value F → Judged
  unfolding judge_value
  judge parse policy records_count input =
      walk parse no_violation out_of_fuel (judge_value policy records_count) input

  unfoldable pub violates_aggregation_first_policy :
      (List ℕ → Option (Value F)) → Enforce → Option ℕ → Value F → Judged
  unfolding judge
  violates_aggregation_first_policy parse off records_count input = aggregate
  violates_aggregation_first_policy parse on records_count input =
      judge parse on records_count input
  violates_aggregation_first_policy parse (by_policy p) records_count input =
      judge parse (by_policy p) records_count input

  -- The texts of the parts of an MCP result.
  abbrev pub push_text : Option (Value F) → List (List ℕ) → List (List ℕ)
  push_text (some (text t)) ts = t ∷ ts
  push_text _ ts = ts

  abbrev pub part_text : Value F → Option (Value F)
  part_text (object es) = field (codes "text") es
  part_text _ = none

  unfoldable pub texts_of : Elements F → List (List ℕ)
  unfolding field
  texts_of no_elements = []
  texts_of (element v es) = push_text (part_text v) (texts_of es)

  abbrev pub unwrap_texts : (List ℕ → Option (Value F)) → Value F → List (List ℕ) → Option (Value F)
  unwrap_texts again input [] = some input
  unwrap_texts again input (t ∷ ts) = again (join_lines (t ∷ ts))

  abbrev pub unwrap_content :
      (List ℕ → Option (Value F)) → Value F → Option (Value F) → Option (Value F)
  unwrap_content again input (some (array es)) = unwrap_texts again input (texts_of es)
  unwrap_content again input _ = some input

  abbrev pub unless_undefined : Value F → Option (Value F) → Option (Option (Value F))
  unless_undefined undefined inner = none
  unless_undefined _ inner = some inner

  unfoldable mutual
    unfolding texts_of join_lines field

    pub unwrap_value : (List ℕ → Option (Value F)) → Value F → Option (Value F)
    unwrap_value again undefined = some undefined
    unwrap_value again null = some null
    unwrap_value again (boolean b) = some (boolean b)
    unwrap_value again (number x) = some (number x)
    unwrap_value again (text t) = again t
    unwrap_value again (array es) = some (array es)
    unwrap_value again (object es) =
        coalesce_to (unwrap_computed again es)
          (unwrap_content again (object es) (field (codes "content") es))

    -- `rec.computation_result` where it is not undefined, unwrapped.
    pub unwrap_computed : (List ℕ → Option (Value F)) → Entries F → Option (Option (Value F))
    unwrap_computed again no_entries = none
    unwrap_computed again (entry k v es) =
        if bytes_eq k (codes "computation_result")
        then unless_undefined v (unwrap_value again v)
        else unwrap_computed again es

  abbrev pub as_text : List ℕ → Option (Value F)
  as_text t = some (text t)

  -- None where the fuel is out.
  unfoldable pub unwrap_for_aggregation_policy_scan :
      (List ℕ → Option (Value F)) → Value F → Option (Value F)
  unfolding unwrap_value
  unwrap_for_aggregation_policy_scan parse input = walk parse as_text none unwrap_value input
