-- ===== src/Aggregation/Small.antt =====
-- What an output that the policy lets through is made of.
use liop.Common.{
  ℕ, zero, suc, ◌≤◌, ◌≡◌, ◌≢◌, ◌⊎◌, inl, inr, refl, Bool, true, false, ◌&&◌, ◌||◌, Option, some,
  List, if◌then◌else◌, arith, ltb, ltb→ge,
}
use mathlib.Core.Path.{subst}
use liop.Value.{
  Value, Elements, Entries, undefined, null, boolean, number, text, array, object, no_elements,
  element, no_entries, entry, weight, json_of, reparse, walk, count_elements, count_entries,
}
use liop.Aggregation.{
  Enforce, off, on, by_policy, Judged, aggregate, violation, out_of_fuel, or_else, max_rows,
  allow_primitives, is_small_dataset, every_object, every_primitive, some_object, is_object,
  judge_array, judge_object, judge_value, judge_elements, judge_entries, no_violation, judge,
  violates_aggregation_first_policy,
}

module _ {F : Type 0} where
  pub data ElementOf (v : Value F) : Elements F → Type 0 where
    here : {es : Elements F} → ElementOf v (element v es)
    later : {w : Value F} {es : Elements F} → ElementOf v es → ElementOf v (element w es)

  pub data EntryOf (v : Value F) : Entries F → Type 0 where
    first : {k : List ℕ} {es : Entries F} → EntryOf v (entry k v es)
    after : {j : List ℕ} {w : Value F} {es : Entries F} → EntryOf v es → EntryOf v (entry j w es)

  -- The values that the policy reaches within an output: not those in an array of primitive values.
  pub data Reached (parse : List ℕ → Option (Value F)) (v : Value F) : Value F → Type 0 where
    itself : Reached parse v v
    in_text :
        {t : List ℕ} {w : Value F}
        → json_of parse t ≡ some w
        → Reached parse v w
        → Reached parse v (text t)
    in_array :
        {w : Value F} {es : Elements F}
        → every_primitive es ≡ false
        → ElementOf w es
        → Reached parse v w
        → Reached parse v (array es)
    in_object :
        {w : Value F} {es : Entries F}
        → EntryOf w es
        → Reached parse v w
        → Reached parse v (object es)

or_else_parts : (a b : Judged) → or_else a b ≡ aggregate → (a ≡ aggregate) × (b ≡ aggregate)
or_else_parts aggregate b h = (refl, h)
or_else_parts violation b h = cc
or_else_parts out_of_fuel b h = cc

-- The Boolean skeleton of the judgement of an array.
array_parts :
    (objects primitives large allow : Bool) (inner : Judged)
    → (if objects
        then (if large then violation else inner)
        else if primitives
        then (if allow then aggregate else violation)
        else inner)
      ≡ aggregate
    → ((objects ≡ false) ⊎ (large ≡ false))
      × ((primitives ≡ false) ⊎ (allow ≡ true) ⊎ (objects ≡ true))
array_parts true primitives true allow inner h = cc
array_parts true primitives false allow inner h = (inr refl, inr (inr refl))
array_parts false true large true inner h = (inl refl, inr (inl refl))
array_parts false true large false inner h = cc
array_parts false false large allow inner h = (inl refl, inl refl)

array_rest :
    (objects large : Bool) (inner : Judged)
    → (if objects then (if large then violation else inner) else inner) ≡ aggregate
    → inner ≡ aggregate
array_rest true true inner h = cc
array_rest true false inner h = h
array_rest false large inner h = h

object_parts :
    (small many nested large : Bool) (inner : Judged)
    → (if small && (many || nested) then violation else if large then violation else inner)
      ≡ aggregate
    → (large ≡ false)
      × ((small ≡ false) ⊎ ((many ≡ false) × (nested ≡ false)))
      × (inner ≡ aggregate)
object_parts true true nested large inner h = cc
object_parts true false true large inner h = cc
object_parts true false false true inner h = cc
object_parts true false false false inner h = (refl, inr (refl, refl), h)
object_parts false many nested true inner h = cc
object_parts false many nested false inner h = (refl, inl refl, h)

module _ {F : Type 0} (policy : Enforce) (records_count : Option ℕ) where
  -- An array of objects has `max_rows` elements at most, one of primitive values is empty or allowed; an
  -- object has `max_rows` fields at most, and for a small dataset three, of which none holds an object.
  abbrev pub Small : Value F → Type 0
  Small undefined = Unit
  Small null = Unit
  Small (boolean b) = Unit
  Small (number x) = Unit
  Small (text t) = Unit
  Small (array es) =
      ((every_object es ≡ false) ⊎ (count_elements es ≤ max_rows policy))
      × ((every_primitive es ≡ false) ⊎ (allow_primitives policy ≡ true) ⊎ (es ≡ no_elements))
  Small (object es) =
      (count_entries es ≤ max_rows policy)
      × ((is_small_dataset records_count ≡ false)
          ⊎ ((count_entries es ≤ 3) × (some_object es ≡ false)))

  apart :
      (b : Bool) (v : Value F) (es : Elements F)
      → is_object v ≡ b
      → every_object (element v es) ≡ true
      → every_primitive (element v es) ≡ false
  unfolding every_object every_primitive
  apart true v es e h = ground arith
  apart false v es e h = ground arith

  array-Small :
      (es : Elements F) (inner : Judged)
      → judge_array policy es inner ≡ aggregate
      → Small (array es)
  unfolding judge_array every_object every_primitive
  array-Small no_elements inner h = (inr (omega arith), inr (inr refl))
  array-Small (element v es) inner h =
      let parts =
        array_parts (every_object (element v es)) (every_primitive (element v es))
          (ltb (max_rows policy) (suc (count_elements es))) (allow_primitives policy) inner h in
      (
        elim parts.0 [
          | inl few ↦ inl few
          | inr short ↦ inr (ltb→ge (max_rows policy) (suc (count_elements es)) short)
        ],
        elim parts.1 [
          | inl mixed ↦ inl mixed
          | inr (inl allowed) ↦ inr (inl allowed)
          | inr (inr objects) ↦ inl (apart (is_object v) v es refl objects)
        ],
      )

  array_inner :
      (es : Elements F) (inner : Judged)
      → every_primitive es ≡ false
      → judge_array policy es inner ≡ aggregate
      → inner ≡ aggregate
  unfolding judge_array every_primitive
  array_inner no_elements inner p h = cc
  array_inner (element v es) inner p h =
      array_rest (every_object (element v es)) (ltb (max_rows policy) (suc (count_elements es)))
        inner
        (subst
          (λ b.
            (if every_object (element v es)
              then (if ltb (max_rows policy) (suc (count_elements es)) then violation else inner)
              else if b
              then (if allow_primitives policy then aggregate else violation)
              else inner)
            ≡ aggregate)
          p h)

  object-Small :
      (es : Entries F) (inner : Judged)
      → judge_object policy records_count es inner ≡ aggregate
      → Small (object es) × (inner ≡ aggregate)
  unfolding judge_object
  object-Small es inner h =
      let parts =
        object_parts (is_small_dataset records_count) (ltb 3 (count_entries es)) (some_object es)
          (ltb (max_rows policy) (count_entries es)) inner h in
      (
        (
          ltb→ge (max_rows policy) (count_entries es) parts.0,
          elim parts.1 [
            | inl large ↦ inl large
            | inr (few, flat) ↦ inr (ltb→ge 3 (count_entries es) few, flat)
          ],
        ),
        parts.2,
      )

  module _ (f : List ℕ → Judged) where
    value-Small : (v : Value F) → judge_value policy records_count f v ≡ aggregate → Small v
    unfolding judge_value
    value-Small undefined h = tt
    value-Small null h = tt
    value-Small (boolean b) h = tt
    value-Small (number x) h = tt
    value-Small (text t) h = tt
    value-Small (array es) h = array-Small es (judge_elements policy records_count f es) h
    value-Small (object es) h = (object-Small es (judge_entries policy records_count f es) h).0

    element_aggregate :
        {v : Value F} {es : Elements F}
        → ElementOf v es
        → judge_elements policy records_count f es ≡ aggregate
        → judge_value policy records_count f v ≡ aggregate
    unfolding judge_value
    element_aggregate {es = no_elements} m h = elim m [ ]
    element_aggregate {v} {es = element _ rest} here h = (or_else_parts _ _ h).0
    element_aggregate {es = element w rest} (later m) h =
        element_aggregate m (or_else_parts (judge_value policy records_count f w) _ h).1

    entry_aggregate :
        {v : Value F} {es : Entries F}
        → EntryOf v es
        → judge_entries policy records_count f es ≡ aggregate
        → judge_value policy records_count f v ≡ aggregate
    unfolding judge_value
    entry_aggregate {es = no_entries} m h = elim m [ ]
    entry_aggregate {v} {es = entry _ _ rest} first h = (or_else_parts _ _ h).0
    entry_aggregate {es = entry _ w rest} (after m) h =
        entry_aggregate m (or_else_parts (judge_value policy records_count f w) _ h).1

  module _ (parse : List ℕ → Option (Value F)) where
    abbrev at : ℕ → List ℕ → Judged
    at = reparse parse no_violation out_of_fuel (judge_value policy records_count)

    parsed_aggregate :
        (n : ℕ) (t : List ℕ) (v : Value F)
        → json_of parse t ≡ some v
        → at n t ≡ aggregate
        → (m : ℕ) × (judge_value policy records_count (at m) v ≡ aggregate)
    unfolding reparse
    parsed_aggregate zero t v p h = absurd (ground arith)
    parsed_aggregate (suc n) t v p h = (n, ground arith)

    Reached-Small :
        {v w : Value F} (n : ℕ)
        → Reached parse v w
        → judge_value policy records_count (at n) w ≡ aggregate
        → Small v
    unfolding judge_value
    Reached-Small {w} n itself h = value-Small (at n) w h
    Reached-Small n (in_text {t} {w} p r) h =
        let below = parsed_aggregate n t w p h in Reached-Small below.0 r below.1
    Reached-Small n (in_array {es} mixed m r) h = Reached-Small n r (
        element_aggregate (at n) m
          (array_inner es (judge_elements policy records_count (at n) es) mixed h))
    Reached-Small n (in_object {es} m r) h = Reached-Small n r (
        entry_aggregate (at n) m
          (object-Small es (judge_entries policy records_count (at n) es) h).1)

    judge-Small :
        (v input : Value F)
        → Reached parse v input
        → judge parse policy records_count input ≡ aggregate
        → Small v
    unfolding judge walk
    judge-Small v input r h = Reached-Small (weight input) r h

module _ {F : Type 0} (parse : List ℕ → Option (Value F)) (records_count : Option ℕ) where
  -- Where a policy in force lets an output through, every value that it reaches in the output, also in
  -- what texts are the JSON of, is small: an array of objects only has `max_rows` elements at most, one
  -- of primitive values only is empty or allowed, an object has `max_rows` fields at most, and, for one
  -- to nine records, three fields at most of which none holds an object or an array.
  pub violates-Small :
      (policy : Enforce) (v input : Value F)
      → policy ≢ off
      → Reached parse v input
      → violates_aggregation_first_policy parse policy records_count input ≡ aggregate
      → Small policy records_count v
  unfolding violates_aggregation_first_policy
  violates-Small off v input in_force r h = absurd (in_force refl)
  violates-Small on v input in_force r h = judge-Small on records_count parse v input r h
  violates-Small (by_policy p) v input in_force r h =
      judge-Small (by_policy p) records_count parse v input r h
