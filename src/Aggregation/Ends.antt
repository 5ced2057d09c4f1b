-- ===== src/Aggregation/Ends.antt =====
-- The recursions through an output end, and a text is taken as the value that it is the JSON of.
use liop.Common.{
  ℕ, ◌+◌, ◌≤◌, ◌<◌, ◌≡◌, ◌≢◌, refl, ap, Bool, true, false, Option, none, some, List, [], ◌∷◌,
  if◌then◌else◌, arith, length, length-append, Bool-cases, inl, inr, ltb, coalesce_to,
}
use liop.Common.Bytes.{bytes_eq}
use liop.Common.Text.{codes}
use liop.Value.{
  Value, Elements, Entries, undefined, null, boolean, number, text, array, object, no_elements,
  element, no_entries, entry, weight, weight_elements, weight_entries, field, json_of, walk,
  count_elements, count_entries,
}
use liop.Value.Reparse.{IsParser, Alike, Steps, walk-enough, reparse-walk}
use liop.Aggregation.{
  Enforce, off, on, by_policy, Judged, aggregate, violation, out_of_fuel, or_else, max_rows,
  allow_primitives, every_object, every_primitive, judge_array, judge_object, judge_value,
  judge_elements, judge_entries, no_violation, judge, violates_aggregation_first_policy, texts_of,
  join_lines, push_text, part_text, unwrap_texts, unwrap_content, unless_undefined, unwrap_value,
  unwrap_computed, as_text, unwrap_for_aggregation_policy_scan,
}

or_else_ends : (a b : Judged) → a ≢ out_of_fuel → b ≢ out_of_fuel → or_else a b ≢ out_of_fuel
or_else_ends aggregate b ha hb = hb
or_else_ends violation b ha hb = λ h. cc
or_else_ends out_of_fuel b ha hb = λ h. ha refl

choice_ends {ℓ} :
    {A : Type ℓ} {spent : A} (b : Bool) (x y : A)
    → x ≢ spent
    → y ≢ spent
    → (if b then x else y) ≢ spent
choice_ends true x y hx hy = hx
choice_ends false x y hx hy = hy

length-join_lines :
    (t : List ℕ) (ts : List (List ℕ))
    → length (join_lines (t ∷ ts)) ≤ length t + 1 + length (join_lines ts)
unfolding join_lines
length-join_lines t [] = omega arith
length-join_lines t (u ∷ ts) = omega (arith, length-append t (b'\n' ∷ join_lines (u ∷ ts)))

module _ {F : Type 0} (policy : Enforce) (records_count : Option ℕ) where
  array_ends :
      (es : Elements F) (inner : Judged)
      → inner ≢ out_of_fuel
      → judge_array policy es inner ≢ out_of_fuel
  unfolding judge_array
  array_ends no_elements inner h = λ e. cc
  array_ends (element v es) inner h =
      choice_ends (every_object (element v es)) _ _
        (choice_ends (ltb (max_rows policy) (count_elements (element v es))) violation inner
          (λ e. cc) h)
        (choice_ends (every_primitive (element v es)) _ inner
          (choice_ends (allow_primitives policy) aggregate violation (λ e. cc) (λ e. cc)) h)

  object_ends :
      (es : Entries F) (inner : Judged)
      → inner ≢ out_of_fuel
      → judge_object policy records_count es inner ≢ out_of_fuel
  unfolding judge_object
  object_ends es inner h =
      choice_ends _ violation _ (λ e. cc)
        (choice_ends (ltb (max_rows policy) (count_entries es)) violation inner (λ e. cc) h)

  module _ (f g : List ℕ → Judged) where
    mutual
      unfolding judge_value weight

      value-Alike :
          (v : Value F)
          → Alike out_of_fuel f g (weight v)
          → (judge_value policy records_count f v ≡ judge_value policy records_count g v)
            × (judge_value policy records_count f v ≢ out_of_fuel)
      value-Alike undefined alike = (refl, λ h. cc)
      value-Alike null alike = (refl, λ h. cc)
      value-Alike (boolean b) alike = (refl, λ h. cc)
      value-Alike (number x) alike = (refl, λ h. cc)
      value-Alike (text t) alike = alike t (omega arith)
      value-Alike (array es) alike =
          let inner = elements-Alike es (λ t h. alike t (omega arith)) in
          (
            ap (judge_array policy es) inner.0,
            array_ends es (judge_elements policy records_count f es) inner.1,
          )
      value-Alike (object es) alike =
          let inner = entries-Alike es (λ t h. alike t (omega arith)) in
          (
            ap (judge_object policy records_count es) inner.0,
            object_ends es (judge_entries policy records_count f es) inner.1,
          )

      elements-Alike :
          (es : Elements F)
          → Alike out_of_fuel f g (weight_elements es)
          → (judge_elements policy records_count f es ≡ judge_elements policy records_count g es)
            × (judge_elements policy records_count f es ≢ out_of_fuel)
      elements-Alike no_elements alike = (refl, λ h. cc)
      elements-Alike (element v es) alike =
          let one = value-Alike v (λ t h. alike t (omega arith)) in
          let rest = elements-Alike es (λ t h. alike t (omega arith)) in
          (
            cc (one.0, rest.0),
            or_else_ends (judge_value policy records_count f v)
                (judge_elements policy records_count f es) one.1 rest.1,
          )

      entries-Alike :
          (es : Entries F)
          → Alike out_of_fuel f g (weight_entries es)
          → (judge_entries policy records_count f es ≡ judge_entries policy records_count g es)
            × (judge_entries policy records_count f es ≢ out_of_fuel)
      entries-Alike no_entries alike = (refl, λ h. cc)
      entries-Alike (entry k v es) alike =
          let one = value-Alike v (λ t h. alike t (omega arith)) in
          let rest = entries-Alike es (λ t h. alike t (omega arith)) in
          (
            cc (one.0, rest.0),
            or_else_ends (judge_value policy records_count f v)
                (judge_entries policy records_count f es) one.1 rest.1,
          )

  pub judge-Steps : Steps out_of_fuel (judge_value {F = F} policy records_count)
  judge-Steps f g v alike = value-Alike f g v alike

module _ {F : Type 0} where
  field-weight :
      (name : List ℕ) (es : Entries F) (v : Value F)
      → field name es ≡ some v
      → weight v ≤ weight_entries es
  unfolding field weight
  field-weight name no_entries v h = cc
  field-weight name (entry k w es) v h = elim (Bool-cases (bytes_eq k name)) [
    | inl same ↦ ground arith
    | inr other ↦ ground (arith, field-weight name es v)
  ]

  length-push_text :
      (o : Option (Value F)) (ts : List (List ℕ)) (n : ℕ)
      → ((v : Value F) → o ≡ some v → weight v ≤ n)
      → length (join_lines (push_text o ts)) ≤ n + length (join_lines ts)
  unfolding weight
  length-push_text none ts n h = omega arith
  length-push_text (some (text t)) ts n h = omega (arith, length-join_lines t ts, h (text t) refl)
  length-push_text (some undefined) ts n h = omega arith
  length-push_text (some null) ts n h = omega arith
  length-push_text (some (boolean b)) ts n h = omega arith
  length-push_text (some (number x)) ts n h = omega arith
  length-push_text (some (array es)) ts n h = omega arith
  length-push_text (some (object es)) ts n h = omega arith

  part_text-weight : (w v : Value F) → part_text w ≡ some v → weight v ≤ weight w
  unfolding weight
  part_text-weight (object es) v h = omega (arith, field-weight (codes "text") es v h)
  part_text-weight undefined v h = cc
  part_text-weight null v h = cc
  part_text-weight (boolean b) v h = cc
  part_text-weight (number x) v h = cc
  part_text-weight (text t) v h = cc
  part_text-weight (array es) v h = cc

  -- The texts of the parts, joined, are shorter than the array that holds them.
  length-texts_of : (es : Elements F) → length (join_lines (texts_of es)) ≤ weight_elements es
  unfolding texts_of weight join_lines
  length-texts_of no_elements = omega arith
  length-texts_of (element v es) = omega (
    arith,
    length-push_text (part_text v) (texts_of es) (weight v) (part_text-weight v),
    length-texts_of es,
  )

  module _ (f g : List ℕ → Option (Value F)) where
    texts-Alike :
        (input : Value F) (ts : List (List ℕ)) (n : ℕ)
        → length (join_lines ts) < n
        → Alike none f g n
        → (unwrap_texts f input ts ≡ unwrap_texts g input ts) × (unwrap_texts f input ts ≢ none)
    texts-Alike input [] n h alike = (refl, λ e. cc)
    texts-Alike input (t ∷ ts) n h alike = alike (join_lines (t ∷ ts)) h

    content-Alike :
        (input : Value F) (o : Option (Value F)) (n : ℕ)
        → ((v : Value F) → o ≡ some v → weight v ≤ n)
        → Alike none f g n
        → (unwrap_content f input o ≡ unwrap_content g input o) × (unwrap_content f input o ≢ none)
    unfolding weight
    content-Alike input (some (array es)) n h alike =
        texts-Alike input (texts_of es) n (omega (arith, length-texts_of es, h (array es) refl))
          alike
    content-Alike input none n h alike = (refl, λ e. cc)
    content-Alike input (some undefined) n h alike = (refl, λ e. cc)
    content-Alike input (some null) n h alike = (refl, λ e. cc)
    content-Alike input (some (boolean b)) n h alike = (refl, λ e. cc)
    content-Alike input (some (number x)) n h alike = (refl, λ e. cc)
    content-Alike input (some (text t)) n h alike = (refl, λ e. cc)
    content-Alike input (some (object es)) n h alike = (refl, λ e. cc)

    unless_undefined_ends :
        (v : Value F) (o : Option (Value F)) → o ≢ none → unless_undefined v o ≢ some none
    unless_undefined_ends undefined o h = λ e. cc
    unless_undefined_ends null o h = λ e. h (cc e)
    unless_undefined_ends (boolean b) o h = λ e. h (cc e)
    unless_undefined_ends (number x) o h = λ e. h (cc e)
    unless_undefined_ends (text t) o h = λ e. h (cc e)
    unless_undefined_ends (array es) o h = λ e. h (cc e)
    unless_undefined_ends (object es) o h = λ e. h (cc e)

    coalesce_ends :
        (o : Option (Option (Value F))) (d : Option (Value F))
        → o ≢ some none
        → d ≢ none
        → coalesce_to o d ≢ none
    coalesce_ends none d ho hd = hd
    coalesce_ends (some o) d ho hd = λ e. ho (ap (λ x. some x) e)

    mutual
      unfolding unwrap_value weight

      unwrap-Alike :
          (v : Value F)
          → Alike none f g (weight v)
          → (unwrap_value f v ≡ unwrap_value g v) × (unwrap_value f v ≢ none)
      unwrap-Alike undefined alike = (refl, λ h. cc)
      unwrap-Alike null alike = (refl, λ h. cc)
      unwrap-Alike (boolean b) alike = (refl, λ h. cc)
      unwrap-Alike (number x) alike = (refl, λ h. cc)
      unwrap-Alike (text t) alike = alike t (omega arith)
      unwrap-Alike (array es) alike = (refl, λ h. cc)
      unwrap-Alike (object es) alike =
          let inner = computed-Alike es (λ t h. alike t (omega arith)) in
          let outer =
            content-Alike (object es) (field (codes "content") es) (weight_entries es)
              (field-weight (codes "content") es) (λ t h. alike t (omega arith)) in
          (cc (inner.0, outer.0), coalesce_ends (unwrap_computed f es) _ inner.1 outer.1)

      computed-Alike :
          (es : Entries F)
          → Alike none f g (weight_entries es)
          → (unwrap_computed f es ≡ unwrap_computed g es) × (unwrap_computed f es ≢ some none)
      computed-Alike no_entries alike = (refl, λ h. cc)
      computed-Alike (entry k v es) alike =
          let one = unwrap-Alike v (λ t h. alike t (omega arith)) in
          let rest = computed-Alike es (λ t h. alike t (omega arith)) in
          (
            cc (one.0, rest.0),
            choice_ends (bytes_eq k (codes "computation_result")) _ _
                (unless_undefined_ends v (unwrap_value f v) one.1) rest.1,
          )

  pub unwrap-Steps : Steps none (unwrap_value {F = F})
  unwrap-Steps f g v alike = unwrap-Alike f g v alike

module _ {F : Type 0} where
  -- An MCP result of one part with a text.
  abbrev pub mcp_result : List ℕ → Value F
  mcp_result t = object (
      entry (codes "content")
        (array (
          element
            (object (
              entry (codes "type") (text (codes "text"))
                (entry (codes "text") (text t) no_entries)))
            no_elements))
        no_entries)

module _ {F : Type 0} (parse : List ℕ → Option (Value F)) (parser : IsParser parse) where
  judge_ends :
      (policy : Enforce) (records_count : Option ℕ) (input : Value F)
      → judge parse policy records_count input ≢ out_of_fuel
  unfolding judge
  judge_ends policy records_count input =
      (walk-enough parse parser no_violation out_of_fuel (judge_value policy records_count)
        (λ t h. cc) (judge-Steps policy records_count) (weight input) input (omega arith)).1

  violates_ends :
      (policy : Enforce) (records_count : Option ℕ) (input : Value F)
      → violates_aggregation_first_policy parse policy records_count input ≢ out_of_fuel
  unfolding violates_aggregation_first_policy
  violates_ends off records_count input = λ h. cc
  violates_ends on records_count input = judge_ends on records_count input
  violates_ends (by_policy p) records_count input = judge_ends (by_policy p) records_count input

  -- For every output, neither the search for a violation nor the unwrapping runs out of fuel.
  pub judged_and_unwrapped :
      (policy : Enforce) (records_count : Option ℕ) (input : Value F)
      → (violates_aggregation_first_policy parse policy records_count input ≢ out_of_fuel)
        × (unwrap_for_aggregation_policy_scan parse input ≢ none)
  unfolding unwrap_for_aggregation_policy_scan
  judged_and_unwrapped policy records_count input = (
    violates_ends policy records_count input,
    (walk-enough parse parser as_text none unwrap_value (λ t h. cc) unwrap-Steps (weight input)
        input (omega arith)).1,
  )

  judge-text :
      (policy : Enforce) (records_count : Option ℕ) (t : List ℕ) (v : Value F)
      → json_of parse t ≡ some v
      → judge parse policy records_count (text t) ≡ judge parse policy records_count v
  unfolding judge walk judge_value weight
  judge-text policy records_count t v p =
      reparse-walk parse parser no_violation out_of_fuel (judge_value policy records_count)
        (λ u h. cc) (judge-Steps policy records_count) (2 + length t) t v p (omega arith)

  violates-text :
      (policy : Enforce) (records_count : Option ℕ) (t : List ℕ) (v : Value F)
      → json_of parse t ≡ some v
      → violates_aggregation_first_policy parse policy records_count (text t)
        ≡ violates_aggregation_first_policy parse policy records_count v
  unfolding violates_aggregation_first_policy
  violates-text off records_count t v p = refl
  violates-text on records_count t v p = judge-text on records_count t v p
  violates-text (by_policy q) records_count t v p = judge-text (by_policy q) records_count t v p

  abbrev whole : List ℕ → ℕ
  whole t = weight {F = F} (mcp_result t)

  -- A text that is the JSON of a value is judged as the value and unwraps to what it unwraps to, and so
  -- does an MCP result of one part with that text.
  pub text_as_value :
      (policy : Enforce) (records_count : Option ℕ) (t : List ℕ) (v : Value F)
      → json_of parse t ≡ some v
      → (violates_aggregation_first_policy parse policy records_count (text t)
          ≡ violates_aggregation_first_policy parse policy records_count v)
        × (unwrap_for_aggregation_policy_scan parse (text t)
            ≡ unwrap_for_aggregation_policy_scan parse v)
        × (unwrap_for_aggregation_policy_scan parse (mcp_result t)
            ≡ unwrap_for_aggregation_policy_scan parse v)
  unfolding unwrap_for_aggregation_policy_scan walk unwrap_value weight field bytes_eq
  text_as_value policy records_count t v p =
      let at = reparse-walk parse parser as_text none unwrap_value (λ u h. cc) unwrap-Steps in
      (
        violates-text policy records_count t v p,
        at (2 + length t) t v p (omega arith),
        at (whole t) t v p (omega arith),
      )
