-- ===== src/FieldBudget/Count.antt =====
-- What the budgets count.
use liop.Common.{
  ℕ, ◌+◌, ◌≤◌, ◌<◌, ◌≡◌, ◌↔◌, refl, ap, sym, String, Bool, not, ◌&&◌, ◌||◌, Option, none, some,
  List, [], ◌∷◌, arith, if◌then◌else◌, ◌==◌, text_equality, eq_iff, Bool-cases, inl, inr,
  coalesce_to, All,
}
use liop.Common.Dict
use liop.FieldBudget.{
  Analyzer, Policy, Budgets, ToolBudget, Verdict, accepted, exceeded, unsafe_names, check_fields,
  charge, store, apply_in_memory_budget, preflight, query_limit, tool_budget, is_unsafe,
  reset_field_budget, settle, delete_tool, reset_memory,
}

abbrev pub in_budget : String → ToolBudget → ℕ
in_budget field budget = coalesce_to (Dict.get field budget) 0

-- How often a list holds a name.
abbrev pub occurrences : String → List String → ℕ
occurrences x [] = 0
occurrences x (y ∷ ys) = (if y == x then 1 else 0) + occurrences x ys

-- How often a field counts against a client and a tool.
abbrev pub count : Budgets → String → String → String → ℕ
count s client tool field = in_budget field (tool_budget s client tool)

in_budget-charge :
    (field : String) (fields : List String) (budget : ToolBudget)
    → in_budget field (charge fields budget) ≡ in_budget field budget + occurrences field fields
unfolding charge
in_budget-charge field [] budget = omega arith
in_budget-charge field (f ∷ fields) budget =
    let next = Dict.set f (in_budget f budget + 1) budget in
    let set = Dict.get-set f field (in_budget f budget + 1) budget in
    elim (Bool-cases (f == field)) [
      | inl same ↦ ground (arith, in_budget-charge field fields next, set, eq_iff f field)
      | inr other ↦ ground (arith, in_budget-charge field fields next, set)
    ]

pub tool_budget-store :
    (s : Budgets) (c t c' t' : String) (b : ToolBudget)
    → tool_budget (store s c t b) c' t'
      ≡ (if (c == c') && (t == t') then b else tool_budget s c' t')
unfolding store
tool_budget-store s c t c' t' b =
    let inner = coalesce_to (Dict.get c s) [] in
    let at_client = Dict.get-set c c' (Dict.set t b inner) s in
    let at_tool = Dict.get-set t t' b inner in
    elim (Bool-cases (c == c')) [
      | inl same ↦ rw (at_client, same, sym ((eq_iff c c').0 same)) (ground (arith, at_tool))
      | inr other ↦ rw (at_client, other) refl
    ]

count-store :
    (s : Budgets) (c t : String) (b : ToolBudget) (client tool field : String)
    → count (store s c t b) client tool field
      ≡ (if (c == client) && (t == tool) then in_budget field b else count s client tool field)
count-store s c t b client tool field = ground (arith, tool_budget-store s c t client tool b)

-- What a query adds to the count of a field for a client and a tool.
abbrev pub charged : String → String → List String → Verdict → String → String → String → ℕ
charged c t fields accepted client tool field =
    if (c == client) && (t == tool) then occurrences field fields else 0
charged c t fields (exceeded e) client tool field = 0
charged c t fields unsafe_names client tool field = 0

pub count-kept :
    (s : Budgets) (c t client tool field : String)
    → count (store s c t (tool_budget s c t)) client tool field ≡ count s client tool field
count-kept s c t client tool field =
    ground (
      arith,
      count-store s c t (tool_budget s c t) client tool field,
      eq_iff c client,
      eq_iff t tool,
    )

count-settle :
    (s : Budgets) (c t : String) (fields : List String) (v : Verdict) (client tool field : String)
    → count (settle s c t fields (tool_budget s c t) v).0 client tool field
      ≡ count s client tool field
        + charged c t fields (settle s c t fields (tool_budget s c t) v).1 client tool field
count-settle s c t fields accepted client tool field =
    let b = tool_budget s c t in
    ground (
      arith,
      count-store s c t (charge fields b) client tool field,
      in_budget-charge field fields b,
      eq_iff c client,
      eq_iff t tool,
    )
count-settle s c t fields (exceeded e) client tool field =
    omega (arith, count-kept s c t client tool field)
count-settle s c t fields unsafe_names client tool field = omega arith

module _ (lower : String → String) (analyzer : Analyzer) where
  -- Every field is below its limit.
  abbrev pub AllBelow : Option Policy → ToolBudget → List String → Type 0
  AllBelow policy budget fields =
      All (λ f. in_budget f budget < (query_limit lower analyzer policy f).0) fields

  pub check_fields_iff :
      (policy : Option Policy) (budget : ToolBudget) (fields : List String)
      → (check_fields lower analyzer policy budget fields ≡ accepted)
        ↔ AllBelow policy budget fields
  unfolding check_fields
  check_fields_iff policy budget [] = ground arith
  check_fields_iff policy budget (f ∷ fields) =
      ground (arith, check_fields_iff policy budget fields)

  pub below-occurs :
      (policy : Option Policy) (budget : ToolBudget) (field : String) (fields : List String)
      → AllBelow policy budget fields
      → 1 ≤ occurrences field fields
      → in_budget field budget < (query_limit lower analyzer policy field).0
  below-occurs policy budget field [] all h = absurd (omega arith)
  below-occurs policy budget field (f ∷ fields) (here, all) h = elim (Bool-cases (f == field)) [
    | inl same ↦ ground (arith, eq_iff f field)
    | inr other ↦ below-occurs policy budget field fields all (ground arith)
  ]

  count-apply :
      (s : Budgets) (c t : String) (fields : List String) (policy : Option Policy)
      (client tool field : String)
      → let r = apply_in_memory_budget lower analyzer s c t fields policy in
        count r.0 client tool field
        ≡ count s client tool field + charged c t fields r.1 client tool field
  unfolding apply_in_memory_budget
  count-apply s c t fields policy client tool field =
      let v = check_fields lower analyzer policy (tool_budget s c t) fields in
      count-settle s c t fields v client tool field

  pub count-preflight :
      (s : Budgets) (c t : String) (fields : List String) (policy : Option Policy)
      (client tool field : String)
      → let r = preflight lower analyzer s c t fields policy in
        count r.0 client tool field
        ≡ count s client tool field + charged c t fields r.1 client tool field
  unfolding preflight
  count-preflight s c t [] policy client tool field = ground arith
  count-preflight s c t (f ∷ fs) policy client tool field =
      ground (arith, count-apply s c t (f ∷ fs) policy client tool field)

-- Whether a reset clears the budget of a client and a tool.
abbrev pub clears : String → Option String → String → String → Bool
clears c none client tool = c == client
clears c (some t) client tool = (c == client) && ((t == "") || (t == tool))

-- A name that the guard against prototype pollution refuses.
abbrev pub guarded : String → Option String → Bool
guarded c none = is_unsafe c
guarded c (some t) = is_unsafe c || is_unsafe t

count-delete_tool :
    (s : Budgets) (c t : String) (o : Option (Dict.Dict String ToolBudget))
    (client tool field : String)
    → Dict.get c s ≡ o
    → count (delete_tool c t o s) client tool field
      ≡ (if (c == client) && (t == tool) then 0 else count s client tool field)
unfolding Dict.get
count-delete_tool s c t none client tool field e = elim (Bool-cases (c == client)) [
  | inl same ↦ ground (arith, ap (λ x. Dict.get x s) ((eq_iff c client).0 same))
  | inr other ↦ ground arith
]
count-delete_tool s c t (some b) client tool field e =
    let at_client = Dict.get-set c client (Dict.delete t b) s in
    elim (Bool-cases (c == client)) [
      | inl same ↦ ground (
        arith,
        at_client,
        Dict.get-delete t tool b,
        ap (λ x. Dict.get x s) ((eq_iff c client).0 same),
      )
      | inr other ↦ ground (arith, at_client)
    ]

count-reset_memory :
    (s : Budgets) (c t client tool field : String)
    → count (reset_memory s c (some t)) client tool field
      ≡ (if clears c (some t) client tool then 0 else count s client tool field)
unfolding Dict.get
count-reset_memory s c t client tool field = elim (Bool-cases (t == "")) [
  | inl empty ↦ ground (arith, Dict.get-delete c client s)
  | inr named ↦ ground (arith, count-delete_tool s c t (Dict.get c s) client tool field refl)
]

guard-eq :
    (c t : String) → (is_unsafe c || (not (t == "") && is_unsafe t)) ≡ (is_unsafe c || is_unsafe t)
guard-eq c t = elim (Bool-cases (t == "")) [
  | inl empty ↦ rw ((eq_iff t "").0 empty) (ground arith)
  | inr named ↦ ground arith
]

pub count-reset :
    (s : Budgets) (c : String) (t : Option String) (client tool field : String)
    → count (reset_field_budget s c t) client tool field ≡ (
        if guarded c t
        then count s client tool field
        else if clears c t client tool
        then 0
        else count s client tool field)
unfolding reset_field_budget Dict.get
count-reset s c none client tool field = ground (arith, Dict.get-delete c client s)
count-reset s c (some t) client tool field =
    rw (guard-eq c t) (elim (Bool-cases (is_unsafe c || is_unsafe t)) [
      | inl guards ↦ rw guards refl
      | inr free ↦ rw free (count-reset_memory s c t client tool field)
    ])
