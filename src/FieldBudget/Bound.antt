-- ===== src/FieldBudget/Bound.antt =====
-- How often a field can be asked for.
use liop.Common.{
  ℕ, ◌+◌, ◌≤◌, ◌<◌, ◌≡◌, ◌↔◌, refl, String, false, ◌||◌, Option, List, [], ◌∷◌, arith,
  if◌then◌else◌, text_equality, eq_iff, Bool-cases, inl, inr, All,
}
use liop.Common.Dict
use liop.FieldBudget.{
  Analyzer, Policy, Budgets, ToolBudget, Verdict, accepted, exceeded, unsafe_names, check_fields,
  apply_in_memory_budget, preflight, query_limit, tool_budget, is_unsafe, reset_field_budget,
  settle,
}
use liop.FieldBudget.Count.{
  count, occurrences, charged, clears, guarded, count-preflight, count-reset, AllBelow,
  below-occurs, check_fields_iff,
}

-- A query of a client's logic, or a reset by the administrator.
pub data Event : Type 0 where
  query : String → String → List String → Option Policy → Event
  resets : String → Option String → Event

settle-verdict :
    (s : Budgets) (c t : String) (fields : List String) (b : ToolBudget) (v : Verdict)
    → (settle s c t fields b v).1 ≡ v
settle-verdict s c t fields b accepted = refl
settle-verdict s c t fields b (exceeded e) = refl
settle-verdict s c t fields b unsafe_names = refl

All-moves :
    (g h limit : String → ℕ) (xs : List String)
    → ((x : String) → g x ≡ h x)
    → All (λ x. g x < limit x) xs ↔ All (λ x. h x < limit x) xs
All-moves g h limit [] e = ground arith
All-moves g h limit (x ∷ xs) e = ground (arith, e x, All-moves g h limit xs e)

module _ (lower : String → String) (analyzer : Analyzer) where
  unfoldable pub step : Budgets → Event → Budgets
  unfolding preflight
  step s (query c t fields policy) = (preflight lower analyzer s c t fields policy).0
  step s (resets c t) = reset_field_budget s c t

  unfoldable pub run : Budgets → List Event → Budgets
  unfolding step
  run s [] = s
  run s (ev ∷ evs) = run (step s ev) evs

  -- What the ledger of a client, a tool and a field says after an event, from what it said before: the
  -- queries that were let through are charged, and a reset that clears the budget starts again.
  unfoldable pub ledger_step : String → String → String → Budgets → ℕ → Event → ℕ
  ledger_step client tool field s n (query c t fields policy) =
      n + charged c t fields (preflight lower analyzer s c t fields policy).1 client tool field
  ledger_step client tool field s n (resets c t) =
      if guarded c t then n else if clears c t client tool then 0 else n

  unfoldable pub ledger : String → String → String → Budgets → ℕ → List Event → ℕ
  unfolding ledger_step
  ledger client tool field s n [] = n
  ledger client tool field s n (ev ∷ evs) =
      ledger client tool field (step s ev) (ledger_step client tool field s n ev) evs

  count-step :
      (client tool field : String) (s : Budgets) (ev : Event)
      → count (step s ev) client tool field
        ≡ ledger_step client tool field s (count s client tool field) ev
  unfolding step ledger_step
  count-step client tool field s (query c t fields policy) =
      count-preflight lower analyzer s c t fields policy client tool field
  count-step client tool field s (resets c t) = count-reset s c t client tool field

  count-run :
      (client tool field : String) (s : Budgets) (evs : List Event)
      → count (run s evs) client tool field
        ≡ ledger client tool field s (count s client tool field) evs
  unfolding run ledger
  count-run client tool field s [] = refl
  count-run client tool field s (ev ∷ evs) =
      rw (count-run client tool field (step s ev) evs, count-step client tool field s ev)

  preflight-AllBelow :
      (s : Budgets) (client tool : String) (fields : List String) (policy : Option Policy)
      → is_unsafe client ≡ false
      → is_unsafe tool ≡ false
      → ((preflight lower analyzer s client tool fields policy).1 ≡ accepted)
        ↔ AllBelow lower analyzer policy (tool_budget s client tool) fields
  unfolding preflight apply_in_memory_budget
  preflight-AllBelow s client tool [] policy h h' = ground arith
  preflight-AllBelow s client tool (f ∷ fs) policy h h' =
      let b = tool_budget s client tool in
      let v = check_fields lower analyzer policy b (f ∷ fs) in
      rw (h, h', settle-verdict s client tool (f ∷ fs) b v)
        (check_fields_iff lower analyzer policy b (f ∷ fs))

  charged-verdict :
      (s : Budgets) (c t : String) (fields : List String) (policy : Option Policy)
      (client tool field : String) (limit : ℕ) (v : Verdict)
      → occurrences field fields ≤ 1
      → (query_limit lower analyzer policy field).0 ≤ limit
      → (v ≡ accepted → AllBelow lower analyzer policy (tool_budget s c t) fields)
      → count s client tool field ≤ limit
      → count s client tool field + charged c t fields v client tool field ≤ limit
  charged-verdict s c t fields policy client tool field limit accepted once below all h =
      let under = below-occurs lower analyzer policy (tool_budget s c t) field fields (all refl) in
      ground (arith, eq_iff c client, eq_iff t tool, under)
  charged-verdict s c t fields policy client tool field limit (exceeded e) once below all h =
      omega arith
  charged-verdict s c t fields policy client tool field limit unsafe_names once below all h =
      omega arith

  -- The third phase of `runPreflightPolicy`, without a store, lets logic that passed the other two, and
  -- whose names are not those that the guard refuses, go on exactly when, for each of its fields, the
  -- queries of the client to the tool that it let go on since the last reset that clears them are fewer
  -- than the field's limit.
  pub preflight_iff :
      (client tool : String) (evs : List Event) (fields : List String) (policy : Option Policy)
      → is_unsafe client ≡ false
      → is_unsafe tool ≡ false
      → ((preflight lower analyzer (run [] evs) client tool fields policy).1 ≡ accepted)
        ↔ All (λ f. ledger client tool f [] 0 evs < (query_limit lower analyzer policy f).0) fields
  unfolding Dict.get
  preflight_iff client tool evs fields policy h h' =
      let here = preflight-AllBelow (run [] evs) client tool fields policy h h' in
      let moved =
        All-moves (λ f. count (run [] evs) client tool f) (λ f. ledger client tool f [] 0 evs)
          (λ f. (query_limit lower analyzer policy f).0) fields
          (λ f. count-run client tool f [] evs) in
      (λ x. moved.0 (here.0 x), λ x. here.1 (moved.1 x))

  -- A query lists the field once at most, under a limit of at most `limit`.
  abbrev pub Modest : String → ℕ → Event → Type 0
  Modest field limit (query c t fields policy) =
      (occurrences field fields ≤ 1) × ((query_limit lower analyzer policy field).0 ≤ limit)
  Modest field limit (resets c t) = Unit

  charged-le :
      (s : Budgets) (ev : Event) (client tool field : String) (limit : ℕ)
      → Modest field limit ev
      → count s client tool field ≤ limit
      → ledger_step client tool field s (count s client tool field) ev ≤ limit
  unfolding ledger_step preflight apply_in_memory_budget
  charged-le s (resets c t) client tool field limit h k = ground arith
  charged-le s (query c t [] policy) client tool field limit h k = ground arith
  charged-le s (query c t (f ∷ fs) policy) client tool field limit h k =
      let b = tool_budget s c t in
      let v = check_fields lower analyzer policy b (f ∷ fs) in
      elim (Bool-cases (is_unsafe c || is_unsafe t)) [
        | inl guards ↦ rw guards (ground arith)
        | inr free ↦
            rw (free, settle-verdict s c t (f ∷ fs) b v)
              (charged-verdict s c t (f ∷ fs) policy client tool field limit v h.0 h.1
                (check_fields_iff lower analyzer policy b (f ∷ fs)).0 k)
      ]

  run-le :
      (client tool field : String) (limit : ℕ) (s : Budgets) (evs : List Event)
      → All (Modest field limit) evs
      → count s client tool field ≤ limit
      → count (run s evs) client tool field ≤ limit
  unfolding run
  run-le client tool field limit s [] h k = k
  run-le client tool field limit s (ev ∷ evs) (m, h) k =
      let next : count (step s ev) client tool field ≤ limit =
        omega
          (arith, count-step client tool field s ev, charged-le s ev client tool field limit m k) in
      run-le client tool field limit (step s ev) evs h next

  -- Queries that list a field once at most, under limits of at most `limit`, never charge it more often
  -- than `limit` against a client and a tool between two resets.
  pub ledger-le :
      (client tool field : String) (limit : ℕ) (evs : List Event)
      → All (Modest field limit) evs
      → ledger client tool field [] 0 evs ≤ limit
  unfolding Dict.get
  ledger-le client tool field limit evs h = omega (
    arith,
    count-run client tool field [] evs,
    run-le client tool field limit [] evs h (omega arith),
  )
