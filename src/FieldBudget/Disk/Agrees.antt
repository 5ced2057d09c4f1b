-- ===== src/FieldBudget/Disk/Agrees.antt =====
-- The store on disk answers as budgets in memory do.
use liop.Common.{
  ℕ, ◌≡◌, refl, sym, ◌∙◌, ap, String, Bool, true, false, ◌||◌, Option, List, [], ◌∷◌, if◌then◌else◌,
  arith, ◌==◌, text_equality, eq_iff, Bool-cases, inl, inr, coalesce_to, filter, All,
}
use liop.Common.Attempt.{Attempt, ok, fail}
use liop.Common.Dict
use liop.FieldBudget.{
  Analyzer, Policy, Budgets, ToolBudget, Verdict, accepted, exceeded, unsafe_names, check_fields,
  charge, store, settle, tool_budget, is_unsafe, apply_in_memory_budget, preflight,
}
use liop.FieldBudget.Count.{count, count-kept}
use liop.FieldBudget.Disk.{
  is_plain, State, StoreError, Tried, acquire, max_retries, clean_clients, get_persistent_budget,
  save, locked, charge_if, charge_stored, settle_stored, execute_with_budget_lock, preflight_stored,
}

clean_clients_twice : (s : Budgets) → clean_clients (clean_clients s) ≡ clean_clients s
unfolding clean_clients
clean_clients_twice [] = refl
clean_clients_twice ((c, b) ∷ s) = elim (Bool-cases (is_unsafe c)) [
  | inl unsafe ↦ ground (arith, clean_clients_twice s)
  | inr safe ↦ ground (arith, clean_clients_twice s)
]

clean_clients-set :
    (k : String) (b : Dict.Dict String ToolBudget) (s : Budgets)
    → is_unsafe k ≡ false
    → clean_clients (Dict.set k b s) ≡ Dict.set k b (clean_clients s)
unfolding clean_clients Dict.set
clean_clients-set k b [] safe = ground arith
clean_clients-set k b ((j, w) ∷ s) safe = elim (Bool-cases (j == k)) [
  | inl same ↦ ground (arith, eq_iff j k)
  | inr other ↦ elim (Bool-cases (is_unsafe j)) [
    | inl drops ↦ ground (arith, clean_clients-set k b s safe)
    | inr stays ↦ ground (arith, clean_clients-set k b s safe)
  ]
]

-- A write of a safe client to what was read is read again as it is.
clean_clients-store :
    (s : Budgets) (c t : String) (b : ToolBudget)
    → is_unsafe c ≡ false
    → clean_clients (store (clean_clients s) c t b) ≡ store (clean_clients s) c t b
unfolding store
clean_clients-store s c t b safe =
    clean_clients-set c _ (clean_clients s) safe ∙ ap (Dict.set c _) (clean_clients_twice s)

filter-All :
    (fields : List String) → All (λ f. is_plain f ≡ true) fields → filter is_plain fields ≡ fields
unfolding filter
filter-All [] h = refl
filter-All (f ∷ fs) (h, hs) = ground (arith, filter-All fs hs)

-- The verdicts are the same, the budgets in memory stay, and those of the file count as the others do.
abbrev pub Agrees : Budgets → State × Verdict → Budgets × Verdict → Type 0
Agrees memory r m =
    (r.1 ≡ m.1)
    × (r.0.memory ≡ memory)
    × ((client tool field : String)
        → count (get_persistent_budget r.0.content) client tool field ≡ count m.0 client tool field)

module _ (lower : String → String) (analyzer : Analyzer) where
  verdict-Agrees :
      (s : State) (c t : String) (fields : List String) (policy : Option Policy) (v : Verdict)
      → is_unsafe c ≡ false
      → let b = get_persistent_budget s.content in
        let answer = charge_if b c t fields v in
        Agrees s.memory
          (settle_stored lower analyzer s c t fields policy (save true s.content answer.0 answer.1))
          (settle b c t fields (tool_budget b c t) v)
  verdict-Agrees s c t fields policy accepted safe =
      let b = get_persistent_budget s.content in
      (
        refl,
        refl,
        λ client tool field.
            ap (λ x. count x client tool field)
              (clean_clients-store (coalesce_to s.content []) c t
                (charge fields (tool_budget b c t)) safe),
      )
  verdict-Agrees s c t fields policy (exceeded e) safe =
      let b = get_persistent_budget s.content in
      (refl, refl, λ client tool field. sym (count-kept b c t client tool field))
  verdict-Agrees s c t fields policy unsafe_names safe = (refl, refl, λ client tool field. refl)

  got-Agrees :
      (got : Attempt StoreError (Unit {0})) (s : State) (c t : String) (fields : List String)
      (policy : Option Policy)
      → got ≡ ok tt
      → filter is_plain fields ≡ fields
      → is_unsafe c ≡ false
      → Agrees s.memory
          (settle_stored lower analyzer s c t fields policy
            (locked got true (charge_stored lower analyzer c t fields policy) s.content))
          (apply_in_memory_budget lower analyzer
            (get_persistent_budget s.content)
            c
            t
            fields
            policy)
  unfolding charge_stored apply_in_memory_budget
  got-Agrees (ok u) s c t fields policy e plain safe = rw plain (
      verdict-Agrees s c t fields policy
        (check_fields lower analyzer policy (tool_budget (get_persistent_budget s.content) c t)
          fields)
        safe)
  got-Agrees (fail x) s c t fields policy e plain safe = cc

  guarded-Agrees :
      (guards : Bool) (got : Attempt StoreError (Unit {0})) (s : State) (c t : String)
      (fields : List String) (policy : Option Policy)
      → (is_unsafe c || is_unsafe t) ≡ guards
      → got ≡ ok tt
      → filter is_plain fields ≡ fields
      → let b = get_persistent_budget s.content in
        Agrees s.memory
          (if guards
            then (s, unsafe_names)
            else settle_stored lower analyzer s c t fields policy
                (locked got true (charge_stored lower analyzer c t fields policy) s.content))
          (if guards
            then (b, unsafe_names)
            else apply_in_memory_budget lower analyzer b c t fields policy)
  guarded-Agrees true got s c t fields policy g e plain = (refl, refl, λ client tool field. refl)
  guarded-Agrees false got s c t fields policy g e plain =
      got-Agrees got s c t fields policy e plain (ground arith)

  -- Where the lock is acquired in the attempts that there are and the file is written, a query of which
  -- the client, the tool and the fields have no name that every object inherits is decided on the store as budgets in memory with the counts of the file would decide it, and leaves in the
  -- file the counts that they would have.
  pub preflight_stored-preflight :
      (tries : ℕ → Tried) (s : State) (client tool : String) (fields : List String)
      (policy : Option Policy)
      → acquire max_retries 0 tries ≡ ok tt
      → is_plain client ≡ true
      → is_plain tool ≡ true
      → All (λ f. is_plain f ≡ true) fields
      → Agrees s.memory
          (preflight_stored lower analyzer tries true s client tool fields policy)
          (preflight lower analyzer (get_persistent_budget s.content) client tool fields policy)
  unfolding preflight_stored preflight execute_with_budget_lock
  preflight_stored-preflight tries s client tool [] policy e own own_tool plain =
      (refl, refl, λ c t field. refl)
  preflight_stored-preflight tries s client tool (f ∷ fs) policy e own own_tool plain =
      guarded-Agrees (is_unsafe client || is_unsafe tool) (acquire max_retries 0 tries) s client
        tool (f ∷ fs) policy refl e (filter-All (f ∷ fs) plain)
