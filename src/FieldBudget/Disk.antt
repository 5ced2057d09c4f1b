-- ===== src/FieldBudget/Disk.antt =====
-- The query budgets of fields on disk (sdks/typescript/src/server/index.ts: `getPersistentBudget`,
-- `executeWithBudgetLock`, phase 3 of `runPreflightPolicy` with a store, `resetFieldBudget`). The
-- budgets are objects: a field with a name that every object inherits is never counted. The names of
-- clients and tools are none of these. What the creations of the lock find, and whether the file can be
-- written, are arguments.
pub mod Agrees
pub mod Fallback
pub mod Lock
use liop.Common.{
  ℕ, zero, suc, String, Bool, true, false, not, ◌||◌, ◌&&◌, filter, Option, none, some, List, [],
  ◌∷◌, if◌then◌else◌, text_equality, coalesce_to, truthy,
}
use liop.Common.Attempt.{Attempt, ok, fail}
use liop.Common.Dict
use liop.FieldBudget.{
  Analyzer, Policy, Budgets, Verdict, accepted, exceeded, unsafe_names, check_fields, charge, store,
  tool_budget, is_unsafe, apply_in_memory_budget, reset_memory, includes,
}

pub data StoreError : Type 0 where
  lock_timeout : StoreError
  lock_failed : StoreError
  save_failed : StoreError

-- What the creation of the lock file finds.
pub data Tried : Type 0 where
  created : Tried
  exists : Tried
  failing : Tried

-- The server and the store; the content is none if the file is absent or no JSON of an object.
pub record State : Type 0 where
  pub memory : Budgets
  pub content : Option Budgets

-- With `n` attempts left, of which the next is number `i`.
unfoldable pub acquire : ℕ → ℕ → (ℕ → Tried) → Attempt StoreError (Unit {0})
acquire zero i tries = fail lock_timeout
acquire (suc n) i tries = elim (tries i) [
  | created ↦ ok tt
  | failing ↦ fail lock_failed
  | exists ↦ acquire n (suc i) tries
]

abbrev pub max_retries : ℕ
max_retries = 100

-- The clients in the file, but for names that are unsafe.
unfoldable pub clean_clients : Budgets → Budgets
clean_clients [] = []
clean_clients ((client, b) ∷ s) =
    let rest = clean_clients s in if is_unsafe client then rest else (client, b) ∷ rest

abbrev pub get_persistent_budget : Option Budgets → Budgets
get_persistent_budget content = clean_clients (coalesce_to content [])

abbrev pub save :
    {T : Type 0}
    → Bool
    → Option Budgets
    → T
    → Option Budgets
    → Option Budgets × Attempt StoreError T
save writable content result none = (content, ok result)
save true content result (some updated) = (some updated, ok result)
save false content result (some updated) = (content, fail save_failed)

abbrev pub locked :
    {T : Type 0}
    → Attempt StoreError (Unit {0})
    → Bool
    → (Budgets → T × Option Budgets)
    → Option Budgets
    → Option Budgets × Attempt StoreError T
locked (fail e) writable action content = (content, fail e)
locked (ok u) writable action content =
    let answer = action (get_persistent_budget content) in save writable content answer.0 answer.1

-- The creation of the lock, the action on the budgets of the file, and the write of what it returns.
unfoldable pub execute_with_budget_lock :
    {T : Type 0}
    → (ℕ → Tried)
    → Bool
    → (Budgets → T × Option Budgets)
    → Option Budgets
    → Option Budgets × Attempt StoreError T
unfolding acquire clean_clients
execute_with_budget_lock tries writable action content =
    locked (acquire max_retries 0 tries) writable action content

-- The names that every object inherits.
abbrev pub object_members : List String
object_members =
    "__proto__" ∷ "constructor" ∷ "hasOwnProperty" ∷ "isPrototypeOf" ∷ "propertyIsEnumerable"
    ∷ "toLocaleString" ∷ "toString" ∷ "valueOf" ∷ "__defineGetter__" ∷ "__defineSetter__"
    ∷ "__lookupGetter__" ∷ "__lookupSetter__" ∷ []

abbrev pub is_plain : String → Bool
is_plain name = not (includes object_members name)

-- What the action makes of a verdict on the fields.
abbrev pub charge_if : Budgets → String → String → List String → Verdict → Verdict × Option Budgets
charge_if s client tool fields accepted =
    (accepted, some (store s client tool (charge fields (tool_budget s client tool))))
charge_if s client tool fields (exceeded e) = (exceeded e, none)
charge_if s client tool fields unsafe_names = (unsafe_names, none)

module _ (lower : String → String) (analyzer : Analyzer) where
  -- A member that is inherited is no number: it is below every limit, and adding to it leaves none.
  unfoldable pub charge_stored :
      String → String → List String → Option Policy → Budgets → Verdict × Option Budgets
  unfolding check_fields charge store filter
  charge_stored client tool fields policy s =
      let plain = filter is_plain fields in
      charge_if s client tool plain
        (check_fields lower analyzer policy (tool_budget s client tool) plain)

  -- On an error of the store the budgets in memory decide.
  abbrev pub settle_stored :
      State
      → String
      → String
      → List String
      → Option Policy
      → Option Budgets × Attempt StoreError Verdict
      → State × Verdict
  settle_stored s client tool fields policy (content, ok v) = (record s { content = content }, v)
  settle_stored s client tool fields policy (content, fail e) =
      let r = apply_in_memory_budget lower analyzer s.memory client tool fields policy in
      (record s { memory = r.0 }, r.1)

  -- Phase 3 of `runPreflightPolicy` with a store.
  unfoldable pub preflight_stored :
      (ℕ → Tried) → Bool → State → String → String → List String → Option Policy → State × Verdict
  unfolding execute_with_budget_lock charge_stored apply_in_memory_budget
  preflight_stored tries writable s client tool [] policy = (s, accepted)
  preflight_stored tries writable s client tool (f ∷ fs) policy =
      if is_unsafe client || is_unsafe tool
      then (s, unsafe_names)
      else settle_stored s client tool (f ∷ fs) policy (
          execute_with_budget_lock tries writable (charge_stored client tool (f ∷ fs) policy)
            s.content)

-- The reset of the file, of which an error is only reported.
unfoldable pub reset_stored : (ℕ → Tried) → Bool → State → String → Option String → State
unfolding execute_with_budget_lock
reset_stored tries writable s client tool =
    if is_unsafe client || (truthy tool && is_unsafe (coalesce_to tool "")) then s else record s {
      memory = reset_memory s.memory client tool;
      content =
          (execute_with_budget_lock tries writable (λ b. (tt, some (reset_memory b client tool)))
            s.content).0;
    }
