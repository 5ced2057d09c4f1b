-- ===== src/FieldBudget/Disk/Fallback.antt =====
-- A lock that is left behind.
use liop.Common.{
  ℕ, zero, suc, ◌≡◌, refl, String, Bool, true, false, ◌||◌, Option, List, [], ◌∷◌, if◌then◌else◌,
  arith,
}
use liop.Common.Attempt.{Attempt, ok, fail}
use liop.FieldBudget.{
  Analyzer, Policy, Budgets, preflight, unsafe_names, is_unsafe, apply_in_memory_budget,
}
use liop.FieldBudget.Disk.{
  State, StoreError, Tried, exists, lock_timeout, acquire, max_retries, locked, settle_stored,
  charge_stored, execute_with_budget_lock, preflight_stored,
}

never_acquired :
    (tries : ℕ → Tried) (n i : ℕ)
    → ((k : ℕ) → tries k ≡ exists)
    → acquire n i tries ≡ fail lock_timeout
unfolding acquire
never_acquired tries zero i left = refl
never_acquired tries (suc n) i left = ground (arith, left i, never_acquired tries n (suc i) left)

module _ (lower : String → String) (analyzer : Analyzer) where
  decided :
      (b : Bool) (got : Attempt StoreError (Unit {0})) (writable : Bool) (memory : Budgets)
      (content : Option Budgets) (c t : String) (fs : List String) (policy : Option Policy)
      → got ≡ fail lock_timeout
      → let s : State = record { memory = memory; content = content } in
        let r =
          if b
          then (memory, unsafe_names)
          else apply_in_memory_budget lower analyzer memory c t fs policy in
        (if b
          then (s, unsafe_names)
          else settle_stored lower analyzer s c t fs policy
              (locked got writable (charge_stored lower analyzer c t fs policy) content))
        ≡ (record { memory = r.0; content = content }, r.1)
  decided true got writable memory content c t fs policy e = refl
  decided false (ok u) writable memory content c t fs policy e = cc
  decided false (fail x) writable memory content c t fs policy e = refl

  -- Where the file of the lock is always there, as after a process that ended with it, a query is decided
  -- by the budgets in memory, whatever the store holds, and the store stays as it is.
  pub preflight_stored_left_lock :
      (tries : ℕ → Tried) (writable : Bool) (memory : Budgets) (content : Option Budgets)
      (client tool : String) (fields : List String) (policy : Option Policy)
      → ((k : ℕ) → tries k ≡ exists)
      → preflight_stored lower analyzer tries writable
          (record { memory = memory; content = content })
          client
          tool
          fields
          policy
        ≡ (
          record {
            memory = (preflight lower analyzer memory client tool fields policy).0;
            content = content;
          },
          (preflight lower analyzer memory client tool fields policy).1,
        )
  unfolding preflight_stored preflight execute_with_budget_lock
  preflight_stored_left_lock tries writable memory content client tool [] policy left = refl
  preflight_stored_left_lock tries writable memory content client tool (f ∷ fs) policy left =
      decided (is_unsafe client || is_unsafe tool) (acquire max_retries 0 tries) writable memory
        content client tool (f ∷ fs) policy (never_acquired tries max_retries 0 left)
