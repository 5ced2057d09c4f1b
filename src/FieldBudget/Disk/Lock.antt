-- ===== src/FieldBudget/Disk/Lock.antt =====
-- Processes that share the store of budgets: the steps of `executeWithBudgetLock`
-- (sdks/typescript/src/server/index.ts), each of which other processes come between.
use liop.Common.{
  ℕ, ◌≡◌, String, Bool, true, false, Option, none, some, List, [], ◌∷◌, if◌then◌else◌, eqb,
  coalesce,
}
use liop.FieldBudget.{Analyzer, Policy, Budgets, reset_memory}
use liop.FieldBudget.Disk.{get_persistent_budget, charge_stored, execute_with_budget_lock, created}

-- Where a process is: before the lock, with it, with the budgets that it read, and before the unlinking.
pub data Phase : Type 0 where
  idle : Phase
  locked : Phase
  has_read : Budgets → Phase
  written : Phase

pub record World : Type 0 where
  pub lock : Bool
  pub content : Option Budgets
  pub phase : ℕ → Phase

abbrev pub is_active : Phase → Bool
is_active idle = false
is_active locked = true
is_active (has_read b) = true
is_active written = true

abbrev pub move : ℕ → Phase → (ℕ → Phase) → ℕ → Phase
move p x phase q = if eqb q p then x else phase q

-- What a process does with the budgets under the lock: it charges a query of a client and a tool for
-- fields, or it resets those of a client or of one tool.
pub data Change : Type 0 where
  charges : String → String → List String → Option Policy → Change
  resets : String → Option String → Change

-- The changes of which the file has been written, the last one first.
abbrev pub noted : Option Change → List Change → List Change
noted none changes = changes
noted (some c) changes = c ∷ changes

module _ (lower : String → String) (analyzer : Analyzer) where
  -- The budgets that an action returns for the file, if it does.
  abbrev pub updated_budget : Change → Budgets → Option Budgets
  updated_budget (charges client tool fields policy) b =
      (charge_stored lower analyzer client tool fields policy b).1
  updated_budget (resets client tool) b = some (reset_memory b client tool)

  -- A step, with the change that it writes. The write of the file may fail. A process may end in any
  -- phase; the file of its lock stays.
  pub data Step : World → Option Change → World → Type 0 where
    creates :
        {w : World} (p : ℕ)
        → w.lock ≡ false
        → Step w none (record { lock = true; content = w.content; phase = move p locked w.phase })
    reads :
        {w : World} (p : ℕ)
        → w.phase p ≡ locked
        → Step w none (record {
          lock = w.lock;
          content = w.content;
          phase = move p (has_read (get_persistent_budget w.content)) w.phase;
        })
    writes :
        {w : World} (p : ℕ) (b : Budgets) (c : Change)
        → w.phase p ≡ has_read b
        → Step w (some c) (record {
          lock = w.lock;
          content = coalesce (updated_budget c b) w.content;
          phase = move p written w.phase;
        })
    fails :
        {w : World} (p : ℕ) (b : Budgets)
        → w.phase p ≡ has_read b
        → Step w none
            (record { lock = w.lock; content = w.content; phase = move p written w.phase })
    unlinks :
        {w : World} (p : ℕ)
        → w.phase p ≡ written
        → Step w none (record { lock = false; content = w.content; phase = move p idle w.phase })
    ends :
        {w : World} (p : ℕ)
        → Step w none (record { lock = w.lock; content = w.content; phase = move p idle w.phase })

  -- From a store with a content and no process at it, with the changes written since.
  pub data Reachable (content : Option Budgets) : List Change → World → Type 0 where
    starts : Reachable content [] (record { lock = false; content = content; phase = λ p. idle })
    goes :
        {w v : World} {changes : List Change} {o : Option Change}
        → Reachable content changes w
        → Step w o v
        → Reachable content (noted o changes) v

  -- What one process alone makes of the file with a change, by `executeWithBudgetLock`.
  abbrev pub alone_with : Change → Option Budgets → Option Budgets
  alone_with (charges client tool fields policy) content =
      (execute_with_budget_lock (λ i. created) true
        (charge_stored lower analyzer client tool fields policy) content).0
  alone_with (resets client tool) content =
      (execute_with_budget_lock (λ i. created) true (λ b. (tt, some (reset_memory b client tool)))
        content).0

  -- The changes, one process at a time, each as a whole.
  abbrev pub in_turn : Option Budgets → List Change → Option Budgets
  in_turn content [] = content
  in_turn content (c ∷ changes) = alone_with c (in_turn content changes)

-- One process at most is past the lock, which is there, and what it has read is in the file.
pub record Exclusive (w : World) : Type 0 where
  pub holds : (p : ℕ) → is_active (w.phase p) ≡ true → w.lock ≡ true
  pub alone : (p q : ℕ) → is_active (w.phase p) ≡ true → is_active (w.phase q) ≡ true → p ≡ q
  pub fresh : (p : ℕ) (b : Budgets) → w.phase p ≡ has_read b → b ≡ get_persistent_budget w.content
