-- ===== src/FieldBudget/Tests.antt =====
-- A client that asks for a field of three queries.
use liop.Common.{
  ℕ, ◌≤◌, ◌<◌, ◌≡◌, ◌↔◌, refl, String, true, false, coalesce, none, some, eqb, if◌then◌else◌, List,
  [], ◌∷◌, arith, All, text_equality,
}
use liop.FieldBudget.{Analyzer, accepted, preflight, query_limit}
use liop.Common.Attempt.{ok}
use liop.FieldBudget.Disk.{
  State, Tried, created, exists, acquire, charge_stored, max_retries, get_persistent_budget,
  preflight_stored,
}
use liop.FieldBudget.Disk.Lock.{World, idle, locked, has_read, written, move}
use liop.FieldBudget.Disk.Agrees.{Agrees, preflight_stored-preflight}
use liop.FieldBudget.Disk.Fallback.{preflight_stored_left_lock}
use liop.FieldBudget.Bound.{Event, query, resets, run, ledger, Modest, preflight_iff, ledger-le}

abbrev as_is : String → String
as_is s = s

abbrev medical : Analyzer
medical = record { pii_fields = "name" ∷ []; sensitive_keys = "diagnosis" ∷ [] }

abbrev asked : List Event
asked =
    query "agent" "stats" ("name" ∷ "age" ∷ []) none
    ∷ query "agent" "stats" ("name" ∷ []) none
    ∷ resets "agent" (some "stats")
    ∷ query "other" "stats" ("name" ∷ []) none
    ∷ query "agent" "stats" ("name" ∷ "diagnosis" ∷ []) none
    ∷ []

preflight_iff_example :
    ((preflight as_is medical (run as_is medical [] asked) "agent" "stats" ("name" ∷ []) none).1
      ≡ accepted)
    ↔ All
        (λ f.
          ledger as_is medical "agent" "stats" f [] 0 asked < (query_limit as_is medical none f).0)
        ("name" ∷ [])
preflight_iff_example =
    preflight_iff as_is medical "agent" "stats" asked ("name" ∷ []) none refl refl

asked-Modest : All (Modest as_is medical "name" 3) asked
unfolding query_limit
asked-Modest = ground arith

ledger-le_example : ledger as_is medical "agent" "stats" "name" [] 0 asked ≤ 3
ledger-le_example = ledger-le as_is medical "agent" "stats" "name" 3 asked asked-Modest

-- The lock is free at the second attempt, and the client has spent two of its three queries.
abbrev second_try : ℕ → Tried
second_try i = if eqb i 0 then exists else created

abbrev stored : State
stored = record { memory = []; content = some (("agent", ("stats", ("name", 2) ∷ []) ∷ []) ∷ []) }

lock_acquired : acquire max_retries 0 second_try ≡ ok tt
unfolding acquire
lock_acquired = refl

preflight_stored-preflight_example :
    Agrees []
      (preflight_stored as_is medical second_try true stored "agent" "stats" ("name" ∷ []) none)
      (preflight as_is medical
        (get_persistent_budget stored.content)
        "agent"
        "stats"
        ("name" ∷ [])
        none)
preflight_stored-preflight_example =
    preflight_stored-preflight as_is medical second_try stored "agent" "stats" ("name" ∷ []) none
      lock_acquired refl refl (refl, tt)

preflight_stored_left_lock_example :
    preflight_stored as_is medical (λ i. exists) true stored "agent" "stats" ("name" ∷ []) none ≡ (
      record {
        memory = (preflight as_is medical [] "agent" "stats" ("name" ∷ []) none).0;
        content = stored.content;
      },
      (preflight as_is medical [] "agent" "stats" ("name" ∷ []) none).1,
    )
preflight_stored_left_lock_example =
    preflight_stored_left_lock as_is medical (λ i. exists) true [] stored.content "agent" "stats"
      ("name" ∷ []) none (λ k. refl)

-- Two processes: the second is at the lock after the first has charged a query.
abbrev start : World
start = record { lock = false; content = none; phase = λ p. idle }

abbrev first_charged : World
first_charged = record {
  lock = false;
  content = coalesce (charge_stored as_is medical "agent" "stats" ("name" ∷ []) none []).1 none;
  phase = move 1 idle (move 1 written (move 1 (has_read []) (move 1 locked start.phase)));
}

abbrev second_reads : World
second_reads = record {
  lock = true;
  content = first_charged.content;
  phase =
      move 2 (has_read (get_persistent_budget first_charged.content))
        (move 2 locked first_charged.phase);
}
