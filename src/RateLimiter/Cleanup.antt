-- ===== src/RateLimiter/Cleanup.antt =====
-- What the limiter's table holds, and that the timer's rounds cannot be observed.
use liop.Common.{
  ℕ, ◌≤◌, max, String, ◌≡◌, refl, Option, none, some, arith, leb, text_equality, Bool-cases, inl,
  inr,
}
use liop.Common.Dict
use liop.RateLimiter.{
  Limiter, WindowRecord, init, check, check_record, open_window, use_window, reset, cleanup,
  is_expired, Event, request, sweep, forget, step,
}

-- The table has a key once, and no record counts more requests than were let through.
pub record IsValid (s : Limiter) : Type 0 where
  pub distinct : Dict.Distinct s.records
  pub counted :
      (k : String) (r : WindowRecord)
      → Dict.get k s.records ≡ some r
      → (1 ≤ r.count) × (r.count ≤ max 1 s.max_requests)

pub init-IsValid : (w m : Option ℕ) → IsValid (init w m)
unfolding init Dict.get
init-IsValid w m = record { distinct = tt; counted = λ k r e. cc }

put-IsValid :
    (s : Limiter) (key : String) (r : WindowRecord)
    → IsValid s
    → (1 ≤ r.count) × (r.count ≤ max 1 s.max_requests)
    → IsValid (record s { records = Dict.set key r s.records })
put-IsValid s key r v b = record {
  distinct = Dict.set-Distinct key r s.records v.distinct;
  counted = λ k q e. grind (arith, Dict.get-set key k r s.records, v.counted);
}

check_record-IsValid :
    (s : Limiter) (key : String) (now : ℕ) (o : Option WindowRecord)
    → Dict.get key s.records ≡ o
    → IsValid s
    → IsValid (check_record s key now o).0
unfolding check_record open_window use_window
check_record-IsValid s key now none e v = put-IsValid s key _ v (omega arith, omega arith)
check_record-IsValid s key now (some r) e v = elim (Bool-cases (leb r.reset_time now)) [
  | inl over ↦ rw over (put-IsValid s key _ v (omega arith, omega arith))
  | inr running ↦ rw running (elim (Bool-cases (leb s.max_requests r.count)) [
    | inl full ↦ rw full v
    | inr room ↦ rw room (put-IsValid s key _ v (ground arith))
  ])
]

-- Every event keeps the table well formed.
pub step-IsValid : (s : Limiter) (ev : Event) → IsValid s → IsValid (step s ev)
unfolding step check cleanup reset
step-IsValid s (request key now) v = check_record-IsValid s key now (Dict.get key s.records) refl v
step-IsValid s (sweep now) v = record {
  distinct = Dict.remove_if-Distinct (is_expired now) s.records v.distinct;
  counted = λ k r e.
      ground (arith, Dict.get-remove_if (is_expired now) k s.records v.distinct, v.counted k r);
}
step-IsValid s (forget key) v = record {
  distinct = Dict.delete-Distinct key s.records v.distinct;
  counted = λ k r e. ground (arith, Dict.get-delete key k s.records, v.counted k r);
}

-- A round of the timer changes the answer to no later request.
pub check-cleanup :
    (s : Limiter) (key : String) (t now : ℕ)
    → IsValid s
    → t ≤ now
    → (check (cleanup s t) key now).1 ≡ (check s key now).1
unfolding check check_record cleanup open_window use_window
check-cleanup s key t now v h =
    ground (arith, Dict.get-remove_if (is_expired t) key s.records v.distinct)
