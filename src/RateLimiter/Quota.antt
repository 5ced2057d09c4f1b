-- ===== src/RateLimiter/Quota.antt =====
-- How many requests of a key pass within one window.
use liop.Common.{
  ℕ, ◌+◌, ◌-◌, ◌≤◌, ◌<◌, min, String, ◌≡◌, refl, Option, none, some, List, [], ◌∷◌, arith, eq_iff,
  ◌==◌, text_equality, if◌then◌else◌, Bool-cases, Option-cases, le→leb, ap, ◌≢◌, inl, inr,
}
use liop.Common.Dict
use liop.RateLimiter.{
  Limiter, WindowRecord, RateLimitStatus, check, check_record, open_window, use_window, is_expired,
  Event, request, sweep, forget, step, admitted, total_admitted,
}

-- The event leaves the window of `key` that ends at `t` open: requests of the key and rounds of the
-- timer come before `t`, and the key is not reset.
abbrev pub Inside : String → ℕ → Event → Type 0
Inside key t (request j now) = j ≡ key → now < t
Inside key t (sweep now) = now < t
Inside key t (forget j) = j ≢ key

abbrev pub AllInside : String → ℕ → List Event → Type 0
AllInside key t [] = Unit
AllInside key t (ev ∷ evs) = Inside key t ev × AllInside key t evs

abbrev pub asks : String → Event → ℕ
asks key (request j now) = if j == key then 1 else 0
asks key _ = 0

-- The requests of `key` among the events.
abbrev pub demand : String → List Event → ℕ
demand key [] = 0
demand key (ev ∷ evs) = asks key ev + demand key evs

open_window-other :
    (s : Limiter) (j key : String) (now : ℕ)
    → j ≢ key
    → Dict.get key (open_window s j now).0.records ≡ Dict.get key s.records
unfolding open_window
open_window-other s j key now h =
    let r : WindowRecord = record { count = 1; reset_time = now + s.window_ms } in
    ground (arith, eq_iff j key, Dict.get-set j key r s.records)

-- A request of one key leaves the windows of the others alone.
pub check_record-other :
    (s : Limiter) (j key : String) (now : ℕ) (o : Option WindowRecord)
    → j ≢ key
    → Dict.get key (check_record s j now o).0.records ≡ Dict.get key s.records
unfolding check_record use_window
check_record-other s j key now none h = open_window-other s j key now h
check_record-other s j key now (some r) h =
    let r' : WindowRecord = record r { count = r.count + 1 } in
    ground (arith, eq_iff j key, Dict.get-set j key r' s.records, open_window-other s j key now h)

module _ (key : String) (s : Limiter) {r : WindowRecord}
    (opened : Dict.get key s.records ≡ some r) where
  admitted-Inside :
      (ev : Event)
      → Inside key r.reset_time ev
      → admitted key s ev ≡ min (s.max_requests - r.count) (asks key ev)
  unfolding admitted use_window
  admitted-Inside (request j now) h = ground (arith, eq_iff j key)
  admitted-Inside (sweep now) h = ground arith
  admitted-Inside (forget j) h = ground arith

  step-Inside :
      (ev : Event)
      → Inside key r.reset_time ev
      → Dict.get key (step s ev).records ≡ some (record r { count = r.count + admitted key s ev })
  unfolding admitted step
  step-Inside (request j now) h = elim (Bool-cases (j == key)) [
    | inl same ↦
        ground
          (arith, eq_iff j key, Dict.get-set j key (record r { count = r.count + 1 }) s.records)
    | inr other ↦
        ground (arith, check_record-other s j key now (Dict.get j s.records), eq_iff j key)
  ]
  step-Inside (sweep now) h =
      ground (arith, Dict.get-remove_if_spared (is_expired now) key r s.records opened)
  step-Inside (forget j) h = ground (arith, eq_iff j key, Dict.get-delete j key s.records)

step-max_requests : (s : Limiter) (ev : Event) → (step s ev).max_requests ≡ s.max_requests
unfolding step
step-max_requests s (request j now) = ground arith
step-max_requests s _ = refl

-- While a window of a key stays open, exactly the first `max_requests - count` requests of the key
-- pass, whatever the requests of other keys, the rounds of the timer and the resets of other keys.
pub quota :
    (key : String) (evs : List Event) (s : Limiter) (r : WindowRecord)
    → Dict.get key s.records ≡ some r
    → AllInside key r.reset_time evs
    → total_admitted key s evs ≡ min (s.max_requests - r.count) (demand key evs)
unfolding total_admitted
quota key [] s r h k = omega arith
quota key (ev ∷ evs) s r h (k, ks) =
    let r' : WindowRecord = record r { count = r.count + admitted key s ev } in
    let rest = quota key evs (step s ev) r' (step-Inside key s h ev k) ks in
    omega (arith, rest, admitted-Inside key s h ev k, step-max_requests s ev)

-- No window of `key` is open at `now`.
abbrev pub IsClosed : String → ℕ → Limiter → Type 0
IsClosed key now s = (r : WindowRecord) → Dict.get key s.records ≡ some r → r.reset_time ≤ now

check_closed :
    (key : String) (now : ℕ) (s : Limiter)
    → IsClosed key now s
    → check s key now ≡ open_window s key now
unfolding check check_record
check_closed key now s h = elim (Option-cases (Dict.get key s.records)) [
  | inl missing ↦ rw (missing, check_record)
  | inr (r, found) ↦ rw (found, check_record, le→leb r.reset_time now (h r found))
]

step_closed :
    (key : String) (now : ℕ) (s : Limiter)
    → IsClosed key now s
    → (step s (request key now) ≡ (open_window s key now).0)
      × (admitted key s (request key now) ≡ 1)
unfolding step admitted open_window
step_closed key now s h =
    let e = check_closed key now s h in
    (ap (λ (p : Limiter × RateLimitStatus). p.0) e, ground (arith, e, eq_iff key key))

-- A request that comes when no window of its key is open always passes and opens one; of the
-- requests of the key in that window, exactly the next `max_requests - 1` pass too.
pub quota_fresh :
    (key : String) (now : ℕ) (evs : List Event) (s : Limiter)
    → IsClosed key now s
    → AllInside key (now + s.window_ms) evs
    → total_admitted key s (request key now ∷ evs) ≡ 1 + min (s.max_requests - 1) (demand key evs)
unfolding total_admitted open_window
quota_fresh key now evs s h k =
    let r : WindowRecord = record { count = 1; reset_time = now + s.window_ms } in
    let (stepped, passed) = step_closed key now s h in
    rw (passed, stepped)
      (ap (λ n. 1 + n)
        (quota key evs (open_window s key now).0 r (Dict.get-set_self key r s.records) k))
