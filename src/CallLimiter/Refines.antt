-- ===== src/CallLimiter/Refines.antt =====
-- The global window against a record of all calls.
use liop.Common.{
  ℕ, ◌≤◌, ◌≡◌, refl, sym, ap, ◌∙◌, true, false, Option, none, some, List, [], ◌∷◌, ◌++◌,
  if◌then◌else◌, arith, length, filter, leb, Bool-cases, inl, inr,
}
use liop.CallLimiter.{Server, Refusal, refusal, evict, is_active, check_global_rate_limit}

-- The limit as it is meant: every call that passes is recorded for good, and a call is refused where the
-- record has as many active ones as are allowed.
abbrev pub ideal_check : ℕ → ℕ → List ℕ → ℕ → List ℕ × Option Refusal
ideal_check most w record_of_calls now =
    if leb most (length (evict w now record_of_calls))
    then (record_of_calls, some (refusal most w now (evict w now record_of_calls)))
    else (record_of_calls ++ now ∷ [], none)

unfoldable pub ideal_answers : ℕ → ℕ → List ℕ → List ℕ → List (Option Refusal)
ideal_answers most w calls [] = []
ideal_answers most w calls (now ∷ later) =
    let step = ideal_check most w calls now in step.1 ∷ ideal_answers most w step.0 later

-- The answers of the server to calls at these times.
unfoldable pub answers : Server → List ℕ → List (Option Refusal)
unfolding check_global_rate_limit
answers s [] = []
answers s (now ∷ later) = let step = check_global_rate_limit s now in step.1 ∷ answers step.0 later

-- The clock does not run back.
abbrev pub Ordered : ℕ → List ℕ → Type 0
Ordered last [] = Unit
Ordered last (now ∷ later) = (last ≤ now) × Ordered now later

evict_later :
    (w now later : ℕ) (ts : List ℕ)
    → now ≤ later
    → evict w later (evict w now ts) ≡ evict w later ts
unfolding filter
evict_later w now later [] h = refl
evict_later w now later (t ∷ ts) h = elim (Bool-cases (is_active w now t)) [
  | inl active ↦ rw active (elim (Bool-cases (is_active w later t)) [
    | inl still ↦ rw still (ap (λ r. t ∷ r) (evict_later w now later ts h))
    | inr over ↦ rw over (evict_later w now later ts h)
  ])
  | inr expired ↦
      let over : is_active w later t ≡ false = ground arith in
      rw (expired, over) (evict_later w now later ts h)
]

evict-append :
    (w now : ℕ) (xs ys : List ℕ) → evict w now (xs ++ ys) ≡ evict w now xs ++ evict w now ys
unfolding filter
evict-append w now [] ys = refl
evict-append w now (x ∷ xs) ys = elim (Bool-cases (is_active w now x)) [
  | inl active ↦ rw active (ap (λ r. x ∷ r) (evict-append w now xs ys))
  | inr expired ↦ rw expired (evict-append w now xs ys)
]

module _ (w : ℕ) where
  -- From a time on, two lists have the same active times.
  abbrev Agree : ℕ → List ℕ → List ℕ → Type 0
  Agree last window calls = (now : ℕ) → last ≤ now → evict w now window ≡ evict w now calls

  Agree-refused :
      (last now : ℕ) (window calls : List ℕ)
      → last ≤ now
      → Agree last window calls
      → Agree now (evict w now window) calls
  Agree-refused last now window calls h agree later k =
      evict_later w now later window k ∙ agree later (omega arith)

  Agree-passed :
      (last now : ℕ) (window calls : List ℕ)
      → last ≤ now
      → Agree last window calls
      → Agree now (evict w now window ++ now ∷ []) (calls ++ now ∷ [])
  Agree-passed last now window calls h agree later k =
      evict-append w later (evict w now window) (now ∷ [])
      ∙ ap (λ r. r ++ evict w later (now ∷ []))
          (Agree-refused last now window calls h agree later k)
      ∙ sym (evict-append w later calls (now ∷ []))

answers_ideal :
    (s : Server) (calls : List ℕ) (last : ℕ) (times : List ℕ)
    → Agree s.tool_call_window_ms last s.global_call_window calls
    → Ordered last times
    → answers s times ≡ ideal_answers s.global_call_max_per_window s.tool_call_window_ms calls times
unfolding answers ideal_answers check_global_rate_limit
answers_ideal s calls last [] agree ordered = refl
answers_ideal s calls last (now ∷ later) agree (h, ordered) =
    let w = s.tool_call_window_ms in
    let most = s.global_call_max_per_window in
    let active = evict w now s.global_call_window in
    let same = agree now h in
    elim (Bool-cases (leb most (length active))) [
      | inl full ↦
          let full_ideal : leb most (length (evict w now calls)) ≡ true =
            ap (λ a. leb most (length a)) (sym same) ∙ full in
          rw (full, full_ideal)
            (cc (
              same,
              answers_ideal (record s { global_call_window = active }) calls now later
                  (Agree-refused w last now s.global_call_window calls h agree) ordered,
            ))
      | inr free ↦
          let free_ideal : leb most (length (evict w now calls)) ≡ false =
            ap (λ a. leb most (length a)) (sym same) ∙ free in
          rw (free, free_ideal)
            (cc (
              answers_ideal (record s { global_call_window = active ++ now ∷ [] })
                (calls ++ now ∷ []) now later
                (Agree-passed w last now s.global_call_window calls h agree) ordered))
    ]

-- For calls at times that do not run back, a server with an empty global window gives the answers of the
-- limit over a record of all calls that passed, the seconds to wait included, although it forgets the
-- times that expire.
pub answers-ideal_answers :
    (s : Server) (times : List ℕ)
    → s.global_call_window ≡ []
    → Ordered 0 times
    → answers s times ≡ ideal_answers s.global_call_max_per_window s.tool_call_window_ms [] times
answers-ideal_answers s times empty ordered =
    answers_ideal s [] 0 times (λ now h. ap (evict s.tool_call_window_ms now) empty) ordered
