-- ===== src/Backoff/History.antt =====
-- When a peer is skipped, from what happened to it.
use liop.Common.{
  ℕ, zero, suc, ◌+◌, ◌*◌, ◌^◌, ◌≤◌, min, ◌≡◌, refl, ap, String, Bool, false, Option, none, some,
  List, [], ◌∷◌, arith, if◌then◌else◌, ltb, ◌==◌, text_equality, eq_iff, Bool-cases, inl, inr,
}
use liop.Common.Dict
use liop.Backoff.{
  Cooldown, FailureState, Failures, should_skip, skip_with, record_failure, record_success, backoff,
  next_count,
}

-- What happens: a peer is about to be asked, an exchange with it fails, or it answers.
pub data Event : Type 0 where
  asks : String → ℕ → Event
  fails : String → ℕ → Event
  answers : String → Event

module _ (k : Cooldown) where
  unfoldable pub step : Failures → Event → Failures
  step m (asks peer now) = (should_skip k peer now m).0
  step m (fails peer now) = record_failure k peer now m
  step m (answers peer) = record_success peer m

  unfoldable pub run : Failures → List Event → Failures
  run m [] = m
  run m (ev ∷ evs) = run (step m ev) evs

-- The failures of a peer since it last answered, and the time of the last one.
abbrev pub Memory : Type 0
Memory = ℕ × ℕ

abbrev pub recall : String → Memory → Event → Memory
recall peer r (asks j now) = r
recall peer r (fails j now) = if j == peer then (suc r.0, now) else r
recall peer r (answers j) = if j == peer then (0, r.1) else r

pub recall_all : String → Memory → List Event → Memory
recall_all peer r [] = r
recall_all peer r (ev ∷ evs) = recall_all peer (recall peer r ev) evs

-- In its cooldown: `n` failures, the last at `t`.
abbrev pub is_cooling : Cooldown → ℕ → Memory → Bool
is_cooling k now (zero, t) = false
is_cooling k now (suc n, t) = ltb now (t + min (k.base_ms * 2 ^ n) k.max_ms)

-- The entry of a peer holds what is recalled of it.
abbrev Holds : Cooldown → Option FailureState → Memory → Type 0
Holds k none (n, t) = n ≡ 0
Holds k (some s) (n, t) = (s.failures ≡ n) × (1 ≤ n) × (s.cooldown_until ≡ t + backoff k n)

module _ (k : Cooldown) (peer : String) where
  -- Asking writes at most the time of a log line.
  skip_with-Holds :
      (m : Failures) (r : Memory) (j : String) (now : ℕ) (o : Option FailureState)
      → Dict.get j m ≡ o
      → Holds k (Dict.get peer m) r
      → Holds k (Dict.get peer (skip_with k j now m o).0) r
  unfolding skip_with
  skip_with-Holds m r j now none e h = h
  skip_with-Holds m r j now (some s) e h =
      let set = Dict.get-set j peer (record s { last_skip_log_at = now }) m in
      elim (Bool-cases (j == peer)) [
        | inl same ↦
            ground (arith, set, eq_iff j peer, ap (λ i. Dict.get i m) ((eq_iff j peer).0 same))
        | inr other ↦ ground (arith, set)
      ]

  abbrev failed : ℕ → ℕ → FailureState
  failed now n = record { failures = n; cooldown_until = now + backoff k n; last_skip_log_at = 0 }

  failed-Holds :
      (r : Memory) (now : ℕ) (o : Option FailureState)
      → Holds k o r
      → Holds k (some (failed now (next_count k o))) (suc r.0, now)
  failed-Holds r now none h = ground arith
  failed-Holds r now (some s) h = ground arith

  record_failure-Holds :
      (m : Failures) (r : Memory) (j : String) (now : ℕ) (o : Option FailureState)
      → Dict.get peer m ≡ o
      → Holds k o r
      → Holds k (Dict.get peer (record_failure k j now m)) (recall peer r (fails j now))
  unfolding record_failure
  record_failure-Holds m r j now o e h =
      let set = Dict.get-set j peer (failed now (next_count k (Dict.get j m))) m in
      elim (Bool-cases (j == peer)) [
        | inl same ↦ let p = (eq_iff j peer).0 same in rw (set, same, p, e) (failed-Holds r now o h)
        | inr other ↦ rw (set, other, e) h
      ]

  step-Holds :
      (m : Failures) (r : Memory) (ev : Event)
      → Holds k (Dict.get peer m) r
      → Holds k (Dict.get peer (step k m ev)) (recall peer r ev)
  unfolding step should_skip record_success
  step-Holds m r (asks j now) h = skip_with-Holds m r j now (Dict.get j m) refl h
  step-Holds m r (fails j now) h = record_failure-Holds m r j now (Dict.get peer m) refl h
  step-Holds m r (answers j) h = ground (arith, Dict.get-delete j peer m, eq_iff j peer)

  run-Holds :
      (m : Failures) (r : Memory) (evs : List Event)
      → Holds k (Dict.get peer m) r
      → Holds k (Dict.get peer (run k m evs)) (recall_all peer r evs)
  unfolding run recall_all
  run-Holds m r [] h = h
  run-Holds m r (ev ∷ evs) h = run-Holds (step k m ev) (recall peer r ev) evs (step-Holds m r ev h)

module _ (k : Cooldown) (peer : String) where
  -- After any events, whatever the other peers do, a peer is skipped exactly during the cooldown that
  -- its failures since its last answer give: `base * 2 ^ (n - 1)` ms after the last of `n`, and at
  -- most the maximum.
  pub should_skip-run :
      (evs : List Event) (now : ℕ)
      → (should_skip k peer now (run k [] evs)).1.skipped
        ≡ is_cooling k now (recall_all peer (0, 0) evs)
  unfolding should_skip skip_with Dict.get
  should_skip-run evs now = ground (arith, run-Holds k peer [] (0, 0) evs refl)
