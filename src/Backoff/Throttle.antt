-- ===== src/Backoff/Throttle.antt =====
-- How often a skipped peer is logged.
use liop.Common.{
  ℕ, ◌+◌, ◌≤◌, ◌≡◌, ◌≢◌, refl, ap, String, true, false, Option, none, some, List, [], ◌∷◌, arith,
  ◌==◌, text_equality, eq_iff, Bool-cases, inl, inr,
}
use liop.Common.Dict
use liop.Backoff.{
  Cooldown, FailureState, Failures, should_skip, skip_with, record_failure, record_success,
  next_count, backoff,
}
use liop.Backoff.History.{Event, asks, fails, answers, step, run}

-- No exchange with the peer fails.
abbrev pub Spares : String → Event → Type 0
Spares peer (fails j now) = j ≢ peer
Spares peer _ = Unit

abbrev pub AllSpare : String → List Event → Type 0
AllSpare peer [] = Unit
AllSpare peer (ev ∷ evs) = Spares peer ev × AllSpare peer evs

-- The line of the peer was logged at `t` or later.
abbrev LoggedSince : ℕ → Option FailureState → Type 0
LoggedSince t none = Unit
LoggedSince t (some s) = t ≤ s.last_skip_log_at

module _ (k : Cooldown) (peer : String) (t : ℕ) where
  skip_with-LoggedSince :
      (m : Failures) (j : String) (now : ℕ) (o : Option FailureState)
      → Dict.get j m ≡ o
      → LoggedSince t (Dict.get peer m)
      → LoggedSince t (Dict.get peer (skip_with k j now m o).0)
  unfolding skip_with
  skip_with-LoggedSince m j now none e h = h
  skip_with-LoggedSince m j now (some s) e h =
      let set = Dict.get-set j peer (record s { last_skip_log_at = now }) m in
      elim (Bool-cases (j == peer)) [
        | inl same ↦
            ground (arith, set, eq_iff j peer, ap (λ i. Dict.get i m) ((eq_iff j peer).0 same))
        | inr other ↦ ground (arith, set)
      ]

  record_failure-LoggedSince :
      (m : Failures) (j : String) (now : ℕ)
      → j ≢ peer
      → LoggedSince t (Dict.get peer m)
      → LoggedSince t (Dict.get peer (record_failure k j now m))
  unfolding record_failure
  record_failure-LoggedSince m j now other h =
      let entry : FailureState = record {
        failures = next_count k (Dict.get j m);
        cooldown_until = now + backoff k (next_count k (Dict.get j m));
        last_skip_log_at = 0;
      } in
      elim (Bool-cases (j == peer)) [
        | inl same ↦ absurd (other ((eq_iff j peer).0 same))
        | inr differs ↦ rw (Dict.get-set j peer entry m, differs) h
      ]

  step-LoggedSince :
      (m : Failures) (ev : Event)
      → Spares peer ev
      → LoggedSince t (Dict.get peer m)
      → LoggedSince t (Dict.get peer (step k m ev))
  unfolding step should_skip record_success
  step-LoggedSince m (asks j now) _ h = skip_with-LoggedSince m j now (Dict.get j m) refl h
  step-LoggedSince m (fails j now) other h = record_failure-LoggedSince m j now other h
  step-LoggedSince m (answers j) _ h = ground (arith, Dict.get-delete j peer m, eq_iff j peer)

  run-LoggedSince :
      (m : Failures) (evs : List Event)
      → AllSpare peer evs
      → LoggedSince t (Dict.get peer m)
      → LoggedSince t (Dict.get peer (run k m evs))
  unfolding run
  run-LoggedSince m [] _ h = h
  run-LoggedSince m (ev ∷ evs) (q, qs) h =
      run-LoggedSince (step k m ev) evs qs (step-LoggedSince m ev q h)

  logged-LoggedSince :
      (m : Failures) (o : Option FailureState)
      → (skip_with k peer t m o).1.logged ≡ true
      → LoggedSince t (Dict.get peer (skip_with k peer t m o).0)
  unfolding skip_with
  logged-LoggedSince m none h = ground arith
  logged-LoggedSince m (some s) h =
      ground (arith, Dict.get-set_self peer (record s { last_skip_log_at = t }) m)

  -- After a line about a peer was logged, no line about it is logged until the throttle's time is
  -- over, whatever happens but a failure of the peer.
  pub log_throttled :
      (m : Failures) (evs : List Event) (now : ℕ)
      → (should_skip k peer t m).1.logged ≡ true
      → AllSpare peer evs
      → now ≤ t + k.log_throttle_ms
      → (should_skip k peer now (run k (should_skip k peer t m).0 evs)).1.logged ≡ false
  unfolding should_skip skip_with
  log_throttled m evs now h q le = ground (
    arith,
    run-LoggedSince (should_skip k peer t m).0 evs q (logged-LoggedSince m (Dict.get peer m) h),
  )
