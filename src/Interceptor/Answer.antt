-- ===== src/Interceptor/Answer.antt =====
-- Every request is answered in time.
use liop.Common.{
  ℕ, ◌≤◌, ◌≡◌, ◌↔◌, ◌⊎◌, inl, inr, String, true, Option, none, some, if◌then◌else◌, arith,
  coalesce_to, Bool-cases,
}
use liop.Common.Attempt.{Attempt, ok, fail}
use liop.Interceptor.{
  FailMode, closed, open_mode, GatewayAdmissionResult, GatewayInterceptorOptions, Run,
  default_timeout_ms, aborted_at, in_time, settle, race, on_error, answer,
  execute_gateway_interceptor,
}

on_error_iff :
    (M : Type 0) (mode : FailMode) (message : String)
    → ((on_error {M = M} mode message).allowed ≡ true) ↔ (mode ≡ open_mode)
unfolding on_error
on_error_iff M closed message = ground arith
on_error_iff M open_mode message = ground arith

module _ {M : Type 0} where
  -- The interceptor answers that the request is allowed.
  abbrev pub Admits : Attempt String (GatewayAdmissionResult M) → Type 0
  Admits (ok r) = r.allowed ≡ true
  Admits (fail message) = ⊥

  -- It gives no answer.
  abbrev pub Fails : Attempt String (GatewayAdmissionResult M) → Type 0
  Fails (ok r) = ⊥
  Fails (fail message) = Unit

  abbrev pub Admitted :
      FailMode → ℕ → Run M → Option (ℕ × Attempt String (GatewayAdmissionResult M)) → Type 0
  Admitted mode timeout r none = mode ≡ open_mode
  Admitted mode timeout r (some (at, outcome)) =
      if in_time timeout r at
      then (Admits outcome ⊎ (Fails outcome × (mode ≡ open_mode)))
      else (mode ≡ open_mode)

  answer_iff :
      (mode : FailMode) (o : Attempt String (GatewayAdmissionResult M))
      → ((answer mode o).allowed ≡ true) ↔ (Admits o ⊎ (Fails o × (mode ≡ open_mode)))
  answer_iff mode (ok r) = ground arith
  answer_iff mode (fail message) = ground (arith, on_error_iff M mode message)

  settles :
      (mode : FailMode) (signal : String) (timeout : ℕ) (r : Run M)
      (settled : Option (ℕ × Attempt String (GatewayAdmissionResult M)))
      → ((settle signal timeout r settled).0 ≤ aborted_at timeout r.returned_at)
        × (((answer mode (settle signal timeout r settled).1).allowed ≡ true)
            ↔ Admitted mode timeout r settled)
  settles mode signal timeout r none = (omega arith, on_error_iff M mode signal)
  settles mode signal timeout r (some (at, outcome)) = elim (Bool-cases (in_time timeout r at)) [
    | inl early ↦ rw early (ground arith, answer_iff mode outcome)
    | inr late ↦ rw late (omega arith, on_error_iff M mode signal)
  ]

  -- The gateway has an answer when both the timeout and the call of the interceptor are over, at the
  -- latest, also if its promise never settles. The request is admitted exactly when the interceptor
  -- allows it in time, or gives no answer in time and the mode is to fail open; in time is what the call
  -- returns, however long it takes, and a promise that settles before the signal.
  pub answer_in_time :
      (options : GatewayInterceptorOptions) (signal : String) (run : Run M)
      → let timeout = coalesce_to options.timeout_ms default_timeout_ms in
        let result = execute_gateway_interceptor options signal run in
        (result.0 ≤ aborted_at timeout run.returned_at)
        × ((result.1.allowed ≡ true)
            ↔ Admitted (coalesce_to options.fail_mode closed) timeout run run.settled)
  unfolding execute_gateway_interceptor race
  answer_in_time options signal run =
      settles (coalesce_to options.fail_mode closed) signal
        (coalesce_to options.timeout_ms default_timeout_ms) run run.settled
