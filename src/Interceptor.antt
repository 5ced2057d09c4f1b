-- ===== src/Interceptor.antt =====
-- The admission hook of the gateway (sdks/typescript/src/gateway/interceptor.ts). A run of the
-- interceptor is an argument: when it settles, in milliseconds, and how. The copy of the request that
-- it is given is left out, with the removal of the listener. While the call of the interceptor itself
-- takes, nothing else runs: no timer fires before it has returned.
pub mod Answer
mod Tests
use liop.Common.{
  ℕ, ◌≡◌, String, Bool, true, false, Option, none, some, List, if◌then◌else◌, leb, ltb, eqb, ◌||◌,
  ◌&&◌, coalesce_to,
}
use liop.Common.Text.{◌+++◌}
use liop.Common.Int.{ℤ, negsuc}
use liop.Common.Attempt.{Attempt, ok, fail}

pub data FailMode : Type 0 where
  closed : FailMode
  open_mode : FailMode

-- What is noted of an answer: that of the interceptor, or the error with the mode.
pub data Metadata (M : Type 0) : Type 0 where
  noted : M → Metadata M
  interceptor_error : String → FailMode → Metadata M

pub record GatewayAdmissionResult (M : Type 0) : Type 0 where
  pub allowed : Bool
  pub reason : Option String
  pub error_code : Option ℤ
  pub metadata : Option (Metadata M)

pub record GatewayInterceptorOptions : Type 0 where
  pub timeout_ms : Option ℕ
  pub fail_mode : Option FailMode

abbrev pub default_timeout_ms : ℕ
default_timeout_ms = 2500

-- The call of the interceptor returns at `returned_at`, with a promise or a result, or it throws. How it
-- settles is none if it never does; what it has settled to by then comes before the signal.
-- `first` says what comes first of a promise and the signal where both come in the same millisecond.
pub record Run (M : Type 0) : Type 0 where
  pub returned_at : ℕ
  pub first : Bool
  pub settled : Option (ℕ × Attempt String (GatewayAdmissionResult M))

-- When the signal can be seen: after the timeout and the call.
abbrev pub aborted_at : ℕ → ℕ → ℕ
aborted_at timeout returned_at = if leb timeout returned_at then returned_at else timeout

module _ {M : Type 0} where
  -- A result that is there when the call returns, or one before the signal.
  abbrev pub in_time : ℕ → Run M → ℕ → Bool
  in_time timeout r at =
      leb at r.returned_at
      || ltb at (aborted_at timeout r.returned_at)
      || (eqb at (aborted_at timeout r.returned_at) && r.first)

  abbrev pub settle :
      String
      → ℕ
      → Run M
      → Option (ℕ × Attempt String (GatewayAdmissionResult M))
      → ℕ × Attempt String (GatewayAdmissionResult M)
  settle signal timeout r none = (aborted_at timeout r.returned_at, fail signal)
  settle signal timeout r (some (at, outcome)) =
      if in_time timeout r at
      then (if leb at r.returned_at then r.returned_at else at, outcome)
      else (aborted_at timeout r.returned_at, fail signal)

  -- `Promise.race`: when it settles, and how. `signal` is the text of the reason of the signal.
  unfoldable pub race : String → ℕ → Run M → ℕ × Attempt String (GatewayAdmissionResult M)
  race signal timeout r = settle signal timeout r r.settled

  unfoldable pub on_error : FailMode → String → GatewayAdmissionResult M
  on_error open_mode message = record {
    allowed = true;
    reason = none;
    error_code = none;
    metadata = some (interceptor_error message open_mode);
  }
  on_error closed message = record {
    allowed = false;
    reason = some ("Interceptor unavailable: " +++ message);
    error_code = some (negsuc 32097);
    metadata = some (interceptor_error message closed);
  }

  abbrev pub answer :
      FailMode → Attempt String (GatewayAdmissionResult M) → GatewayAdmissionResult M
  answer mode (ok r) = r
  answer mode (fail message) = on_error mode message

  unfoldable pub execute_gateway_interceptor :
      GatewayInterceptorOptions → String → Run M → ℕ × GatewayAdmissionResult M
  unfolding race on_error
  execute_gateway_interceptor options signal run =
      let raced = race signal (coalesce_to options.timeout_ms default_timeout_ms) run in
      (raced.0, answer (coalesce_to options.fail_mode closed) raced.1)
