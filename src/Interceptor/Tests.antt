-- ===== src/Interceptor/Tests.antt =====
-- Interceptors that take too long: a promise that settles late, and a call that returns late.
use liop.Common.{ℕ, ◌≤◌, ◌≡◌, ◌↔◌, refl, true, false, none, some}
use liop.Common.Attempt.{ok}
use liop.Interceptor.{
  closed, GatewayAdmissionResult, GatewayInterceptorOptions, Run, execute_gateway_interceptor, race,
  on_error,
}
use liop.Interceptor.Answer.{Admitted, answer_in_time}

abbrev options : GatewayInterceptorOptions
options = record { timeout_ms = none; fail_mode = some closed }

abbrev allowed : GatewayAdmissionResult ℕ
allowed = record { allowed = true; reason = none; error_code = none; metadata = none }

abbrev late : Run ℕ
late = record { returned_at = 0; first = false; settled = some (3000, ok allowed) }

abbrev blocking : Run ℕ
blocking = record { returned_at = 3000; first = false; settled = some (3000, ok allowed) }

refused_late : (execute_gateway_interceptor options "TimeoutError" late).1.allowed ≡ false
unfolding execute_gateway_interceptor race on_error
refused_late = refl

admitted_late : execute_gateway_interceptor options "TimeoutError" blocking ≡ (3000, allowed)
unfolding execute_gateway_interceptor race on_error
admitted_late = refl

answer_in_time_example :
    ((execute_gateway_interceptor options "TimeoutError" blocking).0 ≤ 3000)
    × (((execute_gateway_interceptor options "TimeoutError" blocking).1.allowed ≡ true)
        ↔ Admitted closed 2500 blocking blocking.settled)
answer_in_time_example = answer_in_time options "TimeoutError" blocking
