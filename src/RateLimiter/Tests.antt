-- ===== src/RateLimiter/Tests.antt =====
-- The limiter on concrete requests.
use liop.Common.{
  ◌≡◌, refl, true, some, none, List, [], ◌∷◌, arith, min, ◌-◌, ◌+◌, ne_of_beq, text_equality,
}
use liop.Common.Dict
use liop.RateLimiter.{
  Limiter, WindowRecord, init, check, Event, request, sweep, forget, step, total_admitted, admitted,
  open_window, use_window,
}
use liop.RateLimiter.Quota.{quota, quota_fresh, demand}
use liop.RateLimiter.Cleanup.{IsValid, init-IsValid, step-IsValid}

abbrev window : WindowRecord
window = record { count = 1; reset_time = 60 }

abbrev busy : Limiter
busy = record {
  window_ms = 60;
  max_requests = 3;
  records = ("a", window) ∷ [];
  cleanup_timer = true;
}

abbrev traffic : List Event
traffic =
    request "a" 1 ∷ request "b" 70 ∷ sweep 59 ∷ forget "b" ∷ request "a" 2 ∷ request "a" 59 ∷ []

a_third_is_refused : total_admitted "a" busy traffic ≡ 2
unfolding total_admitted admitted step check open_window use_window Dict.get Dict.set Dict.delete
    Dict.remove_if
a_third_is_refused = refl

quota_example : total_admitted "a" busy traffic ≡ min (3 - 1) (demand "a" traffic)
unfolding Dict.get
quota_example = quota "a" traffic busy window refl (
  (λ _. omega arith),
  (
    (λ e. absurd (ne_of_beq "b" "a" refl e)),
    (omega arith, (ne_of_beq "b" "a" refl, ((λ _. omega arith), ((λ _. omega arith), tt)))),
  ),
)

quota_fresh_example :
    total_admitted "c" busy (request "c" 100 ∷ request "c" 101 ∷ []) ≡ 1 + min (3 - 1) 1
unfolding Dict.get
quota_fresh_example =
    quota_fresh "c" 100 (request "c" 101 ∷ []) busy (λ r e. cc) ((λ _. omega arith), tt)

step-IsValid_example : IsValid (step (init none (some 2)) (request "a" 5))
step-IsValid_example =
    step-IsValid (init none (some 2)) (request "a" 5) (init-IsValid none (some 2))

busy-IsValid : IsValid busy
unfolding Dict.get
busy-IsValid = record { distinct = (refl, tt); counted = λ k r e. ground arith }
