-- ===== src/TokenManager/Flight.antt =====
-- At most one request to the token endpoint is out.
use liop.Common.{ℕ, ◌+◌, ◌≤◌, ◌≡◌, refl, Option, none, some, List, [], ◌∷◌, arith}
use liop.TokenManager.{
  Manager, Answer, started, Stage, requesting, received, failed, Response, unreachable, not_ok,
  body, get_token, invalidate, deliver, resume,
}

-- A call of `getToken`, an answer of the endpoint, the resumption of the pending promise, and a call
-- of `invalidate`.
pub data Event : Type 0 where
  call : ℕ → Event
  answer : Response → ℕ → Event
  wake : Event
  drop : Event

pub step : Manager → Event → Manager
step s (call now) = (get_token s now).0
step s (answer r now) = deliver s r now
step s wake = resume s
step s drop = invalidate s

pub run : Manager → List Event → Manager
run s [] = s
run s (ev ∷ evs) = run (step s ev) evs

abbrev is_started : Answer → ℕ
is_started started = 1
is_started _ = 0

abbrev pub open_at : Option Stage → ℕ
open_at (some requesting) = 1
open_at _ = 0

-- The requests that are out.
abbrev pub open_requests : Manager → ℕ
open_requests s = open_at s.pending_promise

-- The requests that an event sends, and those that it answers.
pub sends : Manager → Event → ℕ
sends s (call now) = is_started (get_token s now).1
sends s _ = 0

pub answers : Manager → Event → ℕ
answers s (answer r now) = open_requests s
answers s _ = 0

pub sent : Manager → List Event → ℕ
sent s [] = 0
sent s (ev ∷ evs) = sends s ev + sent (step s ev) evs

pub answered : Manager → List Event → ℕ
answered s [] = 0
answered s (ev ∷ evs) = answers s ev + answered (step s ev) evs

step-balance :
    (s : Manager) (ev : Event)
    → sends s ev + open_requests s ≡ answers s ev + open_requests (step s ev)
unfolding step sends answers get_token deliver resume invalidate
step-balance s (call now) = ground arith
step-balance s (answer unreachable now) = ground arith
step-balance s (answer (not_ok n) now) = ground arith
step-balance s (answer (body t n) now) = ground arith
step-balance s wake = ground arith
step-balance s drop = ground arith

balance :
    (s : Manager) (evs : List Event)
    → sent s evs + open_requests s ≡ answered s evs + open_requests (run s evs)
unfolding sent answered run
balance s [] = refl
balance s (ev ∷ evs) = omega (arith, step-balance s ev, balance (step s ev) evs)

open_at-le : (o : Option Stage) → open_at o ≤ 1
open_at-le none = omega arith
open_at-le (some requesting) = omega arith
open_at-le (some (received t)) = omega arith
open_at-le (some failed) = omega arith

-- However the calls, answers, resumptions and invalidations interleave, from a state with no request
-- out at most one more request has been sent than was answered, and one more exactly while one is out.
pub single_flight :
    (s : Manager) (evs : List Event)
    → open_requests s ≡ 0
    → (sent s evs ≡ answered s evs + open_requests (run s evs)) × (sent s evs ≤ answered s evs + 1)
single_flight s evs h = omega (arith, balance s evs, open_at-le (run s evs).pending_promise)
