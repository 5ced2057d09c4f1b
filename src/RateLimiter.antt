-- ===== src/RateLimiter.antt =====
-- `InMemoryRateLimiter` (sdks/typescript/src/gateway/rate-limiter.ts). A method takes the time of
-- the clock as `now` and returns the new state beside its result. Options and times are natural
-- numbers of milliseconds; `remaining` is an integer, since the source's subtraction is one.
pub mod Quota
pub mod Cleanup
mod Tests
use liop.Common.{
  ℕ, ◌+◌, ◌-◌, String, Bool, true, false, Option, none, some, List, [], ◌∷◌, leb, ◌==◌,
  text_equality, if◌then◌else◌,
}
use liop.Common.Dict
use liop.Common.Dict.{Dict}
use liop.Common.Int.{ℤ, sub_ℕ}

pub record RateLimitStatus : Type 0 where
  pub allowed : Bool
  pub remaining : ℤ
  pub limit : ℕ
  pub reset_ms : ℕ

pub record WindowRecord : Type 0 where
  pub count : ℕ
  pub reset_time : ℕ

-- `cleanup_timer` says whether the interval is armed.
pub record Limiter : Type 0 where
  pub window_ms : ℕ
  pub max_requests : ℕ
  pub records : Dict String WindowRecord
  pub cleanup_timer : Bool

abbrev get_or_else : ℕ → Option ℕ → ℕ
get_or_else d none = d
get_or_else d (some n) = n

-- The constructor, with its two optional fields.
unfoldable pub init : Option ℕ → Option ℕ → Limiter
init window_ms max_requests = record {
  window_ms = get_or_else 60_000 window_ms;
  max_requests = get_or_else 120 max_requests;
  records = [];
  cleanup_timer = true;
}

-- The first `if` of `check`: a new window, which is open from this request on.
unfoldable pub open_window : Limiter → String → ℕ → Limiter × RateLimitStatus
open_window s key now = (
  record s {
    records = Dict.set key (record { count = 1; reset_time = now + s.window_ms }) s.records;
  },
  record {
    allowed = true;
    remaining = sub_ℕ s.max_requests 1;
    limit = s.max_requests;
    reset_ms = s.window_ms;
  },
)

-- The rest of `check`, for a record whose window is open. `Math.max(0, a - b)` is `a - b` on ℕ.
unfoldable pub use_window : Limiter → String → ℕ → WindowRecord → Limiter × RateLimitStatus
use_window s key now r =
    if leb s.max_requests r.count
    then (
      s,
      record {
        allowed = false;
        remaining = sub_ℕ 0 0;
        limit = s.max_requests;
        reset_ms = r.reset_time - now;
      },
    )
    else (
      record s { records = Dict.set key (record r { count = r.count + 1 }) s.records },
      record {
        allowed = true;
        remaining = sub_ℕ s.max_requests (r.count + 1);
        limit = s.max_requests;
        reset_ms = r.reset_time - now;
      },
    )

unfoldable pub check_record : Limiter → String → ℕ → Option WindowRecord → Limiter × RateLimitStatus
unfolding open_window use_window
check_record s key now none = open_window s key now
check_record s key now (some r) =
    if leb r.reset_time now then open_window s key now else use_window s key now r

unfoldable pub check : Limiter → String → ℕ → Limiter × RateLimitStatus
unfolding check_record
check s key now = check_record s key now (Dict.get key s.records)

unfoldable pub reset : Limiter → String → Limiter
reset s key = record s { records = Dict.delete key s.records }

abbrev pub is_expired : ℕ → WindowRecord → Bool
is_expired now r = leb r.reset_time now

unfoldable pub cleanup : Limiter → ℕ → Limiter
cleanup s now = record s { records = Dict.remove_if (is_expired now) s.records }

unfoldable pub close : Limiter → Limiter
close s = record s { records = []; cleanup_timer = false }

-- What happens to a limiter: a request of a key, a round of the timer, an explicit reset.
pub data Event : Type 0 where
  request : String → ℕ → Event
  sweep : ℕ → Event
  forget : String → Event

-- The limiter after an event.
unfoldable pub step : Limiter → Event → Limiter
unfolding check reset cleanup
step s (request key now) = (check s key now).0
step s (sweep now) = cleanup s now
step s (forget key) = reset s key

-- 1 if the event is a request of `key` that is let through, and 0 otherwise.
unfoldable pub admitted : String → Limiter → Event → ℕ
unfolding check
admitted key s (request j now) =
    if j == key then (if (check s j now).1.allowed then 1 else 0) else 0
admitted key s (sweep now) = 0
admitted key s (forget j) = 0

-- How many requests of `key` a sequence of events lets through.
unfoldable pub total_admitted : String → Limiter → List Event → ℕ
total_admitted key s [] = 0
total_admitted key s (ev ∷ evs) = admitted key s ev + total_admitted key (step s ev) evs
