-- ===== src/CallLimiter.antt =====
-- The sliding windows of sdks/typescript/src/server/index.ts: `checkToolCallRateLimit` and
-- `checkGlobalRateLimit`, and the front of `callTool`, which asks them. A window is the list of the
-- times of the calls that it let through. The text of a refusal is its numbers.
pub mod Window
pub mod Quota
pub mod Refines
mod Tests
use liop.Common.{
  ℕ, ◌+◌, ◌-◌, ◌/◌, String, Bool, true, false, Option, none, some, List, [], ◌∷◌, ◌++◌,
  if◌then◌else◌, leb, ltb, length, filter, coalesce_to, text_equality,
}
use liop.Common.Dict
use liop.Common.Dict.{Dict}

pub record Server : Type 0 where
  pub tool_call_windows : Dict String (List ℕ)
  pub tool_call_max_per_window : ℕ
  pub tool_call_window_ms : ℕ
  pub global_call_window : List ℕ
  pub global_call_max_per_window : ℕ

-- A refusal: the limit, the window and the seconds to wait, which are `NaN` when no call is active.
pub record Refusal : Type 0 where
  pub max : ℕ
  pub window_ms : ℕ
  pub retry_after_sec : Option ℕ

-- `now - t < windowMs`, for a clock that may also run back.
abbrev pub is_active : ℕ → ℕ → ℕ → Bool
is_active window_ms now t = ltb now (t + window_ms)

-- `window.filter((t) => now - t < windowMs)`
abbrev pub evict : ℕ → ℕ → List ℕ → List ℕ
evict window_ms now window = filter (is_active window_ms now) window

-- `Math.ceil((active[0] + windowMs - now) / 1000)`
abbrev retry_after : ℕ → ℕ → List ℕ → Option ℕ
retry_after window_ms now [] = none
retry_after window_ms now (t ∷ ts) = some ((t + window_ms - now + 999) / 1000)

abbrev pub refusal : ℕ → ℕ → ℕ → List ℕ → Refusal
refusal most window_ms now active = record {
  max = most;
  window_ms = window_ms;
  retry_after_sec = retry_after window_ms now active;
}

-- From the test of the limit on. A refused call leaves the stored window as it was.
unfoldable pub check_active : Server → String → ℕ → List ℕ → Server × Option Refusal
check_active s name now active =
    if leb s.tool_call_max_per_window (length active)
    then (s, some (refusal s.tool_call_max_per_window s.tool_call_window_ms now active))
    else (
      record s { tool_call_windows = Dict.set name (active ++ now ∷ []) s.tool_call_windows },
      none,
    )

-- `this.toolCallWindows.get(toolName) || []`
abbrev pub tool_window : Server → String → List ℕ
tool_window s name = coalesce_to (Dict.get name s.tool_call_windows) []

unfoldable pub check_tool_call_rate_limit : Server → String → ℕ → Server × Option Refusal
unfolding check_active
check_tool_call_rate_limit s name now =
    check_active s name now (evict s.tool_call_window_ms now (tool_window s name))

-- The global window is stored without its expired times whether the call is refused or not.
unfoldable pub check_global_rate_limit : Server → ℕ → Server × Option Refusal
check_global_rate_limit s now =
    let active = evict s.tool_call_window_ms now s.global_call_window in
    if leb s.global_call_max_per_window (length active)
    then (
      record s { global_call_window = active },
      some (refusal s.global_call_max_per_window s.tool_call_window_ms now active),
    )
    else (record s { global_call_window = active ++ now ∷ [] }, none)

-- A call, with what `Date.now()` gives in the two checks.
pub record Call : Type 0 where
  pub name : String
  pub global_now : ℕ
  pub tool_now : ℕ

pub data Gate : Type 0 where
  tool_not_found : Gate
  global_limited : Refusal → Gate
  tool_limited : Refusal → Gate
  passed : Gate

-- What the two checks say, the second asked only after the first lets the call through.
abbrev pub after_tool : Server × Option Refusal → Server × Gate
after_tool (s, none) = (s, passed)
after_tool (s, some r) = (s, tool_limited r)

unfoldable pub after_global : Call → Server × Option Refusal → Server × Gate
unfolding check_tool_call_rate_limit
after_global c (s, some r) = (s, global_limited r)
after_global c (s, none) = after_tool (check_tool_call_rate_limit s c.name c.tool_now)

-- The front of `callTool`: the tool is looked up, then the global limit is asked and then the tool's.
-- What runs behind it is left out.
unfoldable pub call_tool : (String → Bool) → Server → Call → Server × Gate
unfolding after_global check_global_rate_limit
call_tool registered s c =
    if registered c.name
    then after_global c (check_global_rate_limit s c.global_now)
    else (s, tool_not_found)
