-- ===== src/StreamBridge.antt =====
-- The sessions of sdks/typescript/src/bridge/stream.ts. A transport is named by its session. A request
-- that passed the limit waits for its transport to open a session: `createSessionTransport` and
-- `handleRequest` are awaited between the check and the callback that stores the session, so that the
-- callback is a step of its own. `Authorization` is the header as `startsWith` and `slice` read it.
pub mod Limit
pub mod Eviction
pub mod Access
mod Tests
use liop.Common.{
  ℕ, ◌+◌, ◌-◌, ◌*◌, String, Bool, true, false, ◌&&◌, ◌||◌, not, Option, none, some, List, [], ◌∷◌,
  if◌then◌else◌, ltb, leb, ◌==◌, text_equality, coalesce_to, str_or, truthy,
}
use liop.Common.Dict
use liop.Common.Dict.{Dict}
use liop.Common.Text.{◌+++◌}

pub record SessionEntry : Type 0 where
  pub last_activity : ℕ
  pub client_ip : String

pub record Bridge : Type 0 where
  pub active_sessions : Dict String SessionEntry
  -- The addresses of the requests that passed the limit and have no session yet.
  pub opening : List String
  pub max_sessions_per_ip : ℕ
  pub session_timeout_ms : ℕ

abbrev pub init : Option ℕ → Option ℕ → Bridge
init max_sessions timeout = record {
  active_sessions = [];
  opening = [];
  max_sessions_per_ip = coalesce_to max_sessions 10;
  session_timeout_ms = coalesce_to timeout (30 * 60 * 1000);
}

unfoldable pub count_in : String → Dict String SessionEntry → ℕ
count_in ip [] = 0
count_in ip ((k, e) ∷ sessions) =
    let rest = count_in ip sessions in if e.client_ip == ip then rest + 1 else rest

abbrev pub count_sessions_by_ip : String → Bridge → ℕ
count_sessions_by_ip ip s = count_in ip s.active_sessions

-- `x-forwarded-for` up to its first comma, trimmed, then `x-real-ip`.
abbrev pub get_client_ip : Option String → Option String → String
get_client_ip forwarded real =
    if truthy forwarded then str_or forwarded "" else str_or real "unknown"

unfoldable pub remove_one : String → List String → List String
remove_one ip [] = []
remove_one ip (x ∷ xs) = let rest = remove_one ip xs in if x == ip then xs else x ∷ rest

-- `onsessioninitialized`
unfoldable pub open_session : String → String → ℕ → Bridge → Bridge
open_session id ip now s = record s {
  active_sessions = Dict.set id (record { last_activity = now; client_ip = ip }) s.active_sessions;
  opening = remove_one ip s.opening;
}

abbrev pub touch_entry : String → ℕ → Option SessionEntry → Bridge → Bridge
touch_entry id now none s = s
touch_entry id now (some e) s = record s {
  active_sessions = Dict.set id (record e { last_activity = now }) s.active_sessions;
}

-- `entry.lastActivity = Date.now()` of `onmessage` and of a routed request.
unfoldable pub touch : String → ℕ → Bridge → Bridge
touch id now s = touch_entry id now (Dict.get id s.active_sessions) s

-- `onclose`, and the clean-up after a DELETE.
unfoldable pub close_session : String → Bridge → Bridge
close_session id s = record s { active_sessions = Dict.delete id s.active_sessions }

abbrev pub is_idle : ℕ → ℕ → SessionEntry → Bool
is_idle timeout now e = ltb timeout (now - e.last_activity)

unfoldable pub evict_idle_sessions : ℕ → Bridge → Bridge
evict_idle_sessions now s = record s {
  active_sessions = Dict.remove_if (is_idle s.session_timeout_ms now) s.active_sessions;
}

pub data Authorization : Type 0 where
  other : Authorization
  bearer : (token : String) → Authorization

-- What the validator of JSON web tokens says.
pub data Validation : Type 0 where
  valid : Validation
  invalid : (message : String) → Validation

pub data Answer : Type 0 where
  next : Answer
  unauthorized : (error : String) → Answer
  not_found : (error : String) → Answer
  too_many : (error : String) → Answer
  -- The request goes to the transport of a session, or to a new one.
  routed : (id : String) → Answer
  to_new_transport : Answer

abbrev refused : Answer
refused = unauthorized "Unauthorized: LIOP Zero-Trust Policy Enforced"

abbrev by_validation : Validation → Answer
by_validation valid = next
by_validation (invalid why) = unauthorized ("Unauthorized: JWT Validation failed - " +++ why)

abbrev by_validator : Option (String → Validation) → String → Answer
by_validator none token = refused
by_validator (some validate) token = by_validation (validate token)

-- The middleware on `/mcp`, with the token of the environment.
unfoldable pub authorize_mcp : Option String → Option (String → Validation) → Authorization → Answer
authorize_mcp expected validator other = refused
authorize_mcp expected validator (bearer token) =
    if truthy expected && (token == coalesce_to expected "")
    then next
    else by_validator validator token

abbrev route_existing : String → ℕ → Option SessionEntry → Bridge → Bridge × Answer
route_existing id now none s = (s, not_found "Session not found")
route_existing id now (some e) s = (touch id now s, routed id)

-- A request of a session.
unfoldable pub route_session : String → ℕ → Bridge → Bridge × Answer
unfolding touch
route_session id now s = route_existing id now (Dict.get id s.active_sessions) s

-- A request without a session that asks for one.
unfoldable pub request_session : String → Bridge → Bridge × Answer
unfolding count_in
request_session ip s =
    if leb s.max_sessions_per_ip (count_sessions_by_ip ip s)
    then (s, too_many "Too Many Sessions: Rate limit exceeded")
    else (record s { opening = ip ∷ s.opening }, to_new_transport)
