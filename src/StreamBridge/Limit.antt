-- ===== src/StreamBridge/Limit.antt =====
-- How many sessions an address has.
use liop.Common.{
  ℕ, ◌+◌, ◌≤◌, String, Option, none, some, List, [], ◌∷◌, if◌then◌else◌, ◌==◌, text_equality,
}
use liop.Common.Dict
use liop.Common.Dict.{Dict}
use liop.StreamBridge.{
  Bridge, SessionEntry, count_sessions_by_ip, open_session, touch, close_session,
  evict_idle_sessions, request_session,
}

-- What happens to the sessions, in any order.
pub data Event : Type 0 where
  requests : (ip : String) → Event
  opens : (id ip : String) (now : ℕ) → Event
  uses : (id : String) (now : ℕ) → Event
  closes : (id : String) → Event
  evicts : (now : ℕ) → Event

unfoldable pub step : Bridge → Event → Bridge
unfolding request_session open_session touch close_session evict_idle_sessions
step s (requests ip) = (request_session ip s).0
step s (opens id ip now) = open_session id ip now s
step s (uses id now) = touch id now s
step s (closes id) = close_session id s
step s (evicts now) = evict_idle_sessions now s

unfoldable pub run : Bridge → List Event → Bridge
unfolding step
run s [] = s
run s (ev ∷ evs) = run (step s ev) evs

-- The requests of an address between the check and the opening of a session.
unfoldable pub waiting : String → List String → ℕ
waiting ip [] = 0
waiting ip (x ∷ xs) = (if x == ip then 1 else 0) + waiting ip xs

-- A session is opened only for a request that waits for it.
abbrev pub Follows : Bridge → Event → Type 0
Follows s (opens id ip now) = 1 ≤ waiting ip s.opening
Follows s _ = Unit

-- The events follow from the states, in which at most `p` requests of the address wait at a time.
abbrev pub Overlaps : String → ℕ → Bridge → List Event → Type 0
Overlaps ip p s [] = Unit
Overlaps ip p s (ev ∷ evs) =
    Follows s ev × (waiting ip (step s ev).opening ≤ p) × Overlaps ip p (step s ev) evs

abbrev is_of : String → Option SessionEntry → ℕ
is_of ip none = 0
is_of ip (some e) = if e.client_ip == ip then 1 else 0

-- The sessions of an address and its requests that wait.
abbrev pub load : String → Bridge → ℕ
load ip s = count_sessions_by_ip ip s + waiting ip s.opening
