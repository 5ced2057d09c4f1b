-- ===== src/StreamBridge/Tests.antt =====
-- A bridge of one session for each address.
use liop.Common.{◌+◌, ◌≤◌, ◌≡◌, ◌↔◌, refl, String, some, List, [], ◌∷◌, text_equality}
use liop.Common.Dict
use liop.StreamBridge.{
  Bridge, SessionEntry, init, count_sessions_by_ip, count_in, routed, Validation, invalid,
  route_session, evict_idle_sessions,
}
use liop.StreamBridge.Eviction.{route_session-evict_iff}
use liop.StreamBridge.Limit.{Event, requests, opens, closes, run}

-- Two requests pass the limit of one before either opens its session.
abbrev race : List Event
race =
    requests "ip"
    ∷ requests "ip"
    ∷ opens "a" "ip" 1
    ∷ opens "b" "ip" 2
    ∷ requests "ip"
    ∷ closes "a"
    ∷ []

race_exceeds :
    count_sessions_by_ip "ip" (
      run
        (init (some 1) (some 1000))
        (requests "ip" ∷ requests "ip" ∷ opens "a" "ip" 1 ∷ opens "b" "ip" 2 ∷ []))
    ≡ 2
unfolding run count_in Dict.set
race_exceeds = refl

abbrev checked : String → Validation
checked token = invalid "expired"

abbrev entry : SessionEntry
entry = record { last_activity = 100; client_ip = "ip" }

abbrev one_session : Bridge
one_session = record {
  active_sessions = ("a", entry) ∷ [];
  opening = [];
  max_sessions_per_ip = 1;
  session_timeout_ms = 1000;
}

one_session-Distinct : Dict.Distinct one_session.active_sessions
unfolding Dict.get
one_session-Distinct = (refl, tt)

route_session-evict_iff_example :
    ((route_session "a" 1101 (evict_idle_sessions 1100 one_session)).1 ≡ routed "a")
    ↔ (1100 ≤ 100 + 1000)
unfolding Dict.get
route_session-evict_iff_example =
    route_session-evict_iff "a" 1100 1101 one_session entry one_session-Distinct refl
