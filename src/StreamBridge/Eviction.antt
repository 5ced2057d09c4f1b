-- ===== src/StreamBridge/Eviction.antt =====
-- Sessions that nobody uses.
use liop.Common.{ℕ, ◌+◌, ◌≤◌, ◌≡◌, ◌↔◌, String, some, arith, text_equality}
use liop.Common.Dict
use liop.StreamBridge.{Bridge, SessionEntry, evict_idle_sessions, is_idle, route_session, routed}

-- After a round of the timer a request of a session that was open is routed exactly when the session
-- was used within the timeout.
pub route_session-evict_iff :
    (id : String) (now later : ℕ) (s : Bridge) (e : SessionEntry)
    → Dict.Distinct s.active_sessions
    → Dict.get id s.active_sessions ≡ some e
    → ((route_session id later (evict_idle_sessions now s)).1 ≡ routed id)
      ↔ (now ≤ e.last_activity + s.session_timeout_ms)
unfolding route_session evict_idle_sessions
route_session-evict_iff id now later s e d h =
    ground (arith, Dict.get-remove_if (is_idle s.session_timeout_ms now) id s.active_sessions d)
