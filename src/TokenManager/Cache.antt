-- ===== src/TokenManager/Cache.antt =====
-- Which token a caller gets, and when.
use liop.Common.{
  ℕ, ◌+◌, ◌*◌, ◌≤◌, ◌<◌, String, ◌≡◌, ◌≢◌, ◌↔◌, true, false, none, some, arith, eq_iff, ◌⊎◌, truthy,
}
use liop.TokenManager.{
  Manager, Answer, token, joined, started, requesting, received, body, get_token, invalidate,
  is_expired, deliver, resume, refresh_buffer_ms,
}

abbrev pub IsToken : Answer → Type 0
IsToken (token t) = Unit
IsToken joined = ⊥
IsToken started = ⊥

-- `isExpired` answers `false` exactly when `getToken` has a token at once.
pub is_expired_iff :
    (s : Manager) (now : ℕ) → (is_expired s now ≡ false) ↔ IsToken (get_token s now).1
unfolding is_expired get_token
is_expired_iff s now = ground arith

settled :
    (s : Manager) (fresh : String) (lifetime t : ℕ)
    → s.pending_promise ≡ some requesting
    → truthy (some fresh) ≡ true
    → deliver s (body (some fresh) (some lifetime)) t
      ≡ record s { expires_at = t + lifetime * 1000; pending_promise = some (received fresh) }
unfolding deliver
settled s fresh lifetime t p r = simp (p, r)

stored :
    (s : Manager) (fresh : String) (lifetime t : ℕ)
    → s.pending_promise ≡ some requesting
    → truthy (some fresh) ≡ true
    → resume (deliver s (body (some fresh) (some lifetime)) t) ≡ record s {
      cached_token = some fresh;
      expires_at = t + lifetime * 1000;
      pending_promise = none;
    }
unfolding resume
stored s fresh lifetime t p r = rw (settled s fresh lifetime t p r)

-- A token that arrives at `t` for `lifetime` seconds is served from the cache, with no request, up to
-- 30 seconds before its end.
pub get_token_cached :
    (s : Manager) (fresh : String) (lifetime t now : ℕ)
    → s.pending_promise ≡ some requesting
    → truthy s.static_token ≡ false
    → truthy (some fresh) ≡ true
    → now + refresh_buffer_ms < t + lifetime * 1000
    → get_token (resume (deliver s (body (some fresh) (some lifetime)) t)) now
      ≡ (resume (deliver s (body (some fresh) (some lifetime)) t), token fresh)
unfolding get_token
get_token_cached s fresh lifetime t now p q r h = rw (stored s fresh lifetime t p r) (ground arith)

-- From 30 seconds before its end on, the next call sends a request.
pub get_token_refresh :
    (s : Manager) (fresh : String) (lifetime t now : ℕ)
    → s.pending_promise ≡ some requesting
    → truthy s.static_token ≡ false
    → truthy (some fresh) ≡ true
    → t + lifetime * 1000 ≤ now + refresh_buffer_ms
    → (get_token (resume (deliver s (body (some fresh) (some lifetime)) t)) now).1 ≡ started
unfolding get_token
get_token_refresh s fresh lifetime t now p q r h = rw (stored s fresh lifetime t p r) (ground arith)

-- After an invalidation no caller of a manager with credentials gets a token with no request.
pub get_token-invalidate :
    (s : Manager) (now : ℕ)
    → s.client_id ≢ ""
    → s.client_secret ≢ ""
    → ((get_token (invalidate s) now).1 ≡ started) ⊎ ((get_token (invalidate s) now).1 ≡ joined)
unfolding get_token invalidate
get_token-invalidate s now h k = ground (arith, eq_iff s.client_id "", eq_iff s.client_secret "")

-- Between the arrival of a new token and the resumption of the promise, the old token is served
-- under the new token's lifetime.
pub get_token_stale :
    (s : Manager) (old fresh : String) (lifetime t now : ℕ)
    → s.pending_promise ≡ some requesting
    → truthy s.static_token ≡ false
    → s.cached_token ≡ some old
    → truthy (some old) ≡ true
    → truthy (some fresh) ≡ true
    → now + refresh_buffer_ms < t + lifetime * 1000
    → (get_token (deliver s (body (some fresh) (some lifetime)) t) now).1 ≡ token old
unfolding get_token
get_token_stale s old fresh lifetime t now p q c o r h =
    rw (settled s fresh lifetime t p r) (ground arith)
