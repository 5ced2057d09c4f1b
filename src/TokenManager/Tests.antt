-- ===== src/TokenManager/Tests.antt =====
-- A manager for one client.
use liop.Common.{
  ◌+◌, ◌≤◌, ◌⊎◌, ◌≡◌, refl, ◌↔◌, false, none, some, List, [], ◌∷◌, arith, ne_of_beq, text_equality,
}
use liop.TokenManager.{
  Manager, Options, init, token, started, joined, requesting, body, get_token, invalidate,
  is_expired, deliver, resume,
}
use liop.TokenManager.Cache.{
  IsToken, is_expired_iff, get_token_cached, get_token_refresh, get_token-invalidate,
  get_token_stale,
}
use liop.TokenManager.Flight.{
  Event, call, answer, wake, drop, run, sent, answered, open_requests, single_flight,
}

abbrev manager : Manager
manager = record {
  cached_token = some "old";
  expires_at = 0;
  pending_promise = some requesting;
  token_endpoint = "http://n/oidc/token";
  client_id = "c";
  client_secret = "s";
  audience = "urn:liop:mesh:api";
  scope = "";
  static_token = none;
}

abbrev options : Options
options = record {
  token_endpoint = "http://n/oidc/token";
  client_id = "c";
  client_secret = "s";
  audience = none;
  scopes = none;
  static_token = none;
}

is_expired_iff_example : (is_expired manager 5 ≡ false) ↔ IsToken (get_token manager 5).1
is_expired_iff_example = is_expired_iff manager 5

get_token_cached_example :
    get_token (resume (deliver manager (body (some "new") (some 3600)) 1000)) 3_000_000
    ≡ (resume (deliver manager (body (some "new") (some 3600)) 1000), token "new")
get_token_cached_example =
    get_token_cached manager "new" 3600 1000 3_000_000 refl refl refl (omega arith)

get_token_refresh_example :
    (get_token (resume (deliver manager (body (some "new") (some 3600)) 1000)) 3_600_000).1
    ≡ started
get_token_refresh_example =
    get_token_refresh manager "new" 3600 1000 3_600_000 refl refl refl (omega arith)

get_token-invalidate_example :
    ((get_token (invalidate manager) 7).1 ≡ started)
    ⊎ ((get_token (invalidate manager) 7).1 ≡ joined)
get_token-invalidate_example =
    get_token-invalidate manager 7 (ne_of_beq "c" "" refl) (ne_of_beq "s" "" refl)

get_token_stale_example :
    (get_token (deliver manager (body (some "new") (some 3600)) 1000) 1001).1 ≡ token "old"
get_token_stale_example =
    get_token_stale manager "old" "new" 3600 1000 1001 refl refl refl refl refl (omega arith)

abbrev trace : List Event
trace = call 1 ∷ call 2 ∷ drop ∷ answer (body (some "t") none) 3 ∷ wake ∷ call 4 ∷ []

single_flight_example :
    (sent (init options) trace
      ≡ answered (init options) trace + open_requests (run (init options) trace))
    × (sent (init options) trace ≤ answered (init options) trace + 1)
unfolding init
single_flight_example = single_flight (init options) trace refl
