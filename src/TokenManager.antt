-- ===== src/TokenManager.antt =====
-- `TokenManager` (sdks/typescript/src/runtime/token-manager.ts). The request to the token endpoint is
-- an event of the environment, and what the source does across its two `await`s is two steps:
-- `deliver`, the end of `fetchNewToken`, and `resume`, the rest of the pending promise. A method takes
-- the clock's time in milliseconds as `now`.
pub mod Cache
pub mod Flight
mod Tests
use liop.Common.{
  ℕ, ◌+◌, ◌-◌, ◌*◌, String, Bool, true, false, not, ◌&&◌, ◌||◌, Option, none, some, List, [], ◌∷◌,
  ltb, leb, if◌then◌else◌, truthy, coalesce_to,
}
use liop.Common.Text.{join}

-- Where the pending promise stands: its request is out, or it has been answered and the promise
-- has not yet been resumed.
pub data Stage : Type 0 where
  requesting : Stage
  received : String → Stage
  failed : Stage

pub data Scopes : Type 0 where
  text : String → Scopes
  names : List String → Scopes

pub record Options : Type 0 where
  pub token_endpoint : String
  pub client_id : String
  pub client_secret : String
  pub audience : Option String
  pub scopes : Option Scopes
  pub static_token : Option String

pub record Manager : Type 0 where
  pub cached_token : Option String
  pub expires_at : ℕ
  pub pending_promise : Option Stage
  pub token_endpoint : String
  pub client_id : String
  pub client_secret : String
  pub audience : String
  pub scope : String
  pub static_token : Option String

abbrev pub refresh_buffer_ms : ℕ
refresh_buffer_ms = 30_000

unfoldable pub scope_of : Option Scopes → String
scope_of none =
    "liop:tools:call liop:tools:list liop:resources:read liop:schema:read liop:mesh:query"
scope_of (some (text s)) = s
scope_of (some (names xs)) = join " " xs

unfoldable pub init : Options → Manager
init o = record {
  cached_token = none;
  expires_at = 0;
  pending_promise = none;
  token_endpoint = o.token_endpoint;
  client_id = o.client_id;
  client_secret = o.client_secret;
  audience = coalesce_to o.audience "urn:liop:mesh:api";
  scope = scope_of o.scopes;
  static_token = o.static_token;
}

-- What a caller of `getToken` gets: a token at once, the promise of the request that is out, or the
-- promise of a request that this call sends.
pub data Answer : Type 0 where
  token : String → Answer
  joined : Answer
  started : Answer

abbrev pub or_empty : Option String → String
or_empty none = ""
or_empty (some s) = s

-- `this.cachedToken && now < this.expiresAt - REFRESH_BUFFER_MS`; a negative difference is below
-- every time, as 0 is.
abbrev pub is_cached : Manager → ℕ → Bool
is_cached s now = truthy s.cached_token && ltb now (s.expires_at - refresh_buffer_ms)

abbrev await_pending : Manager → Option Stage → Manager × Answer
await_pending s (some _) = (s, joined)
await_pending s none = (record s { pending_promise = some requesting }, started)

unfoldable pub get_token : Manager → ℕ → Manager × Answer
get_token s now =
    if truthy s.static_token
    then (s, token (or_empty s.static_token))
    else if is_cached s now
    then (s, token (or_empty s.cached_token))
    else await_pending s s.pending_promise

unfoldable pub invalidate : Manager → Manager
invalidate s = record s {
  cached_token = none;
  expires_at = 0;
  static_token =
      if truthy (some s.client_id) && truthy (some s.client_secret) then none else s.static_token;
}

unfoldable pub is_expired : Manager → ℕ → Bool
is_expired s now =
    if truthy s.static_token
    then false
    else not (truthy s.cached_token) || leb (s.expires_at - refresh_buffer_ms) now

-- What comes back from the endpoint: no answer (an error or the timeout of 10 s), an answer that is
-- not ok, or a JSON body, of which `expires_in` counts only if it is a number.
pub data Response : Type 0 where
  unreachable : Response
  not_ok : ℕ → Response
  body : Option String → Option ℕ → Response

-- The end of `fetchNewToken`. `expiresAt` is written here, before the promise is resumed.
abbrev settle : Manager → Response → ℕ → Manager
settle s unreachable now = record s { pending_promise = some failed }
settle s (not_ok status) now = record s { pending_promise = some failed }
settle s (body access_token expires_in) now =
    if truthy access_token
    then record s {
      expires_at = now + coalesce_to expires_in 3600 * 1000;
      pending_promise = some (received (or_empty access_token));
    }
    else record s { pending_promise = some failed }

abbrev deliver_at : Option Stage → Manager → Response → ℕ → Manager
deliver_at (some requesting) s r now = settle s r now
deliver_at _ s r now = s

-- An answer arrives; there is none to arrive if no request is out.
unfoldable pub deliver : Manager → Response → ℕ → Manager
deliver s r now = deliver_at s.pending_promise s r now

abbrev resume_at : Option Stage → Manager → Manager
resume_at (some (received t)) s = record s { cached_token = some t; pending_promise = none }
resume_at (some failed) s = record s { pending_promise = none }
resume_at _ s = s

-- The pending promise is resumed: `this.cachedToken = token`, then the `finally`.
unfoldable pub resume : Manager → Manager
resume s = resume_at s.pending_promise s
