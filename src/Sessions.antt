-- ===== src/Sessions.antt =====
-- The sessions of executors and the revocation of tokens (sdks/typescript/src/server/index.ts:
-- `loadRevocationList`, `revokeToken`, `revokeTokenHash`, `negotiateIntent`, and `executeLogic` up to the
-- policies of the tool). The digest of a token, the validation of JWTs, the keys and ids that a session
-- gets and what a file system does with a write are arguments. Hashes and tokens are lists of codes.
pub mod Load
pub mod Revoked
pub mod Gate
mod Tests
use liop.Common.{
  ℕ, ◌+◌, ◌-◌, ◌*◌, ◌≤◌, String, Bool, true, false, not, ◌&&◌, ◌||◌, Option, none, some, List, [],
  ◌∷◌, ◌++◌, if◌then◌else◌, eqb, leb, ltb, all, drop, length, ◌==◌, includes, text_equality,
}
use liop.Common.Attempt.{Attempt, ok, fail, ◌>>=◌, ◌>>◌, guard}
use liop.Common.Bytes.{bytes_eq, is_prefix, bytes_equality}
use liop.Common.Dict
use liop.Common.Dict.{Dict}
use liop.Common.Text.{codes}
use liop.Pii.{trim}
use liop.Rbac.{AuthInfo, AuthorizationResult, Outcome, returned, type_error, authorize_request}
use liop.Validators.{lower, map_codes, ends_with, is_digit, is_upper}

-- A file with revoked hashes: its items where it is the JSON of an array, none for those that are no
-- text. `mtime` is when it was written.
pub record File : Type 0 where
  pub items : Option (List (Option (List ℕ)))
  pub mtime : ℕ

-- `revocation_path` is none without a path, and the file may be absent.
pub data Store : Type 0 where
  no_path : Store
  absent : Store
  present : File → Store

pub record Session : Type 0 where
  pub capability_hash : String
  pub agent_did : Option String
  pub token_hash : Option (List ℕ)
  pub created_at : ℕ

pub record Server : Type 0 where
  pub store : Store
  pub revoked : List (List ℕ)
  pub last_load : ℕ
  pub sessions : Dict String Session

-- What the server is set up with; without `validate` it asks for no token.
pub record Config : Type 0 where
  pub digest : List ℕ → List ℕ
  pub local_test_token : Option (List ℕ)
  pub validate : Option (List ℕ → Attempt String AuthInfo)

-- `set.add(x)`
abbrev pub add : List ℕ → List (List ℕ) → List (List ℕ)
add x xs = if includes xs x then xs else xs ++ x ∷ []

abbrev pub lowered : List ℕ → List ℕ
lowered h = map_codes lower h

-- The items of a file, added to a set.
unfoldable pub add_items : List (Option (List ℕ)) → List (List ℕ) → List (List ℕ)
add_items [] set = set
add_items (none ∷ is) set = add_items is set
add_items (some h ∷ is) set = add_items is (add (lowered (trim h)) set)

abbrev texts : List (List ℕ) → List (Option (List ℕ))
texts [] = []
texts (h ∷ hs) = some h ∷ texts hs

-- A new file with an array, at a time; `writable` is whether the writing succeeds.
abbrev pub write_file : Bool → ℕ → List (List ℕ) → Store → Store
write_file true now hashes store = present (record { items = some (texts hashes); mtime = now })
write_file false now hashes store = store

abbrev pub reread : Server → File → Option (List (Option (List ℕ))) → Server
reread s f none = s
reread s f (some items) = record s { revoked = add_items items []; last_load = f.mtime }

abbrev pub load_from : Bool → ℕ → Server → Store → Server
load_from writable now s no_path = s
load_from writable now s absent =
    if writable then record s { store = write_file true now [] absent; last_load = now } else s
load_from writable now s (present f) = if leb f.mtime s.last_load then s else reread s f f.items

unfoldable pub load_revocation_list : Bool → ℕ → Server → Server
unfolding add_items
load_revocation_list writable now s = load_from writable now s s.store

-- The write of a revocation: the file and the time of its load.
abbrev pub persist : Bool → ℕ → Server → Store → Server
persist writable now s no_path = s
persist false now s store = s
persist true now s store = record s { store = write_file true now s.revoked store; last_load = now }

unfoldable pub revoke_token_hash : Bool → ℕ → List ℕ → Server → Server
unfolding load_revocation_list
revoke_token_hash writable now [] s = s
revoke_token_hash writable now (c ∷ cs) s =
    let loaded = load_revocation_list writable now s in
    persist writable now (record loaded { revoked = add (lowered (c ∷ cs)) loaded.revoked })
      loaded.store

abbrev pub token_hash : Config → List ℕ → List ℕ
token_hash c token = lowered (c.digest token)

unfoldable pub revoke_token : Config → Bool → ℕ → List ℕ → Server → Server
unfolding revoke_token_hash
revoke_token c writable now [] s = s
revoke_token c writable now (x ∷ xs) s = revoke_token_hash writable now (token_hash c (x ∷ xs)) s

-- Why a call is refused.
pub data Refusal : Type 0 where
  missing_header : Refusal
  token_revoked : Refusal
  segregation_violation : Refusal
  access_denied : Option String → Refusal
  invalid_jwt : Option String → Refusal
  invalid_session : Refusal
  session_expired : Refusal

-- `/^[a-zA-Z0-9_-]+-local-test-token$/`
abbrev is_token_char : ℕ → Bool
is_token_char x = leb b'a' (lower x) && leb (lower x) b'z' || is_digit x || eqb x b'_' || eqb x b'-'

abbrev is_test_token : List ℕ → Bool
is_test_token t =
    all is_token_char t
    && ends_with (codes "-local-test-token") t
    && ltb (length (codes "-local-test-token")) (length t)

-- `authHeader.startsWith("Bearer ") ? authHeader.slice(7) : authHeader`
abbrev pub bearer : List ℕ → List ℕ
bearer header = if is_prefix (codes "Bearer ") header then drop 7 header else header

abbrev check_local : List ℕ → List ℕ → Attempt Refusal (Unit {0})
check_local token own =
    if bytes_eq token own
    then ok tt
    else fail (if is_test_token token then segregation_violation else access_denied none)

abbrev check_scopes : Outcome AuthorizationResult → Attempt Refusal (Unit {0})
check_scopes type_error = fail (invalid_jwt none)
check_scopes (returned r) = if r.allowed then ok tt else fail (access_denied r.reason)

abbrev check_jwt : Attempt String AuthInfo → Attempt Refusal (Unit {0})
check_jwt (ok auth) = check_scopes (authorize_request "tools/call" (some auth) [])
check_jwt (fail e) = fail (invalid_jwt (some e))

-- A local token that is "" is none.
abbrev pub check_identity :
    Config → (List ℕ → Attempt String AuthInfo) → List ℕ → Attempt Refusal (Unit {0})
check_identity c validate token = elim c.local_test_token [
  | some (x ∷ xs) ↦ check_local token (x ∷ xs)
  | _ ↦ check_jwt (validate token)
]

-- The checks of a token, after the load of the list.
unfoldable pub check_token :
    Config
    → (List ℕ → Attempt String AuthInfo)
    → List (List ℕ)
    → List ℕ
    → Attempt Refusal (Unit {0})
check_token c validate revoked token =
    guard (not (includes revoked (token_hash c token))) token_revoked
    >> check_identity c validate token

abbrev pub check_header :
    Config
    → (List ℕ → Attempt String AuthInfo)
    → List (List ℕ)
    → Option (List ℕ)
    → Attempt Refusal (Option (List ℕ))
check_header c validate revoked (some (x ∷ xs)) =
    check_token c validate revoked (bearer (x ∷ xs)) >> ok (some (token_hash c (bearer (x ∷ xs))))
check_header c validate revoked _ = fail missing_header

-- A header that is absent or "" is refused before the load.
abbrev pub loaded_for : Bool → ℕ → Option (List ℕ) → Server → Server
loaded_for writable now (some (x ∷ xs)) s = load_revocation_list writable now s
loaded_for writable now _ s = s

abbrev pub authenticate_by :
    Config
    → Bool
    → ℕ
    → Option (List ℕ)
    → Option (List ℕ → Attempt String AuthInfo)
    → Server
    → Server × Attempt Refusal (Option (List ℕ))
authenticate_by c writable now header none s = (s, ok none)
authenticate_by c writable now header (some validate) s =
    let loaded = loaded_for writable now header s in
    (loaded, check_header c validate loaded.revoked header)

-- The check of the metadata of a call, in `negotiateIntent` and in `executeLogic`: the hash of its token.
unfoldable pub authenticate :
    Config → Bool → ℕ → Option (List ℕ) → Server → Server × Attempt Refusal (Option (List ℕ))
unfolding load_revocation_list check_token
authenticate c writable now header s = authenticate_by c writable now header c.validate s

-- The session that a negotiation opens once its keys are made, under a new id.
unfoldable pub open_session :
    ℕ → String → String → Option String → Option (List ℕ) → Server → Server
open_session now id capability agent hash s = record s {
  sessions =
      Dict.set id
        (record {
          capability_hash = capability;
          agent_did = agent;
          token_hash = hash;
          created_at = now;
        })
        s.sessions;
}

abbrev max_lifetime_ms : ℕ
max_lifetime_ms = 3600 * 1000

abbrev pub is_expired : ℕ → Session → Bool
is_expired now session =
    not (eqb session.created_at 0) && ltb max_lifetime_ms (now - session.created_at)

-- The check of the hash of a session, with the list loaded again.
abbrev pub check_hash :
    Bool → ℕ → Session → Option (List ℕ) → Server → Server × Attempt Refusal Session
check_hash writable now session (some (x ∷ xs)) s =
    let loaded = load_revocation_list writable now s in
    (loaded, (guard (not (includes loaded.revoked (x ∷ xs))) token_revoked >> ok session))
check_hash writable now session _ s = (s, ok session)

abbrev pub proceed_with :
    Bool → ℕ → String → Option Session → Server → Server × Attempt Refusal Session
proceed_with writable now id none s = (s, fail invalid_session)
proceed_with writable now id (some session) s =
    if is_expired now session
    then (record s { sessions = Dict.delete id s.sessions }, fail session_expired)
    else check_hash writable now session session.token_hash s

-- `proceed`, up to the tool of the session.
unfoldable pub proceed : Bool → ℕ → String → Server → Server × Attempt Refusal Session
unfolding load_revocation_list
proceed writable now id s = proceed_with writable now id (Dict.get id s.sessions) s

abbrev pub proceed_if :
    Bool
    → ℕ
    → String
    → Server
    → Attempt Refusal (Option (List ℕ))
    → Server × Attempt Refusal Session
proceed_if writable now id s (ok hash) = proceed writable now id s
proceed_if writable now id s (fail e) = (s, fail e)

unfoldable pub execute_logic :
    Config → Bool → ℕ → Option (List ℕ) → String → Server → Server × Attempt Refusal Session
unfolding authenticate proceed
execute_logic c writable now header id s =
    let checked = authenticate c writable now header s in
    proceed_if writable now id checked.0 checked.1
