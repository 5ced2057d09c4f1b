-- ===== src/Sessions/Tests.antt =====
-- A server with a path for its list, and a token that it lets through until it is revoked.
use liop.Common.{ℕ, ◌≡◌, ◌↔◌, refl, true, false, Option, none, some, List, [], ◌∷◌, ◌++◌, filter}
use liop.Common.Attempt.{ok}
use liop.Common.Dict
use liop.Common.Text.{codes}
use liop.Rbac.{AuthInfo, authorize_request, method_scopes}
use liop.Sessions.{
  Config, Server, absent, Session, token_hash, revoke_token, load_revocation_list, authenticate,
  open_session, execute_logic,
}
use liop.Sessions.Gate.{Admits, execute_logic_iff}
use liop.Sessions.Revoked.{Steps, none_yet, then_step, loads, opens}

abbrev caller : AuthInfo
caller = record {
  token = "tok";
  client_id = "a";
  scopes = "liop:tools:call" ∷ [];
  expires_at = none;
}

abbrev config : Config
config = record {
  digest = λ t. codes "D" ++ t;
  local_test_token = none;
  validate = some (λ t. ok caller);
}

abbrev token : List ℕ
token = codes "tok"

abbrev header : List ℕ
header = codes "Bearer tok"

abbrev empty : Server
empty = record { store = absent; revoked = []; last_load = 0; sessions = [] }

abbrev session : Session
session = record {
  capability_hash = "sum";
  agent_did = none;
  token_hash = some (token_hash config token);
  created_at = 5;
}

abbrev opened : Server
opened = open_session 5 "id" "sum" none (some (token_hash config token)) empty

goes_on : (execute_logic config true 9 (some header) "id" opened).1 ≡ ok session
unfolding execute_logic open_session authorize_request method_scopes Dict.get filter Dict.set
goes_on = refl

execute_logic_iff_example :
    ((execute_logic config true 9 (some header) "id" opened).1 ≡ ok session) ↔ (
      ((hash : Option (List ℕ)) × ((authenticate config true 9 (some header) opened).1 ≡ ok hash))
      × Admits true 9 "id" (authenticate config true 9 (some header) opened).0 session)
execute_logic_iff_example = execute_logic_iff true 9 "id" config (some header) opened session

-- The disk takes no write, and a session with the hash is opened after the revocation.
abbrev revoked : Server
revoked = revoke_token config false 10 token opened

abbrev later_steps : Steps config (token_hash config token) revoked (
    open_session 12 "id" "sum" none
      (some (token_hash config token))
      (load_revocation_list true 11 revoked))
later_steps =
    then_step (then_step none_yet (loads true 11))
      (opens 12 "id" "sum" none (some (token_hash config token)))

abbrev end : Server
end =
    open_session 12 "id" "sum" none (some (token_hash config token))
      (load_revocation_list true 11 revoked)
