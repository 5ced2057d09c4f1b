-- ===== src/Rbac.antt =====
-- `authorizeRequest` (sdks/typescript/src/security/rbac.ts). `SCOPE_MAP[method]` reads an object, so
-- a method that is spelled like a member of `Object.prototype` finds that member: a function, with
-- its arity as `length`, or the prototype object, with no `length`. Neither can be spread.
pub mod Decision
mod Tests
use liop.Common.{
  ℕ, String, Bool, true, false, not, Option, none, some, List, [], ◌∷◌, ◌++◌, if◌then◌else◌, eqb,
  filter, includes, text_equality,
}
use liop.Common.Dict
use liop.Common.Text.{◌+++◌, join}
use liop.Common.Dict.{Dict}

abbrev pub scope_map : Dict String (List String)
scope_map =
    ("initialize", [])
    ∷ ("notifications/initialized", [])
    ∷ ("notifications/cancelled", [])
    ∷ ("ping", [])
    ∷ ("server/discover", [])
    ∷ ("subscriptions/listen", [])
    ∷ ("tools/list", "liop:tools:list" ∷ [])
    ∷ ("tools/call", "liop:tools:call" ∷ [])
    ∷ ("resources/list", "liop:resources:read" ∷ [])
    ∷ ("resources/read", "liop:resources:read" ∷ [])
    ∷ ("resources/templates/list", "liop:resources:read" ∷ [])
    ∷ ("prompts/list", "liop:schema:read" ∷ [])
    ∷ ("prompts/get", "liop:schema:read" ∷ [])
    ∷ []

-- The members that every object inherits: the functions with their arities.
abbrev pub object_functions : Dict String ℕ
object_functions =
    ("constructor", 1)
    ∷ ("hasOwnProperty", 1)
    ∷ ("isPrototypeOf", 1)
    ∷ ("propertyIsEnumerable", 1)
    ∷ ("toLocaleString", 0)
    ∷ ("toString", 0)
    ∷ ("valueOf", 0)
    ∷ ("__defineGetter__", 2)
    ∷ ("__defineSetter__", 2)
    ∷ ("__lookupGetter__", 1)
    ∷ ("__lookupSetter__", 1)
    ∷ []

-- What `SCOPE_MAP[method]` is.
pub data Member : Type 0 where
  undefined : Member
  scopes : List String → Member
  function : ℕ → Member
  prototype : Member

abbrev pub inherited : String → Option ℕ → Member
inherited method (some arity) = function arity
inherited method none = if includes ("__proto__" ∷ []) method then prototype else undefined

abbrev pub own_or_inherited : String → Option (List String) → Member
own_or_inherited method (some needed) = scopes needed
own_or_inherited method none = inherited method (Dict.get method object_functions)

unfoldable pub method_scopes : String → Member
method_scopes method = own_or_inherited method (Dict.get method scope_map)

-- `methodScopes !== undefined && methodScopes.length === 0`
abbrev pub is_public : Member → Bool
is_public (scopes []) = true
is_public (function arity) = eqb arity 0
is_public _ = false

pub record AuthInfo : Type 0 where
  pub token : String
  pub client_id : String
  pub scopes : List String
  pub expires_at : Option ℕ

pub record AuthorizationResult : Type 0 where
  pub allowed : Bool
  pub reason : Option String

-- A spread of what is not iterable throws a `TypeError`.
pub data Outcome {ℓ} (A : Type ℓ) : Type ℓ where
  returned : A → Outcome A
  type_error : Outcome A

-- `[...(methodScopes ?? []), ...(additionalScopes ?? [])]`
abbrev pub needed_scopes : Member → List String → Outcome (List String)
needed_scopes undefined extra = returned extra
needed_scopes (scopes own) extra = returned (own ++ extra)
needed_scopes (function arity) extra = type_error
needed_scopes prototype extra = type_error

abbrev deny : String → Outcome AuthorizationResult
deny why = returned (record { allowed = false; reason = some why })

abbrev allow : Outcome AuthorizationResult
allow = returned (record { allowed = true; reason = none })

-- `needed.filter((s) => !clientScopes.has(s))`
abbrev pub missing_scopes : List String → List String → List String
missing_scopes client needed = filter (λ s. not (includes client s)) needed

-- The last test of `authorizeRequest`, on the scopes that the client lacks.
unfoldable pub verdict : String → List String → Outcome AuthorizationResult
verdict method [] = allow
verdict method (s ∷ missing) =
    deny ("Insufficient scopes for " +++ method +++ ". Missing: " +++ join ", " (s ∷ missing))

-- From the merge of the scopes on.
unfoldable pub check_scopes :
    String → List String → Outcome (List String) → Outcome AuthorizationResult
unfolding verdict
check_scopes method client type_error = type_error
check_scopes method client (returned []) =
    deny ("Unknown method: " +++ method +++ ". Access denied (fail-closed).")
check_scopes method client (returned (s ∷ needed)) =
    verdict method (missing_scopes client (s ∷ needed))

unfoldable pub authenticated :
    String → Member → Option AuthInfo → List String → Outcome AuthorizationResult
unfolding check_scopes
authenticated method member none extra = deny ("Authentication required for method: " +++ method)
authenticated method member (some auth) extra =
    check_scopes method auth.scopes (needed_scopes member extra)

-- `additionalScopes ?? []` is the last argument.
unfoldable pub authorize_request :
    String → Option AuthInfo → List String → Outcome AuthorizationResult
unfolding authenticated
authorize_request method auth extra =
    if is_public (method_scopes method)
    then allow
    else authenticated method (method_scopes method) auth extra
