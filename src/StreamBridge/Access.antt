-- ===== src/StreamBridge/Access.antt =====
-- Who gets past the middleware.
use liop.Common.{◌≡◌, ◌≢◌, ◌↔◌, ◌⊎◌, String, Option, none, some, arith, text_equality, eq_iff}
use liop.StreamBridge.{next, authorize_mcp, Authorization, other, bearer, Validation, valid}

abbrev Validates : Option (String → Validation) → String → Type 0
Validates none token = ⊥
Validates (some validate) token = validate token ≡ valid

-- The token of the environment, which is not empty, or one that the validator takes.
abbrev pub Trusted : Option String → Option (String → Validation) → Authorization → Type 0
Trusted expected validator other = ⊥
Trusted expected validator (bearer token) =
    ((expected ≡ some token) × (token ≢ "")) ⊎ Validates validator token

-- A request gets past the middleware exactly when it bears the token of the environment, which is not
-- empty, or a token that the validator takes where there is one.
pub authorize_mcp_iff :
    (expected : Option String) (validator : Option (String → Validation)) (header : Authorization)
    → (authorize_mcp expected validator header ≡ next) ↔ Trusted expected validator header
unfolding authorize_mcp
authorize_mcp_iff expected validator other = ground arith
authorize_mcp_iff none none (bearer token) = ground arith
authorize_mcp_iff none (some validate) (bearer token) = ground arith
authorize_mcp_iff (some s) none (bearer token) =
    ground (arith, eq_iff s "", eq_iff token s, eq_iff token "")
authorize_mcp_iff (some s) (some validate) (bearer token) =
    ground (arith, eq_iff s "", eq_iff token s, eq_iff token "")
