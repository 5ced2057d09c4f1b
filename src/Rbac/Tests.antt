-- ===== src/Rbac/Tests.antt =====
-- Authorization of concrete requests.
use liop.Common.{
  String, ◌≡◌, refl, false, some, none, List, [], ◌∷◌, ◌↔◌, arith, eq_iff, filter, text_equality,
}
use liop.Common.Dict
use liop.Common.Text.{join}
use liop.Rbac.{AuthInfo, authorize_request, method_scopes, returned}
use liop.Rbac.Decision.{
  IsAllowed, MayCall, authorize_request_iff, authorize_request_mono, inherited_name_passes,
}

abbrev caller : List String → AuthInfo
caller scopes = record { token = "t"; client_id = "c"; scopes = scopes; expires_at = none }

lacks_a_scope :
    authorize_request "tools/call" (some (caller ("liop:tools:list" ∷ []))) ("x" ∷ [])
    ≡ returned (record {
      allowed = false;
      reason = some "Insufficient scopes for tools/call. Missing: liop:tools:call, x";
    })
unfolding authorize_request method_scopes join Dict.get filter
lacks_a_scope = refl

authorize_request_iff_example :
    IsAllowed (authorize_request "tools/call" (some (caller ("liop:tools:list" ∷ []))) [])
    ↔ MayCall "tools/call" (some (caller ("liop:tools:list" ∷ []))) []
authorize_request_iff_example =
    authorize_request_iff "tools/call" (some (caller ("liop:tools:list" ∷ []))) []

lists_tools : IsAllowed (authorize_request "tools/list" (some (caller ("liop:tools:list" ∷ []))) [])
unfolding authorize_request method_scopes Dict.get filter
lists_tools = refl

authorize_request_mono_example :
    IsAllowed (authorize_request "tools/list" (some (caller ("a" ∷ "liop:tools:list" ∷ []))) [])
authorize_request_mono_example =
    authorize_request_mono "tools/list" (caller ("liop:tools:list" ∷ []))
      (caller ("a" ∷ "liop:tools:list" ∷ [])) [] (λ s h. ground (arith, eq_iff "a" s)) lists_tools

inherited_name_passes_example : IsAllowed (authorize_request "toString" none [])
unfolding Dict.get
inherited_name_passes_example = inherited_name_passes "toString" none [] refl refl
