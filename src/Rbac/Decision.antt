-- ===== src/Rbac/Decision.antt =====
-- Who is let through.
use liop.Common.{
  String, Bool-cases, ℕ, ap, ◌≡◌, refl, ◌≢◌, ◌⊎◌, inl, inr, ◌↔◌, Bool, true, false, Option, none,
  some, List, [], ◌∷◌, arith, if◌then◌else◌, filter, includes, text_equality, All, All-imp,
}
use liop.Rbac.{
  Member, method_scopes, is_public, AuthInfo, AuthorizationResult, Outcome, returned, type_error,
  needed_scopes, missing_scopes, verdict, check_scopes, authenticated, authorize_request, allow,
  scope_map, object_functions, inherited, own_or_inherited,
}
use liop.Common.Dict

-- The request goes through.
abbrev pub IsAllowed : Outcome AuthorizationResult → Type 0
IsAllowed (returned r) = r.allowed ≡ true
IsAllowed type_error = ⊥

abbrev pub HasScopes : AuthInfo → List String → Type 0
HasScopes auth needed = All (λ s. includes auth.scopes s ≡ true) needed

missing_iff :
    (client needed : List String)
    → (missing_scopes client needed ≡ []) ↔ All (λ s. includes client s ≡ true) needed
unfolding filter
missing_iff client [] = ((λ _. tt), (λ _. refl))
missing_iff client (s ∷ needed) = ground (arith, missing_iff client needed)

verdict_iff :
    (method : String) (missing : List String) → IsAllowed (verdict method missing) ↔ (missing ≡ [])
unfolding verdict
verdict_iff method [] = ((λ _. refl), (λ _. refl))
verdict_iff method (s ∷ missing) = ((λ h. cc), (λ h. cc))

check_scopes_iff :
    (method : String) (client needed : List String)
    → IsAllowed (check_scopes method client (returned needed))
      ↔ ((needed ≢ []) × All (λ s. includes client s ≡ true) needed)
unfolding check_scopes
check_scopes_iff method client [] = ((λ h. cc), (λ h. absurd (h.0 refl)))
check_scopes_iff method client (s ∷ needed) =
    let v = verdict_iff method (missing_scopes client (s ∷ needed)) in
    let m = missing_iff client (s ∷ needed) in
    ((λ h. ((λ e. cc), m.0 (v.0 h))), (λ h. v.1 (m.1 h.1)))

-- The scopes that are asked for can be put together, and `a` holds each of them.
abbrev pub Grants : AuthInfo → Outcome (List String) → Type 0
Grants a o = (needed : List String) × (o ≡ returned needed) × (needed ≢ []) × HasScopes a needed

granted :
    (method : String) (a : AuthInfo) (o : Outcome (List String))
    → IsAllowed (check_scopes method a.scopes o)
    → Grants a o
unfolding check_scopes
granted method a type_error h = absurd h
granted method a (returned needed) h =
    let c = (check_scopes_iff method a.scopes needed).0 h in (needed, refl, c.0, c.1)

grants :
    (method : String) (a : AuthInfo) (o : Outcome (List String))
    → Grants a o
    → IsAllowed (check_scopes method a.scopes o)
grants method a o (needed, e, some_needed, held) =
    rw e ((check_scopes_iff method a.scopes needed).1 (some_needed, held))

-- The two ways in, over the value of the public test.
abbrev pub MayPass : Bool → Member → Option AuthInfo → List String → Type 0
MayPass b member auth extra =
    (b ≡ true) ⊎ ((a : AuthInfo) × (auth ≡ some a) × Grants a (needed_scopes member extra))

pass_iff :
    (method : String) (b : Bool) (member : Member) (auth : Option AuthInfo) (extra : List String)
    → IsAllowed (if b then allow else authenticated method member auth extra)
      ↔ MayPass b member auth extra
unfolding authenticated
pass_iff method true member auth extra = ((λ h. inl refl), (λ h. refl))
pass_iff method false member none extra =
    ((λ h. cc), (λ h. elim h [ inl e ↦ cc | inr (a, e, g) ↦ cc ]))
pass_iff method false member (some a) extra = (
  (λ h. inr (a, refl, granted method a (needed_scopes member extra) h)),
  (λ h. elim h [
    | inl e ↦ cc
    | inr (c, e, g) ↦
        let same : c ≡ a = cc in grants method a (needed_scopes member extra) (rw same at g)
  ]),
)

-- A method that passes with no authentication: one that the table gives no scopes, or one that it does
-- not hold and that is spelled like a function of no argument that every object inherits.
abbrev pub Open : String → Type 0
Open method =
    (Dict.get method scope_map ≡ some [])
    ⊎ ((Dict.get method scope_map ≡ none) × (Dict.get method object_functions ≡ some 0))

inherited_iff :
    (method : String) (arity : Option ℕ)
    → (is_public (inherited method arity) ≡ true) ↔ (arity ≡ some 0)
inherited_iff method none = elim (Bool-cases (includes ("__proto__" ∷ []) method)) [
  | inl named ↦ rw named ((λ h. cc), (λ h. cc))
  | inr other ↦ rw other ((λ h. cc), (λ h. cc))
]
inherited_iff method (some n) = ((λ h. ap (λ x. some x) (ground arith)), (λ h. ground arith))

open_iff :
    (method : String) (own : Option (List String))
    → (is_public (own_or_inherited method own) ≡ true)
      ↔ ((own ≡ some []) ⊎ ((own ≡ none) × (Dict.get method object_functions ≡ some 0)))
open_iff method none =
    let inner = inherited_iff method (Dict.get method object_functions) in
    ((λ h. inr (refl, inner.0 h)), (λ h. elim h [ inl e ↦ cc | inr (e, arity) ↦ inner.1 arity ]))
open_iff method (some []) = ((λ h. inl refl), (λ h. refl))
open_iff method (some (s ∷ ss)) = ((λ h. cc), (λ h. elim h [ inl e ↦ cc | inr (e, a) ↦ cc ]))

-- What a request must show: the method is open, or the caller is authenticated and holds each of
-- the scopes that the method and the node ask for, of which there is at least one.
abbrev pub MayCall : String → Option AuthInfo → List String → Type 0
MayCall method auth extra =
    Open method
    ⊎ ((a : AuthInfo) × (auth ≡ some a) × Grants a (needed_scopes (method_scopes method) extra))

-- A request is let through exactly when `SCOPE_MAP` gives its method an empty list, or does not hold it
-- and it is spelled like a function of no argument that every object inherits, as toString is, or its
-- caller is authenticated, the scopes of the method and of the node can be put together, at least one
-- is asked for, and the caller holds each.
pub authorize_request_iff :
    (method : String) (auth : Option AuthInfo) (extra : List String)
    → IsAllowed (authorize_request method auth extra) ↔ MayCall method auth extra
unfolding authorize_request method_scopes
authorize_request_iff method auth extra =
    let way =
      pass_iff method (is_public (method_scopes method)) (method_scopes method) auth extra in
    let public = open_iff method (Dict.get method scope_map) in
    (
      (λ h. elim (way.0 h) [ inl p ↦ inl (public.0 p) | inr grants ↦ inr grants ]),
      (λ h. way.1 (elim h [ inl p ↦ inl (public.1 p) | inr grants ↦ inr grants ])),
    )

-- A caller who gains scopes loses no access.
pub authorize_request_mono :
    (method : String) (a b : AuthInfo) (extra : List String)
    → ((s : String) → includes a.scopes s ≡ true → includes b.scopes s ≡ true)
    → IsAllowed (authorize_request method (some a) extra)
    → IsAllowed (authorize_request method (some b) extra)
authorize_request_mono method a b extra more h =
    let way = (authorize_request_iff method (some a) extra).0 h in
    (authorize_request_iff method (some b) extra).1 (elim way [
      | inl p ↦ inl p
      | inr (c, e, (needed, r, n, held)) ↦
          let same : c ≡ a = cc in
          inr (b, refl, (needed, r, n, All-imp more needed (rw same at held)))
    ])

-- A method that is spelled like a function of no argument that every object inherits passes with
-- no authentication, though no entry of `SCOPE_MAP` names it.
pub inherited_name_passes :
    (method : String) (auth : Option AuthInfo) (extra : List String)
    → Dict.get method scope_map ≡ none
    → Dict.get method object_functions ≡ some 0
    → IsAllowed (authorize_request method auth extra)
unfolding authorize_request method_scopes
inherited_name_passes method auth extra h k = rw (h, k) refl
