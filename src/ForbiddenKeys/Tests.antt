-- ===== src/ForbiddenKeys/Tests.antt =====
-- Names under three tokens.
use liop.Common.{
  ℕ, ◌≡◌, ◌↔◌, ◌⊎◌, refl, true, false, none, some, List, [], ◌∷◌, arith, filter, includes, All,
}
use liop.Common.Bytes.{bytes_eq, bytes_equality, contains, is_prefix}
use liop.Common.Text.{codes, words}
use liop.ForbiddenKeys.{
  KeyViolation, boundary_pattern, key_safelist, lower_case, check_key, boundary_from, matches_ci,
  matches_exactly, forbidden_keys_set, short_tokens, long_tokens, first_short, first_long,
  check_key_fuzzy,
}
use liop.ForbiddenKeys.Caught.{check_key_iff, Spelled, camel, check_key-Spelled}

abbrev forbidden : List (List ℕ)
forbidden = words ("name" ∷ "id" ∷ "phone" ∷ [])

forbidden_once : forbidden_keys_set (words ("Name" ∷ "ID" ∷ "name" ∷ "phone" ∷ [])) ≡ forbidden
unfolding forbidden_keys_set bytes_eq
forbidden_once = refl

patient :
    check_key forbidden (codes "patientId")
    ≡ some (boundary_pattern (codes "patientId") (codes "id"))
unfolding check_key check_key_fuzzy first_short boundary_from matches_ci matches_exactly bytes_eq
    filter
patient = refl

grid : check_key forbidden (codes "gridsize") ≡ none
unfolding check_key check_key_fuzzy first_short first_long boundary_from matches_ci matches_exactly
    bytes_eq filter contains is_prefix
grid = refl

check_key_iff_example : (check_key forbidden (codes "microphone") ≡ none) ↔ (
    (includes forbidden (lower_case (codes "microphone")) ≡ false)
    × ((includes key_safelist (lower_case (codes "microphone")) ≡ true)
        ⊎ (All (λ t. boundary_from none t (codes "microphone") ≡ false) (short_tokens forbidden)
            × All
                (λ t. contains t (lower_case (codes "microphone")) ≡ false)
                (long_tokens forbidden))))
check_key_iff_example = check_key_iff forbidden (codes "microphone")

patient_is_spelled : Spelled (codes "id") (codes "patientId")
patient_is_spelled = camel (codes "patien") b't' (omega arith) refl

id_is_forbidden : includes forbidden (codes "id") ≡ true
unfolding bytes_eq
id_is_forbidden = refl

patient_is_not_safe : includes key_safelist (lower_case (codes "patientId")) ≡ false
unfolding bytes_eq
patient_is_not_safe = refl

check_key-Spelled_example : (v : KeyViolation) × (check_key forbidden (codes "patientId") ≡ some v)
check_key-Spelled_example =
    check_key-Spelled forbidden (codes "id") id_is_forbidden (codes "patientId") patient_is_spelled
      patient_is_not_safe
