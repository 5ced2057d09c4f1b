-- ===== src/Pii/Tests.antt =====
-- A scanner with one rule, for which one text is the JSON of an array.
use liop.Common.{
  ℕ, ◌≡◌, refl, none, some, List, [], ◌∷◌, arith, if◌then◌else◌, Bool-cases, inl, inr, filter,
}
use liop.Common.Bytes.{bytes_eq, bytes_eq_iff, contains, is_prefix}
use liop.Common.Text.{codes}
use liop.ForbiddenKeys.{
  boundary_pattern, forbidden_keys_set, check_key, check_key_fuzzy, first_short, first_long,
  boundary_from, matches_ci, matches_exactly,
}
use liop.Pii.{
  PiiScanner, text_rule, Json, scalar, text, array, object, element, no_elements, entry, no_entries,
  clean, found, key_violation, scan, scan_for, scan_value, again, scan_content, check_string,
  drop_spaces, trim, weight, init,
}
use liop.Pii.Sound.{Within, in_text, in_array, itself, here, Fine, scan-Fine}
use liop.Pii.Fuel.{IsParser}

abbrev quoted : List ℕ
quoted = codes "[\"safe\"]"

abbrev parsed : Json
parsed = array (element (text (codes "safe")) no_elements)

abbrev scanner : PiiScanner
scanner =
    init (text_rule (codes "Secret") ∷ []) (codes "id" ∷ codes "name" ∷ []) (λ t. none)
      (λ t. if bytes_eq t quoted then some parsed else none)

-- The text with spaces around.
abbrev input : Json
input = text (codes " [\"safe\"] ")

input_clean : scan scanner input ≡ clean
unfolding scan scan_for scan_value again scan_content check_string drop_spaces trim weight bytes_eq
    contains is_prefix
input_clean = refl

safe-Within : Within scanner (text (codes "safe")) input
unfolding trim drop_spaces bytes_eq
safe-Within = in_text {j = parsed} refl refl (in_array here itself)

scan-Fine_example : Fine scanner (text (codes "safe"))
scan-Fine_example = scan-Fine scanner (text (codes "safe")) input safe-Within input_clean

scanner-IsParser : IsParser scanner
unfolding weight
scanner-IsParser = record {
  fits = λ t j p. elim (Bool-cases (bytes_eq t quoted)) [
    | inl same ↦ ground (arith, bytes_eq_iff t quoted)
    | inr other ↦ ground arith
  ];
}

patient_found :
    scan scanner
      (object (entry (codes "record") scalar (entry (codes "patientId") scalar no_entries)))
    ≡ found (key_violation (boundary_pattern (codes "patientId") (codes "id")))
unfolding scan scan_for scan_value weight bytes_eq forbidden_keys_set check_key check_key_fuzzy
    first_short first_long boundary_from matches_ci matches_exactly filter contains is_prefix
patient_found = refl
