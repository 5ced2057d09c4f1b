-- ===== src/Sanitizer/Tests.antt =====
-- Integers: the rounding keeps them, and all but -1 are finite.
use liop.Common.{ℕ, [], zero, Bool, true, false, refl, ◌≡◌}
use liop.Common.Int.{ℤ, pos, negsuc}
use liop.Common.Text.{codes}
use liop.Value.{Value, number, array, object, element, no_elements, entry, no_entries}
use liop.Sanitizer.{Decimals, sanitize_output, sanitize_number, default_config}
use liop.Sanitizer.Shared.{
  Node, leaf, array_at, object_at, no_nodes, node, no_fields, field_at, erase, walk,
}

abbrev is_negative : ℤ → Bool
is_negative (pos n) = false
is_negative (negsuc n) = true

abbrev is_finite : ℤ → Bool
is_finite (negsuc zero) = false
is_finite _ = true

abbrev integers : Decimals ℤ
integers = record {
  zero = pos 0;
  is_finite = is_finite;
  is_negative = is_negative;
  round_to = λ n x. x;
}

abbrev output : Value ℤ
output = object (
    entry (codes "sum") (number (negsuc 6)) (
      entry (codes "rows")
        (array (element (number (negsuc 0)) (element (number (pos 3)) no_elements))) no_entries))

sanitized :
    sanitize_output integers default_config output
    ≡ object (
        entry (codes "sum") (number (pos 0)) (
          entry
            (codes "rows")
            (array (element (number (negsuc 0)) (element (number (pos 3)) no_elements)))
            no_entries))
unfolding sanitize_output sanitize_number
sanitized = refl

-- The same rows beside themselves: at their second place they are as they were.
abbrev rows_at : ℕ → Node ℤ
rows_at l = array_at l (node (leaf (number (negsuc 6))) no_nodes)

abbrev twice : ℕ → Node ℤ
twice l =
    object_at 0 (field_at (codes "a") (rows_at 1) (field_at (codes "b") (rows_at l) no_fields))

shared_unclamped :
    erase (walk integers default_config [] (twice 1)).1
    ≡ object (
        entry
          (codes "a")
          (array (element (number (pos 0)) no_elements))
          (entry (codes "b") (array (element (number (negsuc 6)) no_elements)) no_entries))
unfolding walk erase sanitize_output sanitize_number
shared_unclamped = refl
