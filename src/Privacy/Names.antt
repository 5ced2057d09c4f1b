-- ===== src/Privacy/Names.antt =====
-- Names that are taken for those of counts.
use liop.Common.{ℕ, ◌≡◌, inl, inr, sym, true, false, some, List, [], ◌∷◌, arith}
use mathlib.Core.Path.{subst}
use liop.Validators.{lower, map_codes}
use liop.Privacy.{
  Numbers, DpConfig, average_words, has_any, is_count_name, is_count_key, derive_field_sensitivity,
  noise_number,
}
use liop.Privacy.Walk.{IsArithmetic, IsWhole, noise_number-Kept}

module _ {F S : Type 0} (n : Numbers F S) (config : DpConfig F) (count : ℕ) where
  plain_name :
      (key : List ℕ)
      → config.sensitivity ≡ n.one
      → is_count_name (map_codes lower key) ≡ false
      → has_any average_words (map_codes lower key) ≡ false
      → derive_field_sensitivity n (some key) config.sensitivity count ≡ n.one
  unfolding derive_field_sensitivity
  plain_name [] unit no_count no_average = unit
  plain_name (c ∷ cs) unit no_count no_average = rw (no_count, no_average) unit

  -- Under a sensitivity of 1, the default, the noise makes an integer, or a number that is not finite, of each of which the name
  -- is neither that of a count nor that of an average.
  pub noise_number-sum :
      (laws : IsArithmetic n) (key : List ℕ) (x : F) (s : S)
      → n.same n.one n.one ≡ true
      → config.sensitivity ≡ n.one
      → is_count_name (map_codes lower key) ≡ false
      → has_any average_words (map_codes lower key) ≡ false
      → IsWhole n (noise_number n config count (some key) x s).0
  noise_number-sum laws key x s reflexive unit no_count no_average =
      let taken : is_count_key n config count (some key) ≡ true =
        subst (λ d. n.same d n.one ≡ true) (sym (plain_name key unit no_count no_average))
          reflexive in
      let kept = (noise_number-Kept n config count laws (some key) x s).1 in
      elim kept [ inl neither ↦ absurd (ground (arith, taken)) | inr integer ↦ integer ]
