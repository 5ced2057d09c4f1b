-- ===== src/Privacy/Tests.antt =====
-- Numbers of tenths, with a source that draws -3 for every sample.
use liop.Common.Int.{ℤ, pos, negsuc, sub_ℕ}
use liop.Common.{
  ℕ, zero, Bool, ◌&&◌, if◌then◌else◌, ◌+◌, ◌*◌, ◌/◌, ◌%◌, ◌≡◌, refl, true, false, [], eqb, ltb,
}
use liop.Common.Bytes.{bytes_eq, contains, is_prefix}
use liop.Common.Text.{codes}
use liop.Validators.{lower, map_codes}
use liop.Privacy.{
  Numbers, DpConfig, Output, number, object, field, no_fields, is_count_name, total_of_count,
}

-- A number of tenths, or one above all of these.
data Tenths : Type 0 where
  tenths : ℤ → Tenths
  infinite : Tenths

abbrev plus : Tenths → Tenths → Tenths
plus (tenths (pos m)) (tenths (pos n)) = tenths (pos (m + n))
plus (tenths (negsuc m)) (tenths (pos n)) = tenths (sub_ℕ n (m + 1))
plus (tenths (pos m)) (tenths (negsuc n)) = tenths (sub_ℕ m (n + 1))
plus (tenths (negsuc m)) (tenths (negsuc n)) = tenths (negsuc (m + n + 1))
plus _ _ = infinite

abbrev round : Tenths → Tenths
round (tenths (pos m)) = tenths (pos ((m + 5) / 10 * 10))
round (tenths (negsuc m)) = tenths (sub_ℕ 0 ((m + 5) / 10 * 10))
round infinite = infinite

abbrev max_zero : Tenths → Tenths
max_zero (tenths (negsuc m)) = tenths (pos 0)
max_zero x = x

-- The product with 10000 overflows for large numbers.
abbrev round_decimals : Tenths → Tenths
round_decimals (tenths (pos m)) = if ltb 9999 m then infinite else tenths (pos m)
round_decimals x = x

abbrev is_whole : Tenths → Bool
is_whole (tenths (pos m)) = eqb (m % 10) 0
is_whole (tenths (negsuc m)) = eqb ((m + 1) % 10) 0
is_whole infinite = false

abbrev not_below : Tenths → Bool
not_below (tenths (negsuc m)) = false
not_below _ = true

abbrev is_finite : Tenths → Bool
is_finite (tenths x) = true
is_finite infinite = false

abbrev is_one : Tenths → Bool
is_one (tenths (pos m)) = eqb m 10
is_one _ = false

-- The samples are -3, and one is compared with as 1.0.
abbrev arithmetic : Numbers Tenths ℕ
arithmetic = record {
  zero = tenths (pos 0);
  one = tenths (pos 10);
  same = λ x y. is_one x && is_one y;
  below = λ x y. false;
  non_negative = not_below;
  is_integer = is_whole;
  is_finite = is_finite;
  round = round;
  max_zero = max_zero;
  round_decimals = round_decimals;
  plus = plus;
  divide = λ x y. x;
  of_count = λ k. tenths (pos (k * 10));
  laplace_sample = λ scale s. (tenths (negsuc 29), s + 1);
  seeded = λ seed. 0;
  system = 0;
}

abbrev config : DpConfig Tenths
config = record {
  epsilon = tenths (pos 10);
  sensitivity = tenths (pos 10);
  threshold = 50;
  seed = [];
}

-- A price of 4.9, a sum of 2, a balance of -5, and a number so large that it overflows.
abbrev output : Output Tenths
output = object (
    field (codes "price") (number (tenths (pos 49))) (
      field (codes "sum") (number (tenths (pos 20))) (
        field (codes "balance") (number (tenths (negsuc 49)))
          (field (codes "peak") (number (tenths (pos 20000))) no_fields))))

price_is_no_count : is_count_name (map_codes lower (codes "price")) ≡ false
unfolding total_of_count bytes_eq contains is_prefix
price_is_no_count = refl

balance_is_count : is_count_name (map_codes lower (codes "account_balance")) ≡ true
unfolding total_of_count bytes_eq contains is_prefix
balance_is_count = refl
