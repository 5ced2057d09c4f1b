-- ===== src/Validators/Tests.antt =====
-- A number of a card that is often used in tests, and other data.
use liop.Common.{◌≡◌, refl, true, false, ◌∷◌, ◌++◌, filter}
use liop.Common.Bytes.{bytes_eq}
use liop.Common.Text.{codes}
use liop.Validators.{
  luhn_sum, is_luhn_valid, is_iban_valid, numeric_string, parse_from, is_ssn, is_phone,
  is_ip_address, split_dots, is_email,
}

card : is_luhn_valid (codes "4111-1111-1111-" ++ b'1' ∷ codes "111") ≡ true
unfolding is_luhn_valid luhn_sum filter
card = refl

iban : is_iban_valid (codes "gb82 WEST 1234 5698 7654 32") ≡ true
unfolding is_iban_valid filter numeric_string parse_from
iban = refl

ssn : is_ssn (codes "666-12-3456") ≡ false
unfolding is_ssn filter parse_from
ssn = refl

phone : is_phone (codes "(123) 456-7890") ≡ false
unfolding is_phone filter bytes_eq
phone = refl

address : is_ip_address (codes "10.0.0.256") ≡ false
unfolding is_ip_address split_dots parse_from bytes_eq
address = refl

email : is_email (codes "ann@test.com") ≡ false
unfolding is_email bytes_eq
email = refl
