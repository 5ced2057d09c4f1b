-- ===== src/Validators/Luhn.antt =====
-- What the check digit of a card's number detects.
use liop.Common.{
  ℕ, ◌+◌, ◌-◌, ◌%◌, ◌≤◌, ◌≡◌, ◌≢◌, refl, ap, sym, ◌∙◌, Bool, true, false, not, List, [], ◌∷◌, ◌++◌,
  arith, filter, Bool-cases, inl, inr,
}
use liop.Validators.{is_digit, digits_of, reverse_onto, luhn_digit, luhn_sum, is_luhn_valid}

abbrev pub IsDigit : ℕ → Type 0
IsDigit c = is_digit c ≡ true

digits_of-insert :
    (xs : List ℕ) (c : ℕ) (ys : List ℕ)
    → IsDigit c
    → digits_of (xs ++ c ∷ ys) ≡ digits_of xs ++ c ∷ digits_of ys
unfolding filter
digits_of-insert [] c ys h = rw h
digits_of-insert (x ∷ xs) c ys h = elim (Bool-cases (is_digit x)) [
  | inl digit ↦ rw digit (ap (λ t. x ∷ t) (digits_of-insert xs c ys h))
  | inr other ↦ rw other (digits_of-insert xs c ys h)
]

behind : (xs : List ℕ) (y : ℕ) (ys : List ℕ) → (xs ++ y ∷ []) ++ ys ≡ xs ++ y ∷ ys
behind [] y ys = refl
behind (x ∷ xs) y ys = ap (λ t. x ∷ t) (behind xs y ys)

reverse_onto-append : (acc ys : List ℕ) → reverse_onto acc ys ≡ reverse_onto [] ys ++ acc
reverse_onto-append acc [] = refl
reverse_onto-append acc (y ∷ ys) =
    reverse_onto-append (y ∷ acc) ys
    ∙ sym (ap (λ t. t ++ acc) (reverse_onto-append (y ∷ []) ys) ∙ behind (reverse_onto [] ys) y acc)

reverse_onto-split :
    (acc xs : List ℕ) (c : ℕ) (ys : List ℕ)
    → reverse_onto acc (xs ++ c ∷ ys) ≡ reverse_onto [] ys ++ c ∷ reverse_onto acc xs
reverse_onto-split acc [] c ys = reverse_onto-append (c ∷ acc) ys
reverse_onto-split acc (x ∷ xs) c ys = reverse_onto-split (x ∷ acc) xs c ys

-- The sum depends on one digit only through what that digit counts.
luhn_sum-at :
    (e : Bool) (us : List ℕ) (vs : List ℕ)
    → (rest : ℕ) × ((at : Bool) × ((c : ℕ)
          → luhn_sum e (us ++ c ∷ vs) ≡ rest + luhn_digit at (c - b'0')))
unfolding luhn_sum
luhn_sum-at e [] vs = (luhn_sum (not e) vs, (e, λ c. omega arith))
luhn_sum-at e (u ∷ us) vs =
    let below = luhn_sum-at (not e) us vs in
    (luhn_digit e (u - b'0') + below.0, (below.1.0, λ c. omega (arith, below.1.1 c)))

-- Two digits that count the same are the same.
luhn_digit-inj :
    (at : Bool) (rest a b : ℕ)
    → a ≤ 9
    → b ≤ 9
    → (rest + luhn_digit at a) % 10 ≡ 0
    → (rest + luhn_digit at b) % 10 ≡ 0
    → a ≡ b
luhn_digit-inj false rest a b ha hb h k = omega arith
luhn_digit-inj true rest a b ha hb h k = ground arith

digit_sums :
    (xs : List ℕ) (a b : ℕ) (ys : List ℕ)
    → IsDigit a
    → IsDigit b
    → luhn_sum false (reverse_onto [] (xs ++ a ∷ ys)) % 10 ≡ 0
    → luhn_sum false (reverse_onto [] (xs ++ b ∷ ys)) % 10 ≡ 0
    → a ≡ b
digit_sums xs a b ys da db h k =
    let at = luhn_sum-at false (reverse_onto [] ys) (reverse_onto [] xs) in
    let sum_a = ap (luhn_sum false) (reverse_onto-split [] xs a ys) ∙ at.1.1 a in
    let sum_b = ap (luhn_sum false) (reverse_onto-split [] xs b ys) ∙ at.1.1 b in
    let same =
      luhn_digit-inj at.1.0 at.0 (a - b'0') (b - b'0') (ground arith) (ground arith)
        (ap (λ n. n % 10) (sym sum_a) ∙ h) (ap (λ n. n % 10) (sym sum_b) ∙ k) in
    ground arith

valid-sum :
    (text : List ℕ)
    → is_luhn_valid text ≡ true
    → luhn_sum false (reverse_onto [] (digits_of text)) % 10 ≡ 0
unfolding is_luhn_valid
valid-sum text h = ground arith

-- In a text that is a valid number of a card, another digit in the place of one digit makes a text
-- that is not.
pub one_wrong_digit :
    (xs : List ℕ) (a b : ℕ) (ys : List ℕ)
    → IsDigit a
    → IsDigit b
    → a ≢ b
    → is_luhn_valid (xs ++ a ∷ ys) ≡ true
    → is_luhn_valid (xs ++ b ∷ ys) ≡ false
one_wrong_digit xs a b ys da db other h =
    let sum_of = λ (c : ℕ) (d : IsDigit c).
      ap (λ t. luhn_sum false (reverse_onto [] t) % 10) (sym (digits_of-insert xs c ys d)) in
    elim (Bool-cases (is_luhn_valid (xs ++ b ∷ ys))) [
      | inl valid ↦ absurd (
          other (
            digit_sums (digits_of xs) a b (digits_of ys) da db
              (sum_of a da ∙ valid-sum (xs ++ a ∷ ys) h)
              (sum_of b db ∙ valid-sum (xs ++ b ∷ ys) valid)))
      | inr invalid ↦ invalid
    ]
