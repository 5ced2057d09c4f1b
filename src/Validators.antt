-- ===== src/Validators.antt =====
-- The checks behind the patterns for personal data (sdks/typescript/src/server/pii.ts). Texts are lists
-- of the codes of ASCII characters, which is what the patterns match.
pub mod Luhn
mod Tests
use liop.Common.{
  ℕ, zero, suc, ◌+◌, ◌-◌, ◌*◌, ◌/◌, ◌%◌, ◌≡◌, String, Bool, true, false, not, ◌&&◌, ◌||◌, Option,
  none, some, List, [], ◌∷◌, ◌++◌, if◌then◌else◌, ltb, leb, eqb, length, take, drop, filter, all,
  any,
}
use liop.Common.Bytes.{subarray, bytes_eq}
use liop.Common.Text.{codes, words}

abbrev pub is_digit : ℕ → Bool
is_digit c = leb b'0' c && leb c b'9'

abbrev pub is_upper : ℕ → Bool
is_upper c = leb b'A' c && leb c b'Z'

abbrev pub is_lower : ℕ → Bool
is_lower c = leb b'a' c && leb c b'z'

-- `toUpperCase`, `toLowerCase` of a character
abbrev pub upper : ℕ → ℕ
upper c = if is_lower c then c - 32 else c

abbrev pub lower : ℕ → ℕ
lower c = if is_upper c then c + 32 else c

-- `\s`
abbrev pub is_space : ℕ → Bool
is_space c = eqb c b' ' || (leb 9 c && leb c 13)

abbrev pub map_codes : (ℕ → ℕ) → List ℕ → List ℕ
map_codes f [] = []
map_codes f (c ∷ cs) = f c ∷ map_codes f cs

abbrev pub reverse_onto : List ℕ → List ℕ → List ℕ
reverse_onto acc [] = acc
reverse_onto acc (c ∷ cs) = reverse_onto (c ∷ acc) cs

-- `text.replace(/\D/g, "")`
abbrev pub digits_of : List ℕ → List ℕ
digits_of text = filter is_digit text

-- `parseInt(digits, 10)`, `Number(digits)`, `BigInt(digits)`: 0 of the empty text.
unfoldable pub parse_from : ℕ → List ℕ → ℕ
parse_from acc [] = acc
parse_from acc (c ∷ cs) = parse_from (acc * 10 + (c - b'0')) cs

abbrev pub luhn_digit : Bool → ℕ → ℕ
luhn_digit false digit = digit
luhn_digit true digit = if ltb 9 (digit * 2) then digit * 2 - 9 else digit * 2

-- The loop, over the digits from the last to the first.
unfoldable pub luhn_sum : Bool → List ℕ → ℕ
luhn_sum is_even [] = 0
luhn_sum is_even (c ∷ cs) = luhn_digit is_even (c - b'0') + luhn_sum (not is_even) cs

unfoldable pub is_luhn_valid : List ℕ → Bool
unfolding luhn_sum
is_luhn_valid card_number =
    let digits = digits_of card_number in
    if ltb (length digits) 13 || ltb 19 (length digits)
    then false
    else eqb (luhn_sum false (reverse_onto [] digits) % 10) 0

-- `/^[A-Z]{2}[0-9]{2}[A-Z0-9]{1,30}$/`
abbrev pub is_iban_form : List ℕ → Bool
is_iban_form text =
    eqb (length (take 4 text)) 4
    && all is_upper (take 2 text)
    && all is_digit (subarray 2 4 text)
    && all (λ c. is_upper c || is_digit c) (drop 4 text)
    && leb 1 (length (drop 4 text))
    && leb (length (drop 4 text)) 30

abbrev push : ℕ → Option (List ℕ) → Option (List ℕ)
push c none = none
push c (some cs) = some (c ∷ cs)

abbrev checks_out : Option (List ℕ) → Bool
checks_out none = false
checks_out (some digits) = eqb (parse_from 0 digits % 97) 1

-- A letter is the two digits of its number from 10 on; another character is `return false`.
unfoldable pub numeric_string : List ℕ → Option (List ℕ)
numeric_string [] = some []
numeric_string (c ∷ cs) =
    let rest = numeric_string cs in
    if is_upper c
    then push ((c - 55) / 10 + b'0') (push ((c - 55) % 10 + b'0') rest)
    else if is_digit c
    then push c rest
    else none

unfoldable pub is_iban_valid : List ℕ → Bool
unfolding numeric_string parse_from
is_iban_valid iban =
    let sanitized = map_codes upper (filter (λ c. not (is_space c)) iban) in
    if is_iban_form sanitized
    then checks_out (numeric_string (drop 4 sanitized ++ take 4 sanitized))
    else false

abbrev onto : ℕ → List (List ℕ) → List (List ℕ)
onto c [] = (c ∷ []) ∷ []
onto c (part ∷ parts) = (c ∷ part) ∷ parts

-- `text.split(".")`
unfoldable pub split_dots : List ℕ → List (List ℕ)
split_dots [] = [] ∷ []
split_dots (c ∷ cs) = let rest = split_dots cs in if eqb c b'.' then [] ∷ rest else onto c rest

abbrev pub safe_ips : List (List ℕ)
safe_ips = words ("127.0.0.1" ∷ "0.0.0.0" ∷ "255.255.255.255" ∷ [])

-- A text of digits and dots.
unfoldable pub is_ip_address : List ℕ → Bool
unfolding split_dots parse_from
is_ip_address match =
    if any (bytes_eq match) safe_ips
    then false
    else all (λ p. leb (parse_from 0 p) 255) (split_dots match)

-- `/^(\d)\1+$/` on digits
abbrev pub is_repeated : List ℕ → Bool
is_repeated [] = false
is_repeated (c ∷ cs) = leb 1 (length cs) && all (eqb c) cs

unfoldable pub is_phone : List ℕ → Bool
is_phone match =
    let digits = digits_of match in
    if ltb (length digits) 7 || ltb 15 (length digits)
    then false
    else not (is_repeated digits) && not (bytes_eq digits (codes "1234567890"))

unfoldable pub is_ssn : List ℕ → Bool
unfolding parse_from
is_ssn match =
    let digits = digits_of match in
    let area = parse_from 0 (subarray 0 3 digits) in
    if not (eqb (length digits) 9)
    then false
    else if eqb area 0 || eqb area 666 || leb 900 area
    then false
    else if eqb (parse_from 0 (subarray 3 5 digits)) 0
    then false
    else if eqb (parse_from 0 (subarray 5 9 digits)) 0
    then false
    else not (is_repeated digits || bytes_eq digits (codes "123456789"))

-- `match.endsWith(end)`
abbrev pub ends_with : List ℕ → List ℕ → Bool
ends_with end text =
    leb (length end) (length text) && bytes_eq (drop (length text - length end) text) end

unfoldable pub is_email : List ℕ → Bool
is_email match =
    not (ends_with (codes "@example.com") match) && not (ends_with (codes "@test.com") match)
