-- ===== src/Pii.antt =====
-- The scanner for personal data (sdks/typescript/src/server/pii.ts): its rules and the scan of values.
-- What a regular expression matches, JSON.parse and the scanner for names of persons are parameters.
-- Values are trees: one that a value holds twice is scanned twice, with the same result.
pub mod Sound
pub mod Fuel
mod Tests
use liop.Common.{
  ℕ, zero, suc, ◌+◌, ◌≤◌, ◌≡◌, String, Bool, true, false, not, ◌&&◌, ◌||◌, Option, none, some, List,
  [], ◌∷◌, ◌++◌, if◌then◌else◌, eqb, length,
}
use liop.Common.Bytes.{bytes_eq, contains}
use liop.Common.Text.{codes}
use liop.Validators.{
  is_space, reverse_onto, ends_with, is_luhn_valid, is_iban_valid, is_ip_address, is_phone, is_ssn,
  is_email,
}
use liop.ForbiddenKeys.{KeyViolation, check_key, lower_case, forbidden_keys_set}

-- `matches` are those of `exec` in turn, from the start of a text; none is empty.
pub record Regexp : Type 0 where
  pub source : List ℕ
  pub global : Bool
  pub matches : List ℕ → List (List ℕ)

pub data Pattern : Type 0 where
  text_pattern : List ℕ → Pattern
  regexp_pattern : Regexp → Pattern

pub record PiiRuleDefinition : Type 0 where
  pub name : List ℕ
  pub pattern : Pattern
  pub validator : Option (List ℕ → Bool)

pub data PiiRule : Type 0 where
  text_rule : List ℕ → PiiRule
  regexp_rule : Regexp → PiiRule
  definition : PiiRuleDefinition → PiiRule

-- The expressions of the built-in patterns.
pub record Expressions : Type 0 where
  pub email : Regexp
  pub credit_card : Regexp
  pub ip_address : Regexp
  pub phone : Regexp
  pub ssn : Regexp
  pub iban : Regexp
  pub passport_mrz : Regexp

module _ (e : Expressions) where
  abbrev built_in : String → Regexp → (List ℕ → Bool) → PiiRule
  built_in name pattern validator =
      definition
        (record { name = codes name; pattern = regexp_pattern pattern; validator = some validator })

  -- `PII_PATTERNS`
  abbrev pub email_rule : PiiRule
  email_rule = built_in "EMAIL" e.email is_email

  abbrev pub credit_card_rule : PiiRule
  credit_card_rule = built_in "CREDIT_CARD" e.credit_card is_luhn_valid

  abbrev pub ip_address_rule : PiiRule
  ip_address_rule = built_in "IP_ADDRESS" e.ip_address is_ip_address

  abbrev pub phone_rule : PiiRule
  phone_rule = built_in "PHONE" e.phone is_phone

  abbrev pub ssn_rule : PiiRule
  ssn_rule = built_in "SSN" e.ssn is_ssn

  abbrev pub iban_rule : PiiRule
  iban_rule = built_in "IBAN" e.iban is_iban_valid

  abbrev pub passport_mrz_rule : PiiRule
  passport_mrz_rule = definition (record {
    name = codes "PASSPORT_MRZ";
    pattern = regexp_pattern e.passport_mrz;
    validator = none;
  })

  -- `PII_PRESETS`
  abbrev pub global_strict : List PiiRule
  global_strict =
      email_rule ∷ credit_card_rule ∷ ip_address_rule ∷ phone_rule ∷ passport_mrz_rule ∷ iban_rule
      ∷ []

  abbrev pub us_compliant : List PiiRule
  us_compliant =
      email_rule ∷ credit_card_rule ∷ ip_address_rule ∷ phone_rule ∷ ssn_rule ∷ passport_mrz_rule
      ∷ []

  abbrev pub eu_gdpr : List PiiRule
  eu_gdpr =
      email_rule ∷ credit_card_rule ∷ ip_address_rule ∷ phone_rule ∷ iban_rule ∷ passport_mrz_rule
      ∷ []

-- `!def.validator || def.validator(match)`
abbrev validated : Option (List ℕ → Bool) → List ℕ → Bool
validated none match = true
validated (some test) match = test match

unfoldable pub any_validated : Option (List ℕ → Bool) → List (List ℕ) → Bool
any_validated test [] = false
any_validated test (m ∷ ms) = validated test m || any_validated test ms

abbrev first_validated : Option (List ℕ → Bool) → List (List ℕ) → Bool
first_validated test [] = false
first_validated test (m ∷ ms) = validated test m

abbrev is_not_empty : List (List ℕ) → Bool
is_not_empty [] = false
is_not_empty (m ∷ ms) = true

abbrev fires : PiiRuleDefinition → Pattern → List ℕ → Bool
fires d (text_pattern p) text = contains (lower_case p) (lower_case text) && validated d.validator p
fires d (regexp_pattern r) text =
    if r.global
    then any_validated d.validator (r.matches text)
    else first_validated d.validator (r.matches text)

-- A round of the loop: the name of the rule, if it fires.
unfoldable pub check_rule : PiiRule → List ℕ → Option (List ℕ)
unfolding any_validated
check_rule (text_rule t) text = if contains (lower_case t) (lower_case text) then some t else none
check_rule (regexp_rule r) text = if is_not_empty (r.matches text) then some r.source else none
check_rule (definition d) text = if fires d d.pattern text then some d.name else none

abbrev or_else : Option (List ℕ) → Option (List ℕ) → Option (List ℕ)
or_else none b = b
or_else (some a) b = some a

unfoldable pub check_string : List PiiRule → List ℕ → Option (List ℕ)
unfolding check_rule
check_string [] text = none
check_string (r ∷ rs) text = or_else (check_rule r text) (check_string rs text)

-- Values: `scalar` is null, undefined, a number or a Boolean.
mutual
  pub data Json : Type 0 where
    scalar : Json
    text : List ℕ → Json
    array : Elements → Json
    object : Entries → Json

  pub data Elements : Type 0 where
    no_elements : Elements
    element : Json → Elements → Elements

  pub data Entries : Type 0 where
    no_entries : Entries
    entry : List ℕ → Json → Entries → Entries

pub data Violation : Type 0 where
  key_violation : KeyViolation → Violation
  pattern_violation : (name : List ℕ) → Violation
  person_detected : (name : List ℕ) → Violation

pub data Scanned : Type 0 where
  clean : Scanned
  found : Violation → Scanned
  out_of_fuel : Scanned

abbrev pub and_then : Scanned → Scanned → Scanned
and_then clean b = b
and_then (found v) b = found v
and_then out_of_fuel b = out_of_fuel

-- `forbidden_keys_set` as the constructor makes it. `person` is the first person that the scanner for
-- names detects in a text; without a scanner there is none. `parse` is none where `JSON.parse` throws.
pub record PiiScanner : Type 0 where
  pub patterns : List PiiRule
  pub forbidden : List (List ℕ)
  pub person : List ℕ → Option (List ℕ)
  pub parse : List ℕ → Option Json

abbrev pub init :
    List PiiRule → List (List ℕ) → (List ℕ → Option (List ℕ)) → (List ℕ → Option Json) → PiiScanner
init patterns forbidden_keys person parse = record {
  patterns = patterns;
  forbidden = forbidden_keys_set forbidden_keys;
  person = person;
  parse = parse;
}

-- `text.trim()`
unfoldable pub drop_spaces : List ℕ → List ℕ
drop_spaces [] = []
drop_spaces (c ∷ cs) = let rest = drop_spaces cs in if is_space c then rest else c ∷ cs

unfoldable pub trim : List ℕ → List ℕ
unfolding drop_spaces
trim t = reverse_onto [] (drop_spaces (reverse_onto [] (drop_spaces t)))

abbrev starts_with : ℕ → List ℕ → Bool
starts_with c [] = false
starts_with c (b ∷ bs) = eqb b c

abbrev pub looks_like_json : List ℕ → Bool
looks_like_json t =
    (starts_with b'{' t && ends_with (b'}' ∷ []) t)
    || (starts_with b'[' t && ends_with (b']' ∷ []) t)

module _ (s : PiiScanner) where
  abbrev by_person : Option (List ℕ) → Scanned
  by_person none = clean
  by_person (some name) = found (person_detected name)

  -- A name that is "" is no violation to the caller.
  abbrev by_pattern : Option (List ℕ) → Scanned → Scanned
  by_pattern none rest = rest
  by_pattern (some []) rest = rest
  by_pattern (some (c ∷ cs)) rest = found (pattern_violation (c ∷ cs))

  unfoldable pub scan_content : List ℕ → Scanned
  scan_content t = by_pattern (check_string s.patterns t) (by_person (s.person t))

  abbrev pub by_key : Option KeyViolation → Scanned → Scanned
  by_key none rest = rest
  by_key (some v) rest = found (key_violation v)

  -- `again` scans what a text is the JSON of.
  unfoldable mutual
    unfolding scan_content trim

    pub scan_value : (List ℕ → Scanned) → Json → Scanned
    scan_value again scalar = clean
    scan_value again (text t) =
        and_then (if looks_like_json (trim t) then again (trim t) else clean) (scan_content t)
    scan_value again (array es) = scan_elements again es
    scan_value again (object es) = scan_entries again es

    pub scan_elements : (List ℕ → Scanned) → Elements → Scanned
    scan_elements again no_elements = clean
    scan_elements again (element v es) = and_then (scan_value again v) (scan_elements again es)

    pub scan_entries : (List ℕ → Scanned) → Entries → Scanned
    scan_entries again no_entries = clean
    scan_entries again (entry k v es) =
        by_key (check_key s.forbidden k) (and_then (scan_value again v) (scan_entries again es))

  -- The fuel is for texts within texts.
  unfoldable pub again : ℕ → List ℕ → Scanned
  unfolding scan_value
  again zero t = elim (s.parse t) [ none ↦ clean | some j ↦ out_of_fuel ]
  again (suc n) t = elim (s.parse t) [ none ↦ clean | some j ↦ scan_value (again n) j ]

  unfoldable pub scan_for : ℕ → Json → Scanned
  unfolding scan_value again
  scan_for n v = scan_value (again n) v

-- The number of characters and values in a value.
unfoldable mutual
  pub weight : Json → ℕ
  weight scalar = 1
  weight (text t) = 1 + length t
  weight (array es) = 1 + weight_elements es
  weight (object es) = 1 + weight_entries es

  pub weight_elements : Elements → ℕ
  weight_elements no_elements = 0
  weight_elements (element v es) = weight v + weight_elements es

  pub weight_entries : Entries → ℕ
  weight_entries no_entries = 0
  weight_entries (entry k v es) = weight v + weight_entries es

unfoldable pub scan : PiiScanner → Json → Scanned
unfolding scan_for
scan s v = scan_for s (weight v) v
