-- ===== src/ForbiddenKeys.antt =====
-- Names of fields that stand for personal data (`PiiScanner.checkKeyFuzzy` and its tables in
-- sdks/typescript/src/server/pii.ts). Names are ASCII texts. The pattern of a short token is matched by
-- hand; it is that of a token of letters, digits and _, which a regular expression takes literally.
pub mod Caught
mod Tests
use liop.Common.{
  ℕ, ◌+◌, ◌-◌, ◌≡◌, String, Bool, true, false, not, ◌&&◌, ◌||◌, Option, none, some, List, [], ◌∷◌,
  ◌++◌, if◌then◌else◌, ltb, leb, eqb, length, filter, includes,
}
use liop.Common.Bytes.{bytes_eq, bytes_equality, contains, is_prefix}
use liop.Common.Text.{codes, words}
use liop.Validators.{lower, upper, is_lower, is_upper, map_codes}

abbrev pub key_safelist : List (List ℕ)
key_safelist = words (
    "grid" ∷ "video" ∷ "android" ∷ "identity" ∷ "provide" ∷ "override" ∷ "validate" ∷ "hidden"
    ∷ "widget" ∷ "guidelines" ∷ "beside" ∷ "guideline" ∷ "outside" ∷ "inside" ∷ "collide" ∷ "decide"
    ∷ "divide" ∷ "aside" ∷ "ride" ∷ "side" ∷ "wide" ∷ "hide" ∷ "tide" ∷ "pride" ∷ "bride" ∷ "slide"
    ∷ "guide" ∷ "stride" ∷ "oxide" ∷ "dioxide" ∷ "suicide" ∷ "homicide" ∷ "pesticide" ∷ "valid"
    ∷ "invalid" ∷ "void" ∷ "avoid" ∷ "diagnosis" ∷ "medication" ∷ "namespace" ∷ "namesake"
    ∷ "rename" ∷ "filename" ∷ "hostname" ∷ "typename" ∷ "unnamed" ∷ "renamed" ∷ "phonetic"
    ∷ "phoneme" ∷ "microphone" ∷ "headphone" ∷ "telephone" ∷ "saxophone" ∷ "smartphone"
    ∷ "streetview" ∷ "addressable" ∷ "addressing" ∷ "cityscape" ∷ "electricity" ∷ "capacity"
    ∷ "velocity" ∷ "opacity" ∷ "timestamp" ∷ "timezone" ∷ "image_id" ∷ "computation_result"
    ∷ "zk_receipt" ∷ "testid" ∷ "toolid" ∷ "sessionid" ∷ "peerid" ∷ "nodeid" ∷ "requestid"
    ∷ "correlationid" ∷ "traceid" ∷ "spanid" ∷ [])

abbrev pub lower_case : List ℕ → List ℕ
lower_case key = map_codes lower key

-- `new Set(keys)`: the first of equal keys.
abbrev set_from : List (List ℕ) → List (List ℕ) → List (List ℕ)
set_from seen [] = seen
set_from seen (k ∷ ks) = if includes seen k then set_from seen ks else set_from (seen ++ k ∷ []) ks

abbrev lower_all : List (List ℕ) → List (List ℕ)
lower_all [] = []
lower_all (k ∷ ks) = lower_case k ∷ lower_all ks

unfoldable pub forbidden_keys_set : List (List ℕ) → List (List ℕ)
forbidden_keys_set keys = set_from [] (lower_all keys)

abbrev pub is_short : List ℕ → Bool
is_short token = ltb (length token) 4

-- The keys of `shortTokenBoundaryPatterns`, and `longForbiddenTokens`.
abbrev pub short_tokens : List (List ℕ) → List (List ℕ)
short_tokens forbidden = filter is_short forbidden

abbrev pub long_tokens : List (List ℕ) → List (List ℕ)
long_tokens forbidden = filter (λ t. not (is_short t)) forbidden

abbrev pub is_separator : ℕ → Bool
is_separator c = eqb c b'_' || eqb c b'-'

-- `[iI][dD]`, and then the end of the key or a character of the test.
unfoldable pub matches_ci : (ℕ → Bool) → List ℕ → List ℕ → Bool
matches_ci stops [] [] = true
matches_ci stops [] (k ∷ ks) = stops k
matches_ci stops (t ∷ ts) [] = false
matches_ci stops (t ∷ ts) (k ∷ ks) = (eqb k (lower t) || eqb k (upper t)) && matches_ci stops ts ks

-- The token itself, and then the end of the key or a character of the test.
unfoldable pub matches_exactly : (ℕ → Bool) → List ℕ → List ℕ → Bool
matches_exactly stops [] [] = true
matches_exactly stops [] (k ∷ ks) = stops k
matches_exactly stops (t ∷ ts) [] = false
matches_exactly stops (t ∷ ts) (k ∷ ks) = eqb k t && matches_exactly stops ts ks

abbrev pub capitalised : List ℕ → List ℕ
capitalised [] = []
capitalised (t ∷ ts) = upper t ∷ ts

abbrev pub ends_word : ℕ → Bool
ends_word c = is_upper c || is_separator c

-- Behind the start of the key or a separator, or behind a small letter.
abbrev pub boundary_here : Option ℕ → List ℕ → List ℕ → Bool
boundary_here none token rest = matches_ci is_separator token rest
boundary_here (some c) token rest =
    (is_separator c && matches_ci is_separator token rest)
    || (is_lower c && matches_exactly ends_word (capitalised token) rest)

-- `pattern.test(key)`, from the character before.
unfoldable pub boundary_from : Option ℕ → List ℕ → List ℕ → Bool
unfolding matches_ci matches_exactly
boundary_from previous token [] = boundary_here previous token []
boundary_from previous token (k ∷ ks) =
    boundary_here previous token (k ∷ ks) || boundary_from (some k) token ks

pub data KeyViolation : Type 0 where
  forbidden_key : (key : List ℕ) → KeyViolation
  boundary_pattern : (key token : List ℕ) → KeyViolation
  restricted_token : (key token : List ℕ) → KeyViolation

unfoldable pub first_long : List ℕ → List (List ℕ) → Option KeyViolation
first_long key [] = none
first_long key (t ∷ ts) =
    let rest = first_long key ts in
    if contains t (lower_case key) then some (restricted_token key t) else rest

-- The short tokens, and then the long ones.
unfoldable pub first_short : List ℕ → List (List ℕ) → List (List ℕ) → Option KeyViolation
unfolding boundary_from first_long
first_short key long [] = first_long key long
first_short key long (t ∷ ts) =
    let rest = first_short key long ts in
    if boundary_from none t key then some (boundary_pattern key t) else rest

unfoldable pub check_key_fuzzy : List (List ℕ) → List ℕ → Option KeyViolation
unfolding first_short
check_key_fuzzy forbidden key =
    if includes key_safelist (lower_case key)
    then none
    else first_short key (long_tokens forbidden) (short_tokens forbidden)

-- Both checks of a key, as `scan` makes them.
unfoldable pub check_key : List (List ℕ) → List ℕ → Option KeyViolation
unfolding check_key_fuzzy
check_key forbidden key =
    if includes forbidden (lower_case key)
    then some (forbidden_key key)
    else check_key_fuzzy forbidden key
