-- ===== src/ForbiddenKeys/Caught.antt =====
-- Which names are refused.
use liop.Common.{
  ℕ, ◌≤◌, ◌<◌, ◌≡◌, ◌↔◌, ◌⊎◌, inl, inr, refl, ap, Bool, true, false, not, ◌&&◌, Option, none, some,
  List, [], ◌∷◌, ◌++◌, if◌then◌else◌, arith, length, filter, includes, All, Bool-cases,
  Option-cases,
}
use liop.Common.Bytes.{
  bytes_eq, bytes_eq_iff, bytes_equality, contains, contains-append, or_of_left, or_of_right,
}
use mathlib.Core.Path.{subst}
use liop.Validators.{upper, is_lower, map_codes}
use liop.ForbiddenKeys.{
  key_safelist, lower_case, is_short, short_tokens, long_tokens, is_separator, ends_word,
  matches_ci, matches_exactly, capitalised, boundary_here, boundary_from, KeyViolation, first_long,
  first_short, check_key_fuzzy, check_key,
}

first_long_iff :
    (key : List ℕ) (ts : List (List ℕ))
    → (first_long key ts ≡ none) ↔ All (λ t. contains t (lower_case key) ≡ false) ts
unfolding first_long
first_long_iff key [] = ground arith
first_long_iff key (t ∷ ts) = elim (Bool-cases (contains t (lower_case key))) [
  | inl held ↦ rw held (ground arith)
  | inr absent ↦ rw absent (ground (arith, first_long_iff key ts))
]

first_short_iff :
    (key : List ℕ) (long ts : List (List ℕ))
    → (first_short key long ts ≡ none) ↔ (
        All (λ t. boundary_from none t key ≡ false) ts
        × All (λ t. contains t (lower_case key) ≡ false) long)
unfolding first_short
first_short_iff key long [] = ground (arith, first_long_iff key long)
first_short_iff key long (t ∷ ts) = elim (Bool-cases (boundary_from none t key)) [
  | inl held ↦ rw held (ground arith)
  | inr absent ↦ rw absent (ground (arith, first_short_iff key long ts))
]

-- A name is let through exactly when its small letters are no forbidden key, and they are in the
-- safelist, or no short token matches at a boundary and no long token is contained.
pub check_key_iff :
    (forbidden : List (List ℕ)) (key : List ℕ)
    → (check_key forbidden key ≡ none) ↔ (
        (includes forbidden (lower_case key) ≡ false)
        × ((includes key_safelist (lower_case key) ≡ true)
            ⊎ (All (λ t. boundary_from none t key ≡ false) (short_tokens forbidden)
                × All (λ t. contains t (lower_case key) ≡ false) (long_tokens forbidden))))
unfolding check_key check_key_fuzzy
check_key_iff forbidden key =
    let tokens = first_short_iff key (long_tokens forbidden) (short_tokens forbidden) in
    elim (Bool-cases (includes forbidden (lower_case key))) [
      | inl exact ↦ rw exact (ground arith)
      | inr other ↦ rw other (elim (Bool-cases (includes key_safelist (lower_case key))) [
        | inl safe ↦ rw safe (ground arith)
        | inr plain ↦ rw plain (ground (arith, tokens))
      ])
    ]

-- A token is one of those that pass a test.
All-includes :
    (P : List ℕ → Type 0) (p : List ℕ → Bool) (xs : List (List ℕ)) (a : List ℕ)
    → includes xs a ≡ true
    → p a ≡ true
    → All P (filter p xs)
    → P a
unfolding filter
All-includes P p [] a h t all = cc
All-includes P p (x ∷ xs) a h t all = elim (Bool-cases (bytes_eq x a)) [
  | inl same ↦ elim (Bool-cases (p x)) [
    | inl passes ↦
        subst P ((bytes_eq_iff x a).0 same)
          (subst (λ b. All P (if b then x ∷ filter p xs else filter p xs)) passes all).0
    | inr fails ↦ cc (ap p ((bytes_eq_iff x a).0 same), fails, t)
  ]
  | inr other ↦ elim (Bool-cases (p x)) [
    | inl passes ↦
        All-includes P p xs a (cc (h, other)) t
          (subst (λ b. All P (if b then x ∷ filter p xs else filter p xs)) passes all).1
    | inr fails ↦
        All-includes P p xs a (cc (h, other)) t
          (subst (λ b. All P (if b then x ∷ filter p xs else filter p xs)) fails all)
  ]
]

module _ (token : List ℕ) where
  boundary-here :
      (c : ℕ) (tail : List ℕ)
      → boundary_here (some c) token tail ≡ true
      → boundary_from (some c) token tail ≡ true
  unfolding boundary_from
  boundary-here c [] h = h
  boundary-here c (k ∷ ks) h =
      or_of_left (boundary_here (some c) token (k ∷ ks)) (boundary_from (some k) token ks) h

  boundary-append :
      (previous : Option ℕ) (front : List ℕ) (c : ℕ) (tail : List ℕ)
      → boundary_here (some c) token tail ≡ true
      → boundary_from previous token (front ++ c ∷ tail) ≡ true
  unfolding boundary_from
  boundary-append previous [] c tail h =
      or_of_right (boundary_here previous token (c ∷ tail)) (boundary_from (some c) token tail)
        (boundary-here c tail h)
  boundary-append previous (k ∷ ks) c tail h =
      or_of_right (boundary_here previous token (k ∷ (ks ++ c ∷ tail)))
        (boundary_from (some k) token (ks ++ c ∷ tail)) (boundary-append (some k) ks c tail h)

matches_ci-lower : (token : List ℕ) → matches_ci is_separator token (lower_case token) ≡ true
unfolding matches_ci
matches_ci-lower [] = refl
matches_ci-lower (t ∷ ts) = ground (arith, matches_ci-lower ts)

matches_ci-upper : (token : List ℕ) → matches_ci is_separator token (map_codes upper token) ≡ true
unfolding matches_ci
matches_ci-upper [] = refl
matches_ci-upper (t ∷ ts) = ground (arith, matches_ci-upper ts)

matches_exactly_self : (token : List ℕ) → matches_exactly ends_word token token ≡ true
unfolding matches_exactly
matches_exactly_self [] = refl
matches_exactly_self (t ∷ ts) = ground (arith, matches_exactly_self ts)

-- Names that spell a token: one of four letters or more anywhere, in small or capital letters; a shorter
-- one at the end of the name only, behind a small letter, with a capital, as in patientId, or behind a
-- separator, in small or capital letters, as in record_id. A short token within a word, as in gridsize,
-- is not spelled.
pub data Spelled (token : List ℕ) : List ℕ → Type 0 where
  within :
      {key : List ℕ} (front back : List ℕ)
      → 4 ≤ length token
      → lower_case key ≡ front ++ (token ++ back)
      → Spelled token key
  camel :
      (front : List ℕ) (c : ℕ)
      → length token < 4
      → is_lower c ≡ true
      → Spelled token (front ++ c ∷ capitalised token)
  snake :
      (front : List ℕ) (c : ℕ)
      → length token < 4
      → is_separator c ≡ true
      → Spelled token (front ++ c ∷ lower_case token)
  constant :
      (front : List ℕ) (c : ℕ)
      → length token < 4
      → is_separator c ≡ true
      → Spelled token (front ++ c ∷ map_codes upper token)

module _ (forbidden : List (List ℕ)) (token : List ℕ)
    (member : includes forbidden token ≡ true) where
  short-boundary :
      (key : List ℕ)
      → length token < 4
      → All (λ t. boundary_from none t key ≡ false) (short_tokens forbidden)
      → boundary_from none token key ≡ false
  short-boundary key short all =
      All-includes (λ t. boundary_from none t key ≡ false) is_short forbidden token member
        (ground arith) all

  Spelled-caught :
      {key : List ℕ}
      → Spelled token key
      → All (λ t. boundary_from none t key ≡ false) (short_tokens forbidden)
      → All (λ t. contains t (lower_case key) ≡ false) (long_tokens forbidden)
      → ⊥
  Spelled-caught {key} (within front back size at) short long = cc (
    All-includes (λ t. contains t (lower_case key) ≡ false) (λ t. not (is_short t)) forbidden token
        member (ground arith) long,
    ap (contains token) at,
    contains-append front token back,
  )
  Spelled-caught (camel front c size small) short long = cc (
    short-boundary (front ++ c ∷ capitalised token) size short,
    boundary-append token none front c (capitalised token) (
        or_of_right (is_separator c && matches_ci is_separator token (capitalised token))
          (is_lower c && matches_exactly ends_word (capitalised token) (capitalised token))
          (rw (small, matches_exactly_self (capitalised token)))),
  )
  Spelled-caught (snake front c size separates) short long = cc (
    short-boundary (front ++ c ∷ lower_case token) size short,
    boundary-append token none front c (lower_case token) (
        or_of_left (is_separator c && matches_ci is_separator token (lower_case token))
          (is_lower c && matches_exactly ends_word (capitalised token) (lower_case token))
          (rw (separates, matches_ci-lower token))),
  )
  Spelled-caught (constant front c size separates) short long = cc (
    short-boundary (front ++ c ∷ map_codes upper token) size short,
    boundary-append token none front c (map_codes upper token) (
        or_of_left (is_separator c && matches_ci is_separator token (map_codes upper token))
          (is_lower c && matches_exactly ends_word (capitalised token) (map_codes upper token))
          (rw (separates, matches_ci-upper token))),
  )

  -- Unless it is in the safelist, a name is refused that holds a forbidden token of four letters or more,
  -- or that ends with a shorter one, either behind a small letter with its first letter a capital or
  -- behind _ or - in small or in capital letters.
  pub check_key-Spelled :
      (key : List ℕ)
      → Spelled token key
      → includes key_safelist (lower_case key) ≡ false
      → (v : KeyViolation) × (check_key forbidden key ≡ some v)
  check_key-Spelled key spelled unsafe = elim (Option-cases (check_key forbidden key)) [
    | inl passes ↦ elim ((check_key_iff forbidden key).0 passes).1 [
      | inl safe ↦ cc (safe, unsafe)
      | inr free ↦ absurd (Spelled-caught spelled free.0 free.1)
    ]
    | inr refused ↦ refused
  ]
