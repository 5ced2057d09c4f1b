-- ===== src/Pii/Sound.antt =====
-- What a clean scan says of every value within the input.
use liop.Common.{
  ℕ, zero, suc, ◌≡◌, ◌⊎◌, inl, inr, refl, true, Option, none, some, List, [], ◌∷◌, if◌then◌else◌,
  arith, Option-cases,
}
use mathlib.Core.Path.{subst}
use liop.ForbiddenKeys.{KeyViolation, check_key}
use liop.Pii.{
  Json, scalar, text, array, object, Elements, element, no_elements, Entries, entry, no_entries,
  Scanned, clean, found, out_of_fuel, and_then, PiiScanner, trim, looks_like_json, check_string,
  scan_content, by_key, scan_value, scan_elements, scan_entries, again, scan_for, scan, weight,
}

pub data ElementOf (v : Json) : Elements → Type 0 where
  here : {es : Elements} → ElementOf v (element v es)
  later : {w : Json} {es : Elements} → ElementOf v es → ElementOf v (element w es)

pub data EntryOf (k : List ℕ) (v : Json) : Entries → Type 0 where
  first : {es : Entries} → EntryOf k v (entry k v es)
  later_entry : {j : List ℕ} {w : Json} {es : Entries} → EntryOf k v es → EntryOf k v (entry j w es)

-- The values that stand in a value: it, those in its elements or fields, and those in what a text is the
-- JSON of.
pub data Within (s : PiiScanner) (v : Json) : Json → Type 0 where
  itself : Within s v v
  in_text :
      {t : List ℕ} {j : Json}
      → looks_like_json (trim t) ≡ true
      → s.parse (trim t) ≡ some j
      → Within s v j
      → Within s v (text t)
  in_array : {w : Json} {es : Elements} → ElementOf w es → Within s v w → Within s v (array es)
  in_object :
      {k : List ℕ} {w : Json} {es : Entries}
      → EntryOf k w es
      → Within s v w
      → Within s v (object es)

module _ (s : PiiScanner) where
  -- The names of fields are let through.
  abbrev pub Named : Entries → Type 0
  Named no_entries = Unit
  Named (entry k v es) = (check_key s.forbidden k ≡ none) × Named es

  -- No rule fires on a text, but for one of which the name is "", and no person is detected in it.
  abbrev pub Fine : Json → Type 0
  Fine scalar = Unit
  Fine (text t) =
      ((check_string s.patterns t ≡ none) ⊎ (check_string s.patterns t ≡ some []))
      × (s.person t ≡ none)
  Fine (array es) = Unit
  Fine (object es) = Named es

  and_then_iff : (a b : Scanned) → and_then a b ≡ clean → (a ≡ clean) × (b ≡ clean)
  and_then_iff clean b h = (refl, h)
  and_then_iff (found v) b h = cc
  and_then_iff out_of_fuel b h = cc

  by_key_clean :
      (o : Option KeyViolation) (rest : Scanned)
      → by_key s o rest ≡ clean
      → (o ≡ none) × (rest ≡ clean)
  by_key_clean none rest h = (refl, h)
  by_key_clean (some v) rest h = cc

  name_empty :
      (t name : List ℕ)
      → check_string s.patterns t ≡ some name
      → scan_content s t ≡ clean
      → check_string s.patterns t ≡ some []
  unfolding scan_content
  name_empty t [] e h = e
  name_empty t (c ∷ cs) e h = ground arith

  detected : (t who : List ℕ) → s.person t ≡ some who → scan_content s t ≡ clean → ⊥
  unfolding scan_content
  detected t who e h = ground arith

  content-Fine : (t : List ℕ) → scan_content s t ≡ clean → Fine (text t)
  unfolding scan_content
  content-Fine t h = elim (Option-cases (s.person t)) [
    | inl nobody ↦ elim (Option-cases (check_string s.patterns t)) [
      | inl silent ↦ (inl silent, nobody)
      | inr (name, e) ↦ (inr (name_empty t name e h), nobody)
    ]
    | inr (who, e) ↦ absurd (detected t who e h)
  ]

  module _ (f : List ℕ → Scanned) where
    text_parts :
        (t : List ℕ)
        → scan_value s f (text t) ≡ clean
        → ((if looks_like_json (trim t) then f (trim t) else clean) ≡ clean)
          × (scan_content s t ≡ clean)
    unfolding scan_value
    text_parts t h =
        and_then_iff (if looks_like_json (trim t) then f (trim t) else clean) (scan_content s t) h

    entries-Named : (es : Entries) → scan_entries s f es ≡ clean → Named es
    unfolding scan_value
    entries-Named no_entries h = tt
    entries-Named (entry k v es) h =
        let c =
          by_key_clean (check_key s.forbidden k) (and_then (scan_value s f v) (scan_entries s f es))
            h in
        (c.0, entries-Named es (and_then_iff (scan_value s f v) (scan_entries s f es) c.1).1)

    value-Fine : (v : Json) → scan_value s f v ≡ clean → Fine v
    unfolding scan_value
    value-Fine scalar h = tt
    value-Fine (text t) h = content-Fine t (text_parts t h).1
    value-Fine (array es) h = tt
    value-Fine (object es) h = entries-Named es h

    element_clean :
        {v : Json} {es : Elements}
        → ElementOf v es
        → scan_elements s f es ≡ clean
        → scan_value s f v ≡ clean
    unfolding scan_value
    element_clean {es = no_elements} m h = elim m [ ]
    element_clean {v} {es = element _ rest} here h =
        (and_then_iff (scan_value s f v) (scan_elements s f rest) h).0
    element_clean {es = element w rest} (later m) h =
        element_clean m (and_then_iff (scan_value s f w) (scan_elements s f rest) h).1

    entry_clean :
        {k : List ℕ} {v : Json} {es : Entries}
        → EntryOf k v es
        → scan_entries s f es ≡ clean
        → scan_value s f v ≡ clean
    unfolding scan_value
    entry_clean {es = no_entries} m h = elim m [ ]
    entry_clean {k} {v} {es = entry _ _ rest} first h =
        (and_then_iff (scan_value s f v) (scan_entries s f rest)
          (by_key_clean (check_key s.forbidden k)
            (and_then (scan_value s f v) (scan_entries s f rest)) h).1).0
    entry_clean {es = entry j w rest} (later_entry m) h =
        entry_clean m
          (and_then_iff (scan_value s f w) (scan_entries s f rest)
            (by_key_clean (check_key s.forbidden j)
              (and_then (scan_value s f w) (scan_entries s f rest)) h).1).1

  inner_again :
      (n : ℕ) (t : List ℕ)
      → looks_like_json (trim t) ≡ true
      → (if looks_like_json (trim t) then again s n (trim t) else clean) ≡ clean
      → again s n (trim t) ≡ clean
  inner_again n t looks h = subst (λ b. (if b then again s n (trim t) else clean) ≡ clean) looks h

  spent : (t : List ℕ) (j : Json) → s.parse t ≡ some j → again s zero t ≡ clean → ⊥
  unfolding again
  spent t j p h = ground arith

  parsed_clean :
      (n : ℕ) (t : List ℕ) (j : Json)
      → s.parse t ≡ some j
      → again s (suc n) t ≡ clean
      → scan_for s n j ≡ clean
  unfolding again scan_for
  parsed_clean n t j p h = ground arith

  again-parsed :
      (n : ℕ) (t : List ℕ) (j : Json)
      → s.parse t ≡ some j
      → again s n t ≡ clean
      → (m : ℕ) × (scan_for s m j ≡ clean)
  unfolding again scan_for
  again-parsed zero t j p h = absurd (spent t j p h)
  again-parsed (suc n) t j p h = (n, parsed_clean n t j p h)

  scan_for-Fine : {v j : Json} (n : ℕ) → Within s v j → scan_for s n j ≡ clean → Fine v
  unfolding scan_for scan_value
  scan_for-Fine {j} n itself h = value-Fine (again s n) j h
  scan_for-Fine n (in_text {t} {j} looks p w) h =
      let inner = (text_parts (again s n) t h).0 in
      let below = again-parsed n (trim t) j p (inner_again n t looks inner) in
      scan_for-Fine below.0 w below.1
  scan_for-Fine n (in_array {w} m within) h = scan_for-Fine n within (element_clean (again s n) m h)
  scan_for-Fine n (in_object {w} m within) h = scan_for-Fine n within (entry_clean (again s n) m h)

  -- Where a scan is clean, every object within the input, also within what its texts are the JSON of,
  -- has only names that are let through, and in every text no person is detected and no rule fires, or
  -- the first that does is named "".
  pub scan-Fine : (v input : Json) → Within s v input → scan s input ≡ clean → Fine v
  unfolding scan
  scan-Fine v input w h = scan_for-Fine (weight input) w h
