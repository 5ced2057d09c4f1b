-- ===== src/Pii/Fuel.antt =====
-- The scan of texts within texts ends.
use liop.Common.{
  ℕ, zero, suc, ◌+◌, ◌≤◌, ◌<◌, ◌≡◌, ◌≢◌, refl, sym, ◌∙◌, ap, Bool, true, false, Option, none, some,
  List, [], ◌∷◌, if◌then◌else◌, arith, length, Option-cases, inl, inr,
}
use mathlib.Core.Path.{subst}
use liop.Validators.{reverse_onto}
use liop.ForbiddenKeys.{KeyViolation, check_key}
use liop.Pii.{
  Json, scalar, text, array, object, Elements, element, no_elements, Entries, entry, no_entries,
  Scanned, clean, found, out_of_fuel, and_then, PiiScanner, drop_spaces, trim, looks_like_json,
  check_string, scan_content, by_key, scan_value, scan_elements, scan_entries, again, scan_for,
  scan, weight, weight_elements, weight_entries,
}

length-drop_spaces : (t : List ℕ) → length (drop_spaces t) ≤ length t
unfolding drop_spaces
length-drop_spaces [] = omega arith
length-drop_spaces (c ∷ cs) = ground (arith, length-drop_spaces cs)

length-reverse_onto : (acc t : List ℕ) → length (reverse_onto acc t) ≡ length acc + length t
length-reverse_onto acc [] = omega arith
length-reverse_onto acc (c ∷ cs) = omega (arith, length-reverse_onto (c ∷ acc) cs)

pub length-trim : (t : List ℕ) → length (trim t) ≤ length t
unfolding trim
length-trim t =
    let front = drop_spaces t in
    let back = drop_spaces (reverse_onto [] front) in
    omega (
      arith,
      length-drop_spaces t,
      length-reverse_onto [] front,
      length-drop_spaces (reverse_onto [] front),
      length-reverse_onto [] back,
    )

weight-positive : (j : Json) → 1 ≤ weight j
unfolding weight
weight-positive scalar = omega arith
weight-positive (text t) = omega arith
weight-positive (array es) = omega arith
weight-positive (object es) = omega arith

-- `JSON.parse`: each value takes a character of its text at least, and each text two more than it has.
pub record IsParser (s : PiiScanner) : Type 0 where
  pub fits : (t : List ℕ) (j : Json) → s.parse t ≡ some j → weight j ≤ length t

module _ (s : PiiScanner) where
  content_ends : (t : List ℕ) → scan_content s t ≢ out_of_fuel
  unfolding scan_content
  content_ends t h = elim (Option-cases (check_string s.patterns t)) [
    | inl silent ↦ elim (Option-cases (s.person t)) [
      | inl nobody ↦ ground arith
      | inr who ↦ ground arith
    ]
    | inr ([], e) ↦ elim (Option-cases (s.person t)) [
      | inl nobody ↦ ground arith
      | inr who ↦ ground arith
    ]
    | inr (c ∷ cs, e) ↦ ground arith
  ]

  and_then_ends : (a b : Scanned) → a ≢ out_of_fuel → b ≢ out_of_fuel → and_then a b ≢ out_of_fuel
  and_then_ends clean b ha hb = hb
  and_then_ends (found v) b ha hb = λ h. cc
  and_then_ends out_of_fuel b ha hb = λ h. ha refl

  by_key_ends :
      (o : Option KeyViolation) (rest : Scanned)
      → rest ≢ out_of_fuel
      → by_key s o rest ≢ out_of_fuel
  by_key_ends none rest h = h
  by_key_ends (some v) rest h = λ e. cc

  branch_ends : (b : Bool) (r : Scanned) → r ≢ out_of_fuel → (if b then r else clean) ≢ out_of_fuel
  branch_ends true r h = h
  branch_ends false r h = λ e. cc

  -- Two ways to go on with a text that agree, and end, on texts below a length.
  abbrev Alike : (List ℕ → Scanned) → (List ℕ → Scanned) → ℕ → Type 0
  Alike f g n = (t : List ℕ) → length t < n → (f t ≡ g t) × (f t ≢ out_of_fuel)

  module _ (f g : List ℕ → Scanned) where
    text-Alike :
        (t : List ℕ)
        → Alike f g (weight (text t))
        → (scan_value s f (text t) ≡ scan_value s g (text t))
          × (scan_value s f (text t) ≢ out_of_fuel)
    unfolding scan_value weight
    text-Alike t alike =
        let inner = alike (trim t) (omega (arith, length-trim t)) in
        (
          ap (λ r. and_then (if looks_like_json (trim t) then r else clean) (scan_content s t))
              inner.0,
          and_then_ends (if looks_like_json (trim t) then f (trim t) else clean) (scan_content s t)
              (branch_ends (looks_like_json (trim t)) (f (trim t)) inner.1) (content_ends t),
        )

    mutual
      unfolding scan_value weight

      value-Alike :
          (v : Json)
          → Alike f g (weight v)
          → (scan_value s f v ≡ scan_value s g v) × (scan_value s f v ≢ out_of_fuel)
      value-Alike scalar alike = (refl, λ h. cc)
      value-Alike (text t) alike = text-Alike t alike
      value-Alike (array es) alike = elements-Alike es (λ t h. alike t (omega arith))
      value-Alike (object es) alike = entries-Alike es (λ t h. alike t (omega arith))

      elements-Alike :
          (es : Elements)
          → Alike f g (weight_elements es)
          → (scan_elements s f es ≡ scan_elements s g es) × (scan_elements s f es ≢ out_of_fuel)
      elements-Alike no_elements alike = (refl, λ h. cc)
      elements-Alike (element v es) alike =
          let one = value-Alike v (λ t h. alike t (omega arith)) in
          let rest = elements-Alike es (λ t h. alike t (omega arith)) in
          (cc (one.0, rest.0), and_then_ends (scan_value s f v) (scan_elements s f es) one.1 rest.1)

      entries-Alike :
          (es : Entries)
          → Alike f g (weight_entries es)
          → (scan_entries s f es ≡ scan_entries s g es) × (scan_entries s f es ≢ out_of_fuel)
      entries-Alike no_entries alike = (refl, λ h. cc)
      entries-Alike (entry k v es) alike =
          let one = value-Alike v (λ t h. alike t (omega arith)) in
          let rest = entries-Alike es (λ t h. alike t (omega arith)) in
          let both = and_then (scan_value s f v) (scan_entries s f es) in
          (
            cc (one.0, rest.0),
            by_key_ends (check_key s.forbidden k) both
                (and_then_ends (scan_value s f v) (scan_entries s f es) one.1 rest.1),
          )

  module _ (parser : IsParser s) where
    again_nothing :
        (n m : ℕ) (t : List ℕ)
        → s.parse t ≡ none
        → (again s n t ≡ again s m t) × (again s n t ≢ out_of_fuel)
    unfolding again
    again_nothing zero zero t p = (refl, ground arith)
    again_nothing zero (suc m) t p = (ground arith, ground arith)
    again_nothing (suc n) zero t p = (ground arith, ground arith)
    again_nothing (suc n) (suc m) t p = (ground arith, ground arith)

    again-value :
        (n : ℕ) (t : List ℕ) (j : Json)
        → s.parse t ≡ some j
        → again s (suc n) t ≡ scan_value s (again s n) j
    unfolding again
    again-value n t j p = ground arith

    parsed-Alike :
        (n m : ℕ) (t : List ℕ) (j : Json)
        → s.parse t ≡ some j
        → length t ≤ n
        → length t ≤ m
        → (again s n t ≡ again s m t) × (again s n t ≢ out_of_fuel)
    parsed-Alike (suc n) (suc m) t j p hn hm =
        let fits = parser.fits t j p in
        let same = value-Alike (again s n) (again s m) j (λ u h. elim (Option-cases (s.parse u)) [
          | inl nothing ↦ again_nothing n m u nothing
          | inr (k, q) ↦ parsed-Alike n m u k q (omega arith) (omega arith)
        ]) in
        (
          again-value n t j p ∙ (same.0 ∙ sym (again-value m t j p)),
          subst (λ r. r ≢ out_of_fuel) (sym (again-value n t j p)) same.1,
        )
    parsed-Alike zero m t j p hn hm = absurd (omega (arith, parser.fits t j p, weight-positive j))
    parsed-Alike (suc n) zero t j p hn hm =
        absurd (omega (arith, parser.fits t j p, weight-positive j))

    again-Alike :
        (n m : ℕ) (t : List ℕ)
        → length t ≤ n
        → length t ≤ m
        → (again s n t ≡ again s m t) × (again s n t ≢ out_of_fuel)
    again-Alike n m t hn hm = elim (Option-cases (s.parse t)) [
      | inl nothing ↦ again_nothing n m t nothing
      | inr (j, p) ↦ parsed-Alike n m t j p hn hm
    ]

    -- With fuel of the weight of the input or more, the scan does not run out, and its result is that of
    -- `scan`.
    pub scan_for-scan :
        (n : ℕ) (v : Json) → weight v ≤ n → (scan_for s n v ≡ scan s v) × (scan s v ≢ out_of_fuel)
    unfolding scan_for scan
    scan_for-scan n v enough =
        let same =
          value-Alike (again s (weight v)) (again s n) v
            (λ t h. again-Alike (weight v) n t (omega arith) (omega arith)) in
        (sym same.0, same.1)
