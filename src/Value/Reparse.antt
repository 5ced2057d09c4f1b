-- ===== src/Value/Reparse.antt =====
-- A recursion that goes on in the JSON of texts ends, and is the one that the source writes.
use liop.Common.{
  ℕ, zero, suc, ◌≤◌, ◌<◌, ◌≡◌, ◌≢◌, sym, ◌∙◌, Option, none, some, List, arith, length, Option-cases,
  Bool-cases, inl, inr,
}
use liop.Pii.{trim, looks_like_json}
use liop.Pii.Fuel.{length-trim}
use liop.Value.{
  Value, undefined, null, boolean, number, text, array, object, weight, json_of, reparse, walk,
}

module _ {F : Type 0} where
  pub weight-positive : (v : Value F) → 1 ≤ weight v
  unfolding weight
  weight-positive undefined = omega arith
  weight-positive null = omega arith
  weight-positive (boolean b) = omega arith
  weight-positive (number x) = omega arith
  weight-positive (text t) = omega arith
  weight-positive (array es) = omega arith
  weight-positive (object es) = omega arith

-- `JSON.parse`: each value takes a character of its text at least, and each text two more than it has.
pub record IsParser {F : Type 0} (parse : List ℕ → Option (Value F)) : Type 0 where
  pub fits : (t : List ℕ) (v : Value F) → parse t ≡ some v → weight v ≤ length t

module _ {F : Type 0} (parse : List ℕ → Option (Value F)) (parser : IsParser parse) where
  pub json_of-fits : (t : List ℕ) (v : Value F) → json_of parse t ≡ some v → weight v ≤ length t
  unfolding json_of
  json_of-fits t v h = elim (Bool-cases (looks_like_json (trim t))) [
    | inl looks ↦ ground (arith, parser.fits (trim t) v, length-trim t)
    | inr other ↦ ground arith
  ]

module _ {R : Type 0} (spent : R) where
  -- Two ways to go on with a text that agree, and are not spent, on texts below a length.
  abbrev pub Alike : (List ℕ → R) → (List ℕ → R) → ℕ → Type 0
  Alike f g n = (t : List ℕ) → length t < n → (f t ≡ g t) × (f t ≢ spent)

  -- A step that asks only for texts shorter than the value.
  abbrev pub Steps : {F : Type 0} → ((List ℕ → R) → Value F → R) → Type 0
  Steps {F} step =
      (f g : List ℕ → R) (v : Value F)
      → Alike f g (weight v)
      → (step f v ≡ step g v) × (step f v ≢ spent)

module _ {F R : Type 0} (parse : List ℕ → Option (Value F)) (parser : IsParser parse)
    (plain : List ℕ → R) (spent : R) (step : (List ℕ → R) → Value F → R)
    (rests : (t : List ℕ) → plain t ≢ spent) (steps : Steps spent step) where
  abbrev at : ℕ → List ℕ → R
  at = reparse parse plain spent step

  at_plain : (n : ℕ) (t : List ℕ) → json_of parse t ≡ none → at n t ≡ plain t
  unfolding reparse
  at_plain zero t p = ground arith
  at_plain (suc n) t p = ground arith

  at_json :
      (n : ℕ) (t : List ℕ) (v : Value F) → json_of parse t ≡ some v → at (suc n) t ≡ step (at n) v
  unfolding reparse
  at_json n t v p = ground arith

  plain-Alike :
      (n m : ℕ) (t : List ℕ) → json_of parse t ≡ none → (at n t ≡ at m t) × (at n t ≢ spent)
  plain-Alike n m t p =
      (at_plain n t p ∙ sym (at_plain m t p), λ h. rests t (sym (at_plain n t p) ∙ h))

  json-Alike :
      (n m : ℕ) (t : List ℕ) (v : Value F)
      → json_of parse t ≡ some v
      → length t ≤ n
      → length t ≤ m
      → (at n t ≡ at m t) × (at n t ≢ spent)
  json-Alike zero m t v p hn hm =
      absurd (omega (arith, json_of-fits parse parser t v p, weight-positive v))
  json-Alike (suc n) zero t v p hn hm =
      absurd (omega (arith, json_of-fits parse parser t v p, weight-positive v))
  json-Alike (suc n) (suc m) t v p hn hm =
      let fits = json_of-fits parse parser t v p in
      let same = steps (at n) (at m) v (λ u h. elim (Option-cases (json_of parse u)) [
        | inl nothing ↦ plain-Alike n m u nothing
        | inr (w, q) ↦ json-Alike n m u w q (omega arith) (omega arith)
      ]) in
      (at_json n t v p ∙ (same.0 ∙ sym (at_json m t v p)), λ h. same.1 (sym (at_json n t v p) ∙ h))

  pub reparse-Alike :
      (n m : ℕ) (t : List ℕ) → length t ≤ n → length t ≤ m → (at n t ≡ at m t) × (at n t ≢ spent)
  reparse-Alike n m t hn hm = elim (Option-cases (json_of parse t)) [
    | inl nothing ↦ plain-Alike n m t nothing
    | inr (v, p) ↦ json-Alike n m t v p hn hm
  ]

  -- The walk with any fuel from the weight on.
  pub walk-enough :
      (n : ℕ) (v : Value F)
      → weight v ≤ n
      → (walk parse plain spent step v ≡ step (at n) v) × (walk parse plain spent step v ≢ spent)
  unfolding walk
  walk-enough n v enough =
      steps (at (weight v)) (at n) v
        (λ t h. reparse-Alike (weight v) n t (omega arith) (omega arith))

  -- The text of a value is as the value.
  pub reparse-walk :
      (n : ℕ) (t : List ℕ) (v : Value F)
      → json_of parse t ≡ some v
      → length t ≤ n
      → at n t ≡ walk parse plain spent step v
  reparse-walk zero t v p hn =
      absurd (omega (arith, json_of-fits parse parser t v p, weight-positive v))
  reparse-walk (suc n) t v p hn = elim (Option-cases (json_of parse t)) [
    | inl nothing ↦ cc
    | inr (w, q) ↦
        at_json n t v p
        ∙ (steps (at n) (at (suc n)) v (λ u h.
            reparse-Alike n (suc n) u (omega (arith, json_of-fits parse parser t v p))
              (omega (arith, json_of-fits parse parser t v p)))).0
        ∙ sym (walk-enough (suc n) v (omega (arith, json_of-fits parse parser t v p))).0
  ]
