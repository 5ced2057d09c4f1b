-- ===== src/Sanitizer/Clamped.antt =====
-- What is in an output that is sanitized.
use liop.Common.{ℕ, ◌≡◌, ◌⊎◌, refl, true, false, coalesce_to, arith, Bool-cases, inl, inr}
use liop.Value.{
  Value, Elements, Entries, undefined, null, boolean, number, text, array, object, no_elements,
  element, no_entries, entry, forget, forget_elements, forget_entries,
}
use liop.Sanitizer.{
  Decimals, OutputSanitizerConfig, sanitize_number, sanitize_output, sanitize_elements,
  sanitize_entries,
}

-- Rounding makes no negative number out of one that is not.
pub record Rounds {F : Type 0} (d : Decimals F) : Type 0 where
  pub round_sign :
      (n : ℕ) (x : F) → d.is_negative x ≡ false → d.is_negative (d.round_to n x) ≡ false
  pub zero_sign : d.is_negative d.zero ≡ false

-- The numbers in a value are not negative, but for those that are not finite.
module _ {F : Type 0} (d : Decimals F) where
  abbrev mutual
    pub NonNegative : Value F → Type 0
    NonNegative undefined = Unit
    NonNegative null = Unit
    NonNegative (boolean b) = Unit
    NonNegative (number x) = (d.is_finite x ≡ false) ⊎ (d.is_negative x ≡ false)
    NonNegative (text t) = Unit
    NonNegative (array es) = NonNegativeElements es
    NonNegative (object es) = NonNegativeEntries es

    NonNegativeElements : Elements F → Type 0
    NonNegativeElements no_elements = Unit
    NonNegativeElements (element v es) = NonNegative v × NonNegativeElements es

    NonNegativeEntries : Entries F → Type 0
    NonNegativeEntries no_entries = Unit
    NonNegativeEntries (entry k v es) = NonNegative v × NonNegativeEntries es

module _ {F : Type 0} (d : Decimals F) (config : OutputSanitizerConfig) where
  mutual
    unfolding sanitize_output forget

    pub forget-sanitize_output : (v : Value F) → forget (sanitize_output d config v) ≡ forget v
    forget-sanitize_output undefined = refl
    forget-sanitize_output null = refl
    forget-sanitize_output (boolean b) = refl
    forget-sanitize_output (number x) = refl
    forget-sanitize_output (text t) = refl
    forget-sanitize_output (array es) = cc (forget-sanitize_elements es)
    forget-sanitize_output (object es) = cc (forget-sanitize_entries es)

    forget-sanitize_elements :
        (es : Elements F) → forget_elements (sanitize_elements d config es) ≡ forget_elements es
    forget-sanitize_elements no_elements = refl
    forget-sanitize_elements (element v es) =
        cc (forget-sanitize_output v, forget-sanitize_elements es)

    forget-sanitize_entries :
        (es : Entries F) → forget_entries (sanitize_entries d config es) ≡ forget_entries es
    forget-sanitize_entries no_entries = refl
    forget-sanitize_entries (entry k v es) =
        cc (forget-sanitize_output v, forget-sanitize_entries es)

  module _ (rounds : Rounds d) (clamps : coalesce_to config.clamp_non_negative true ≡ true) where
    number-NonNegative :
        (x : F)
        → (d.is_finite (sanitize_number d config x) ≡ false)
          ⊎ (d.is_negative (sanitize_number d config x) ≡ false)
    unfolding sanitize_number
    number-NonNegative x = elim (Bool-cases (d.is_finite x)) [
      | inr other ↦ inl (ground arith)
      | inl finite ↦ inr (
          ground (
            arith,
            rounds.round_sign (coalesce_to config.max_decimal_places 4) x,
            rounds.round_sign (coalesce_to config.max_decimal_places 4) d.zero,
            rounds.zero_sign,
          ))
    ]

    mutual
      unfolding sanitize_output

      output-NonNegative : (v : Value F) → NonNegative d (sanitize_output d config v)
      output-NonNegative undefined = tt
      output-NonNegative null = tt
      output-NonNegative (boolean b) = tt
      output-NonNegative (number x) = number-NonNegative x
      output-NonNegative (text t) = tt
      output-NonNegative (array es) = elements-NonNegative es
      output-NonNegative (object es) = entries-NonNegative es

      elements-NonNegative :
          (es : Elements F) → NonNegativeElements d (sanitize_elements d config es)
      elements-NonNegative no_elements = tt
      elements-NonNegative (element v es) = (output-NonNegative v, elements-NonNegative es)

      entries-NonNegative : (es : Entries F) → NonNegativeEntries d (sanitize_entries d config es)
      entries-NonNegative no_entries = tt
      entries-NonNegative (entry k v es) = (output-NonNegative v, entries-NonNegative es)

    -- Where the configuration clamps, no finite number of the result is negative; the texts, the names
    -- and the shape of the result are those of the output.
    pub sanitize_output-NonNegative :
        (v : Value F)
        → NonNegative d (sanitize_output d config v)
          × (forget (sanitize_output d config v) ≡ forget v)
    sanitize_output-NonNegative v = (output-NonNegative v, forget-sanitize_output v)
