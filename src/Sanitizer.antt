-- ===== src/Sanitizer.antt =====
-- The rounding and clamping of outputs (sdks/typescript/src/server/output-sanitizer.ts). The arithmetic
-- of floating-point numbers is the parameter `Decimals`. Values are trees, in which no object stands
-- twice; `Shared` has those in which one may.
pub mod Clamped
pub mod Shared
mod Tests
use liop.Common.{ℕ, Bool, true, false, ◌&&◌, Option, none, some, if◌then◌else◌, coalesce_to, List}
use liop.Value.{
  Value, Elements, Entries, undefined, null, boolean, number, text, array, object, no_elements,
  element, no_entries, entry,
}

pub record Decimals (F : Type 0) : Type 0 where
  pub zero : F
  pub is_finite : F → Bool
  pub is_negative : F → Bool
  -- `Math.round(x * 10 ** n) / 10 ** n`
  pub round_to : ℕ → F → F

pub record OutputSanitizerConfig : Type 0 where
  pub max_decimal_places : Option ℕ
  pub clamp_non_negative : Option Bool

abbrev pub default_config : OutputSanitizerConfig
default_config = record { max_decimal_places = some 4; clamp_non_negative = some true }

module _ {F : Type 0} (d : Decimals F) (config : OutputSanitizerConfig) where
  abbrev pub clamp : F → F
  clamp x = if coalesce_to config.clamp_non_negative true && d.is_negative x then d.zero else x

  unfoldable pub sanitize_number : F → F
  sanitize_number x =
      if d.is_finite x then d.round_to (coalesce_to config.max_decimal_places 4) (clamp x) else x

  unfoldable mutual
    unfolding sanitize_number

    pub sanitize_output : Value F → Value F
    sanitize_output undefined = undefined
    sanitize_output null = null
    sanitize_output (boolean b) = boolean b
    sanitize_output (number x) = number (sanitize_number x)
    sanitize_output (text t) = text t
    sanitize_output (array es) = array (sanitize_elements es)
    sanitize_output (object es) = object (sanitize_entries es)

    pub sanitize_elements : Elements F → Elements F
    sanitize_elements no_elements = no_elements
    sanitize_elements (element v es) = element (sanitize_output v) (sanitize_elements es)

    pub sanitize_entries : Entries F → Entries F
    sanitize_entries no_entries = no_entries
    sanitize_entries (entry k v es) = entry k (sanitize_output v) (sanitize_entries es)
