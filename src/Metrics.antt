-- ===== src/Metrics.antt =====
-- The metrics of sdks/typescript/src/observability/metrics.ts. Amounts are integers where the source
-- takes any number and natural numbers where it only adds them up. What the engine does is the
-- parameter `Engine`: the sort of label entries by `localeCompare` and `String(n)` of a number.
pub mod Counting
pub mod Keys
mod Tests
use Prim.Native.Char.{Char, code}
use Prim.Native.String
use liop.Common.{
  ℕ, ◌+◌, ◌-◌, String, Bool, true, false, Option, none, some, List, [], ◌∷◌, ◌++◌, if◌then◌else◌,
  leb, eqb, ◌==◌, number_equality, text_equality, map, coalesce_to,
}
use liop.Common.Dict
use liop.Common.Dict.{Dict}
use liop.Common.Int.{ℤ, pos, negsuc, ◌+ℤ◌, ◌-ℤ◌}
use liop.Common.Text.{◌+++◌, join}

-- `Object.entries(labels)`, the values as `String(v)` gives them.
abbrev pub Labels : Type 0
Labels = List (String × String)

pub record Engine : Type 0 where
  pub sort_entries : Labels → Labels
  pub show : ℤ → String

-- `s.replace(/"/g, '\\"')`
unfoldable pub escape : String → String
escape String.[] = ""
escape (String.◌∷◌ c s) =
    let rest = escape s in if eqb (code c) b'"' then "\\\"" +++ rest else String.◌∷◌ c rest

module _ (g : Engine) where
  unfoldable pub format_labels : Option Labels → String
  format_labels none = ""
  format_labels (some []) = ""
  format_labels (some (l ∷ ls)) =
      "{"
      +++ join "," (map (λ e. e.0 +++ "=\"" +++ escape e.1 +++ "\"") (g.sort_entries (l ∷ ls)))
      +++ "}"

  unfoldable pub labels_to_key : Option Labels → String
  labels_to_key none = ""
  labels_to_key (some ls) = join "|" (map (λ e. e.0 +++ ":" +++ e.1) (g.sort_entries ls))

pub record Sample (N : Type 0) : Type 0 where
  pub value : N
  pub labels : Option Labels

-- `Counter`, whose values are never negative, and `Gauge`.
pub record Counter : Type 0 where
  pub name : String
  pub help : String
  pub values : Dict String (Sample ℕ)

pub record Gauge : Type 0 where
  pub name : String
  pub help : String
  pub values : Dict String (Sample ℤ)

-- The arguments of `set(value)` and `set(labels, value)`.
pub data SetArgs : Type 0 where
  bare : ℤ → SetArgs
  labelled : Labels → Option ℤ → SetArgs

-- `throw new Error("Counter increments must be non-negative")`
pub data Result {ℓ} (A : Type ℓ) : Type ℓ where
  done : A → Result A
  negative_increment : Result A

abbrev pub sample_or {ℓ} : {A : Type ℓ} → Option A → A → A
sample_or none d = d
sample_or (some s) d = s

module _ (g : Engine) where
  unfoldable pub add_to : Option Labels → ℕ → Counter → Counter
  add_to labels n c =
      let key = labels_to_key g labels in
      let current : Sample ℕ =
        sample_or (Dict.get key c.values) (record { value = 0; labels = labels }) in
      record c { values = Dict.set key (record current { value = current.value + n }) c.values }

  unfoldable pub inc : Option Labels → ℤ → Counter → Result Counter
  unfolding add_to
  inc labels (negsuc n) c = negative_increment
  inc labels (pos n) c = done (add_to labels n c)

  abbrev value_or_zero : Option (Sample ℕ) → ℕ
  value_or_zero none = 0
  value_or_zero (some s) = s.value

  unfoldable pub get : Option Labels → Counter → ℕ
  get labels c = value_or_zero (Dict.get (labels_to_key g labels) c.values)

  abbrev pub reset : Counter → Counter
  reset c = record c { values = [] }

  -- The lines of a counter's or a gauge's samples.
  abbrev sample_lines {ℓ} :
      {N : Type ℓ} → String → (N → String) → List (String × Option Labels × N) → List String
  sample_lines name show [] = []
  sample_lines name show ((k, labels, n) ∷ rest) =
      (name +++ format_labels g labels +++ " " +++ show n) ∷ sample_lines name show rest

  abbrev plain : {N : Type 0} → Dict String (Sample N) → List (String × Option Labels × N)
  plain [] = []
  plain ((k, s) ∷ m) = (k, s.labels, s.value) ∷ plain m

  abbrev or_zero_line : String → List String → List String
  or_zero_line name [] = (name +++ " 0") ∷ []
  or_zero_line name (l ∷ ls) = l ∷ ls

  -- `toPrometheus` of a counter: the two head lines, then a line for each sample, or a zero.
  unfoldable pub counter_to_prometheus : Counter → List String
  counter_to_prometheus c =
      ("# HELP " +++ c.name +++ " " +++ c.help)
      ∷ ("# TYPE " +++ c.name +++ " counter")
      ∷ or_zero_line c.name (sample_lines c.name (λ n. g.show (pos n)) (plain c.values))

  unfoldable pub gauge_set : SetArgs → Gauge → Gauge
  gauge_set (bare n) c = record c {
    values = Dict.set "" (record { value = n; labels = none }) c.values;
  }
  gauge_set (labelled labels n) c = record c {
    values =
        Dict.set (labels_to_key g (some labels))
          (record { value = coalesce_to n (pos 0); labels = some labels }) c.values;
  }

  abbrev pub gauge_change : (ℤ → ℤ) → Option Labels → Gauge → Gauge
  gauge_change f labels c =
      let key = labels_to_key g labels in
      let current : Sample ℤ =
        sample_or (Dict.get key c.values) (record { value = pos 0; labels = labels }) in
      record c { values = Dict.set key (record current { value = f current.value }) c.values }

  unfoldable pub gauge_inc : Option Labels → ℤ → Gauge → Gauge
  gauge_inc labels n c = gauge_change (λ v. v +ℤ n) labels c

  unfoldable pub gauge_dec : Option Labels → ℤ → Gauge → Gauge
  gauge_dec labels n c = gauge_change (λ v. v -ℤ n) labels c

  abbrev gauge_value : Option (Sample ℤ) → ℤ
  gauge_value none = pos 0
  gauge_value (some s) = s.value

  unfoldable pub gauge_get : Option Labels → Gauge → ℤ
  gauge_get labels c = gauge_value (Dict.get (labels_to_key g labels) c.values)

  abbrev pub gauge_reset : Gauge → Gauge
  gauge_reset c = record c { values = [] }

  unfoldable pub gauge_to_prometheus : Gauge → List String
  gauge_to_prometheus c =
      ("# HELP " +++ c.name +++ " " +++ c.help)
      ∷ ("# TYPE " +++ c.name +++ " gauge")
      ∷ or_zero_line c.name (sample_lines c.name g.show (plain c.values))
