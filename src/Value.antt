-- ===== src/Value.antt =====
-- The values that tools answer with, their JSON texts, and the way the server reads a text that may be
-- the JSON of a value (`parseUnknownJson` of sdks/typescript/src/server/index.ts). Numbers are the
-- parameter `F`, and JSON.parse is one. Values are trees.
pub mod Reparse
use liop.Common.{ℕ, zero, suc, ◌+◌, Bool, Option, none, some, List, [], ◌∷◌, if◌then◌else◌, length}
use liop.Common.Bytes.{bytes_eq}
use liop.Pii.{Json, scalar, trim, looks_like_json}
use liop.Pii

mutual
  pub data Value (F : Type 0) : Type 0 where
    undefined : Value F
    null : Value F
    boolean : Bool → Value F
    number : F → Value F
    text : List ℕ → Value F
    array : Elements F → Value F
    object : Entries F → Value F

  pub data Elements (F : Type 0) : Type 0 where
    no_elements : Elements F
    element : Value F → Elements F → Elements F

  pub data Entries (F : Type 0) : Type 0 where
    no_entries : Entries F
    entry : List ℕ → Value F → Entries F → Entries F

module _ {F : Type 0} where
  -- A lower bound for the length of a JSON text of the value.
  unfoldable mutual
    pub weight : Value F → ℕ
    weight undefined = 1
    weight null = 1
    weight (boolean b) = 1
    weight (number x) = 1
    weight (text t) = 2 + length t
    weight (array es) = suc (weight_elements es)
    weight (object es) = suc (weight_entries es)

    pub weight_elements : Elements F → ℕ
    weight_elements no_elements = 1
    weight_elements (element v es) = weight v + weight_elements es

    pub weight_entries : Entries F → ℕ
    weight_entries no_entries = 1
    weight_entries (entry k v es) = weight v + weight_entries es

  -- The value as the scanner for personal data sees it.
  unfoldable mutual
    pub forget : Value F → Json
    forget undefined = scalar
    forget null = scalar
    forget (boolean b) = scalar
    forget (number x) = scalar
    forget (text t) = Pii.text t
    forget (array es) = Pii.array (forget_elements es)
    forget (object es) = Pii.object (forget_entries es)

    pub forget_elements : Elements F → Pii.Elements
    forget_elements no_elements = Pii.no_elements
    forget_elements (element v es) = Pii.element (forget v) (forget_elements es)

    pub forget_entries : Entries F → Pii.Entries
    forget_entries no_entries = Pii.no_entries
    forget_entries (entry k v es) = Pii.entry k (forget v) (forget_entries es)

  -- `Object.keys(o).length`, `a.length`
  abbrev pub count_entries : Entries F → ℕ
  count_entries no_entries = 0
  count_entries (entry k v es) = suc (count_entries es)

  abbrev pub count_elements : Elements F → ℕ
  count_elements no_elements = 0
  count_elements (element v es) = suc (count_elements es)

  -- `o[name]`
  unfoldable pub field : List ℕ → Entries F → Option (Value F)
  field name no_entries = none
  field name (entry k v es) = if bytes_eq k name then some v else field name es

  module _ (parse : List ℕ → Option (Value F)) where
    -- The value that a text with braces or brackets around it is the JSON of.
    unfoldable pub json_of : List ℕ → Option (Value F)
    json_of t = if looks_like_json (trim t) then parse (trim t) else none

    abbrev pub or_text : List ℕ → Option (Value F) → Value F
    or_text t none = text t
    or_text t (some v) = v

    unfoldable pub parse_unknown_json : Value F → Value F
    unfolding json_of
    parse_unknown_json (text t) = or_text t (json_of t)
    parse_unknown_json undefined = undefined
    parse_unknown_json null = null
    parse_unknown_json (boolean b) = boolean b
    parse_unknown_json (number x) = number x
    parse_unknown_json (array es) = array es
    parse_unknown_json (object es) = object es

    -- A recursion through values, by `step`, that goes on in the JSON of texts: `plain` is the result for
    -- a text that is no JSON, `spent` the one where the fuel is out.
    module _ {R : Type 0} (plain : List ℕ → R) (spent : R) (step : (List ℕ → R) → Value F → R) where
      unfoldable pub reparse : ℕ → List ℕ → R
      unfolding json_of
      reparse zero t = elim (json_of t) [ none ↦ plain t | some v ↦ spent ]
      reparse (suc n) t = elim (json_of t) [ none ↦ plain t | some v ↦ step (reparse n) v ]

      -- With fuel enough for every text in the value.
      unfoldable pub walk : Value F → R
      unfolding reparse weight
      walk v = step (reparse (weight v)) v
