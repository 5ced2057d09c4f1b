-- ===== src/Privacy.antt =====
-- Noise over the numbers of an output (sdks/typescript/src/security/dp-engine.ts). The arithmetic of
-- floating-point numbers is the parameter `Numbers`; a sample of the Laplace distribution takes and
-- returns the state of its source, that of `PrngState` or of the system. Names of fields are ASCII texts.
pub mod Walk
pub mod Names
mod Tests
use liop.Common.{
  ℕ, ◌≡◌, String, Bool, true, false, not, ◌&&◌, ◌||◌, Option, none, some, List, [], ◌∷◌, ◌++◌,
  if◌then◌else◌, ltb, leb, any, drop, coalesce_to,
}
use liop.Common.Bytes.{bytes_eq, contains, is_prefix}
use liop.Common.Text.{codes, words}
use liop.Validators.{lower, map_codes}

pub record Numbers (F S : Type 0) : Type 0 where
  pub zero : F
  pub one : F
  pub same : F → F → Bool
  pub below : F → F → Bool
  -- `x >= 0`
  pub non_negative : F → Bool
  pub is_integer : F → Bool
  pub is_finite : F → Bool
  -- `Math.round(x)`, `Math.max(0, x)` and `Math.round(x * 10000) / 10000`
  pub round : F → F
  pub max_zero : F → F
  pub round_decimals : F → F
  pub plus : F → F → F
  pub divide : F → F → F
  pub of_count : ℕ → F
  -- `laplaceSample(scale, prngState)`, and where its source starts.
  pub laplace_sample : F → S → F × S
  pub seeded : List ℕ → S
  pub system : S

-- A configuration merged with the defaults, of which `threshold` is `smallDatasetThreshold`.
pub record DpConfig (F : Type 0) : Type 0 where
  pub epsilon : F
  pub sensitivity : F
  pub threshold : ℕ
  pub seed : List ℕ

-- An output: `leaf` is a text, a Boolean, null or a number that is not finite.
mutual
  pub data Output (F : Type 0) : Type 0 where
    number : F → Output F
    leaf : String → Output F
    array : Items F → Output F
    object : Fields F → Output F

  pub data Items (F : Type 0) : Type 0 where
    no_items : Items F
    item : Output F → Items F → Items F

  pub data Fields (F : Type 0) : Type 0 where
    no_fields : Fields F
    field : List ℕ → Output F → Fields F → Fields F

abbrev pub count_words : List (List ℕ)
count_words = words (
    "count" ∷ "length" ∷ "size" ∷ "num" ∷ "gainer" ∷ "loser" ∷ "positive" ∷ "negative" ∷ "nan_"
    ∷ "null_" ∷ "empty_" ∷ "finite_" ∷ "non_finite_" ∷ "instruments" ∷ "tickers" ∷ "users"
    ∷ "records" ∷ [])

abbrev pub average_words : List (List ℕ)
average_words = words (
    "avg" ∷ "mean" ∷ "average" ∷ "var" ∷ "variance" ∷ "std" ∷ "stddev" ∷ "ratio" ∷ "bps" ∷ "drift"
    ∷ "pct" ∷ "percent" ∷ "imbalance" ∷ [])

abbrev pub has_any : List (List ℕ) → List ℕ → Bool
has_any ts key = any (λ t. contains t key) ts

-- `/total.*(count|items|entries|rows|records|tickers)/`
unfoldable pub total_of_count : List ℕ → Bool
total_of_count [] = false
total_of_count (c ∷ cs) =
    (is_prefix (codes "total") (c ∷ cs)
      && has_any (words ("count" ∷ "items" ∷ "entries" ∷ "rows" ∷ "records" ∷ "tickers" ∷ []))
          (drop 4 cs))
    || total_of_count cs

abbrev pub is_total_count : List ℕ → Bool
is_total_count lk =
    bytes_eq lk (codes "total")
    || bytes_eq lk (codes "n")
    || bytes_eq lk (codes "total_records")
    || is_prefix (codes "total_") lk
    || is_prefix (codes "num_") lk
    || total_of_count lk

abbrev pub is_count_name : List ℕ → Bool
is_count_name lk = has_any count_words lk || is_total_count lk

abbrev epsilon_floor_threshold : ℕ
epsilon_floor_threshold = 10

module _ {F S : Type 0} (n : Numbers F S) where
  abbrev of_name : List ℕ → F → ℕ → F
  of_name lk global count =
      if is_count_name lk
      then n.one
      else if has_any average_words lk && ltb 0 count
      then n.divide global (n.of_count count)
      else global

  unfoldable pub derive_field_sensitivity : Option (List ℕ) → F → ℕ → F
  unfolding total_of_count
  derive_field_sensitivity none global count = global
  derive_field_sensitivity (some []) global count = global
  derive_field_sensitivity (some (c ∷ cs)) global count =
      of_name (map_codes lower (c ∷ cs)) global count

  -- With the scale `sensitivity / epsilon`.
  abbrev pub add_laplace_noise : F → F → F → S → F × S
  add_laplace_noise value sensitivity epsilon s =
      let drawn = n.laplace_sample (n.divide sensitivity epsilon) s in
      (n.round_decimals (n.plus value drawn.0), drawn.1)

  -- `currentKey != null && deriveFieldSensitivity(…) === 1`
  abbrev pub is_count_key : DpConfig F → ℕ → Option (List ℕ) → Bool
  is_count_key config count none = false
  is_count_key config count (some key) =
      n.same (derive_field_sensitivity (some key) config.sensitivity count) n.one

  abbrev pub settle_integer : Bool → F → F
  settle_integer forced noisy = if forced then n.round noisy else noisy

  abbrev pub settle_sign : Bool → F → F
  settle_sign positive noisy = if positive then n.max_zero noisy else noisy

  unfoldable pub noise_number : DpConfig F → ℕ → Option (List ℕ) → F → S → F × S
  unfolding derive_field_sensitivity
  noise_number config count key node s =
      let noisy =
        add_laplace_noise node (derive_field_sensitivity key config.sensitivity count)
          config.epsilon s in
      (
        settle_sign (n.non_negative node)
            (settle_integer (n.is_integer node || is_count_key config count key) noisy.0),
        noisy.1,
      )

  unfoldable mutual
    unfolding noise_number

    pub walk_and_noise : DpConfig F → ℕ → Option (List ℕ) → Output F → S → Output F × S
    walk_and_noise config count key (number x) s =
        let noisy = noise_number config count key x s in (number noisy.0, noisy.1)
    walk_and_noise config count key (leaf t) s = (leaf t, s)
    walk_and_noise config count key (array xs) s =
        let rest = walk_items config count key xs s in (array rest.0, rest.1)
    walk_and_noise config count key (object fs) s =
        let rest = walk_fields config count fs s in (object rest.0, rest.1)

    pub walk_items : DpConfig F → ℕ → Option (List ℕ) → Items F → S → Items F × S
    walk_items config count key no_items s = (no_items, s)
    walk_items config count key (item x xs) s =
        let one = walk_and_noise config count key x s in
        let rest = walk_items config count key xs one.1 in (item one.0 rest.0, rest.1)

    pub walk_fields : DpConfig F → ℕ → Fields F → S → Fields F × S
    walk_fields config count no_fields s = (no_fields, s)
    walk_fields config count (field k v fs) s =
        let one = walk_and_noise config count (some k) v s in
        let rest = walk_fields config count fs one.1 in (field k one.0 rest.0, rest.1)

  abbrev floored : DpConfig F → ℕ → DpConfig F
  floored config count =
      if ltb count epsilon_floor_threshold && n.below config.epsilon n.one
      then record config { epsilon = n.one }
      else config

  abbrev source_of : List ℕ → S
  source_of [] = n.system
  source_of (c ∷ cs) = n.seeded (c ∷ cs)

  unfoldable pub apply_dp_to_output : Output F → DpConfig F → ℕ → Output F
  unfolding walk_and_noise
  apply_dp_to_output output config count =
      let noisy = walk_and_noise (floored config count) count none output (source_of config.seed) in
      if leb config.threshold count then output else noisy.0
