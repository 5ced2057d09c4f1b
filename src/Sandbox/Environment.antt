-- ===== src/Sandbox/Environment.antt =====
-- Where the variables of the sandbox come from.
use liop.Common.{
  ℕ, ◌≡◌, ◌⊎◌, inl, inr, refl, String, Bool, true, false, Option, none, some, List, [], ◌∷◌,
  if◌then◌else◌, arith, includes, text_equality, eq_iff, Bool-cases,
}
use mathlib.Core.Path.{subst}
use liop.Common.Dict
use liop.Common.Dict.{Dict, get-set}
use liop.Sandbox.{safe_keys, is_function, copy, copy_all, base_environment, get_default_environment}

module _ (process : String → Option (List ℕ)) (key : String) (value : List ℕ) where
  -- A variable of the process that may be passed on.
  abbrev pub Passed : List String → Type 0
  Passed keys =
      (includes keys key ≡ true) × (process key ≡ some value) × (is_function value ≡ false)

  copy_value :
      (k : String) (o : Option (List ℕ)) (env : Dict String (List ℕ))
      → process k ≡ o
      → Dict.get key (copy k o env) ≡ some value
      → ((k ≡ key) × (process key ≡ some value) × (is_function value ≡ false))
        ⊎ (Dict.get key env ≡ some value)
  copy_value k none env e h = inr h
  copy_value k (some v) env e h = elim (Bool-cases (is_function v)) [
    | inl function ↦
        inr
          (subst (λ b. Dict.get key (if b then env else Dict.set k v env) ≡ some value) function h)
    | inr plain ↦
        let set =
          subst (λ b. Dict.get key (if b then env else Dict.set k v env) ≡ some value) plain h in
        ground (arith, get-set k key v env, eq_iff k key)
  ]

  copy_all_value :
      (keys : List String) (env : Dict String (List ℕ))
      → Dict.get key (copy_all process keys env) ≡ some value
      → Passed keys ⊎ (Dict.get key env ≡ some value)
  unfolding copy_all
  copy_all_value [] env h = inr h
  copy_all_value (k ∷ keys) env h = elim (copy_all_value keys (copy k (process k) env) h) [
    | inl passed ↦ ground (arith, eq_iff k key)
    | inr before ↦ elim (copy_value k (process k) env refl before) [
      | inl here ↦ ground (arith, eq_iff k key)
      | inr earlier ↦ inr earlier
    ]
  ]

-- A variable of the sandbox is one of the two that are always set, or one of the safe variables of the
-- platform with the value that it has in the process, which does not start like the text of a function.
pub get_default_environment_safe :
    (is_windows : Bool) (process : String → Option (List ℕ)) (key : String) (value : List ℕ)
    → Dict.get key (get_default_environment is_windows process) ≡ some value
    → Passed process key value (safe_keys is_windows) ⊎ (Dict.get key base_environment ≡ some value)
unfolding get_default_environment
get_default_environment_safe is_windows process key value h =
    copy_all_value process key value (safe_keys is_windows) base_environment h
