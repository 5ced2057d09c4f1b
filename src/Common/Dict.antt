-- ===== src/Common/Dict.antt =====
-- JavaScript's `Map`: the entries in insertion order. A write to a present key stays in its place,
-- a write to a new key goes to the end.
use Prim.Native.Nat.{suc}
use mathlib.Core.Path.{◌≡◌, refl}
use mathlib.Core.Bool.{Bool, false}
use mathlib.Core.Option.{Option, none, some}
use mathlib.Core.List.{List, [], ◌∷◌}
use native.Mathlib.Omega.{arith}
use liop.Common.Tests.{if◌then◌else◌, StrictEq, ◌==◌}
use liop.Common.Lists.{length}

abbrev pub Dict {ℓ κ} : Type ℓ → Type κ → Type (ℓ ⊔ κ)
Dict K V = List (K × V)

module _ {ℓ κ} {K : Type ℓ} {V : Type κ} ⦃e : StrictEq K⦄ where
  -- `m.get(k)`
  unfoldable pub get : K → Dict K V → Option V
  get k [] = none
  get k ((j, v) ∷ m) = if j == k then some v else get k m

  -- `m.set(k, v)`
  unfoldable pub set : K → V → Dict K V → Dict K V
  set k v [] = (k, v) ∷ []
  set k v ((j, w) ∷ m) = if j == k then (j, v) ∷ m else (j, w) ∷ set k v m

  -- `m.delete(k)`
  unfoldable pub delete : K → Dict K V → Dict K V
  delete k [] = []
  delete k ((j, w) ∷ m) = let rest = delete k m in if j == k then rest else (j, w) ∷ rest

  pub get-set :
      (k j : K) (v : V) (m : Dict K V) → get j (set k v m) ≡ (if k == j then some v else get j m)
  unfolding get set
  get-set k j v [] = refl
  get-set k j v ((i, w) ∷ m) =
      ground (arith, e.same_iff k j, e.same_iff i k, e.same_iff i j, get-set k j v m)

  pub get-delete :
      (k j : K) (m : Dict K V) → get j (delete k m) ≡ (if k == j then none else get j m)
  unfolding get delete
  get-delete k j [] = ground arith
  get-delete k j ((i, w) ∷ m) =
      ground (arith, e.same_iff k j, e.same_iff i k, e.same_iff i j, get-delete k j m)

  pub get-set_self : (k : K) (v : V) (m : Dict K V) → get k (set k v m) ≡ some v
  get-set_self k v m = ground (arith, get-set k k v m, e.same_iff k k)

  pub get-delete_self : (k : K) (m : Dict K V) → get k (delete k m) ≡ none
  get-delete_self k m = ground (arith, get-delete k k m, e.same_iff k k)

  -- `m.size` after a write
  pub length-set :
      (k : K) (v : V) (m : Dict K V)
      → length (set k v m) ≡ elim (get k m) [ none ↦ suc (length m) | some _ ↦ length m ]
  unfolding get set
  length-set k v [] = refl
  length-set k v ((i, w) ∷ m) = ground (arith, length-set k v m)

  -- Deletion while iterating: `for (const [k, v] of m) if (p(v)) m.delete(k)`.
  unfoldable pub remove_if : (V → Bool) → Dict K V → Dict K V
  remove_if p [] = []
  remove_if p ((j, w) ∷ m) = let rest = remove_if p m in if p w then rest else (j, w) ∷ rest

  -- A `Map` holds a key once.
  abbrev pub Distinct : Dict K V → Type κ
  Distinct [] = Unit
  Distinct ((j, w) ∷ m) = (get j m ≡ none) × Distinct m

  pub set-Distinct : (k : K) (v : V) (m : Dict K V) → Distinct m → Distinct (set k v m)
  unfolding get set
  set-Distinct k v [] d = (refl, tt)
  set-Distinct k v ((j, w) ∷ m) (h, d) =
      ground (arith, set-Distinct k v m d, get-set k j v m, e.same_iff k j, e.same_iff j k)

  pub delete-Distinct : (k : K) (m : Dict K V) → Distinct m → Distinct (delete k m)
  unfolding delete
  delete-Distinct k [] d = tt
  delete-Distinct k ((j, w) ∷ m) (h, d) = ground (arith, delete-Distinct k m d, get-delete k j m)

  pub get-remove_if-none :
      (p : V → Bool) (k : K) (m : Dict K V) → get k m ≡ none → get k (remove_if p m) ≡ none
  unfolding get remove_if
  get-remove_if-none p k [] h = refl
  get-remove_if-none p k ((j, w) ∷ m) h = ground (arith, get-remove_if-none p k m)

  pub get-remove_if :
      (p : V → Bool) (k : K) (m : Dict K V)
      → Distinct m
      → get k (remove_if p m)
        ≡ elim (get k m) [ none ↦ none | some v ↦ if p v then none else some v ]
  unfolding get remove_if
  get-remove_if p k [] d = refl
  get-remove_if p k ((j, w) ∷ m) (h, d) =
      ground (arith, get-remove_if p k m d, e.same_iff j k, get-remove_if-none p k m)

  -- What the test spares is still there.
  pub get-remove_if_spared :
      (p : V → Bool) (k : K) (v : V) (m : Dict K V)
      → get k m ≡ some v
      → p v ≡ false
      → get k (remove_if p m) ≡ some v
  unfolding get remove_if
  get-remove_if_spared p k v [] h q = h
  get-remove_if_spared p k v ((j, w) ∷ m) h q = ground (arith, get-remove_if_spared p k v m)

  pub remove_if-Distinct : (p : V → Bool) (m : Dict K V) → Distinct m → Distinct (remove_if p m)
  unfolding remove_if
  remove_if-Distinct p [] d = tt
  remove_if-Distinct p ((j, w) ∷ m) (h, d) =
      ground (arith, remove_if-Distinct p m d, get-remove_if-none p j m h)
