-- ===== src/Privacy/Walk.antt =====
-- What the noise keeps of an output.
use liop.Common.{ℕ, ◌≡◌, ◌⊎◌, inl, inr, refl, Bool, true, false, ◌||◌, Option, some, List}
use liop.Privacy.{
  Numbers, DpConfig, Output, number, leaf, array, object, Items, item, no_items, Fields, field,
  no_fields, is_count_key, settle_integer, settle_sign, noise_number, walk_and_noise, walk_items,
  walk_fields,
}

abbrev pub IsWhole : {F S : Type 0} → Numbers F S → F → Type 0
IsWhole n x = (n.is_finite x ≡ false) ⊎ (n.is_integer x ≡ true)

-- `Math.round` is an integer or not finite; `Math.max(0, x)` is not negative, or not finite, and an
-- integer where x is one, and an integer or not finite where x is not finite.
pub record IsArithmetic {F S : Type 0} (n : Numbers F S) : Type 0 where
  pub round : (x : F) → IsWhole n (n.round x)
  pub max_zero :
      (x : F) → (n.is_finite (n.max_zero x) ≡ false) ⊎ (n.non_negative (n.max_zero x) ≡ true)
  pub max_zero_whole : (x : F) → IsWhole n x → IsWhole n (n.max_zero x)

module _ {F S : Type 0} (n : Numbers F S) (config : DpConfig F) (count : ℕ) where
  -- The number y in the place of x, where it is finite: not negative where x is not, and an integer where
  -- x is or the name is that of a count.
  abbrev pub NumberKept : Option (List ℕ) → F → F → Type 0
  NumberKept key x y =
      ((n.non_negative x ≡ false) ⊎ (n.is_finite y ≡ false) ⊎ (n.non_negative y ≡ true))
      × (((n.is_integer x || is_count_key n config count key) ≡ false) ⊎ IsWhole n y)

  -- The same tree with the same names and leaves, and numbers in the places of numbers.
  unfoldable mutual
    pub Kept : Option (List ℕ) → Output F → Output F → Type 0
    Kept key (number x) (number y) = NumberKept key x y
    Kept key (leaf t) (leaf u) = t ≡ u
    Kept key (array xs) (array ys) = KeptItems key xs ys
    Kept key (object fs) (object gs) = KeptFields fs gs
    Kept key _ _ = ⊥

    pub KeptItems : Option (List ℕ) → Items F → Items F → Type 0
    KeptItems key no_items no_items = Unit
    KeptItems key (item x xs) (item y ys) = Kept key x y × KeptItems key xs ys
    KeptItems key _ _ = ⊥

    pub KeptFields : Fields F → Fields F → Type 0
    KeptFields no_fields no_fields = Unit
    KeptFields (field k v fs) (field l w gs) = (k ≡ l) × (Kept (some k) v w × KeptFields fs gs)
    KeptFields _ _ = ⊥

  module _ (laws : IsArithmetic n) where
    sign_kept :
        (b : Bool) (z : F)
        → (b ≡ false)
          ⊎ (n.is_finite (settle_sign n b z) ≡ false)
          ⊎ (n.non_negative (settle_sign n b z) ≡ true)
    sign_kept true z = elim (laws.max_zero z) [
      | inl far ↦ inr (inl far)
      | inr sign ↦ inr (inr sign)
    ]
    sign_kept false z = inl refl

    sign_whole : (b : Bool) (z : F) → IsWhole n z → IsWhole n (settle_sign n b z)
    sign_whole true z h = laws.max_zero_whole z h
    sign_whole false z h = h

    integer_kept :
        (a b : Bool) (z : F) → (b ≡ false) ⊎ IsWhole n (settle_sign n a (settle_integer n b z))
    integer_kept a true z = inr (sign_whole a (n.round z) (laws.round z))
    integer_kept a false z = inl refl

    pub noise_number-Kept :
        (key : Option (List ℕ)) (x : F) (s : S)
        → NumberKept key x (noise_number n config count key x s).0
    unfolding noise_number
    noise_number-Kept key x s = (
      sign_kept (n.non_negative x) _,
      integer_kept (n.non_negative x) (n.is_integer x || is_count_key n config count key) _,
    )

    mutual
      unfolding walk_and_noise Kept

      walk_and_noise-Kept :
          (key : Option (List ℕ)) (output : Output F) (s : S)
          → Kept key output (walk_and_noise n config count key output s).0
      walk_and_noise-Kept key (number x) s = noise_number-Kept key x s
      walk_and_noise-Kept key (leaf t) s = refl
      walk_and_noise-Kept key (array xs) s = walk_items-Kept key xs s
      walk_and_noise-Kept key (object fs) s = walk_fields-Kept fs s

      walk_items-Kept :
          (key : Option (List ℕ)) (xs : Items F) (s : S)
          → KeptItems key xs (walk_items n config count key xs s).0
      walk_items-Kept key no_items s = tt
      walk_items-Kept key (item x xs) s = (
        walk_and_noise-Kept key x s,
        walk_items-Kept key xs (walk_and_noise n config count key x s).1,
      )

      walk_fields-Kept : (fs : Fields F) (s : S) → KeptFields fs (walk_fields n config count fs s).0
      walk_fields-Kept no_fields s = tt
      walk_fields-Kept (field k v fs) s = (
        refl,
        (
          walk_and_noise-Kept (some k) v s,
          walk_fields-Kept fs (walk_and_noise n config count (some k) v s).1,
        ),
      )
