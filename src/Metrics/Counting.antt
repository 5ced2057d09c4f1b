-- ===== src/Metrics/Counting.antt =====
-- What counters and gauges add up to.
use liop.Common.{
  ℕ, ◌+◌, String, ◌≡◌, Option, List, [], ◌∷◌, ◌==◌, text_equality, if◌then◌else◌, arith, eq_iff,
}
use liop.Common.Dict
use liop.Common.Int.{ℤ, pos, negsuc, pos_part, ◌+ℤ◌, ◌-ℤ◌, +ℤ_cancel}
use liop.Metrics.{
  Labels, Engine, Sample, Counter, Gauge, done, negative_increment, sample_or, labels_to_key,
  add_to, inc, get, gauge_inc, gauge_dec, gauge_change, gauge_get,
}

module _ (g : Engine) where
  get-add_to :
      (l k : Option Labels) (n : ℕ) (c : Counter)
      → get g k (add_to g l n c)
        ≡ get g k c + (if labels_to_key g l == labels_to_key g k then n else 0)
  unfolding get add_to
  get-add_to l k n c =
      let key = labels_to_key g l in
      let now : Sample ℕ = sample_or (Dict.get key c.values) (record { value = 0; labels = l }) in
      ground (
        arith,
        Dict.get-set key (labels_to_key g k) (record now { value = now.value + n }) c.values,
        eq_iff key (labels_to_key g k),
      )

  -- A call of `inc`; one that throws changes nothing.
  abbrev pub after_inc : Option Labels → ℤ → Counter → Counter
  after_inc l n c = elim (inc g l n c) [ done c' ↦ c' | negative_increment ↦ c ]

  unfoldable pub inc_all : List (Option Labels × ℤ) → Counter → Counter
  inc_all [] c = c
  inc_all ((l, n) ∷ incs) c = inc_all incs (after_inc l n c)

  -- The sum of the increments of a key that are not negative.
  pub total : String → List (Option Labels × ℤ) → ℕ
  total key [] = 0
  total key ((l, n) ∷ incs) = (if labels_to_key g l == key then pos_part n else 0) + total key incs

  -- After any calls of `inc` a counter reads, for each label set, its value before and the increments
  -- of the label sets with the same key that are not negative; the others throw and count nothing.
  pub get-inc_all :
      (k : Option Labels) (incs : List (Option Labels × ℤ)) (c : Counter)
      → get g k (inc_all incs c) ≡ get g k c + total (labels_to_key g k) incs
  unfolding inc_all total inc
  get-inc_all k [] c = omega arith
  get-inc_all k ((l, pos n) ∷ incs) c =
      omega (arith, get-inc_all k incs (add_to g l n c), get-add_to l k n c)
  get-inc_all k ((l, negsuc n) ∷ incs) c = ground (arith, get-inc_all k incs c)

  gauge_get-change :
      (f : ℤ → ℤ) (l k : Option Labels) (c : Gauge)
      → gauge_get g k (gauge_change g f l c)
        ≡ (if labels_to_key g l == labels_to_key g k then f (gauge_get g l c) else gauge_get g k c)
  unfolding gauge_get
  gauge_get-change f l k c =
      let key = labels_to_key g l in
      let now : Sample ℤ =
        sample_or (Dict.get key c.values) (record { value = pos 0; labels = l }) in
      ground
        (arith, Dict.get-set key (labels_to_key g k) (record now { value = f now.value }) c.values)

  gauge_get_key :
      (l k : Option Labels) (c : Gauge)
      → labels_to_key g l ≡ labels_to_key g k
      → gauge_get g l c ≡ gauge_get g k c
  unfolding gauge_get
  gauge_get_key l k c e = rw e

  -- Decrementing a gauge by what it was incremented by restores the reading of every label set.
  pub gauge_dec-inc :
      (l k : Option Labels) (n : ℤ) (c : Gauge)
      → gauge_get g k (gauge_dec g l n (gauge_inc g l n c)) ≡ gauge_get g k c
  unfolding gauge_inc gauge_dec
  gauge_dec-inc l k n c =
      let up : Gauge = gauge_change g (λ v. v +ℤ n) l c in
      rw
        (
          gauge_get-change (λ v. v -ℤ n) l k up,
          gauge_get-change (λ v. v +ℤ n) l k c,
          gauge_get-change (λ v. v +ℤ n) l l c,
        )
        (ground (
          arith,
          eq_iff (labels_to_key g l) (labels_to_key g k),
          eq_iff (labels_to_key g l) (labels_to_key g l),
          +ℤ_cancel (gauge_get g l c) n,
          gauge_get_key l k c,
        ))
