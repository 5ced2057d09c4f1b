-- ===== src/Histogram/Cumulative.antt =====
-- The buckets count the observations up to their bound.
use liop.Common.{
  ℕ, ◌+◌, ◌*◌, String, ◌≡◌, refl, Bool, true, false, Option, none, some, List, [], ◌∷◌, ◌==◌,
  number_equality, text_equality, if◌then◌else◌, arith, leb, length, coalesce_to,
}
use liop.Common.Dict
use liop.Common.Dict.{Dict}
use liop.Metrics.{Labels}
use liop.Histogram.{State, Histogram, zeros, count_in, fresh, add, observe_key}

-- `state.bucketCounts.get(bound) || 0`
abbrev pub reading : ℕ → Dict ℕ ℕ → ℕ
reading bound counts = coalesce_to (Dict.get bound counts) 0

-- How often a bound is listed.
pub listed : ℕ → List ℕ → ℕ
listed b [] = 0
listed b (x ∷ xs) = (if x == b then 1 else 0) + listed b xs

reading-count_in :
    (b val : ℕ) (bounds : List ℕ) (counts : Dict ℕ ℕ)
    → reading b (count_in val bounds counts)
      ≡ reading b counts + (if leb val b then listed b bounds else 0)
unfolding count_in listed
reading-count_in b val [] counts = ground arith
reading-count_in b val (x ∷ bounds) counts =
    let next : Dict ℕ ℕ =
      if leb val x then Dict.set x (coalesce_to (Dict.get x counts) 0 + 1) counts else counts in
    ground
      (arith, reading-count_in b val bounds next, Dict.get-set x b (reading x counts + 1) counts)

reading-zeros : (b : ℕ) (bounds : List ℕ) → reading b (zeros bounds) ≡ 0
unfolding zeros Dict.get
reading-zeros b [] = refl
reading-zeros b (x ∷ bounds) =
    ground (arith, reading-zeros b bounds, Dict.get-set x b 0 (zeros bounds))

-- The observations that are at most `b`, and their sum.
pub up_to : ℕ → List ℕ → ℕ
up_to b [] = 0
up_to b (v ∷ vs) = (if leb v b then 1 else 0) + up_to b vs

pub total : List ℕ → ℕ
total [] = 0
total (v ∷ vs) = v + total vs

-- The observations of a key, in order.
pub observe_all : String → Option Labels → List ℕ → Histogram → Histogram
observe_all key labels [] h = h
observe_all key labels (v ∷ vs) h = observe_all key labels vs (observe_key key labels v h)

mul_if : (t : Bool) (n u : ℕ) → n * ((if t then 1 else 0) + u) ≡ (if t then n else 0) + n * u
mul_if true n u = omega arith
mul_if false n u = omega arith

observe_all-state :
    (key : String) (labels : Option Labels) (vs : List ℕ) (h : Histogram) (s : State)
    → Dict.get key h.observations ≡ some s
    → (t : State) × (Dict.get key (observe_all key labels vs h).observations ≡ some t)
      × (t.count ≡ s.count + length vs)
      × (t.sum ≡ s.sum + total vs)
      × ((b : ℕ)
          → reading b t.bucket_counts ≡ reading b s.bucket_counts + listed b h.buckets * up_to b vs)
unfolding observe_all observe_key add up_to total
observe_all-state key labels [] h s e = (s, e, omega arith, omega arith, (λ b. omega arith))
observe_all-state key labels (v ∷ vs) h s e =
    let s' : State = add h.buckets v s in
    let (t, found, counted, summed, bucketed) =
      observe_all-state key labels vs (observe_key key labels v h) s'
        (rw e (Dict.get-set_self key s' h.observations)) in
    (
      t,
      found,
      omega arith,
      omega arith,
      (λ b. omega (
        arith,
        bucketed b,
        reading-count_in b v h.buckets s.bucket_counts,
        mul_if (leb v b) (listed b h.buckets) (up_to b vs),
      )),
    )

-- After the observations of a new key, of which there is one at least, its state holds their number
-- and sum, and each bound reads the number of observations up to it, as often as the bound is listed.
pub observe_all-new :
    (key : String) (labels : Option Labels) (v : ℕ) (vs : List ℕ) (h : Histogram)
    → Dict.get key h.observations ≡ none
    → (t : State) × (Dict.get key (observe_all key labels (v ∷ vs) h).observations ≡ some t)
      × (t.count ≡ length (v ∷ vs))
      × (t.sum ≡ total (v ∷ vs))
      × ((b : ℕ) → reading b t.bucket_counts ≡ listed b h.buckets * up_to b (v ∷ vs))
unfolding observe_all observe_key add up_to total
observe_all-new key labels v vs h e =
    let s' : State = add h.buckets v (fresh h.buckets labels) in
    let (t, found, counted, summed, bucketed) =
      observe_all-state key labels vs (observe_key key labels v h) s'
        (rw e (Dict.get-set_self key s' h.observations)) in
    (
      t,
      found,
      omega arith,
      omega arith,
      (λ b. omega (
        arith,
        bucketed b,
        reading-count_in b v h.buckets (zeros h.buckets),
        reading-zeros b h.buckets,
        mul_if (leb v b) (listed b h.buckets) (up_to b vs),
      )),
    )
