-- ===== src/Histogram/Tests.antt =====
-- A histogram of three bounds.
use liop.Common.{ℕ, ◌*◌, ◌≡◌, refl, none, some, [], ◌∷◌, text_equality, number_equality}
use liop.Common.Dict
use liop.Histogram.{State, Histogram}
use liop.Histogram.Cumulative.{reading, listed, up_to, total, observe_all, observe_all-new}

abbrev latency : Histogram
latency = record { name = "ms"; help = "latency"; buckets = 5 ∷ 10 ∷ 25 ∷ []; observations = [] }

observe_all-new_example :
    (t : State) × (Dict.get "k" (observe_all "k" none (7 ∷ 30 ∷ 5 ∷ []) latency).observations
      ≡ some t)
    × (t.count ≡ 3)
    × (t.sum ≡ total (7 ∷ 30 ∷ 5 ∷ []))
    × ((b : ℕ)
        → reading b t.bucket_counts ≡ listed b (5 ∷ 10 ∷ 25 ∷ []) * up_to b (7 ∷ 30 ∷ 5 ∷ []))
unfolding Dict.get
observe_all-new_example = observe_all-new "k" none 7 (30 ∷ 5 ∷ []) latency refl
