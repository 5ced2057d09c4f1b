-- ===== src/Histogram.antt =====
-- `Histogram` (sdks/typescript/src/observability/metrics.ts). Observations and bounds are natural
-- numbers. A label set is its key here: `key` is `labelsToKey(labels)`.
pub mod Cumulative
mod Tests
use liop.Common.{
  ℕ, ◌+◌, String, Bool, true, false, Option, none, some, List, [], ◌∷◌, if◌then◌else◌, leb, ◌==◌,
  number_equality, text_equality, coalesce_to,
}
use liop.Common.Int.{pos}
use liop.Common.Text.{◌+++◌}
use liop.Common.{eqb, length, ◌++◌}
use liop.Common.Dict
use liop.Common.Dict.{Dict}
use liop.Metrics.{format_labels, Labels, Engine, labels_to_key}

pub record State : Type 0 where
  pub count : ℕ
  pub sum : ℕ
  pub bucket_counts : Dict ℕ ℕ
  pub labels : Option Labels

pub record Histogram : Type 0 where
  pub name : String
  pub help : String
  pub buckets : List ℕ
  pub observations : Dict String State

-- The arguments of `observe(value)` and `observe(labels, value)`.
pub data ObserveArgs : Type 0 where
  bare : ℕ → ObserveArgs
  labelled : Labels → Option ℕ → ObserveArgs

abbrev pub default_buckets : List ℕ
default_buckets = 5 ∷ 10 ∷ 25 ∷ 50 ∷ 100 ∷ 250 ∷ 500 ∷ 1000 ∷ 2500 ∷ 5000 ∷ 10000 ∷ []

-- The constructor; `sort` is the engine's, with `(a, b) => a - b`.
unfoldable pub new : (List ℕ → List ℕ) → String → String → Option (List ℕ) → Histogram
new sort name help buckets = record {
  name = name;
  help = help;
  buckets = sort (coalesce_to buckets default_buckets);
  observations = [];
}

-- `new Map(this.buckets.map((b) => [b, 0]))`
unfoldable pub zeros : List ℕ → Dict ℕ ℕ
zeros [] = []
zeros (b ∷ bs) = Dict.set b 0 (zeros bs)

-- The loop over the bounds: each that is not below the value counts it.
unfoldable pub count_in : ℕ → List ℕ → Dict ℕ ℕ → Dict ℕ ℕ
count_in val [] counts = counts
count_in val (bound ∷ bounds) counts = count_in val bounds (
    if leb val bound
    then Dict.set bound (coalesce_to (Dict.get bound counts) 0 + 1) counts
    else counts)

abbrev pub fresh : List ℕ → Option Labels → State
fresh buckets labels = record { count = 0; sum = 0; bucket_counts = zeros buckets; labels = labels }

-- What an observation does to the state of its key.
unfoldable pub add : List ℕ → ℕ → State → State
add buckets val s = record s {
  count = s.count + 1;
  sum = s.sum + val;
  bucket_counts = count_in val buckets s.bucket_counts;
}

unfoldable pub observe_key : String → Option Labels → ℕ → Histogram → Histogram
observe_key key labels val h = record h {
  observations =
      Dict.set key
        (add h.buckets val (coalesce_to (Dict.get key h.observations) (fresh h.buckets labels)))
        h.observations;
}

unfoldable pub observe : Engine → ObserveArgs → Histogram → Histogram
unfolding observe_key
observe g (bare val) h = observe_key (labels_to_key g none) none val h
observe g (labelled labels val) h =
    observe_key (labels_to_key g (some labels)) (some labels) (coalesce_to val 0) h

abbrev pub reset : Histogram → Histogram
reset h = record h { observations = [] }

-- The lines of a label set: a bucket for each bound, the bucket of all, the sum and the count.
abbrev bucket_lines : Engine → String → Labels → Dict ℕ ℕ → List ℕ → List String
bucket_lines g name labels counts [] = []
bucket_lines g name labels counts (bound ∷ bounds) =
    (name
      +++ "_bucket"
      +++ format_labels g (some (Dict.set "le" (g.show (pos bound)) labels))
      +++ " "
      +++ g.show (pos (coalesce_to (Dict.get bound counts) 0)))
    ∷ bucket_lines g name labels counts bounds

abbrev state_lines : Engine → String → List ℕ → State → List String
state_lines g name buckets s =
    let labels = coalesce_to s.labels [] in
    bucket_lines g name labels s.bucket_counts buckets
    ++ (name
        +++ "_bucket"
        +++ format_labels g (some (Dict.set "le" "+Inf" labels))
        +++ " "
        +++ g.show (pos s.count))
      ∷ (name +++ "_sum" +++ format_labels g (some labels) +++ " " +++ g.show (pos s.sum))
      ∷ (name +++ "_count" +++ format_labels g (some labels) +++ " " +++ g.show (pos s.count))
      ∷ []

abbrev all_lines : Engine → String → List ℕ → Dict String State → List String
all_lines g name buckets [] = []
all_lines g name buckets ((k, s) ∷ observations) =
    state_lines g name buckets s ++ all_lines g name buckets observations

-- `toPrometheus` of a histogram.
unfoldable pub to_prometheus : Engine → Histogram → List String
to_prometheus g h =
    ("# HELP " +++ h.name +++ " " +++ h.help)
    ∷ ("# TYPE " +++ h.name +++ " histogram")
    ∷ (if eqb (length h.observations) 0
        then (h.name +++ "_count 0") ∷ (h.name +++ "_sum 0") ∷ []
        else all_lines g h.name h.buckets h.observations)
