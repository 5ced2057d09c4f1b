-- ===== src/Telemetry/Totals.antt =====
-- The reports and the metrics agree on what was spent.
use liop.Common.{
  ℕ, ◌+◌, ◌≡◌, refl, ◌∙◌, String, Option, none, some, List, [], ◌∷◌, ◌++◌, arith, length,
  text_equality, coalesce_to,
}
use liop.Common.Dict
use liop.Common.Dict.{Dict}
use liop.Metrics.{Engine, Labels, Counter, Sample, add_to, inc, labels_to_key, sample_or}
use liop.Telemetry.{
  Telemetry, TokenOperationMetric, ToolTokenBreakdown, no_calls, add_operation, tool_key,
  break_down, get_per_tool_report, get_report, reduce_from, record_metric, inc_positive, labels_of,
}

module _ {V : Type 0} (f : V → ℕ) where
  abbrev pub measure : Option V → ℕ
  measure none = 0
  measure (some v) = f v

  -- The sum over the entries of a map.
  abbrev pub sum_by : Dict String V → ℕ
  sum_by [] = 0
  sum_by ((k, v) ∷ m) = f v + sum_by m

  -- A write replaces what was under its key.
  sum_by-set :
      (k : String) (v : V) (m : Dict String V)
      → sum_by (Dict.set k v m) + measure (Dict.get k m) ≡ sum_by m + f v
  unfolding Dict.get Dict.set
  sum_by-set k v [] = omega arith
  sum_by-set k v ((j, w) ∷ m) = ground (arith, sum_by-set k v m)

reduce_from-eq :
    (f : TokenOperationMetric → ℕ) (sum : ℕ) (ops : List TokenOperationMetric)
    → reduce_from f sum ops ≡ sum + reduce_from f 0 ops
reduce_from-eq f sum [] = omega arith
reduce_from-eq f sum (op ∷ ops) =
    omega (arith, reduce_from-eq f (sum + f op) ops, reduce_from-eq f (0 + f op) ops)

reduce_from-append :
    (f : TokenOperationMetric → ℕ) (sum : ℕ) (ops : List TokenOperationMetric)
    (op : TokenOperationMetric)
    → reduce_from f sum (ops ++ op ∷ []) ≡ reduce_from f sum ops + f op
reduce_from-append f sum [] op = refl
reduce_from-append f sum (o ∷ ops) op = reduce_from-append f (sum + f o) ops op

measure-or :
    (part : ToolTokenBreakdown → ℕ) (o : Option ToolTokenBreakdown)
    → part no_calls ≡ 0
    → part (coalesce_to o no_calls) ≡ measure part o
measure-or part none z = z
measure-or part (some b) z = refl

-- A part of the breakdown that each operation adds to.
break_down-sum :
    (part : ToolTokenBreakdown → ℕ) (f : TokenOperationMetric → ℕ)
    → part no_calls ≡ 0
    → ((op : TokenOperationMetric) (b : ToolTokenBreakdown)
        → part (add_operation op b) ≡ part b + f op)
    → (ops : List TokenOperationMetric) (d : Dict String ToolTokenBreakdown)
    → sum_by part (break_down ops d) ≡ sum_by part d + reduce_from f 0 ops
unfolding break_down
break_down-sum part f z a [] d = omega arith
break_down-sum part f z a (op ∷ ops) d =
    let old = coalesce_to (Dict.get (tool_key op) d) no_calls in
    let next = Dict.set (tool_key op) (add_operation op old) d in
    let all = break_down-sum part f z a ops next in
    let written = sum_by-set part (tool_key op) (add_operation op old) d in
    omega (
      arith,
      all,
      written,
      a op old,
      measure-or part (Dict.get (tool_key op) d) z,
      reduce_from-eq f (0 + f op) ops,
    )

break_down-total :
    (part : ToolTokenBreakdown → ℕ) (f : TokenOperationMetric → ℕ)
    → part no_calls ≡ 0
    → ((op : TokenOperationMetric) (b : ToolTokenBreakdown)
        → part (add_operation op b) ≡ part b + f op)
    → (ops : List TokenOperationMetric) → sum_by part (break_down ops []) ≡ reduce_from f 0 ops
break_down-total part f z a ops = omega (arith, break_down-sum part f z a ops [])

reduce_from-length : (ops : List TokenOperationMetric) → reduce_from (λ op. 1) 0 ops ≡ length ops
reduce_from-length [] = refl
reduce_from-length (op ∷ ops) =
    omega (arith, reduce_from-length ops, reduce_from-eq (λ op. 1) (0 + 1) ops)

-- The input tokens, the output tokens and the calls of all tools in the report by tool are the totals
-- of the session's report and the number of its operations.
pub get_per_tool_report-totals :
    (now : ℕ) (s : Telemetry)
    → (sum_by (λ b. b.input) (get_per_tool_report s) ≡ (get_report now s).total_input_tokens)
      × (sum_by (λ b. b.output) (get_per_tool_report s) ≡ (get_report now s).total_output_tokens)
      × (sum_by (λ b. b.calls) (get_per_tool_report s) ≡ length (get_report now s).operations)
unfolding get_per_tool_report get_report
get_per_tool_report-totals now s = (
  break_down-total (λ b. b.input) (λ op. op.estimated_input_tokens) refl (λ op b. refl)
      s.operations,
  break_down-total (λ b. b.output) (λ op. op.estimated_output_tokens) refl (λ op b. refl)
      s.operations,
  break_down-total (λ b. b.calls) (λ op. 1) refl (λ op b. refl) s.operations
      ∙ reduce_from-length s.operations,
)

-- The sum of a counter over its label sets.
abbrev pub counted : Counter → ℕ
counted c = sum_by (λ v. v.value) c.values

-- The counters hold what the report says.
abbrev pub Agrees : Telemetry → Type 0
Agrees s =
    (counted s.tokens_input_total ≡ (get_report 0 s).total_input_tokens)
    × (counted s.tokens_output_total ≡ (get_report 0 s).total_output_tokens)

module _ (g : Engine) where
  counted-inc_positive :
      (labels : Labels) (n : ℕ) (c : Counter) → counted (inc_positive g labels n c) ≡ counted c + n
  unfolding inc_positive inc add_to
  counted-inc_positive labels n c =
      let key = labels_to_key g (some labels) in
      let now : Sample ℕ =
        sample_or (Dict.get key c.values) (record { value = 0; labels = some labels }) in
      let written = sum_by-set (λ v. v.value) key (record now { value = now.value + n }) c.values in
      ground (arith, written)

  unfoldable pub record_all : List (ℕ × TokenOperationMetric) → Telemetry → Telemetry
  record_all [] s = s
  record_all ((now, m) ∷ ms) s = record_all ms (record_metric g now m s)

  record_metric-Agrees :
      (now : ℕ) (m : TokenOperationMetric) (s : Telemetry)
      → Agrees s
      → Agrees (record_metric g now m s)
  unfolding record_metric get_report
  record_metric-Agrees now m s (i, o) =
      let stamped = record m { timestamp = now } in
      (
        omega (
          arith,
          i,
          counted-inc_positive (labels_of m) m.estimated_input_tokens s.tokens_input_total,
          reduce_from-append (λ op. op.estimated_input_tokens) 0 s.operations stamped,
        ),
        omega (
          arith,
          o,
          counted-inc_positive (labels_of m) m.estimated_output_tokens s.tokens_output_total,
          reduce_from-append (λ op. op.estimated_output_tokens) 0 s.operations stamped,
        ),
      )

  -- While the metrics' counters of input and output tokens, summed over their label sets, are the
  -- totals of the session's report, they stay so after any operations are recorded.
  pub record_all-Agrees :
      (ms : List (ℕ × TokenOperationMetric)) (s : Telemetry) → Agrees s → Agrees (record_all ms s)
  unfolding record_all
  record_all-Agrees [] s h = h
  record_all-Agrees ((now, m) ∷ ms) s h =
      record_all-Agrees ms (record_metric g now m s) (record_metric-Agrees now m s h)
