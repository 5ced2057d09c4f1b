-- ===== src/Telemetry.antt =====
-- The token telemetry of sdks/typescript/src/economy/telemetry.ts: the operations of a session, what
-- each adds to the protocol's metrics, and the reports. Token counts and durations are natural numbers.
-- An average duration is kept as the total that it stands for, which is the average times the calls.
pub mod Totals
mod Tests
use liop.Common.{
  ℕ, zero, suc, ◌+◌, ◌-◌, ◌/◌, ◌%◌, String, Bool, true, false, Option, none, some, List, [], ◌∷◌,
  ◌++◌, if◌then◌else◌, ltb, coalesce_to, str_or, text_equality, ◌==◌,
}
use liop.Common.Dict
use liop.Common.Dict.{Dict}
use liop.Common.Int.{pos}
use liop.Common.Text.{◌+++◌}
use liop.Metrics.{Engine, Labels, Counter, inc, Result, done, negative_increment}
use liop.Histogram.{Histogram, observe, ObserveArgs}

pub data OperationType : Type 0 where
  tools_list : OperationType
  tool_call : OperationType
  resource_read : OperationType
  resource_list : OperationType
  prompt_get : OperationType
  prompt_list : OperationType
  diagnostic : OperationType

abbrev pub type_name : OperationType → String
type_name tools_list = "tools_list"
type_name tool_call = "tool_call"
type_name resource_read = "resource_read"
type_name resource_list = "resource_list"
type_name prompt_get = "prompt_get"
type_name prompt_list = "prompt_list"
type_name diagnostic = "diagnostic"

pub record TokenOperationMetric : Type 0 where
  pub operation : OperationType
  pub method : String
  pub estimated_input_tokens : ℕ
  pub estimated_output_tokens : ℕ
  pub timestamp : ℕ
  pub tool_name : Option String
  pub peer_id : Option String
  pub duration_ms : Option ℕ
  pub origin_dataset_tokens : Option ℕ

-- The engine, with the metrics of observability/metrics.ts that it writes.
pub record Telemetry : Type 0 where
  pub session_id : String
  pub started_at : ℕ
  pub estimator_name : String
  pub operations : List TokenOperationMetric
  pub tokens_input_total : Counter
  pub tokens_output_total : Counter
  pub tokens_saved_total : Counter
  pub operation_duration_ms : Histogram

abbrev pub labels_of : TokenOperationMetric → Labels
labels_of m =
    ("type", type_name m.operation)
    ∷ ("method", m.method)
    ∷ ("tool", str_or m.tool_name "none")
    ∷ []

-- What an increment leaves, where an error is swallowed.
abbrev or_keep : Counter → Result Counter → Counter
or_keep c (done d) = d
or_keep c negative_increment = c

-- `if (n > 0) counter.inc(labels, n)`
unfoldable pub inc_positive : Engine → Labels → ℕ → Counter → Counter
inc_positive g labels n c = if ltb 0 n then or_keep c (inc g (some labels) (pos n) c) else c

-- The tokens that were saved: only where the origin's are known, and more than those of the answer.
abbrev pub saved : TokenOperationMetric → ℕ
saved m = coalesce_to m.origin_dataset_tokens 0 - m.estimated_output_tokens

abbrev observe_duration : Engine → TokenOperationMetric → Option ℕ → Histogram → Histogram
observe_duration g m none h = h
observe_duration g m (some d) h = observe g (ObserveArgs.labelled (labels_of m) (some d)) h

-- `record`; the bridge to OpenTelemetry, of another library, is left out.
unfoldable pub record_metric : Engine → ℕ → TokenOperationMetric → Telemetry → Telemetry
unfolding inc_positive
record_metric g now metric s = record s {
  operations = s.operations ++ record metric { timestamp = now } ∷ [];
  tokens_input_total =
      inc_positive g (labels_of metric) metric.estimated_input_tokens s.tokens_input_total;
  tokens_output_total =
      inc_positive g (labels_of metric) metric.estimated_output_tokens s.tokens_output_total;
  tokens_saved_total =
      inc_positive g (("tool", str_or metric.tool_name "none") ∷ []) (saved metric)
        s.tokens_saved_total;
  operation_duration_ms = observe_duration g metric metric.duration_ms s.operation_duration_ms;
}

-- `operations.reduce((sum, op) => sum + f(op), 0)`
abbrev pub reduce_from : (TokenOperationMetric → ℕ) → ℕ → List TokenOperationMetric → ℕ
reduce_from f sum [] = sum
reduce_from f sum (op ∷ ops) = reduce_from f (sum + f op) ops

pub record TokenSessionReport : Type 0 where
  pub session_id : String
  pub operations : List TokenOperationMetric
  pub total_input_tokens : ℕ
  pub total_output_tokens : ℕ
  pub estimator_name : String
  pub session_uptime_ms : ℕ

unfoldable pub get_report : ℕ → Telemetry → TokenSessionReport
get_report now s = record {
  session_id = s.session_id;
  operations = s.operations;
  total_input_tokens = reduce_from (λ op. op.estimated_input_tokens) 0 s.operations;
  total_output_tokens = reduce_from (λ op. op.estimated_output_tokens) 0 s.operations;
  estimator_name = s.estimator_name;
  session_uptime_ms = now - s.started_at;
}

-- The average duration is `duration / calls`.
pub record ToolTokenBreakdown : Type 0 where
  pub input : ℕ
  pub output : ℕ
  pub calls : ℕ
  pub duration : ℕ

abbrev pub no_calls : ToolTokenBreakdown
no_calls = record { input = 0; output = 0; calls = 0; duration = 0 }

abbrev pub add_operation : TokenOperationMetric → ToolTokenBreakdown → ToolTokenBreakdown
add_operation op b = record {
  input = b.input + op.estimated_input_tokens;
  output = b.output + op.estimated_output_tokens;
  calls = b.calls + 1;
  duration = b.duration + coalesce_to op.duration_ms 0;
}

-- `op.toolName || op.method`
abbrev pub tool_key : TokenOperationMetric → String
tool_key op = str_or op.tool_name op.method

unfoldable pub break_down :
    List TokenOperationMetric → Dict String ToolTokenBreakdown → Dict String ToolTokenBreakdown
break_down [] breakdown = breakdown
break_down (op ∷ ops) breakdown = break_down ops (
    Dict.set (tool_key op)
      (add_operation op (coalesce_to (Dict.get (tool_key op) breakdown) no_calls)) breakdown)

unfoldable pub get_per_tool_report : Telemetry → Dict String ToolTokenBreakdown
unfolding break_down
get_per_tool_report s = break_down s.operations []

unfoldable pub format_uptime : Engine → ℕ → String
format_uptime g ms =
    let seconds = ms / 1000 in
    let minutes = seconds / 60 in
    let hours = minutes / 60 in
    if ltb seconds 60
    then g.show (pos seconds) +++ "s"
    else if ltb minutes 60
    then g.show (pos minutes) +++ "m " +++ g.show (pos (seconds % 60)) +++ "s"
    else g.show (pos hours) +++ "h " +++ g.show (pos (minutes % 60)) +++ "m"

-- The metrics of the process are not reset.
abbrev pub reset : Telemetry → Telemetry
reset s = record s { operations = [] }
