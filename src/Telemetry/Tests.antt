-- ===== src/Telemetry/Tests.antt =====
-- A session of two operations.
use liop.Common.{◌≡◌, refl, String, none, some, [], ◌∷◌, length}
use liop.Metrics.{Engine, Counter}
use liop.Telemetry.{
  Telemetry, TokenOperationMetric, tool_call, tools_list, get_per_tool_report, get_report,
}
use liop.Telemetry.Totals.{
  sum_by, Agrees, record_all, get_per_tool_report-totals, record_all-Agrees,
}

abbrev listing : TokenOperationMetric
listing = record {
  operation = tools_list;
  method = "tools/list";
  estimated_input_tokens = 10;
  estimated_output_tokens = 200;
  timestamp = 0;
  tool_name = none;
  peer_id = none;
  duration_ms = some 4;
  origin_dataset_tokens = none;
}

abbrev call : TokenOperationMetric
call = record listing {
  operation = tool_call;
  method = "tools/call";
  tool_name = some "stats";
  estimated_output_tokens = 30;
  origin_dataset_tokens = some 5000;
}

-- An engine that prints one text for all numbers: no total depends on the printing.
abbrev plain : Engine
plain = record { sort_entries = λ ls. ls; show = λ n. "n" }

abbrev counter : String → Counter
counter name = record { name = name; help = ""; values = [] }

abbrev started : Telemetry
started = record {
  session_id = "s";
  started_at = 0;
  estimator_name = "o200k_base";
  operations = [];
  tokens_input_total = counter "in";
  tokens_output_total = counter "out";
  tokens_saved_total = counter "saved";
  operation_duration_ms = record {
    name = "ms";
    help = "";
    buckets = 5 ∷ 10 ∷ [];
    observations = [];
  };
}

abbrev used : Telemetry
used = record started { operations = listing ∷ call ∷ [] }

get_per_tool_report-totals_example :
    (sum_by (λ b. b.input) (get_per_tool_report used) ≡ (get_report 9 used).total_input_tokens)
    × (sum_by (λ b. b.output) (get_per_tool_report used) ≡ (get_report 9 used).total_output_tokens)
    × (sum_by (λ b. b.calls) (get_per_tool_report used) ≡ length (get_report 9 used).operations)
get_per_tool_report-totals_example = get_per_tool_report-totals 9 used

started-Agrees : Agrees started
unfolding get_report
started-Agrees = (refl, refl)

record_all-Agrees_example : Agrees (record_all plain ((1, listing) ∷ (2, call) ∷ []) started)
record_all-Agrees_example =
    record_all-Agrees plain ((1, listing) ∷ (2, call) ∷ []) started started-Agrees
