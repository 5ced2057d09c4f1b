-- ===== src/Egress/Ends.antt =====
-- The checks of an output end.
use liop.Common.{
  ℕ, ◌≤◌, ◌≡◌, ◌≢◌, refl, String, Bool, true, false, Option, none, some, List, [], ◌∷◌, arith,
  if◌then◌else◌, length,
}
use liop.Common.Attempt.{Attempt, ok, fail}
use liop.Pii
use liop.Pii.{Scanned, clean, found, scan}
use liop.Pii.Fuel
use liop.Value.{
  Value, Elements, Entries, undefined, null, boolean, number, text, array, object, no_elements,
  element, no_entries, entry, weight, weight_elements, weight_entries, forget, forget_elements,
  forget_entries, parse_unknown_json,
}
use liop.Value.Reparse.{IsParser}
use liop.Aggregation.{
  Enforce, off, on, by_policy, Judged, aggregate, violation, out_of_fuel,
  unwrap_for_aggregation_policy_scan,
}
use liop.Aggregation.Ends.{judged_and_unwrapped}
use liop.Sanitizer.{default_config, sanitize_output}
use liop.Egress.{
  Server, Schema, LogicExecutionPolicy, WorkerResponse, Checked, passes, blocked, unfinished,
  of_judged, of_scanned, validate_output_policy, validate_parsed, by_schema, by_issues,
  schema_issues, is_error_result, check_aggregation, violates_unwrapped, final_check, violates,
  enforced, pii_scanner, parse_json, proof_missing, proof_unavailable, policy_mode, zk_mode, tell,
  CallToolResult, refused, delivered, Delivery, deliver, request, unfinished_result, pending,
  policy_of, answer_checked, answer_response, answer_run, execute_in_worker_pool,
}

-- The scanner weighs a value no more than its JSON text is long.
module _ {F : Type 0} where
  mutual
    unfolding weight forget Pii.weight

    weight-forget : (v : Value F) → Pii.weight (forget v) ≤ weight v
    weight-forget undefined = omega arith
    weight-forget null = omega arith
    weight-forget (boolean b) = omega arith
    weight-forget (number x) = omega arith
    weight-forget (text t) = omega arith
    weight-forget (array es) = omega (arith, weight-forget_elements es)
    weight-forget (object es) = omega (arith, weight-forget_entries es)

    weight-forget_elements :
        (es : Elements F) → Pii.weight_elements (forget_elements es) ≤ weight_elements es
    weight-forget_elements no_elements = omega arith
    weight-forget_elements (element v es) =
        omega (arith, weight-forget v, weight-forget_elements es)

    weight-forget_entries :
        (es : Entries F) → Pii.weight_entries (forget_entries es) ≤ weight_entries es
    weight-forget_entries no_entries = omega arith
    weight-forget_entries (entry k v es) = omega (arith, weight-forget v, weight-forget_entries es)

checks_end :
    (a : Scanned) (b : Judged)
    → a ≢ Pii.out_of_fuel
    → b ≢ out_of_fuel
    → of_scanned a (of_judged b) ≢ unfinished
checks_end clean aggregate ha hb = λ h. cc
checks_end clean violation ha hb = λ h. cc
checks_end clean out_of_fuel ha hb = λ h. hb refl
checks_end (found v) b ha hb = λ h. cc
checks_end Pii.out_of_fuel b ha hb = λ h. ha refl

issues_end :
    (is : List String) (rest : Checked) → rest ≢ unfinished → by_issues is rest ≢ unfinished
issues_end [] rest h = h
issues_end (i ∷ is) rest h = λ e. cc

judged_end : (b : Judged) → b ≢ out_of_fuel → of_judged b ≢ unfinished
judged_end aggregate h = λ e. cc
judged_end violation h = λ e. cc
judged_end out_of_fuel h = λ e. h refl

module _ {F N : Type 0} (s : Server F N) (parser : IsParser s.parse) where
  fits_scanner :
      (t : List ℕ) (o : Option (Value F)) (j : Pii.Json)
      → s.parse t ≡ o
      → parse_json s o ≡ some j
      → Pii.weight j ≤ length t
  fits_scanner t none j e h = cc
  fits_scanner t (some v) j e h = ground (arith, parser.fits t v e, weight-forget v)

  scanner-IsParser : Pii.Fuel.IsParser (pii_scanner s)
  scanner-IsParser = record { fits = λ t j h. fits_scanner t (s.parse t) j refl h }

  judged : (policy : Enforce) (v : Value F) → violates s policy v ≢ out_of_fuel
  judged policy v = (judged_and_unwrapped s.parse parser policy (some s.records_count) v).0

  unwrapped_end :
      (policy : Enforce) (o : Option (Value F))
      → o ≢ none
      → violates_unwrapped s policy o ≢ unfinished
  unwrapped_end policy none ho = λ h. ho refl
  unwrapped_end policy (some v) ho = judged_end (violates s policy v) (judged policy v)

  aggregation_end : (policy : Enforce) (v : Value F) → check_aggregation s policy v ≢ unfinished
  unfolding check_aggregation
  aggregation_end off v = λ h. cc
  aggregation_end on v =
      unwrapped_end on (unwrap_for_aggregation_policy_scan s.parse v)
        (judged_and_unwrapped s.parse parser on none v).1
  aggregation_end (by_policy p) v =
      unwrapped_end (by_policy p) (unwrap_for_aggregation_policy_scan s.parse v)
        (judged_and_unwrapped s.parse parser on none v).1

  branch_end : (b : Bool) (x : Checked) → x ≢ unfinished → (if b then passes else x) ≢ unfinished
  branch_end true x h = λ e. cc
  branch_end false x h = h

  schema_end :
      (schema : Option (Schema F)) (v : Value F) (rest : Checked)
      → rest ≢ unfinished
      → by_schema schema v rest ≢ unfinished
  schema_end none v rest h = h
  schema_end (some x) v rest h = issues_end (schema_issues x v) rest h

  parsed_end :
      (policy : LogicExecutionPolicy F N) (v : Value F) → validate_parsed s policy v ≢ unfinished
  parsed_end policy v =
      branch_end (is_error_result v) _
        (schema_end policy.output_schema v _ (aggregation_end policy.enforce_aggregation_first v))

  validation_end :
      (output : Value F) (policy : Option (LogicExecutionPolicy F N))
      → validate_output_policy s output policy ≢ unfinished
  unfolding validate_output_policy
  validation_end output none = λ h. cc
  validation_end output (some policy) = parsed_end policy (parse_unknown_json s.parse output)

  final_end :
      (output : Value F) (policy : Enforce)
      → final_check s output (violates s policy output) ≢ unfinished
  unfolding final_check scan
  final_end output policy =
      checks_end (scan (pii_scanner s) (forget output)) (violates s policy output)
        (Pii.Fuel.scan_for-scan (pii_scanner s) scanner-IsParser (Pii.weight (forget output))
          (forget output) (omega arith)).1
        (judged policy output)

  -- A result is delivered, or the text of an error is.
  abbrev pub Answered : CallToolResult F → Type 0
  Answered (delivered d) = Unit
  Answered (refused t) = Unit
  Answered unfinished_result = ⊥
  Answered pending = ⊥

  checked-Answered :
      (b : Bool) (c e : Checked) (d : Delivery F)
      → c ≢ unfinished
      → e ≢ unfinished
      → Answered (
          if b
          then refused (tell s.is_dev proof_unavailable)
          else answer_checked s c (answer_checked s e (delivered d)))
  checked-Answered true c e d hc he = tt
  checked-Answered false passes passes d hc he = tt
  checked-Answered false passes (blocked r) d hc he = tt
  checked-Answered false passes unfinished d hc he = he refl
  checked-Answered false (blocked r) e d hc he = tt
  checked-Answered false unfinished e d hc he = hc refl

  response-Answered :
      (policy : Option (LogicExecutionPolicy F N)) (r : WorkerResponse F)
      → Answered (answer_response s policy r)
  unfolding answer_response
  response-Answered policy r =
      let output = sanitize_output s.decimals default_config r.output in
      checked-Answered (proof_missing (policy_mode (zk_mode policy)) r.proof_type)
        (validate_output_policy s output policy)
        (final_check s output (violates s (enforced policy) output)) (deliver s r)
        (validation_end output policy) (final_end output (enforced policy))

  run-Answered :
      (policy : Option (LogicExecutionPolicy F N))
      (run : Option (Attempt (List ℕ) (WorkerResponse F)))
      → run ≢ none
      → Answered (answer_run s policy run)
  run-Answered policy none settles = settles refl
  run-Answered policy (some (ok r)) settles = response-Answered policy r
  run-Answered policy (some (fail detail)) settles = tt

  -- Where the run of the worker settles, and JSON texts are no shorter than their values weigh, a call is
  -- answered, with a result or with the text of an error: its checks end, however deep texts are the JSON
  -- of values with texts.
  pub execute_in_worker_pool-Answered :
      (payload : List ℕ) (tool_name : Option String)
      → s.run (
          request s (policy_of s tool_name) (policy_mode (zk_mode (policy_of s tool_name))) payload)
        ≢ none
      → Answered (execute_in_worker_pool s payload tool_name)
  unfolding execute_in_worker_pool
  execute_in_worker_pool-Answered payload tool_name settles =
      run-Answered (policy_of s tool_name)
        (s.run (
          request s (policy_of s tool_name) (policy_mode (zk_mode (policy_of s tool_name)))
            payload))
        settles
