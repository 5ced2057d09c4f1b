-- ===== src/Egress/Tests.antt =====
-- A server whose worker answers with the JSON of a sum, and a tool with a policy.
use liop.Common.{
  ℕ, ◌≡◌, ◌≢◌, ◌↔◌, ◌∷◌, Option, List, inl, inr, refl, true, false, none, some, [], filter, arith,
  if◌then◌else◌, Bool-cases,
}
use liop.Common.Attempt.{ok, fail}
use liop.Common.Dict
use liop.Common.Bytes.{bytes_eq, bytes_eq_iff, contains, is_prefix}
use liop.Common.Text.{codes}
use liop.ForbiddenKeys.{forbidden_keys_set, check_key}
use liop.Pii
use liop.Pii.{trim, drop_spaces, looks_like_json}
use liop.Pii.Sound
use liop.Value.{
  Value, Entries, object, number, text, entry, no_entries, forget, walk, parse_unknown_json, weight,
  json_of,
}
use liop.Value.Reparse.{IsParser}
use liop.Aggregation.{
  on, off, unwrap_for_aggregation_policy_scan, violates_aggregation_first_policy,
}
use liop.Aggregation.Small.{Small, itself, in_text}
use liop.Sanitizer.{Decimals, sanitize_output, default_config}
use liop.Egress.{
  Server, LogicExecutionPolicy, required, no_zk, zk_optimistic, hmac_legacy, groth16,
  WorkerResponse, WorkerRequest, Delivery, delivered, execute_in_worker_pool, policy_of, deliver,
  enforced, reason_told, proof_unavailable,
}
use liop.Egress.Local.{Asks, Passed, Holds, execute_in_worker_pool_iff, delivered-Small}
use liop.Egress.Ends.{Answered, execute_in_worker_pool-Answered}
use liop.Egress.Stream.{Calls, told, error_response, answer_stream}
use liop.Egress.Stream.Required.{with_mode, optimistic_overrides}

abbrev naturals : Decimals ℕ
naturals = record { zero = 0; is_finite = λ x. true; is_negative = λ x. false; round_to = λ n x. x }

abbrev sum_policy : LogicExecutionPolicy ℕ ℕ
sum_policy = record {
  output_schema = none;
  enforce_aggregation_first = on;
  zk_mode = required;
  dp_epsilon = none;
  dp_sensitivity = none;
  dp_threshold = none;
  guest_image_id = none;
  pqc_sign = false;
}

abbrev sum_row : Entries ℕ
sum_row = entry (codes "sum") (number 7) no_entries

abbrev quoted : List ℕ
quoted = codes "{\"sum\":7}"

abbrev parse : List ℕ → Option (Value ℕ)
parse t = if bytes_eq t quoted then some (object sum_row) else none

abbrev response : WorkerResponse ℕ
response = record {
  output = text quoted;
  image_id = "a1";
  zk_receipt = "r";
  proof_type = groth16;
  guest_image_id = none;
}

abbrev server : Server ℕ ℕ
server = record {
  policies = ("sum", sum_policy) ∷ [];
  records_count = 5;
  rules = [];
  forbidden_keys = codes "email" ∷ [];
  person = λ t. none;
  guest_image_id = none;
  is_dev = false;
  one = 1;
  decimals = naturals;
  parse = parse;
  run = λ q. some (ok response);
}

server-IsParser : IsParser server.parse
unfolding weight
server-IsParser = record {
  fits = λ t v p. elim (Bool-cases (bytes_eq t quoted)) [
    | inl same ↦ ground (arith, bytes_eq_iff t quoted)
    | inr other ↦ ground arith
  ];
}

abbrev delivery : Delivery ℕ
delivery = deliver server response

sum_delivered : execute_in_worker_pool server [] (some "sum") ≡ delivered delivery
unfolding execute_in_worker_pool Dict.get parse_unknown_json bytes_eq
    unwrap_for_aggregation_policy_scan walk violates_aggregation_first_policy Pii.scan forget
    check_key forbidden_keys_set filter contains is_prefix Pii.weight Pii.check_string
sum_delivered = refl

execute_in_worker_pool_iff_example :
    (execute_in_worker_pool server [] (some "sum") ≡ delivered delivery) ↔ (
      (q : WorkerRequest ℕ) × Asks server (policy_of server (some "sum")) [] q
      × (r : WorkerResponse ℕ) × (server.run q ≡ some (ok r))
      × Passed server
          (policy_of server (some "sum"))
          r
          (sanitize_output server.decimals default_config r.output)
      × Holds server r delivery)
execute_in_worker_pool_iff_example = execute_in_worker_pool_iff server [] (some "sum") delivery

sum_enforced : enforced (policy_of server (some "sum")) ≢ off
unfolding Dict.get
sum_enforced = λ h. cc

quoted-row : json_of parse quoted ≡ some (object sum_row)
unfolding json_of trim drop_spaces bytes_eq
quoted-row = refl

delivered-Small_example : Small (enforced (policy_of server (some "sum"))) (some 5) (object sum_row)
unfolding sanitize_output
delivered-Small_example =
    delivered-Small server [] (some "sum") delivery (object sum_row) sum_delivered sum_enforced
      (in_text quoted-row itself)

execute_in_worker_pool-Answered_example :
    Answered server server-IsParser (execute_in_worker_pool server [] (some "sum"))
execute_in_worker_pool-Answered_example =
    execute_in_worker_pool-Answered server server-IsParser [] (some "sum") (λ h. cc)

abbrev calls : Calls ℕ
calls = record {
  stringify = λ v. codes "{}";
  show = λ v. [];
  is_nonzero = λ n. true;
  call_tool = λ name arguments. fail tt;
}

optimistic_overrides_example :
    (answer_stream server calls none
        (some (with_mode required sum_policy))
        (record response { proof_type = hmac_legacy })
      ≡ error_response (told (reason_told proof_unavailable)))
    × (answer_stream server calls
          (some zk_optimistic)
          (some (with_mode required sum_policy))
          (record response { proof_type = hmac_legacy })
        ≡ answer_stream server calls none
            (some (with_mode no_zk sum_policy))
            (record response { proof_type = hmac_legacy }))
optimistic_overrides_example =
    optimistic_overrides server calls sum_policy (record response { proof_type = hmac_legacy }) refl

abbrev leak : Entries ℕ
leak = entry (codes "email") (text (codes "ana@x.org")) no_entries
