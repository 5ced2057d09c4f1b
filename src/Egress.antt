-- ===== src/Egress.antt =====
-- What leaves the server (sdks/typescript/src/server/index.ts: `validateOutputPolicy`,
-- `executeInWorkerPool` and the egress of `executeLogic`). The run of logic in a worker, the schemas of
-- zod, JSON.stringify and the tool that an output stands for are parameters. A refusal is known by its
-- cause; the text for the caller shows it only in development (`is_dev`).
pub mod Ends
pub mod Local
pub mod Stream
mod Tests
use liop.Common.{
  ℕ, String, Bool, true, false, not, ◌&&◌, ◌||◌, Option, none, some, List, [], ◌∷◌, if◌then◌else◌,
  coalesce_to, coalesce, text_equality, ◌==◌,
}
use liop.Common.Dict
use liop.Common.Dict.{Dict}
use liop.Common.Attempt.{Attempt, ok, fail}
use liop.Common.Text.{codes}
use liop.Common.Bytes.{contains}
use liop.Pii
use liop.Pii.{PiiScanner, PiiRule, Scanned, clean, found, init, scan}
use liop.Value.{
  Value, Entries, undefined, null, boolean, number, text, array, object, field, forget,
  parse_unknown_json,
}
use liop.Aggregation.{
  Enforce, off, on, by_policy, Judged, aggregate, violation, out_of_fuel,
  violates_aggregation_first_policy, unwrap_for_aggregation_policy_scan,
}
use liop.Sanitizer.{Decimals, default_config, sanitize_output}

pub data ZkMode : Type 0 where
  no_zk : ZkMode
  optimistic : ZkMode
  required : ZkMode

pub data ProofMode : Type 0 where
  legacy_hmac : ProofMode
  zk_optimistic : ProofMode
  zk_blocking : ProofMode

pub data ProofType : Type 0 where
  hmac_legacy : ProofType
  groth16 : ProofType
  groth16_pqc_hybrid : ProofType

-- A schema of zod: the issues that `safeParse` reports, and those that it does after `strict()`.
-- `catchall` is whether the definition has one that is not `ZodNever`.
pub record Schema (F : Type 0) : Type 0 where
  pub is_object : Bool
  pub catchall : Bool
  pub issues : Value F → List String
  pub strict_issues : Value F → List String

-- The parts of `LogicExecutionPolicy` that are read after a run; `N` are the numbers of the noise.
pub record LogicExecutionPolicy (F N : Type 0) : Type 0 where
  pub output_schema : Option (Schema F)
  pub enforce_aggregation_first : Enforce
  pub zk_mode : ZkMode
  pub dp_epsilon : Option N
  pub dp_sensitivity : Option N
  pub dp_threshold : Option ℕ
  pub guest_image_id : Option String
  pub pqc_sign : Bool

pub record DpConfig (N : Type 0) : Type 0 where
  pub epsilon : N
  pub sensitivity : N
  pub threshold : ℕ

pub record WorkerRequest (N : Type 0) : Type 0 where
  pub payload : List ℕ
  pub proof_mode : ProofMode
  pub guest_image_id : Option String
  pub pqc_sign : Bool
  pub dp_config : Option (DpConfig N)

pub record WorkerResponse (F : Type 0) : Type 0 where
  pub output : Value F
  pub image_id : String
  pub zk_receipt : String
  pub proof_type : ProofType
  pub guest_image_id : Option String

-- The server, with what it calls. `run` is the pool of workers, and none where
-- its promise never settles; `none` in `parse` is an error.
pub record Server (F N : Type 0) : Type 0 where
  pub policies : Dict String (LogicExecutionPolicy F N)
  pub records_count : ℕ
  pub rules : List PiiRule
  pub forbidden_keys : List (List ℕ)
  pub person : List ℕ → Option (List ℕ)
  pub guest_image_id : Option String
  pub is_dev : Bool
  pub one : N
  pub decimals : Decimals F
  pub parse : List ℕ → Option (Value F)
  pub run : WorkerRequest N → Option (Attempt (List ℕ) (WorkerResponse F))

-- Why an output is not delivered.
pub data Reason : Type 0 where
  schema_violation : List String → Reason
  aggregation_violation : Reason
  personal_data : Pii.Violation → Reason
  proof_unavailable : Reason
  worker_fault : List ℕ → Reason

-- A check passes, names a reason, or is out of fuel.
pub data Checked : Type 0 where
  passes : Checked
  blocked : Reason → Checked
  unfinished : Checked

abbrev pub of_judged : Judged → Checked
of_judged aggregate = passes
of_judged violation = blocked aggregation_violation
of_judged out_of_fuel = unfinished

abbrev pub of_scanned : Scanned → Checked → Checked
of_scanned clean rest = rest
of_scanned (found v) rest = blocked (personal_data v)
of_scanned Pii.out_of_fuel rest = unfinished

abbrev pub by_issues : List String → Checked → Checked
by_issues [] rest = rest
by_issues (i ∷ is) rest = blocked (schema_violation (i ∷ is))

-- The mode that a policy asks for.
abbrev pub policy_mode : ZkMode → ProofMode
policy_mode no_zk = legacy_hmac
policy_mode optimistic = zk_optimistic
policy_mode required = zk_blocking

abbrev is_proved : ProofType → Bool
is_proved hmac_legacy = false
is_proved groth16 = true
is_proved groth16_pqc_hybrid = true

abbrev is_blocking : ProofMode → Bool
is_blocking zk_blocking = true
is_blocking legacy_hmac = false
is_blocking zk_optimistic = false

-- A proof is there where the mode wants one.
abbrev pub proof_missing : ProofMode → ProofType → Bool
proof_missing mode proof = is_blocking mode && not (is_proved proof)

module _ {F : Type 0} where
  -- `parsed.isError === true` on an object.
  abbrev is_true : Option (Value F) → Bool
  is_true (some (boolean true)) = true
  is_true _ = false

  unfoldable pub is_error_result : Value F → Bool
  unfolding field
  is_error_result (object es) = is_true (field (codes "isError") es)
  is_error_result _ = false

  -- `effectiveSchema.safeParse(parsed)`
  unfoldable pub schema_issues : Schema F → Value F → List String
  schema_issues s v = if s.is_object && not s.catchall then s.strict_issues v else s.issues v

  abbrev pub by_schema : Option (Schema F) → Value F → Checked → Checked
  by_schema none v rest = rest
  by_schema (some s) v rest = by_issues (schema_issues s v) rest

module _ {F N : Type 0} where
  abbrev pub enforced : Option (LogicExecutionPolicy F N) → Enforce
  enforced none = off
  enforced (some p) = p.enforce_aggregation_first

  abbrev pub zk_mode : Option (LogicExecutionPolicy F N) → ZkMode
  zk_mode none = no_zk
  zk_mode (some p) = p.zk_mode

  abbrev pub own_image : Option (LogicExecutionPolicy F N) → Option String
  own_image none = none
  own_image (some p) = p.guest_image_id

  abbrev signs : Option (LogicExecutionPolicy F N) → Bool
  signs none = false
  signs (some p) = p.pqc_sign

module _ {F N : Type 0} (s : Server F N) where
  abbrev pub violates : Enforce → Value F → Judged
  violates policy v = violates_aggregation_first_policy s.parse policy (some s.records_count) v

  abbrev pub violates_unwrapped : Enforce → Option (Value F) → Checked
  violates_unwrapped policy none = unfinished
  violates_unwrapped policy (some v) = of_judged (violates policy v)

  -- `policy.enforceAggregationFirst && this.violatesAggregationFirstPolicy(...)`
  unfoldable pub check_aggregation : Enforce → Value F → Checked
  check_aggregation off v = passes
  check_aggregation on v = violates_unwrapped on (unwrap_for_aggregation_policy_scan s.parse v)
  check_aggregation (by_policy p) v =
      violates_unwrapped (by_policy p) (unwrap_for_aggregation_policy_scan s.parse v)

  abbrev pub validate_parsed : LogicExecutionPolicy F N → Value F → Checked
  validate_parsed policy parsed =
      if is_error_result parsed
      then passes
      else by_schema policy.output_schema parsed
          (check_aggregation policy.enforce_aggregation_first parsed)

  unfoldable pub validate_output_policy : Value F → Option (LogicExecutionPolicy F N) → Checked
  unfolding schema_issues check_aggregation is_error_result
  validate_output_policy output none = passes
  validate_output_policy output (some policy) =
      validate_parsed policy (parse_unknown_json s.parse output)

  -- The scanner with the parser of the server.
  abbrev pub parse_json : Option (Value F) → Option Pii.Json
  parse_json none = none
  parse_json (some v) = some (forget v)

  abbrev pub pii_scanner : PiiScanner
  pii_scanner = init s.rules s.forbidden_keys s.person (λ t. parse_json (s.parse t))

  -- The checks after the policy's: `violation || aggregationViolation`.
  unfoldable pub final_check : Value F → Judged → Checked
  final_check output judged = of_scanned (scan pii_scanner (forget output)) (of_judged judged)

  -- The checks of `executeLogic` after the policy's, with the value unwrapped for the limits.
  unfoldable pub stream_check : Option (LogicExecutionPolicy F N) → Value F → Checked
  stream_check policy v =
      of_scanned (scan pii_scanner (forget v))
        (violates_unwrapped (enforced policy) (unwrap_for_aggregation_policy_scan s.parse v))

  abbrev pub dp_config : Option (LogicExecutionPolicy F N) → Option (DpConfig N)
  dp_config none = none
  dp_config (some p) = some (record {
    epsilon = coalesce_to p.dp_epsilon s.one;
    sensitivity = coalesce_to p.dp_sensitivity s.one;
    threshold = coalesce_to p.dp_threshold 50;
  })

  abbrev pub request : Option (LogicExecutionPolicy F N) → ProofMode → List ℕ → WorkerRequest N
  request policy mode payload = record {
    payload = payload;
    proof_mode = mode;
    guest_image_id = coalesce (own_image policy) s.guest_image_id;
    pqc_sign = signs policy;
    dp_config = dp_config policy;
  }

-- The texts that a caller reads for a reason.
pub data Told : Type 0 where
  reason_told : Reason → Told
  egress_violation : Told
  execution_failed : Told
  memory_exceeded : Told

-- `detail.includes(...)` of the errors with which a worker ends that is out of memory.
abbrev pub is_oom : List ℕ → Bool
is_oom detail =
    contains (codes "worker_thread_exited") detail
    || contains (codes "ERR_WORKER_OUT_OF_MEMORY") detail
    || contains (codes "terminated") detail
    || contains (codes "heap limit") detail

unfoldable pub tell : Bool → Reason → Told
tell is_dev (schema_violation issues) =
    if is_dev then reason_told (schema_violation issues) else egress_violation
tell is_dev aggregation_violation =
    if is_dev then reason_told aggregation_violation else egress_violation
tell is_dev (personal_data v) = if is_dev then reason_told (personal_data v) else egress_violation
tell is_dev proof_unavailable = reason_told proof_unavailable
tell is_dev (worker_fault detail) =
    if is_oom detail
    then memory_exceeded
    else if is_dev
    then reason_told (worker_fault detail)
    else execution_failed

-- The result of a call: what the JSON of its text holds, or the text of an error; `pending` where it
-- waits for a worker for ever.
pub record Delivery (F : Type 0) : Type 0 where
  pub computation_result : Value F
  pub image_id : String
  pub zk_receipt : String
  pub proof_type : ProofType
  pub guest_image_id : Option String

pub data CallToolResult (F : Type 0) : Type 0 where
  delivered : Delivery F → CallToolResult F
  refused : Told → CallToolResult F
  unfinished_result : CallToolResult F
  pending : CallToolResult F

module _ {F N : Type 0} (s : Server F N) where
  -- A truthy name that has a tool with a policy.
  abbrev pub policy_of : Option String → Option (LogicExecutionPolicy F N)
  policy_of none = none
  policy_of (some name) = if name == "" then none else Dict.get name s.policies

  abbrev pub answer_checked : Checked → CallToolResult F → CallToolResult F
  answer_checked passes rest = rest
  answer_checked (blocked r) rest = refused (tell s.is_dev r)
  answer_checked unfinished rest = unfinished_result

  abbrev pub deliver : WorkerResponse F → Delivery F
  deliver r = record {
    computation_result = sanitize_output s.decimals default_config r.output;
    image_id = r.image_id;
    zk_receipt = r.zk_receipt;
    proof_type = r.proof_type;
    guest_image_id = r.guest_image_id;
  }

  -- What is done with the response of a worker.
  unfoldable pub answer_response :
      Option (LogicExecutionPolicy F N) → WorkerResponse F → CallToolResult F
  unfolding validate_output_policy final_check sanitize_output tell
  answer_response policy r =
      let output = sanitize_output s.decimals default_config r.output in
      if proof_missing (policy_mode (zk_mode policy)) r.proof_type
      then refused (tell s.is_dev proof_unavailable)
      else answer_checked (validate_output_policy s output policy) (
          answer_checked (final_check s output (violates s (enforced policy) output))
            (delivered (deliver r)))

  abbrev pub answer_run :
      Option (LogicExecutionPolicy F N)
      → Option (Attempt (List ℕ) (WorkerResponse F))
      → CallToolResult F
  answer_run policy none = pending
  answer_run policy (some (ok r)) = answer_response policy r
  answer_run policy (some (fail detail)) = refused (tell s.is_dev (worker_fault detail))

  unfoldable pub execute_in_worker_pool : List ℕ → Option String → CallToolResult F
  unfolding answer_response
  execute_in_worker_pool payload tool_name =
      let policy = policy_of tool_name in
      answer_run policy (s.run (request s policy (policy_mode (zk_mode policy)) payload))
