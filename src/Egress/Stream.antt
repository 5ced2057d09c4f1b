-- ===== src/Egress/Stream.antt =====
-- The egress of `executeLogic` over gRPC, from the response of the worker on
-- (sdks/typescript/src/server/index.ts), without the records of the audit and the metrics.
pub mod Required
pub mod Unscanned
use liop.Common.{
  ℕ, String, Bool, true, false, not, Option, none, some, List, [], ◌∷◌, if◌then◌else◌, str_or,
  coalesce,
}
use liop.Common.Attempt.{Attempt, ok, fail}
use liop.Common.Text.{codes}
use liop.Value.{
  Value, Entries, undefined, null, boolean, number, text, array, object, no_entries, field,
}
use liop.Aggregation.{unwrap_for_aggregation_policy_scan}
use liop.Sanitizer.{default_config, sanitize_output}
use liop.Egress.{
  Server, LogicExecutionPolicy, ProofMode, legacy_hmac, zk_optimistic, zk_blocking, ZkMode,
  ProofType, hmac_legacy, WorkerResponse, Reason, proof_unavailable, Checked, passes, blocked,
  unfinished, Told, egress_violation, reason_told, tell, validate_output_policy, final_check,
  violates_unwrapped, of_judged, of_scanned, enforced, policy_mode, zk_mode, proof_missing,
  pii_scanner, own_image, stream_check,
}

-- What the tool that an output stands for answers; `message` is the text of its first part.
pub record ToolResult (F : Type 0) : Type 0 where
  pub is_error : Bool
  pub message : List ℕ
  pub value : Value F

-- `JSON.stringify` (a text that JSON.parse refuses for undefined), `String`, the truth of a number,
-- and `callTool` for a name and arguments, where it throws or not.
pub record Calls (F : Type 0) : Type 0 where
  pub stringify : Value F → List ℕ
  pub show : Value F → List ℕ
  pub is_nonzero : F → Bool
  pub call_tool : Value F → Value F → Attempt (Unit {0}) (ToolResult F)

pub data Evidence : Type 0 where
  output_text : List ℕ → Evidence
  told : Told → Evidence
  tool_error : List ℕ → Evidence

pub record LogicResponse : Type 0 where
  pub semantic_evidence : Evidence
  pub cryptographic_proof : String
  pub zk_receipt : String
  pub is_error : Bool
  pub proof_type : ProofType
  pub guest_image_id : String

pub data Streamed : Type 0 where
  responds : LogicResponse → Streamed
  unfinished_stream : Streamed

-- The mode that the worker is asked for: a client's, unless it is the legacy one.
abbrev pub requested_mode : Option ProofMode → ZkMode → ProofMode
requested_mode none policy = policy_mode policy
requested_mode (some legacy_hmac) policy = policy_mode policy
requested_mode (some zk_optimistic) policy = zk_optimistic
requested_mode (some zk_blocking) policy = zk_blocking

-- A response that holds an error only.
abbrev pub error_response : Evidence → Streamed
error_response e = responds (record {
  semantic_evidence = e;
  cryptographic_proof = "";
  zk_receipt = "";
  is_error = true;
  proof_type = hmac_legacy;
  guest_image_id = "";
})

module _ {F : Type 0} (calls : Calls F) where
  unfoldable pub is_truthy : Value F → Bool
  is_truthy undefined = false
  is_truthy null = false
  is_truthy (boolean b) = b
  is_truthy (number x) = calls.is_nonzero x
  is_truthy (text []) = false
  is_truthy (text (c ∷ cs)) = true
  is_truthy (array es) = true
  is_truthy (object es) = true

  abbrev or_empty : Option (Value F) → Value F
  or_empty none = object no_entries
  or_empty (some v) = if is_truthy v then v else object no_entries

  abbrev named : Entries F → Option (Value F) → Option (Value F × Value F)
  named es none = none
  named es (some name) =
      if is_truthy name then some (name, or_empty (field (codes "__liop_proxy_args") es)) else none

  -- The tool that a value names, and its arguments.
  unfoldable pub proxied : Value F → Option (Value F × Value F)
  unfolding is_truthy field
  proxied (object es) = named es (field (codes "__liop_proxy_tool") es)
  proxied _ = none

  -- `typeof output === "string" ? output : JSON.stringify(output)`
  abbrev pub json_text : Value F → List ℕ
  json_text (text t) = t
  json_text v = calls.stringify v

module _ {F N : Type 0} (s : Server F N) (calls : Calls F) where
  module _ (policy : Option (LogicExecutionPolicy F N)) (r : WorkerResponse F) where
    abbrev respond : Evidence → Bool → Streamed
    respond e failed = responds (record {
      semantic_evidence = e;
      cryptographic_proof = r.image_id;
      zk_receipt = r.zk_receipt;
      is_error = failed;
      proof_type = r.proof_type;
      guest_image_id =
          str_or r.guest_image_id (str_or (own_image policy) (str_or s.guest_image_id ""));
    })

    abbrev pub respond_final : List ℕ → Checked → Streamed
    respond_final t passes = respond (output_text t) false
    respond_final t (blocked reason) = respond (told egress_violation) true
    respond_final t unfinished = unfinished_stream

    abbrev pub respond_checked : List ℕ → Value F → Checked → Streamed
    respond_checked t v passes = respond_final t (stream_check s policy v)
    respond_checked t v (blocked reason) = error_response (told (tell s.is_dev reason))
    respond_checked t v unfinished = unfinished_stream

    -- The text for the client, and the value that the checks are made on.
    unfoldable pub answer_checks : List ℕ → Value F → Streamed
    unfolding stream_check
    answer_checks t v = respond_checked t v (validate_output_policy s v policy)

    abbrev pub answer_unwrapped : List ℕ → Option (Value F) → Streamed
    answer_unwrapped t none = unfinished_stream
    answer_unwrapped t (some v) = answer_checks t v

    -- The result of the tool that an output stands for.
    unfoldable pub answer_tool : ToolResult F → Streamed
    unfolding answer_checks
    answer_tool result =
        let sanitized = sanitize_output s.decimals default_config result.value in
        if result.is_error
        then error_response (tool_error result.message)
        else answer_unwrapped (calls.stringify sanitized)
            (unwrap_for_aggregation_policy_scan s.parse sanitized)

    abbrev answer_call : Value F → Attempt (Unit {0}) (ToolResult F) → Streamed
    answer_call v (ok result) = answer_tool result
    answer_call v (fail e) = answer_checks (calls.show v) v

    abbrev answer_proxy : Value F → Option (Value F × Value F) → Streamed
    answer_proxy v none = answer_checks (json_text calls v) v
    answer_proxy v (some (name, arguments)) = answer_call v (calls.call_tool name arguments)

    -- null has no fields: reading one throws.
    abbrev answer_decoded : Value F → Option (Value F) → Streamed
    answer_decoded v none = answer_checks (calls.show v) v
    answer_decoded v (some undefined) = answer_checks (calls.show v) v
    answer_decoded v (some null) = answer_checks (calls.show v) v
    answer_decoded v (some w) = answer_proxy v (proxied calls w)

    abbrev pub answer_output : Value F → Streamed
    answer_output v = answer_decoded v (s.parse (json_text calls v))

  unfoldable pub answer_stream :
      Option ProofMode → Option (LogicExecutionPolicy F N) → WorkerResponse F → Streamed
  unfolding answer_tool proxied
  answer_stream requested policy r =
      if proof_missing (requested_mode requested (zk_mode policy)) r.proof_type
      then error_response (told (reason_told proof_unavailable))
      else answer_output policy r (sanitize_output s.decimals default_config r.output)
