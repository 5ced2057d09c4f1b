-- ===== src/ZkWorker.antt =====
-- The verification of receipts in a worker (sdks/typescript/src/workers/zk-verifier.ts), with the digest
-- of logic (sdks/typescript/src/crypto/logic-image-id.ts). Texts are lists of codes where the worker
-- reads their characters. What other libraries do is the parameter `Platform`.
pub mod Checks
pub mod Forgery
mod Tests
use liop.Common.{
  ℕ, ◌+◌, ◌-◌, ◌≡◌, String, Bool, true, false, not, ◌&&◌, ◌||◌, Option, none, some, List, [], ◌∷◌,
  ◌++◌, if◌then◌else◌, eqb, length, take, drop, ◌==◌, text_equality, truthy, coalesce_to,
}
use liop.Common.Bytes.{bytes_eq, byte_at}
use liop.Common.Attempt.{Attempt, ok, fail, ◌>>=◌, ◌>>◌, guard}
use liop.Receipt.{
  Sha256, ZkError, DecodedReceipt, ZkJournalV2, decode, decode_journal_v2, groth16,
  groth16_pqc_hybrid, receipt_version_v1, receipt_version_v2,
}

pub data ZkPolicy : Type 0 where
  no_policy : ZkPolicy
  optimistic : ZkPolicy
  required : ZkPolicy

-- What a journal of version 1 says, where it is JSON; a field that is no text is `none`.
pub record ZkJournal : Type 0 where
  pub image_id : Option String
  pub output_hash : Option String

-- The engine and the libraries: `none` is an error that is thrown.
pub record Platform (V : Type 0) : Type 0 where
  pub sha : Sha256
  pub hmac : (secret journal : List ℕ) → List ℕ
  pub hex : List ℕ → String
  -- The top-level envelope taken off a text, or the text, trimmed.
  pub normalize_logic_source : List ℕ → List ℕ
  pub parse_journal : List ℕ → Option ZkJournal
  -- `logicStr.includes("__liop_proxy_tool")`, and the slice where it is JSON with that field.
  pub mentions_proxy : List ℕ → Bool
  pub parse_proxy : List ℕ → Option V
  -- The value if it is a text, or its JSON.
  pub output_text : V → List ℕ
  pub verify_signature : (signature digest key : List ℕ) → Option Bool
  pub verify_groth16 : (vkey proof : List ℕ) → Option Bool

pub record ZkVerificationPayload (V : Type 0) : Type 0 where
  pub logic_payload : Option (List ℕ)
  pub remote_image_id_hex : Option String
  pub guest_image_id_hex : Option String
  pub zk_receipt : Option (List ℕ)
  pub session_secret : Option (List ℕ)
  pub vkey_raw : Option (List ℕ)
  pub expected_output : Option V
  pub zk_policy : ZkPolicy

-- Why a receipt is not verified.
pub data Refusal : Type 0 where
  missing_fields : Refusal
  decode_failed : ZkError → Refusal
  policy_violation : Refusal
  integrity_violation : Refusal
  journal_image_mismatch : Refusal
  journal_unparsable : Refusal
  invalid_seal : Refusal
  output_mismatch : Refusal
  unsupported_proof_type : ℕ → Refusal
  missing_signature : Refusal
  signature_forged : Refusal
  signature_error : Refusal
  journal_undecodable : ZkError → Refusal
  guest_mismatch : Refusal
  logic_mismatch : Refusal
  proof_invalid : Refusal
  proof_error : Refusal
  unsupported_version : ℕ → Refusal
  -- An error of the runtime that the handler of the worker catches.
  verification_error : Refusal

-- The `proofType` of a result.
pub data Verified : Type 0 where
  hmac : Verified
  groth16_proof : Verified
  hybrid_proof : Verified
  warm : Verified

-- The variables of the loop over the characters.
pub record Scanner : Type 0 where
  pub brace_count : ℕ
  pub in_double_quote : Bool
  pub in_single_quote : Bool
  pub in_backtick : Bool
  pub escaped : Bool

abbrev pub start : Scanner
start = record {
  brace_count = 0;
  in_double_quote = false;
  in_single_quote = false;
  in_backtick = false;
  escaped = false;
}

abbrev unquoted : Scanner → Bool
unquoted s = not s.in_double_quote && not s.in_single_quote && not s.in_backtick

-- A round of the loop but for the break.
unfoldable pub scan_char : ℕ → Scanner → Scanner
scan_char c s =
    if s.escaped
    then record s { escaped = false }
    else if eqb c b'\\'
    then record s { escaped = true }
    else if eqb c b'"' && not s.in_single_quote && not s.in_backtick
    then record s { in_double_quote = not s.in_double_quote }
    else if eqb c b'\'' && not s.in_double_quote && not s.in_backtick
    then record s { in_single_quote = not s.in_single_quote }
    else if eqb c b'`' && not s.in_double_quote && not s.in_single_quote
    then record s { in_backtick = not s.in_backtick }
    else if unquoted s && eqb c b'{'
    then record s { brace_count = s.brace_count + 1 }
    else if unquoted s && eqb c b'}'
    then record s { brace_count = s.brace_count - 1 }
    else s

-- `if (braceCount === 0) break`, which stands behind the decrement.
abbrev pub closes : ℕ → Scanner → Bool
closes c s = not s.escaped && unquoted s && eqb c b'}' && eqb (s.brace_count - 1) 0

abbrev one_more : Option ℕ → Option ℕ
one_more none = none
one_more (some n) = some (n + 1)

-- From the first brace on: the length of the text up to the brace that closes it. The count is positive
-- behind the first brace until then.
unfoldable pub closing : Scanner → List ℕ → Option ℕ
unfolding scan_char
closing s [] = none
closing s (c ∷ cs) =
    let rest = one_more (closing (scan_char c s) cs) in if closes c s then some 1 else rest

unfoldable pub from_brace : List ℕ → List ℕ
from_brace [] = []
from_brace (c ∷ cs) = if eqb c b'{' then c ∷ cs else from_brace cs

module _ {V : Type 0} (p : Platform V) where
  abbrev parse_slice : List ℕ → Option ℕ → Option V
  parse_slice text none = none
  parse_slice text (some n) = p.parse_proxy (take n text)

  unfoldable pub try_extract_proxy_output : List ℕ → Option V
  unfolding closing from_brace
  try_extract_proxy_output logic =
      if p.mentions_proxy logic
      then parse_slice (from_brace logic) (closing start (from_brace logic))
      else none

  unfoldable pub derive_logic_image_digest : List ℕ → List ℕ
  derive_logic_image_digest logic = p.sha.digest (
      if eqb (length (take 2 logic)) 2 && eqb (byte_at 0 logic) 0x00 && eqb (byte_at 1 logic) 0x61
      then logic
      else p.normalize_logic_source logic)

  -- The digest of the output: that of the proxied tool's, if the logic is a proxy.
  abbrev pub output_digest : List ℕ → V → List ℕ
  output_digest logic v =
      p.sha.digest (p.output_text (coalesce_to (try_extract_proxy_output logic) v))

  abbrev is_given : Option (List ℕ) → Bool
  is_given none = false
  is_given (some []) = false
  is_given (some (b ∷ bs)) = true

  abbrev bytes_of : Option (List ℕ) → List ℕ
  bytes_of b = coalesce_to b []

  abbrev same_text : Option String → String → Bool
  same_text none t = false
  same_text (some s) t = s == t

  abbrev from_journal : Option ZkJournal → Attempt Refusal ZkJournal
  from_journal none = fail journal_unparsable
  from_journal (some j) = ok j

  -- `slice` of a field that is no text throws: within the `try` for the image, outside it for the output.
  abbrev image_refusal : Option String → Refusal
  image_refusal none = journal_unparsable
  image_refusal (some s) = journal_image_mismatch

  abbrev output_refusal : Option String → Refusal
  output_refusal none = verification_error
  output_refusal (some s) = output_mismatch

  -- `timingSafeEqual` throws for lists of different lengths.
  abbrev seal_refusal : (seal expected : List ℕ) → Refusal
  seal_refusal seal expected =
      if eqb (length seal) (length expected) then invalid_seal else verification_error

  abbrev check_seal : Option (List ℕ) → DecodedReceipt → Attempt Refusal (Unit {0})
  check_seal secret r =
      guard (not (is_given secret) || bytes_eq r.proof (p.hmac (bytes_of secret) r.journal))
        (seal_refusal r.proof (p.hmac (bytes_of secret) r.journal))

  abbrev check_output_hash : List ℕ → Option V → ZkJournal → Attempt Refusal (Unit {0})
  check_output_hash logic none j = ok tt
  check_output_hash logic (some v) j =
      guard (same_text j.output_hash (p.hex (output_digest logic v))) (output_refusal j.output_hash)

  -- A receipt of version 1.
  unfoldable pub verify_v1 :
      List ℕ → String → ZkVerificationPayload V → DecodedReceipt → Attempt Refusal Verified
  unfolding derive_logic_image_digest try_extract_proxy_output
  verify_v1 logic remote payload r =
      let local = p.hex (derive_logic_image_digest logic) in
      do
        guard (elim payload.zk_policy [ required ↦ false | _ ↦ true ]) policy_violation
        guard (local == remote) integrity_violation
        j ← from_journal (p.parse_journal r.journal)
        guard (same_text j.image_id local) (image_refusal j.image_id)
        check_seal payload.session_secret r
        check_output_hash logic payload.expected_output j
        ok Verified.hmac

  abbrev by_library : Option Bool → Refusal → Refusal → Attempt Refusal (Unit {0})
  by_library none invalid thrown = fail thrown
  by_library (some t) invalid thrown = guard t invalid

  abbrev check_cosign :
      Option (List ℕ) → Option (List ℕ) → DecodedReceipt → Attempt Refusal (Unit {0})
  check_cosign (some signature) (some key) r =
      by_library (p.verify_signature signature (p.sha.digest (r.journal ++ r.proof)) key)
        signature_forged signature_error
  check_cosign _ _ r = fail missing_signature

  abbrev check_signature : DecodedReceipt → Attempt Refusal (Unit {0})
  check_signature r =
      if eqb r.proof_type groth16_pqc_hybrid
      then check_cosign r.pqc_signature r.pqc_public_key r
      else ok tt

  abbrev journal_or : Attempt ZkError ZkJournalV2 → Attempt Refusal ZkJournalV2
  journal_or (ok j) = ok j
  journal_or (fail e) = fail (journal_undecodable e)

  abbrev check_guest : Option String → ZkJournalV2 → Attempt Refusal (Unit {0})
  check_guest expected j =
      guard (not (truthy expected) || (p.hex j.guest_image_id == coalesce_to expected ""))
        guest_mismatch

  abbrev check_proof : Option (List ℕ) → DecodedReceipt → Attempt Refusal (Unit {0})
  check_proof vkey r =
      if is_given vkey
      then by_library (p.verify_groth16 (bytes_of vkey) r.proof) proof_invalid proof_error
      else ok tt

  abbrev check_output : List ℕ → Option V → ZkJournalV2 → Attempt Refusal (Unit {0})
  check_output logic none j = ok tt
  check_output logic (some v) j =
      guard (bytes_eq j.output_digest (output_digest logic v)) output_mismatch

  -- A receipt of version 2.
  unfoldable pub verify_v2 :
      List ℕ → ZkVerificationPayload V → DecodedReceipt → Attempt Refusal Verified
  unfolding derive_logic_image_digest try_extract_proxy_output
  verify_v2 logic payload r = do
    guard (eqb r.proof_type groth16 || eqb r.proof_type groth16_pqc_hybrid)
        (unsupported_proof_type r.proof_type)
    check_signature r
    j ← journal_or (decode_journal_v2 r.journal)
    check_guest payload.guest_image_id_hex j
    guard (bytes_eq j.logic_digest (derive_logic_image_digest logic)) logic_mismatch
    check_proof payload.vkey_raw r
    check_output logic payload.expected_output j
    ok (if eqb r.proof_type groth16_pqc_hybrid then hybrid_proof else groth16_proof)

  abbrev pub by_version :
      List ℕ
      → String
      → ZkVerificationPayload V
      → Attempt ZkError DecodedReceipt
      → Attempt Refusal Verified
  by_version logic remote payload (fail e) = fail (decode_failed e)
  by_version logic remote payload (ok r) =
      if eqb r.version receipt_version_v1
      then verify_v1 logic remote payload r
      else if eqb r.version receipt_version_v2
      then verify_v2 logic payload r
      else fail (unsupported_version r.version)

  abbrev pub verify_fields :
      ZkVerificationPayload V
      → Option (List ℕ)
      → Option String
      → Option (List ℕ)
      → Attempt Refusal Verified
  verify_fields payload (some logic) (some remote) (some raw) =
      if remote == ""
      then fail missing_fields
      else by_version logic remote payload (decode p.sha raw)
  verify_fields payload _ _ _ = fail missing_fields

  unfoldable pub verify_zk_receipt : ZkVerificationPayload V → Attempt Refusal Verified
  unfolding verify_v1 verify_v2
  verify_zk_receipt payload =
      verify_fields payload payload.logic_payload payload.remote_image_id_hex payload.zk_receipt

  pub data Task : Type 0 where
    warmup : Task
    verify_receipt : ZkVerificationPayload V → Task
    unknown_action : Task

  -- `workerHandler`; a result is `verified` where this is `ok`.
  unfoldable pub worker_handler : Task → Attempt Refusal Verified
  unfolding verify_zk_receipt
  worker_handler warmup = ok warm
  worker_handler (verify_receipt payload) = verify_zk_receipt payload
  worker_handler unknown_action = fail verification_error
