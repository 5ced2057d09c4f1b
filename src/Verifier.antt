-- ===== src/Verifier.antt =====
-- What a client asks of the receipt worker (`LiopVerifier.verifyZkReceipt` of
-- sdks/typescript/src/crypto/verifier.ts), with the registry of verification keys. The pool runs the
-- handler of ZkWorker; what it measures of a run is left out.
pub mod Keys
mod Tests
use liop.Common.{
  ℕ, ◌≡◌, String, Bool, true, false, not, Option, none, some, List, text_equality, if◌then◌else◌,
  truthy, coalesce, coalesce_to,
}
use liop.Common.Dict
use liop.Common.Dict.{Dict}
use liop.Common.Attempt.{Attempt, ok, fail}
use liop.ZkWorker.{
  Platform, ZkPolicy, ZkVerificationPayload, Refusal, Verified, Task, worker_handler,
  verify_receipt,
}

abbrev pub Registry : Type 0
Registry = Dict String (List ℕ)

unfoldable pub register_v_key : String → List ℕ → Registry → Registry
register_v_key circuit vkey registry = Dict.set circuit vkey registry

unfoldable pub get_registered_v_key : String → Registry → Option (List ℕ)
get_registered_v_key circuit registry = Dict.get circuit registry

-- A policy that is not given is as `no_policy`, since the worker compares it with "required" only.
pub record VerifyZkOptions (V : Type 0) : Type 0 where
  pub session_secret : Option (List ℕ)
  pub expected_output : Option V
  pub guest_image_id_hex : Option String
  pub vkey_raw : Option (List ℕ)
  pub zk_policy : ZkPolicy
  pub circuit_name : Option String

-- `sessionSecretOrOptions`
pub data SecretOrOptions (V : Type 0) : Type 0 where
  absent : SecretOrOptions V
  secret : List ℕ → SecretOrOptions V
  options : VerifyZkOptions V → SecretOrOptions V

-- The key that is given, or that of the circuit.
unfoldable pub vkey_of : {V : Type 0} → Registry → VerifyZkOptions V → Option (List ℕ)
unfolding get_registered_v_key
vkey_of registry o = coalesce o.vkey_raw (
    if truthy o.circuit_name
    then get_registered_v_key (coalesce_to o.circuit_name "") registry
    else none)

-- The first three arguments: the logic, the image's identifier and the receipt.
pub record Sent : Type 0 where
  pub logic_payload : List ℕ
  pub remote_image_id_hex : String
  pub zk_receipt : List ℕ

abbrev bare : {V : Type 0} → Sent → Option (List ℕ) → Option V → ZkVerificationPayload V
bare sent session_secret expected_output = record {
  logic_payload = some sent.logic_payload;
  remote_image_id_hex = some sent.remote_image_id_hex;
  guest_image_id_hex = none;
  zk_receipt = some sent.zk_receipt;
  session_secret = session_secret;
  vkey_raw = none;
  expected_output = expected_output;
  zk_policy = ZkPolicy.no_policy;
}

unfoldable pub payload_of :
    {V : Type 0} → Registry → Sent → SecretOrOptions V → Option V → ZkVerificationPayload V
unfolding vkey_of
payload_of registry sent absent expected_output = bare sent none expected_output
payload_of registry sent (secret s) expected_output = bare sent (some s) expected_output
payload_of registry sent (options o) expected_output = record {
  logic_payload = some sent.logic_payload;
  remote_image_id_hex = some sent.remote_image_id_hex;
  guest_image_id_hex = o.guest_image_id_hex;
  zk_receipt = some sent.zk_receipt;
  session_secret = o.session_secret;
  vkey_raw = vkey_of registry o;
  expected_output = coalesce o.expected_output expected_output;
  zk_policy = o.zk_policy;
}

abbrev pub succeeded : Attempt Refusal Verified → Bool
succeeded (ok v) = true
succeeded (fail e) = false

unfoldable pub verify_zk_receipt :
    {V : Type 0} → Platform V → Registry → Sent → SecretOrOptions V → Option V → Bool
unfolding payload_of
verify_zk_receipt p registry sent chosen expected_output =
    succeeded (worker_handler p (verify_receipt (payload_of registry sent chosen expected_output)))
