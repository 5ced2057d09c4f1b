-- ===== src/Attestation.antt =====
-- Attestation reports of hardware (`LiopVerifier.verifyTeeAttestationDetailed` of
-- sdks/typescript/src/crypto/verifier.ts). SHA-256 and the hexadecimal text of bytes are parameters.
pub mod Accepts
pub mod Registers
mod Tests
use liop.Common.{
  ℕ, ◌+◌, ◌≡◌, String, Bool, true, false, not, ◌&&◌, ◌||◌, Option, none, some, List, [], ◌∷◌, ◌++◌,
  if◌then◌else◌, ltb, leb, eqb, length, take, coalesce_to,
}
use liop.Common.Bytes.{contains, subarray, byte_at, bytes_eq}
use liop.Receipt.{Sha256}

pub data TeePolicy : Type 0 where
  required : TeePolicy
  preferred : TeePolicy
  no_policy : TeePolicy

-- The registers are those of `Object.entries`, as the bytes that their text stands for.
pub record TeeVerificationOptions : Type 0 where
  pub policy : Option TeePolicy
  pub expected_nonce : Option (List ℕ)
  pub expected_public_key : Option (List ℕ)
  pub expected_pcrs : Option (List (String × List ℕ))
  pub allow_synthetic : Bool

pub data TeePlatform : Type 0 where
  amd_sev_snp : TeePlatform
  aws_nitro : TeePlatform
  intel_tdx : TeePlatform
  synthetic : TeePlatform
  no_platform : TeePlatform

pub data Message : Type 0 where
  bypassed : Message
  not_provided : Message
  empty_allowed : Message
  synthetic_refused : Message
  synthetic_verified : Message
  amd_binding_mismatch : Message
  amd_certified : Message
  pcr_mismatch : String → Message
  nitro_binding_mismatch : Message
  nitro_certified : Message
  unrecognized : (size : ℕ) → Message
  accepted_relaxed : Message

pub record Measurements : Type 0 where
  pub report_data_hex : String
  pub measurement_hex : String
  pub chip_id_hex : Option String

pub record TeeVerificationResult : Type 0 where
  pub verified : Bool
  pub platform : TeePlatform
  pub message : Message
  pub measurements : Option Measurements

abbrev pub result : Bool → TeePlatform → Message → TeeVerificationResult
result verified platform message = record {
  verified = verified;
  platform = platform;
  message = message;
  measurements = none;
}

abbrev pub is_required : TeePolicy → Bool
is_required required = true
is_required _ = false

abbrev pub is_synthetic : List ℕ → Bool
is_synthetic report =
    leb 4 (length report)
    && eqb (byte_at 0 report) 0x54
    && eqb (byte_at 1 report) 0x45
    && eqb (byte_at 2 report) 0x45
    && eqb (byte_at 3 report) 0x53

abbrev pub is_nitro_cose : List ℕ → Bool
is_nitro_cose report =
    (leb 2 (length report) && eqb (byte_at 0 report) 0xd2 && eqb (byte_at 1 report) 0x84)
    || contains (b'p' ∷ b'c' ∷ b'r' ∷ b's' ∷ []) report

-- The first register that the report does not hold; an empty one is not looked for.
unfoldable pub missing_pcr : List ℕ → List (String × List ℕ) → Option String
missing_pcr report [] = none
missing_pcr report ((index, marker) ∷ pcrs) =
    let rest = missing_pcr report pcrs in
    if ltb 0 (length marker) && not (contains marker report) then some index else rest

module _ (sha : Sha256) (hex : List ℕ → String) where
  -- SHA-256 of the key and the nonce, where one of them is expected.
  abbrev pub expected_binding : Option (List ℕ) → Option (List ℕ) → Option (List ℕ)
  expected_binding none none = none
  expected_binding key nonce = some (sha.digest (coalesce_to key [] ++ coalesce_to nonce []))

  abbrev pub binding : TeeVerificationOptions → Option (List ℕ)
  binding options = expected_binding options.expected_public_key options.expected_nonce

  abbrev measurements_of : List ℕ → Measurements
  measurements_of report = record {
    report_data_hex = hex (subarray 0x50 (0x50 + 64) report);
    measurement_hex = hex (subarray 0x90 (0x90 + 48) report);
    chip_id_hex =
        if leb 480 (length report) then some (hex (subarray 0x1a0 (0x1a0 + 64) report)) else none;
  }

  abbrev bound_to : List ℕ → Option (List ℕ) → Bool
  bound_to report none = true
  bound_to report (some digest) =
      bytes_eq (take (length digest) (subarray 0x50 (0x50 + 64) report)) digest

  abbrev amd_result : List ℕ → Bool → TeeVerificationResult
  amd_result report bound = record {
    verified = bound;
    platform = amd_sev_snp;
    message = if bound then amd_certified else amd_binding_mismatch;
    measurements = some (measurements_of report);
  }

  abbrev user_data : List ℕ → Option (List ℕ) → TeeVerificationResult
  user_data report none = result true aws_nitro nitro_certified
  user_data report (some digest) =
      if contains digest report
      then result true aws_nitro nitro_certified
      else result false aws_nitro nitro_binding_mismatch

  abbrev nitro_result : List ℕ → TeeVerificationOptions → Option String → TeeVerificationResult
  nitro_result report options (some index) = result false aws_nitro (pcr_mismatch index)
  nitro_result report options none = user_data report (binding options)

  abbrev unknown_result : List ℕ → TeePolicy → TeeVerificationResult
  unknown_result report policy =
      if is_required policy
      then result false no_platform (unrecognized (length report))
      else result true no_platform accepted_relaxed

  abbrev synthetic_result : TeePolicy → Bool → TeeVerificationResult
  synthetic_result policy allowed =
      if is_required policy && not allowed
      then result false synthetic synthetic_refused
      else result true synthetic synthetic_verified

  -- From a report that is not empty on.
  unfoldable pub verify_report : TeePolicy → TeeVerificationOptions → List ℕ → TeeVerificationResult
  verify_report policy options report =
      if is_synthetic report
      then synthetic_result policy options.allow_synthetic
      else if leb 672 (length report)
      then amd_result report (bound_to report (binding options))
      else if is_nitro_cose report
      then nitro_result report options (missing_pcr report (coalesce_to options.expected_pcrs []))
      else unknown_result report policy

  abbrev empty_result : TeePolicy → TeeVerificationResult
  empty_result policy =
      if is_required policy
      then result false no_platform not_provided
      else result true no_platform empty_allowed

  abbrev pub by_policy : TeeVerificationOptions → List ℕ → TeePolicy → TeeVerificationResult
  by_policy options report no_policy = result true no_platform bypassed
  by_policy options [] policy = empty_result policy
  by_policy options (b ∷ bs) policy = verify_report policy options (b ∷ bs)

  unfoldable pub verify_tee_attestation_detailed :
      List ℕ → TeeVerificationOptions → TeeVerificationResult
  unfolding verify_report
  verify_tee_attestation_detailed report options =
      by_policy options report (coalesce_to options.policy preferred)

  unfoldable pub verify_tee_attestation : List ℕ → TeeVerificationOptions → Bool
  unfolding verify_tee_attestation_detailed
  verify_tee_attestation report options = (verify_tee_attestation_detailed report options).verified
