-- ===== src/Attestation/Tests.antt =====
-- Reports under a digest of the length, with texts that say nothing.
use liop.Common.{
  ℕ, ◌≤◌, ◌≡◌, ◌≢◌, ◌↔◌, refl, String, true, false, none, some, List, [], ◌∷◌, arith, length,
}
use liop.Common.Bytes.{contains, is_prefix, to_be, length-to_be}
use liop.Receipt.{Sha256}
use liop.Attestation.{required, TeeVerificationOptions, verify_tee_attestation, missing_pcr}
use liop.Attestation.Accepts.{Attested, verify_tee_attestation_iff}

abbrev by_length : Sha256
by_length = record {
  digest = λ payload. to_be 32 (length payload);
  length-digest = λ payload. length-to_be 32 (length payload);
}

abbrev no_text : List ℕ → String
no_text bytes = ""

abbrev strict : TeeVerificationOptions
strict = record {
  policy = some required;
  expected_nonce = none;
  expected_public_key = none;
  expected_pcrs = some (("0", 7 ∷ 8 ∷ []) ∷ []);
  allow_synthetic = false;
}

-- The start of a Nitro document with the two bytes of the register.
abbrev document : List ℕ
document = 0xd2 ∷ 0x84 ∷ 1 ∷ 7 ∷ 8 ∷ []

document_verified : verify_tee_attestation by_length no_text document strict ≡ true
unfolding verify_tee_attestation missing_pcr contains is_prefix
document_verified = refl

verify_tee_attestation_iff_example :
    (verify_tee_attestation by_length no_text document strict ≡ true)
    ↔ ((document ≢ []) × Attested by_length no_text strict document)
verify_tee_attestation_iff_example =
    verify_tee_attestation_iff by_length no_text document strict refl

-- A document of 1202 bytes.
abbrev long_document : List ℕ
long_document = 0xd2 ∷ 0x84 ∷ to_be 1200 0

long_size : 672 ≤ length long_document
long_size = omega (arith, length-to_be 1200 0)
