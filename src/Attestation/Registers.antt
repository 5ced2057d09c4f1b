-- ===== src/Attestation/Registers.antt =====
-- Reports of 672 bytes or more.
use liop.Common.{
  ℕ, ◌≤◌, ◌≡◌, refl, String, Option, List, [], ◌∷◌, arith, length, le→leb, coalesce_to,
}
use liop.Receipt.{Sha256}
use liop.Attestation.{
  TeePolicy, by_policy, required, preferred, no_policy, TeeVerificationOptions, verify_report,
  verify_tee_attestation_detailed,
}

module _ (sha : Sha256) (hex : List ℕ → String) where
  long_report :
      (level : TeePolicy) (report : List ℕ) (options : TeeVerificationOptions)
      (pcrs : Option (List (String × List ℕ)))
      → 672 ≤ length report
      → verify_report sha hex level (record options { expected_pcrs = pcrs }) report
        ≡ verify_report sha hex level options report
  unfolding verify_report
  long_report level report options pcrs long = rw (le→leb 672 (length report) long)

  long_by_policy :
      (level : TeePolicy) (report : List ℕ) (options : TeeVerificationOptions)
      (pcrs : Option (List (String × List ℕ)))
      → 672 ≤ length report
      → by_policy sha hex (record options { expected_pcrs = pcrs }) report level
        ≡ by_policy sha hex options report level
  long_by_policy level [] options pcrs long = absurd (omega arith)
  long_by_policy no_policy (b ∷ bs) options pcrs long = refl
  long_by_policy required (b ∷ bs) options pcrs long =
      long_report required (b ∷ bs) options pcrs long
  long_by_policy preferred (b ∷ bs) options pcrs long =
      long_report preferred (b ∷ bs) options pcrs long

  -- The expected registers have no influence on the result for a report of 672 bytes or more.
  pub registers_ignored :
      (report : List ℕ) (options : TeeVerificationOptions) (pcrs : Option (List (String × List ℕ)))
      → 672 ≤ length report
      → verify_tee_attestation_detailed sha hex report (record options { expected_pcrs = pcrs })
        ≡ verify_tee_attestation_detailed sha hex report options
  unfolding verify_tee_attestation_detailed
  registers_ignored report options pcrs long =
      long_by_policy (coalesce_to options.policy preferred) report options pcrs long
