-- ===== src/Attestation/Accepts.antt =====
-- Which reports are accepted where attestation is required.
use liop.Common.{
  ℕ, ◌≡◌, ◌≢◌, ◌↔◌, inl, inr, String, true, Option, none, some, List, [], ◌∷◌, if◌then◌else◌, arith,
  leb, length, take, Bool-cases, coalesce_to,
}
use liop.Common.Bytes.{contains, subarray, bytes_eq_iff}
use liop.Receipt.{Sha256}
use liop.Attestation.{
  required, TeeVerificationOptions, is_synthetic, is_nitro_cose, missing_pcr, binding,
  verify_report, verify_tee_attestation_detailed, verify_tee_attestation, bound_to, user_data,
  nitro_result,
}

-- Each register that is not empty stands in the report.
abbrev pub Holds : List ℕ → List (String × List ℕ) → Type 0
Holds report [] = Unit
Holds report ((index, []) ∷ pcrs) = Holds report pcrs
Holds report ((index, b ∷ bs) ∷ pcrs) = (contains (b ∷ bs) report ≡ true) × Holds report pcrs

-- The front of the report data is the digest.
abbrev pub BoundAmd : List ℕ → Option (List ℕ) → Type 0
BoundAmd report none = Unit
BoundAmd report (some digest) = take (length digest) (subarray 80 144 report) ≡ digest

abbrev pub BoundNitro : List ℕ → Option (List ℕ) → Type 0
BoundNitro report none = Unit
BoundNitro report (some digest) = contains digest report ≡ true

missing_pcr_iff :
    (report : List ℕ) (pcrs : List (String × List ℕ))
    → (missing_pcr report pcrs ≡ none) ↔ Holds report pcrs
unfolding missing_pcr
missing_pcr_iff report [] = ground arith
missing_pcr_iff report ((index, []) ∷ pcrs) = missing_pcr_iff report pcrs
missing_pcr_iff report ((index, b ∷ bs) ∷ pcrs) = elim (Bool-cases (contains (b ∷ bs) report)) [
  | inl held ↦ rw held (ground (arith, missing_pcr_iff report pcrs))
  | inr gone ↦ rw gone (ground arith)
]

module _ (sha : Sha256) (hex : List ℕ → String) where
  amd_iff :
      (report : List ℕ) (digest : Option (List ℕ))
      → (bound_to sha hex report digest ≡ true) ↔ BoundAmd report digest
  amd_iff report none = ground arith
  amd_iff report (some digest) = bytes_eq_iff (take (length digest) (subarray 80 144 report)) digest

  nitro_iff :
      (report : List ℕ) (digest : Option (List ℕ))
      → ((user_data sha hex report digest).verified ≡ true) ↔ BoundNitro report digest
  nitro_iff report none = ground arith
  nitro_iff report (some digest) = ground arith

  abbrev pub Attested : TeeVerificationOptions → List ℕ → Type 0
  Attested options report =
      if is_synthetic report
      then options.allow_synthetic ≡ true
      else if leb 672 (length report)
      then BoundAmd report (binding sha hex options)
      else ((is_nitro_cose report ≡ true)
          × Holds report (coalesce_to options.expected_pcrs [])
          × BoundNitro report (binding sha hex options))

  nitro_result_iff :
      (report : List ℕ) (options : TeeVerificationOptions) (o : Option String)
      → ((nitro_result sha hex report options o).verified ≡ true)
        ↔ ((o ≡ none) × BoundNitro report (binding sha hex options))
  nitro_result_iff report options none = ground (arith, nitro_iff report (binding sha hex options))
  nitro_result_iff report options (some index) = ground arith

  report_iff :
      (options : TeeVerificationOptions) (report : List ℕ)
      → ((verify_report sha hex required options report).verified ≡ true) ↔ Attested options report
  unfolding verify_report
  report_iff options report =
      let amd = amd_iff report (binding sha hex options) in
      let pcrs = coalesce_to options.expected_pcrs [] in
      let nitro = nitro_result_iff report options (missing_pcr report pcrs) in
      let held = missing_pcr_iff report pcrs in
      elim (Bool-cases (is_synthetic report)) [
        | inl made ↦ rw made (ground arith)
        | inr hardware ↦ rw hardware (elim (Bool-cases (leb 672 (length report))) [
          | inl long ↦ rw long amd
          | inr short ↦ rw short (elim (Bool-cases (is_nitro_cose report)) [
            | inl cose ↦ rw cose (ground (arith, nitro, held))
            | inr other ↦ rw other (ground arith)
          ])
        ])
      ]

  -- Where attestation is required, a report is verified exactly when it is not empty, and: it is
  -- synthetic, and synthetic reports are allowed; or it has 672 bytes or more, and its report data begin
  -- with the digest of the expected key and nonce, if one is expected; or it is shorter, is of the Nitro
  -- form, and holds every expected register that is not empty and the digest, if one is expected.
  pub verify_tee_attestation_iff :
      (report : List ℕ) (options : TeeVerificationOptions)
      → options.policy ≡ some required
      → (verify_tee_attestation sha hex report options ≡ true)
        ↔ ((report ≢ []) × Attested options report)
  unfolding verify_tee_attestation verify_tee_attestation_detailed
  verify_tee_attestation_iff [] options r = rw r (ground arith)
  verify_tee_attestation_iff (b ∷ bs) options r =
      rw r (
        λ h. (λ e. cc, (report_iff options (b ∷ bs)).0 h),
        λ h. (report_iff options (b ∷ bs)).1 h.1,
      )
