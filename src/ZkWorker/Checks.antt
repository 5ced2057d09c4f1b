-- ===== src/ZkWorker/Checks.antt =====
-- What a verified receipt stands for.
use liop.Common.{
  ℕ, ◌≡◌, ◌↔◌, ◌⊎◌, inl, inr, refl, String, Bool, true, false, ◌||◌, Option, none, some, List, [],
  ◌∷◌, ◌++◌, if◌then◌else◌, arith, eqb, text_equality, eq_iff, Bool-cases,
}
use liop.Common.Bytes.{bytes_eq, bytes_eq_iff}
use liop.Common.Attempt.{Attempt, ok, fail, ◌>>=◌, ◌>>◌, guard, guard_iff}
use liop.Receipt.{
  ZkError, DecodedReceipt, ZkJournalV2, decode_journal_v2, groth16, groth16_pqc_hybrid,
}
use liop.ZkWorker.{
  Platform, ZkVerificationPayload, Refusal, Verified, verify_v2, derive_logic_image_digest,
  output_digest, journal_or, check_signature, check_cosign, check_guest, check_proof, check_output,
  groth16_proof, hybrid_proof, unsupported_proof_type,
}

four_iff :
    (a b c d : Attempt Refusal (Unit {0})) (v : Verified)
    → ((a >> (b >> (c >> (d >> ok v)))) ≡ ok v)
      ↔ ((a ≡ ok tt) × (b ≡ ok tt) × (c ≡ ok tt) × (d ≡ ok tt))
four_iff (ok u) (ok u') (ok u'') (ok u''') v = ground arith
four_iff (fail e) b c d v = ground arith
four_iff (ok u) (fail e) c d v = ground arith
four_iff (ok u) (ok u') (fail e) d v = ground arith
four_iff (ok u) (ok u') (ok u'') (fail e) v = ground arith

four_last :
    (a b c d : Attempt Refusal (Unit {0})) (v w : Verified)
    → (a >> (b >> (c >> (d >> ok v)))) ≡ ok w
    → v ≡ w
four_last (ok u) (ok u') (ok u'') (ok u''') v w h = ground arith
four_last (fail e) b c d v w h = cc
four_last (ok u) (fail e) c d v w h = cc
four_last (ok u) (ok u') (fail e) d v w h = cc
four_last (ok u) (ok u') (ok u'') (fail e) v w h = cc

module _ {V : Type 0} (p : Platform V) where
  -- The co-signature over the journal and the proof is the key's that the receipt holds.
  abbrev pub Cosigned : DecodedReceipt → Option (List ℕ) → Option (List ℕ) → Type 0
  Cosigned r (some signature) (some key) =
      p.verify_signature signature (p.sha.digest (r.journal ++ r.proof)) key ≡ some true
  Cosigned r _ _ = ⊥

  abbrev pub Signed : DecodedReceipt → Type 0
  Signed r =
      (r.proof_type ≡ groth16)
      ⊎ ((r.proof_type ≡ groth16_pqc_hybrid) × Cosigned r r.pqc_signature r.pqc_public_key)

  -- Without a verification key nothing is asked of the proof.
  abbrev pub Proven : Option (List ℕ) → DecodedReceipt → Type 0
  Proven none r = Unit
  Proven (some []) r = Unit
  Proven (some (b ∷ bs)) r = p.verify_groth16 (b ∷ bs) r.proof ≡ some true

  abbrev pub Outputs : List ℕ → Option V → ZkJournalV2 → Type 0
  Outputs logic none j = Unit
  Outputs logic (some v) j = j.output_digest ≡ output_digest p logic v

  abbrev pub Guest : Option String → ZkJournalV2 → Type 0
  Guest none j = Unit
  Guest (some id) j = (id ≡ "") ⊎ (p.hex j.guest_image_id ≡ id)

  cosign_iff :
      (r : DecodedReceipt) (signature key : Option (List ℕ))
      → (check_cosign p signature key r ≡ ok tt) ↔ Cosigned r signature key
  cosign_iff r none none = ground arith
  cosign_iff r none (some key) = ground arith
  cosign_iff r (some signature) none = ground arith
  cosign_iff r (some signature) (some key) = ground arith

  signature_iff :
      (r : DecodedReceipt)
      → ((eqb r.proof_type groth16 || eqb r.proof_type groth16_pqc_hybrid) ≡ true)
          × (check_signature p r ≡ ok tt)
        ↔ Signed r
  signature_iff r =
      let co = cosign_iff r r.pqc_signature r.pqc_public_key in
      elim (Bool-cases (eqb r.proof_type groth16_pqc_hybrid)) [
        | inl is_hybrid ↦ rw is_hybrid (ground (arith, co))
        | inr other ↦ rw other (ground arith)
      ]

  check_guest_iff :
      (id : Option String) (j : ZkJournalV2) → (check_guest p id j ≡ ok tt) ↔ Guest id j
  check_guest_iff none j = ground arith
  check_guest_iff (some id) j = ground (arith, eq_iff id "", eq_iff (p.hex j.guest_image_id) id)

  proof_iff :
      (vkey : Option (List ℕ)) (r : DecodedReceipt) → (check_proof p vkey r ≡ ok tt) ↔ Proven vkey r
  proof_iff none r = ground arith
  proof_iff (some []) r = ground arith
  proof_iff (some (b ∷ bs)) r = ground arith

  output_iff :
      (logic : List ℕ) (v : Option V) (j : ZkJournalV2)
      → (check_output p logic v j ≡ ok tt) ↔ Outputs logic v j
  output_iff logic none j = ground arith
  output_iff logic (some v) j =
      ground (arith, bytes_eq_iff j.output_digest (output_digest p logic v))

  -- The first two checks, and the journal between them and the others.
  journal_then_iff :
      (t : Bool) (e : Refusal) (m : Attempt Refusal (Unit {0})) (o : Attempt ZkError ZkJournalV2)
      (k : ZkJournalV2 → Attempt Refusal Verified) (v : Verified)
      → ((guard t e >> (m >> (journal_or p o >>= k))) ≡ ok v)
        ↔ ((t ≡ true) × (m ≡ ok tt) × ((j : ZkJournalV2) × (o ≡ ok j) × (k j ≡ ok v)))
  journal_then_iff true e (ok u) (ok j) k v =
      (λ h. (refl, ground arith, (j, refl, h)), λ h. cc (h.2.1, h.2.2))
  journal_then_iff true e (ok u) (fail w) k v = (λ h. cc, λ h. cc (h.2.1))
  journal_then_iff true e (fail w) o k v = (λ h. cc, λ h. cc (h.1))
  journal_then_iff false e m o k v = (λ h. cc, λ h. cc (h.0))

  -- All that is checked of a journal.
  abbrev pub Matches : List ℕ → ZkVerificationPayload V → DecodedReceipt → ZkJournalV2 → Type 0
  Matches logic payload r j =
      Guest payload.guest_image_id_hex j
      × (j.logic_digest ≡ derive_logic_image_digest p logic)
      × Proven payload.vkey_raw r
      × Outputs logic payload.expected_output j

  journal_iff :
      (logic : List ℕ) (payload : ZkVerificationPayload V) (r : DecodedReceipt) (j : ZkJournalV2)
      (v : Verified)
      → ((do
        check_guest p payload.guest_image_id_hex j
        guard (bytes_eq j.logic_digest (derive_logic_image_digest p logic)) Refusal.logic_mismatch
        check_proof p payload.vkey_raw r
        check_output p logic payload.expected_output j
        ok v)
          ≡ ok v)
        ↔ Matches logic payload r j
  journal_iff logic payload r j v =
      let four =
        four_iff (check_guest p payload.guest_image_id_hex j)
          (guard (bytes_eq j.logic_digest (derive_logic_image_digest p logic))
            Refusal.logic_mismatch)
          (check_proof p payload.vkey_raw r) (check_output p logic payload.expected_output j) v in
      let digest = bytes_eq_iff j.logic_digest (derive_logic_image_digest p logic) in
      let passes =
        guard_iff (bytes_eq j.logic_digest (derive_logic_image_digest p logic))
          Refusal.logic_mismatch in
      let guest = check_guest_iff payload.guest_image_id_hex j in
      let proof = proof_iff payload.vkey_raw r in
      let output = output_iff logic payload.expected_output j in
      (
        λ h. let c = four.0 h in (guest.0 c.0, digest.0 (passes.0 c.1), proof.0 c.2, output.0 c.3),
        λ m. four.1 (guest.1 m.0, passes.1 (digest.1 m.1), proof.1 m.2, output.1 m.3),
      )

  abbrev pub kind : DecodedReceipt → Verified
  kind r = if eqb r.proof_type groth16_pqc_hybrid then hybrid_proof else groth16_proof

  -- A receipt of version 2 is verified exactly when it is of the Groth16 type, or hybrid with a signature
  -- that the library takes for the key in the receipt, its journal decodes, and the journal has the
  -- guest's image where one is expected, the digest of the logic, and the digest of the output where
  -- one is expected, and the proof is valid where a verification key is given.
  pub verify_v2_iff :
      (logic : List ℕ) (payload : ZkVerificationPayload V) (r : DecodedReceipt)
      → (verify_v2 p logic payload r ≡ ok (kind r)) ↔ (
          Signed r
          × ((j : ZkJournalV2) × (decode_journal_v2 r.journal ≡ ok j) × Matches logic payload r j))
  unfolding verify_v2
  verify_v2_iff logic payload r =
      let rest = λ (j : ZkJournalV2). (do
        check_guest p payload.guest_image_id_hex j
        guard (bytes_eq j.logic_digest (derive_logic_image_digest p logic)) Refusal.logic_mismatch
        check_proof p payload.vkey_raw r
        check_output p logic payload.expected_output j
        ok (kind r)) in
      let test = eqb r.proof_type groth16 || eqb r.proof_type groth16_pqc_hybrid in
      let whole =
        journal_then_iff test (unsupported_proof_type r.proof_type) (check_signature p r)
          (decode_journal_v2 r.journal) rest (kind r) in
      (
        λ h.
            let c = whole.0 h in
            (
              (signature_iff r).0 (c.0, c.1),
              (c.2.0, c.2.1, (journal_iff logic payload r c.2.0 (kind r)).0 c.2.2),
            ),
        λ h.
            let s = (signature_iff r).1 h.0 in
            whole.1
              (s.0, s.1, (h.1.0, h.1.1, (journal_iff logic payload r h.1.0 (kind r)).1 h.1.2)),
      )

  -- A receipt of version 2 is verified as of its own type.
  pub verify_v2-kind :
      (logic : List ℕ) (payload : ZkVerificationPayload V) (r : DecodedReceipt) (v : Verified)
      → verify_v2 p logic payload r ≡ ok v
      → kind r ≡ v
  unfolding verify_v2
  verify_v2-kind logic payload r v h =
      let rest = λ (j : ZkJournalV2). (do
        check_guest p payload.guest_image_id_hex j
        guard (bytes_eq j.logic_digest (derive_logic_image_digest p logic)) Refusal.logic_mismatch
        check_proof p payload.vkey_raw r
        check_output p logic payload.expected_output j
        ok (kind r)) in
      let test = eqb r.proof_type groth16 || eqb r.proof_type groth16_pqc_hybrid in
      let c =
        (journal_then_iff test (unsupported_proof_type r.proof_type) (check_signature p r)
            (decode_journal_v2 r.journal) rest v).0
          h in
      four_last (check_guest p payload.guest_image_id_hex c.2.0)
        (guard (bytes_eq c.2.0.logic_digest (derive_logic_image_digest p logic))
          Refusal.logic_mismatch)
        (check_proof p payload.vkey_raw r) (check_output p logic payload.expected_output c.2.0)
        (kind r) v c.2.2
