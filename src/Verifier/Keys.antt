-- ===== src/Verifier/Keys.antt =====
-- The key of a circuit.
use liop.Common.{
  ℕ, ◌≡◌, ◌≢◌, inl, inr, refl, sym, ◌∙◌, ap, String, true, Option, none, some, List, ◌∷◌, arith,
  eqb, eq_iff, text_equality, ◌==◌, Bool-cases,
}
use liop.Common.Dict
use liop.Common.Dict.{Dict, get-set_self}
use liop.Common.Attempt.{Attempt, ok, fail}
use liop.Receipt.{DecodedReceipt, ZkJournalV2, ZkError, decode, decode_journal_v2}
use liop.ZkWorker.{
  Platform, ZkVerificationPayload, ZkPolicy, required, no_policy, optimistic, Refusal, Verified,
  groth16_proof, derive_logic_image_digest, worker_handler, verify_receipt, by_version,
  verify_fields, verify_v2, verify_v1,
}
use liop.ZkWorker.Checks.{verify_v2_iff, verify_v2-kind, Proven}
use mathlib.Core.Path.{subst}
use liop.ZkWorker as Worker
use liop.Verifier.{
  Registry, VerifyZkOptions, options, Sent, payload_of, vkey_of, get_registered_v_key,
  register_v_key, succeeded, verify_zk_receipt,
}

-- Options that name a circuit and ask for nothing else but the policy.
abbrev pub of_circuit : {V : Type 0} → String → VerifyZkOptions V
of_circuit circuit = record {
  session_secret = none;
  expected_output = none;
  guest_image_id_hex = none;
  vkey_raw = none;
  zk_policy = required;
  circuit_name = some circuit;
}

abbrev pub send : List ℕ → String → List ℕ → Sent
send logic remote raw = record {
  logic_payload = logic;
  remote_image_id_hex = remote;
  zk_receipt = raw;
}

ok_of_succeeded : (a : Attempt Refusal Verified) → succeeded a ≡ true → (v : Verified) × (a ≡ ok v)
ok_of_succeeded (ok v) h = (v, refl)
ok_of_succeeded (fail e) h = cc

module _ {V : Type 0} (p : Platform V) (logic : List ℕ) where
  v2_of_required :
      (given : String) (payload : ZkVerificationPayload V) (a : Attempt ZkError DecodedReceipt)
      (v : Verified)
      → payload.zk_policy ≡ required
      → by_version p logic given payload a ≡ ok v
      → (r : DecodedReceipt) × (a ≡ ok r) × (verify_v2 p logic payload r ≡ ok v)
  unfolding verify_v1
  v2_of_required given payload (fail e) v policy h = cc
  v2_of_required given payload (ok r) v policy h = (
    r,
    refl,
    elim (Bool-cases (eqb r.version 1)) [
      | inl first ↦ absurd (ground arith)
      | inr other ↦ ground arith
    ],
  )

  named_fields :
      (given : String) (raw : List ℕ) (payload : ZkVerificationPayload V)
      → succeeded (verify_fields p payload (some logic) (some given) (some raw)) ≡ true
      → (v : Verified) × (by_version p logic given payload (decode p.sha raw) ≡ ok v)
  named_fields given raw payload h = elim (Bool-cases (given == "")) [
    | inl empty ↦ absurd (ground arith)
    | inr named ↦
        ok_of_succeeded (by_version p logic given payload (decode p.sha raw)) (ground arith)
  ]

  -- What a verified receipt holds where a proof is required and the key is given.
  abbrev pub Proves : List ℕ → List ℕ → DecodedReceipt → Type 0
  Proves raw vkey r =
      (decode p.sha raw ≡ ok r)
      × (p.verify_groth16 vkey r.proof ≡ some true)
      × ((j : ZkJournalV2) × (decode_journal_v2 r.journal ≡ ok j)
          × (j.logic_digest ≡ derive_logic_image_digest p logic))

  receipt-Proves :
      (raw : List ℕ) (b : ℕ) (bs : List ℕ) (payload : ZkVerificationPayload V) (r : DecodedReceipt)
      (v : Verified)
      → decode p.sha raw ≡ ok r
      → payload.vkey_raw ≡ some (b ∷ bs)
      → verify_v2 p logic payload r ≡ ok v
      → Proves raw (b ∷ bs) r
  receipt-Proves raw b bs payload r v d key h =
      let same = verify_v2-kind p logic payload r v h in
      let holds = ((verify_v2_iff p logic payload r).0 (h ∙ ap ok (sym same))).1 in
      let proven : Proven p (some (b ∷ bs)) r = subst (λ k. Proven p k r) key (holds.2.2) in
      (d, proven, (holds.0, holds.1, holds.2.1))

  required-Proves :
      (given : String) (raw : List ℕ) (b : ℕ) (bs : List ℕ) (payload : ZkVerificationPayload V)
      → payload.zk_policy ≡ required
      → payload.vkey_raw ≡ some (b ∷ bs)
      → succeeded (verify_fields p payload (some logic) (some given) (some raw)) ≡ true
      → (r : DecodedReceipt) × Proves raw (b ∷ bs) r
  required-Proves given raw b bs payload policy key h =
      let n = named_fields given raw payload h in
      let c = v2_of_required given payload (decode p.sha raw) n.0 policy n.1 in
      (c.0, receipt-Proves raw b bs payload c.0 n.0 c.1 key c.2)

-- A client that requires a proof, gives no key, and names a circuit that is not "" and for which a key
-- that is not empty is registered, has a receipt verified only if it decodes, the registered key
-- verifies its proof, and its journal has the digest of the logic that was sent.
pub registered_circuit :
    {V : Type 0} (p : Platform V) (registry : Registry) (sent : Sent) (o : VerifyZkOptions V)
    (expected : Option V) (circuit : String) (b : ℕ) (bs : List ℕ)
    → circuit ≢ ""
    → o.vkey_raw ≡ none
    → o.circuit_name ≡ some circuit
    → o.zk_policy ≡ required
    → verify_zk_receipt p (register_v_key circuit (b ∷ bs) registry) sent (options o) expected
      ≡ true
    → (r : DecodedReceipt) × Proves p sent.logic_payload sent.zk_receipt (b ∷ bs) r
unfolding verify_zk_receipt worker_handler register_v_key vkey_of get_registered_v_key payload_of
    Worker.verify_zk_receipt
registered_circuit p registry sent o expected circuit b bs named no_key name policy h =
    let payload = payload_of (register_v_key circuit (b ∷ bs) registry) sent (options o) expected in
    let key : payload.vkey_raw ≡ some (b ∷ bs) =
      rw (no_key, name)
        (ground (arith, eq_iff circuit "", get-set_self circuit (b ∷ bs) registry)) in
    required-Proves p sent.logic_payload sent.remote_image_id_hex sent.zk_receipt b bs payload
      policy key h
