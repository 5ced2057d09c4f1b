-- ===== src/ZkWorker/Forgery.antt =====
-- A receipt that a host makes up, where the client has no verification key.
use liop.Common.{ℕ, ◌≡◌, ◌≢◌, refl, inl, String, none, some, List, arith, eq_iff, text_equality}
use liop.Common.Attempt.{ok}
use liop.Receipt.{DecodedReceipt, ZkJournalV2, encode_v2, decode, encode_journal_v2, groth16}
use liop.Receipt.Journal.{IsEncodable, decode-encode_journal}
use liop.Receipt.Codec.{plain, decode-encode_v2}
use liop.ZkWorker.{
  Platform, ZkVerificationPayload, ZkPolicy, groth16_proof, verify_zk_receipt, verify_v2,
  derive_logic_image_digest,
}
use liop.ZkWorker.Checks.{verify_v2_iff}

-- What a client asks that gives neither a key, nor a guest's image, nor an output.
abbrev pub asked : {V : Type 0} → List ℕ → String → ZkPolicy → List ℕ → ZkVerificationPayload V
asked logic remote policy raw = record {
  logic_payload = some logic;
  remote_image_id_hex = some remote;
  guest_image_id_hex = none;
  zk_receipt = some raw;
  session_secret = none;
  vkey_raw = none;
  expected_output = none;
  zk_policy = policy;
}

module _ {V : Type 0} (p : Platform V) (logic : List ℕ) (remote : String) (policy : ZkPolicy)
    (named : remote ≢ "") where
  asked-decode :
      (raw : List ℕ) (r : DecodedReceipt)
      → decode p.sha raw ≡ ok r
      → r.version ≡ 2
      → verify_zk_receipt p (asked logic remote policy raw)
        ≡ verify_v2 p logic (asked logic remote policy raw) r
  unfolding verify_zk_receipt
  asked-decode raw r d v = ground (arith, eq_iff remote "")

  -- Whatever the policy and the bytes of the proof: a journal with digests of 32 bytes and numbers below
  -- 2 ^ 64, of which one is the digest of the logic, is encoded into a receipt of the Groth16 type that
  -- the worker verifies for a client that gives neither a verification key, nor a guest's image, nor an
  -- expected output.
  pub verified_without_proof :
      (j : ZkJournalV2) (proof : List ℕ)
      → IsEncodable j
      → j.logic_digest ≡ derive_logic_image_digest p logic
      → (journal raw : List ℕ) × (encode_journal_v2 j ≡ ok journal)
        × (encode_v2 p.sha groth16 journal proof ≡ ok raw)
        × (verify_zk_receipt p (asked logic remote policy raw) ≡ ok groth16_proof)
  verified_without_proof j proof e digest =
      let enc = decode-encode_journal j e in
      let journal = enc.0 in
      let rec = decode-encode_v2 p.sha groth16 journal proof (omega arith) (omega (arith, enc.2)) in
      let r = plain groth16 journal proof rec.0 in
      (
        journal,
        rec.0,
        enc.1,
        rec.1,
        rw (asked-decode rec.0 r rec.2 refl) (
            (verify_v2_iff p logic (asked logic remote policy rec.0) r).1
              (inl refl, (j, enc.3, (tt, digest, tt, tt)))),
      )
