-- ===== src/Receipt.antt =====
-- Zero-knowledge receipts (sdks/typescript/src/security/zk.ts): the journal of 144 bytes and the codec
-- of binary receipts. SHA-256 is the parameter `Sha256`. A buffer that a write of a length does not
-- fit is the error `out_of_range`, which `writeUInt16BE` and its like throw.
pub mod Journal
mod Layout
pub mod Codec
pub mod Sizes
mod Tests
use liop.Common.{
  ℕ, ◌+◌, ◌-◌, ◌^◌, ◌≡◌, String, Bool, true, false, not, Option, none, some, List, [], ◌∷◌, ◌++◌,
  if◌then◌else◌, ltb, leb, eqb, length, take, drop,
}
use liop.Common.Bytes.{to_be, from_be, subarray, read_be, bytes_eq, byte_at}
use liop.Common.Attempt.{Attempt, ok, fail, ◌>>=◌, ◌>>◌, guard}

-- `ProofType`, of which a receipt holds the byte.
abbrev pub hmac_legacy : ℕ
hmac_legacy = 0x00

abbrev pub groth16 : ℕ
groth16 = 0x02

abbrev pub groth16_pqc_hybrid : ℕ
groth16_pqc_hybrid = 0x03

abbrev pub receipt_version_v1 : ℕ
receipt_version_v1 = 0x01

abbrev pub receipt_version_v2 : ℕ
receipt_version_v2 = 0x02

abbrev pub zk_journal_v2_size : ℕ
zk_journal_v2_size = 144

pub record ZkJournalV2 : Type 0 where
  pub guest_image_id : List ℕ
  pub logic_digest : List ℕ
  pub dataset_digest : List ℕ
  pub output_digest : List ℕ
  pub fuel_consumed : ℕ
  pub execution_timestamp : ℕ

-- `ZkVerificationError` with its messages, and the engine's `RangeError`.
pub data ZkError : Type 0 where
  invalid_size : (field : String) (got : ℕ) → ZkError
  out_of_range : ZkError
  message : String → ZkError
  unsupported_version : ℕ → ZkError

unfoldable pub encode_journal_v2 : ZkJournalV2 → Attempt ZkError (List ℕ)
encode_journal_v2 j = do
  guard (eqb (length j.guest_image_id) 32) (invalid_size "guestImageId" (length j.guest_image_id))
  guard (eqb (length j.logic_digest) 32) (invalid_size "logicDigest" (length j.logic_digest))
  guard (eqb (length j.dataset_digest) 32) (invalid_size "datasetDigest" (length j.dataset_digest))
  guard (eqb (length j.output_digest) 32) (invalid_size "outputDigest" (length j.output_digest))
  guard (ltb j.fuel_consumed (256 ^ 8)) out_of_range
  guard (ltb j.execution_timestamp (256 ^ 8)) out_of_range
  ok (
      j.guest_image_id
      ++ (j.logic_digest
          ++ (j.dataset_digest
              ++ (j.output_digest ++ (to_be 8 j.fuel_consumed ++ to_be 8 j.execution_timestamp)))))

abbrev pub journal_at : List ℕ → ZkJournalV2
journal_at buf = record {
  guest_image_id = subarray 0 32 buf;
  logic_digest = subarray 32 64 buf;
  dataset_digest = subarray 64 96 buf;
  output_digest = subarray 96 128 buf;
  fuel_consumed = read_be 8 128 buf;
  execution_timestamp = read_be 8 136 buf;
}

unfoldable pub decode_journal_v2 : List ℕ → Attempt ZkError ZkJournalV2
decode_journal_v2 buf = do
  guard (eqb (length buf) zk_journal_v2_size) (invalid_size "ZkJournalV2" (length buf))
  ok (journal_at buf)

-- `crypto.createHash("sha256").update(payload).digest()`: 32 bytes.
pub record Sha256 : Type 0 where
  pub digest : List ℕ → List ℕ
  pub length-digest : (payload : List ℕ) → length (digest payload) ≡ 32

pub record DecodedReceipt : Type 0 where
  pub version : ℕ
  pub proof_type : ℕ
  pub journal : List ℕ
  pub proof : List ℕ
  pub raw : List ℕ
  pub pqc_signature : Option (List ℕ)
  pub pqc_public_key : Option (List ℕ)

abbrev receipt : ℕ → ℕ → List ℕ → List ℕ → List ℕ → DecodedReceipt
receipt version proof_type journal proof raw = record {
  version = version;
  proof_type = proof_type;
  journal = journal;
  proof = proof;
  raw = raw;
  pqc_signature = none;
  pqc_public_key = none;
}

module _ (sha : Sha256) where
  -- `Buffer.concat([payload, checksum])`
  abbrev pub sealed : List ℕ → List ℕ
  sealed payload = payload ++ sha.digest payload

  abbrev pub header : ℕ → List ℕ → List ℕ
  header proof_type journal = receipt_version_v2 ∷ proof_type ∷ to_be 4 (length journal)

  unfoldable pub encode_v2 : ℕ → List ℕ → List ℕ → Attempt ZkError (List ℕ)
  encode_v2 proof_type journal proof = do
    guard (ltb (length journal) (256 ^ 4)) out_of_range
    ok (sealed (header proof_type journal ++ (journal ++ proof)))

  unfoldable pub encode_hybrid_v2 : List ℕ → List ℕ → List ℕ → List ℕ → Attempt ZkError (List ℕ)
  encode_hybrid_v2 journal proof pqc_signature pqc_public_key = do
    guard (ltb (length journal) (256 ^ 4)) out_of_range
    guard (ltb (length proof) (256 ^ 2)) out_of_range
    guard (ltb (length pqc_signature) (256 ^ 2)) out_of_range
    ok (
        sealed (
          header groth16_pqc_hybrid journal
          ++ (journal
              ++ (to_be 2 (length proof)
                  ++ (proof
                      ++ (to_be 2 (length pqc_signature) ++ (pqc_signature ++ pqc_public_key)))))))

  unfoldable pub decode_v1 : List ℕ → Attempt ZkError DecodedReceipt
  decode_v1 raw =
      let journal_len = read_be 2 1 raw in
      do
        guard (leb 35 (length raw)) (message "Malformed receipt: invalid header or length.")
        guard (leb (3 + journal_len + 32) (length raw))
            (message "Malformed receipt: truncated journal or seal.")
        ok (
            receipt receipt_version_v1 hmac_legacy (subarray 3 (3 + journal_len) raw)
              (subarray (3 + journal_len) (3 + journal_len + 32) raw) raw)

  -- The parts behind the journal of a hybrid receipt; `offset` is where they start.
  unfoldable pub decode_hybrid : List ℕ → List ℕ → ℕ → Attempt ZkError DecodedReceipt
  decode_hybrid raw journal offset =
      let proof_len = read_be 2 offset raw in
      let sig_len = read_be 2 (offset + 2 + proof_len) raw in
      let key_at = offset + 2 + proof_len + 2 + sig_len in
      do
        guard (leb (offset + 2 + 32) (length raw))
            (message "Malformed hybrid receipt: missing proof length header.")
        guard (leb (offset + 2 + proof_len + 2 + 32) (length raw))
            (message "Malformed hybrid receipt: truncated Groth16 proof.")
        guard (leb (key_at + 32) (length raw))
            (message "Malformed hybrid receipt: truncated ML-DSA-65 signature.")
        ok (record {
          version = receipt_version_v2;
          proof_type = groth16_pqc_hybrid;
          journal = journal;
          proof = subarray (offset + 2) (offset + 2 + proof_len) raw;
          raw = raw;
          pqc_signature = some (subarray (offset + 2 + proof_len + 2) key_at raw);
          pqc_public_key = some (subarray key_at (length raw - 32) raw);
        })

  -- From the checked payload on.
  unfoldable pub decode_payload : List ℕ → Attempt ZkError DecodedReceipt
  unfolding decode_hybrid
  decode_payload raw =
      let journal_len = read_be 4 2 raw in
      let journal = subarray 6 (6 + journal_len) raw in
      if eqb (byte_at 1 raw) groth16_pqc_hybrid
      then decode_hybrid raw journal (6 + journal_len)
      else ok (
          receipt receipt_version_v2 (byte_at 1 raw) journal
            (subarray (6 + journal_len) (length raw - 32) raw) raw)

  unfoldable pub decode_v2 : List ℕ → Attempt ZkError DecodedReceipt
  unfolding decode_payload
  decode_v2 raw = do
    guard (leb 38 (length raw)) (message "Malformed receipt v2: buffer too short (< 38 bytes).")
    guard (leb (6 + read_be 4 2 raw + 32) (length raw))
        (message "Malformed receipt v2: truncated payload.")
    guard (bytes_eq (drop (length raw - 32) raw) (sha.digest (take (length raw - 32) raw)))
        (message "Receipt checksum verification failed.")
    decode_payload raw

  unfoldable pub decode : List ℕ → Attempt ZkError DecodedReceipt
  unfolding decode_v1 decode_v2
  decode [] = fail (message "Empty or malformed zero-knowledge proof array.")
  decode (version ∷ raw) =
      if eqb version receipt_version_v1
      then decode_v1 (version ∷ raw)
      else if eqb version receipt_version_v2
      then decode_v2 (version ∷ raw)
      else fail (unsupported_version version)
