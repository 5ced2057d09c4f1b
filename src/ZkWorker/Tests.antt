-- ===== src/ZkWorker/Tests.antt =====
-- Receipts under a platform of which the digest is the length, and which takes every proof for invalid.
use liop.Common.{
  ℕ, ◌+◌, ◌≡◌, ◌≢◌, ◌↔◌, refl, String, true, false, none, some, List, [], ◌∷◌, arith, length,
  eq_iff, text_equality,
}
use liop.Common.Bytes.{to_be, length-to_be}
use liop.Common.Attempt.{ok}
use liop.Receipt.{
  Sha256, DecodedReceipt, ZkJournalV2, encode_v2, decode_journal_v2, encode_journal_v2, groth16,
}
use liop.Receipt.Journal.{IsEncodable}
use liop.Receipt.Codec.{plain}
use liop.ZkWorker.{
  Platform, required, groth16_proof, verify_zk_receipt, verify_v2, derive_logic_image_digest,
  try_extract_proxy_output,
}
use liop.ZkWorker.Checks.{verify_v2_iff, kind, Matches, Signed}
use liop.ZkWorker.Forgery.{asked, verified_without_proof}

abbrev by_length : Sha256
by_length = record {
  digest = λ payload. to_be 32 (length payload);
  length-digest = λ payload. length-to_be 32 (length payload);
}

abbrev platform : Platform (List ℕ)
platform = record {
  sha = by_length;
  hmac = λ secret journal. to_be 32 (length secret + length journal);
  hex = λ bytes. "00";
  normalize_logic_source = λ text. text;
  parse_journal = λ journal. none;
  mentions_proxy = λ logic. true;
  parse_proxy = λ text. some text;
  output_text = λ v. v;
  verify_signature = λ signature digest key. some false;
  verify_groth16 = λ vkey proof. some false;
}

-- `x{"}"}y`: the brace within the quotes does not close.
abbrev quoted : List ℕ
quoted = b'x' ∷ b'{' ∷ b'"' ∷ b'}' ∷ b'"' ∷ b'}' ∷ b'y' ∷ []

quoted_slice :
    try_extract_proxy_output platform quoted ≡ some (b'{' ∷ b'"' ∷ b'}' ∷ b'"' ∷ b'}' ∷ [])
unfolding try_extract_proxy_output
quoted_slice = refl

abbrev logic : List ℕ
logic = 0 ∷ 0x61 ∷ 0x73 ∷ 0x6d ∷ []

abbrev journal : ZkJournalV2
journal = record {
  guest_image_id = to_be 32 1;
  logic_digest = to_be 32 4;
  dataset_digest = to_be 32 0;
  output_digest = to_be 32 0;
  fuel_consumed = 0;
  execution_timestamp = 0;
}

journal-IsEncodable : IsEncodable journal
journal-IsEncodable = record {
  guest = length-to_be 32 1;
  logic = length-to_be 32 4;
  dataset = length-to_be 32 0;
  output = length-to_be 32 0;
  fuel = omega arith;
  timestamp = omega arith;
}

digest_of_logic : journal.logic_digest ≡ derive_logic_image_digest platform logic
unfolding derive_logic_image_digest
digest_of_logic = refl

named : ◌≢◌ {A = String} "abcd" ""
named = ground (arith, eq_iff "abcd" "")

verified_without_proof_example :
    (journal' raw : List ℕ) × (encode_journal_v2 journal ≡ ok journal')
    × (encode_v2 by_length groth16 journal' (0xde ∷ 0xad ∷ []) ≡ ok raw)
    × (verify_zk_receipt platform (asked logic "abcd" required raw) ≡ ok groth16_proof)
verified_without_proof_example =
    verified_without_proof platform logic "abcd" required named journal (0xde ∷ 0xad ∷ [])
      journal-IsEncodable digest_of_logic

abbrev no_journal : DecodedReceipt
no_journal = plain groth16 (1 ∷ []) [] []

verify_v2_iff_example :
    (verify_v2 platform logic (asked logic "abcd" required []) no_journal
      ≡ ok (kind platform no_journal))
    ↔ (Signed platform no_journal
        × ((j : ZkJournalV2) × (decode_journal_v2 (1 ∷ []) ≡ ok j)
            × Matches platform logic (asked logic "abcd" required []) no_journal j))
verify_v2_iff_example = verify_v2_iff platform logic (asked logic "abcd" required []) no_journal
