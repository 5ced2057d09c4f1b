-- ===== src/Receipt/Tests.antt =====
-- Receipts under a digest that repeats the length of what it is taken of.
use liop.Common.{none, ℕ, ◌≡◌, List, [], ◌∷◌, ◌++◌, arith, length}
use liop.Common.Bytes.{to_be, length-to_be}
use liop.Common.Attempt.{ok}
use liop.Receipt.{
  Sha256, ZkJournalV2, encode_journal_v2, decode_journal_v2, encode_hybrid_v2, decode,
  DecodedReceipt,
}
use liop.Receipt.Journal.{IsEncodable, decode-encode_journal}
use liop.Receipt.Codec.{hybrid, decode-encode_hybrid_v2}

abbrev by_length : Sha256
by_length = record {
  digest = λ payload. to_be 32 (length payload);
  length-digest = λ payload. length-to_be 32 (length payload);
}

abbrev journal : ZkJournalV2
journal = record {
  guest_image_id = to_be 32 1;
  logic_digest = to_be 32 2;
  dataset_digest = to_be 32 3;
  output_digest = to_be 32 4;
  fuel_consumed = 500;
  execution_timestamp = 1700000000000;
}

journal-IsEncodable : IsEncodable journal
journal-IsEncodable = record {
  guest = length-to_be 32 1;
  logic = length-to_be 32 2;
  dataset = length-to_be 32 3;
  output = length-to_be 32 4;
  fuel = omega arith;
  timestamp = omega arith;
}

decode-encode_journal_example :
    (buf : List ℕ) × (encode_journal_v2 journal ≡ ok buf)
    × (length buf ≡ 144)
    × (decode_journal_v2 buf ≡ ok journal)
decode-encode_journal_example = decode-encode_journal journal journal-IsEncodable

decode-encode_hybrid_v2_example :
    (raw : List ℕ) × (encode_hybrid_v2 by_length (1 ∷ 2 ∷ []) (9 ∷ []) (7 ∷ 7 ∷ []) (5 ∷ [])
      ≡ ok raw)
    × (decode by_length raw ≡ ok (hybrid (1 ∷ 2 ∷ []) (9 ∷ []) (7 ∷ 7 ∷ []) (5 ∷ []) raw))
decode-encode_hybrid_v2_example =
    decode-encode_hybrid_v2 by_length (1 ∷ 2 ∷ []) (9 ∷ []) (7 ∷ 7 ∷ []) (5 ∷ []) (omega arith)
      (omega arith) (omega arith)

-- A receipt of version 1: a journal of one byte, a seal, and one byte more.
abbrev legacy : List ℕ
legacy = 1 ∷ 0 ∷ 1 ∷ 42 ∷ (to_be 32 6 ++ 8 ∷ [])

abbrev plain_legacy : DecodedReceipt
plain_legacy = record {
  version = 1;
  proof_type = 0;
  journal = 42 ∷ [];
  proof = to_be 32 6;
  raw = legacy;
  pqc_signature = none;
  pqc_public_key = none;
}
