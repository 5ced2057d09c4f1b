-- ===== src/Verifier/Tests.antt =====
-- A registry with one key, under a platform that takes every proof for valid.
use liop.Common.{
  ℕ, ◌+◌, ◌≡◌, ◌≢◌, refl, String, true, false, none, some, List, [], ◌∷◌, ◌++◌, arith, length,
  eq_iff, text_equality,
}
use liop.Common.Dict
use liop.Common.Bytes.{to_be, from_be, length-to_be, bytes_eq}
use liop.Receipt.{
  Sha256, DecodedReceipt, ZkJournalV2, groth16, sealed, header, decode, decode_journal_v2,
}
use liop.ZkWorker.{Platform, ZkJournal, worker_handler, verify_v2, ZkPolicy, required}
use liop.ZkWorker as Worker
use liop.Verifier.{VerifyZkOptions, options, register_v_key, verify_zk_receipt}
use liop.Verifier.Keys.{of_circuit, send, Proves, registered_circuit}

abbrev by_length : Sha256
by_length = record {
  digest = λ payload. to_be 32 (length payload);
  length-digest = λ payload. length-to_be 32 (length payload);
}

abbrev platform : Platform (List ℕ)
platform = record {
  sha = by_length;
  hmac = λ secret journal. to_be 32 (length secret + length journal);
  hex = λ bytes. "00";
  normalize_logic_source = λ text. text;
  parse_journal = λ journal. none;
  mentions_proxy = λ logic. false;
  parse_proxy = λ text. none;
  output_text = λ v. v;
  verify_signature = λ signature digest key. some false;
  verify_groth16 = λ vkey proof. some true;
}

abbrev logic : List ℕ
logic = 0 ∷ 0x61 ∷ 0x73 ∷ 0x6d ∷ []

abbrev journal : ZkJournalV2
journal = record {
  guest_image_id = to_be 32 1;
  logic_digest = to_be 32 4;
  dataset_digest = to_be 32 0;
  output_digest = to_be 32 0;
  fuel_consumed = 5;
  execution_timestamp = 6;
}

abbrev journal_bytes : List ℕ
journal_bytes =
    to_be 32 1 ++ (to_be 32 4 ++ (to_be 32 0 ++ (to_be 32 0 ++ (to_be 8 5 ++ to_be 8 6))))

abbrev raw_receipt : List ℕ
raw_receipt =
    sealed by_length (header by_length groth16 journal_bytes ++ (journal_bytes ++ 0xde ∷ []))

abbrev circuit_options : VerifyZkOptions (List ℕ)
circuit_options = of_circuit "sum"

is_verified :
    verify_zk_receipt platform
      (register_v_key "sum" (9 ∷ []) [])
      (send logic "abcd" raw_receipt)
      (options circuit_options)
      none
    ≡ true
unfolding verify_zk_receipt worker_handler Worker.verify_zk_receipt decode to_be from_be bytes_eq
    decode_journal_v2 Dict.get register_v_key Dict.set
is_verified = refl

sum_named : ◌≢◌ {A = String} "sum" ""
sum_named = ground (arith, eq_iff "sum" "")

registered_circuit_example : (r : DecodedReceipt) × Proves platform logic raw_receipt (9 ∷ []) r
registered_circuit_example =
    registered_circuit platform [] (send logic "abcd" raw_receipt) circuit_options none "sum" 9 []
      sum_named refl refl refl is_verified
