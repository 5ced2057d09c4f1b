-- ===== src/SealVerifier.antt =====
-- The check of receipts of version 1 in the calling thread (`ZkVerifier` of
-- sdks/typescript/src/security/zk.ts). JSON, HMAC and hexadecimal texts are the parameter `Seals`.
pub mod Accepts
mod Tests
use liop.Common.{
  ℕ, ◌+◌, ◌≡◌, String, Bool, true, false, not, ◌&&◌, ◌||◌, Option, none, some, List, [], ◌∷◌,
  if◌then◌else◌, ltb, leb, eqb, length, drop, ◌==◌, text_equality, coalesce_to,
}
use liop.Common.Bytes.{subarray, byte_at, read_be, bytes_eq}
use liop.Common.Attempt.{Attempt, ok, fail, ◌>>=◌, ◌>>◌, guard}

-- `image_id` is the field of the journal, where it is a text: none where the journal is no JSON, or null.
pub record Seals : Type 0 where
  pub image_id : List ℕ → Option (Option String)
  pub hex : List ℕ → String
  pub hmac : (secret journal : List ℕ) → List ℕ
  pub sha256 : List ℕ → List ℕ

pub record ZkReceipt : Type 0 where
  pub image_id : List ℕ
  pub proof : List ℕ

-- The messages of `ZkVerificationError`.
pub data SealError : Type 0 where
  image_mismatch : SealError
  empty_proof : SealError
  malformed_header : SealError
  invalid_seal_size : SealError
  journal_unparsable : SealError
  seal_mismatch : SealError

abbrev pub journal_of : List ℕ → List ℕ
journal_of proof = subarray 3 (3 + read_be 2 1 proof) proof

abbrev pub seal_of : List ℕ → List ℕ
seal_of proof = drop (3 + read_be 2 1 proof) proof

module _ (s : Seals) where
  abbrev same_image : String → Option (Option String) → Bool
  same_image header none = false
  same_image header (some none) = false
  same_image header (some (some text)) = text == header

  -- The error that a mismatch throws within the `try` is caught there, with the same message as for a
  -- journal that is no JSON.
  abbrev pub check_journal : ZkReceipt → Attempt SealError (Unit {0})
  check_journal r =
      guard (same_image (s.hex r.image_id) (s.image_id (journal_of r.proof))) journal_unparsable

  abbrev pub check_seal : Option (List ℕ) → ZkReceipt → Attempt SealError (Unit {0})
  check_seal none r = ok tt
  check_seal (some []) r = ok tt
  check_seal (some (b ∷ bs)) r =
      guard (bytes_eq (seal_of r.proof) (s.hmac (b ∷ bs) (journal_of r.proof))) seal_mismatch

  -- `true` where it is `ok`.
  unfoldable pub verify : ZkReceipt → List ℕ → Option (List ℕ) → Attempt SealError (Unit {0})
  verify r expected_image_id session_secret = do
    guard (bytes_eq r.image_id expected_image_id) image_mismatch
    guard (ltb 0 (length r.proof)) empty_proof
    guard (leb 35 (length r.proof) && eqb (byte_at 0 r.proof) 0x01) malformed_header
    guard (eqb (length (seal_of r.proof)) 32) invalid_seal_size
    check_journal r
    check_seal session_secret r

  unfoldable pub derive_image_id : List ℕ → List ℕ
  derive_image_id wasm_bytes = s.sha256 wasm_bytes
