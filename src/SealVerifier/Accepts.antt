-- ===== src/SealVerifier/Accepts.antt =====
-- Which receipts are accepted.
use liop.Common.{
  ℕ, ◌≤◌, ◌≡◌, ◌↔◌, String, true, ◌&&◌, Option, none, some, List, [], ◌∷◌, arith, ltb, leb, eqb,
  length, text_equality, eq_iff,
}
use liop.Common.Bytes.{byte_at, bytes_eq, bytes_eq_iff}
use liop.Common.Attempt.{ok, ◌>>◌, guard, guard_iff, >>-eq_ok}
use liop.SealVerifier.{
  Seals, ZkReceipt, SealError, journal_of, seal_of, same_image, check_journal, check_seal, verify,
  image_mismatch, empty_proof, malformed_header, invalid_seal_size,
}

module _ (s : Seals) where
  -- The seal is that of the secret, where one is given.
  abbrev pub IsSealed : Option (List ℕ) → ZkReceipt → Type 0
  IsSealed none r = Unit
  IsSealed (some []) r = Unit
  IsSealed (some (b ∷ bs)) r = seal_of r.proof ≡ s.hmac (b ∷ bs) (journal_of r.proof)

  seal_iff :
      (secret : Option (List ℕ)) (r : ZkReceipt)
      → (check_seal s secret r ≡ ok tt) ↔ IsSealed secret r
  seal_iff none r = ground arith
  seal_iff (some []) r = ground arith
  seal_iff (some (b ∷ bs)) r =
      ground (arith, bytes_eq_iff (seal_of r.proof) (s.hmac (b ∷ bs) (journal_of r.proof)))

  same_image_iff :
      (header : String) (field : Option (Option String))
      → (same_image s header field ≡ true) ↔ (field ≡ some (some header))
  same_image_iff header none = ground arith
  same_image_iff header (some none) = ground arith
  same_image_iff header (some (some text)) = ground (arith, eq_iff text header)

  -- A receipt is accepted exactly when its image is the expected one, its proof has 35 bytes or more and
  -- starts with the version 1, 32 bytes stand behind the journal, the journal names the image of the
  -- receipt, and these bytes are the code of the journal under the secret, if one is given that is not
  -- empty.
  pub verify_iff :
      (r : ZkReceipt) (expected : List ℕ) (secret : Option (List ℕ))
      → (verify s r expected secret ≡ ok tt) ↔ (
          (r.image_id ≡ expected)
          × (35 ≤ length r.proof)
          × (byte_at 0 r.proof ≡ 1)
          × (length (seal_of r.proof) ≡ 32)
          × (s.image_id (journal_of r.proof) ≡ some (some (s.hex r.image_id)))
          × IsSealed secret r)
  unfolding verify
  verify_iff r expected secret =
      let image = bytes_eq_iff r.image_id expected in
      let named = same_image_iff (s.hex r.image_id) (s.image_id (journal_of r.proof)) in
      let sealed = seal_iff secret r in
      let b4 = check_journal s r >> check_seal s secret r in
      let b3 = guard (eqb (length (seal_of r.proof)) 32) invalid_seal_size >> b4 in
      let b2 =
        guard (leb 35 (length r.proof) && eqb (byte_at 0 r.proof) 0x01) malformed_header >> b3 in
      let b1 = guard (ltb 0 (length r.proof)) empty_proof >> b2 in
      let s0 = >>-eq_ok (guard (bytes_eq r.image_id expected) image_mismatch) b1 {b = tt} in
      let s1 = >>-eq_ok (guard (ltb 0 (length r.proof)) empty_proof) b2 {b = tt} in
      let s2 =
        >>-eq_ok (guard (leb 35 (length r.proof) && eqb (byte_at 0 r.proof) 0x01) malformed_header)
          b3 {b = tt} in
      let s3 = >>-eq_ok (guard (eqb (length (seal_of r.proof)) 32) invalid_seal_size) b4 {b = tt} in
      let s4 = >>-eq_ok (check_journal s r) (check_seal s secret r) {b = tt} in
      let g0 = guard_iff (bytes_eq r.image_id expected) image_mismatch in
      let g4 =
        guard_iff (same_image s (s.hex r.image_id) (s.image_id (journal_of r.proof)))
          SealError.journal_unparsable in
      (
        λ h.
            let c0 = s0.0 h in
            let c1 = s1.0 c0.1 in
            let c2 = s2.0 c1.1 in
            let c3 = s3.0 c2.1 in
            let c4 = s4.0 c3.1 in
            (
              image.0 (g0.0 c0.0),
              ground arith,
              ground arith,
              ground arith,
              named.0 (g4.0 c4.0),
              sealed.0 c4.1,
            ),
        λ (i, size, version, cut, name, seal). s0.1 (
          g0.1 (image.1 i),
          s1.1 (
            ground arith,
            s2.1 (ground arith, s3.1 (ground arith, s4.1 (g4.1 (named.1 name), sealed.1 seal))),
          ),
        ),
      )
