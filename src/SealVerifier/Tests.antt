-- ===== src/SealVerifier/Tests.antt =====
-- A receipt of which the journal names its image.
use liop.Common.{◌+◌, ◌≡◌, refl, some, [], ◌∷◌, length}
use liop.Common.Bytes.{to_be, from_be, bytes_eq}
use liop.Common.Attempt.{ok}
use liop.SealVerifier.{Seals, ZkReceipt, verify}

abbrev seals : Seals
seals = record {
  image_id = λ journal. some (some "ab");
  hex = λ bytes. "ab";
  hmac = λ secret journal. to_be 32 (length secret + length journal);
  sha256 = λ bytes. to_be 32 0;
}

-- A journal of two bytes, sealed under a secret of one.
abbrev sealed : ZkReceipt
sealed = record { image_id = 0xab ∷ []; proof = 1 ∷ 0 ∷ 2 ∷ 5 ∷ 6 ∷ to_be 32 3 }

sealed_accepted : verify seals sealed (0xab ∷ []) (some (9 ∷ [])) ≡ ok tt
unfolding verify to_be from_be bytes_eq
sealed_accepted = refl
