-- ===== src/Receipt/Sizes.antt =====
-- The decoder reads within the receipt.
use liop.Common.{
  ℕ, ◌+◌, ◌-◌, ◌≤◌, ◌≡◌, Option, none, some, List, if◌then◌else◌, arith, length, drop, eqb,
}
use liop.Common.Bytes.{subarray, length-take, length-drop}
use liop.Receipt.{DecodedReceipt, groth16_pqc_hybrid}

pub length-subarray :
    (a b : ℕ) (xs : List ℕ) → a ≤ b → b ≤ length xs → length (subarray a b xs) + a ≡ b
length-subarray a b xs h k = omega (arith, length-take (b - a) (drop a xs), length-drop a xs)

abbrev size_or_zero : Option (List ℕ) → ℕ
size_or_zero none = 0
size_or_zero (some xs) = length xs

-- The parts that a receipt holds, and the bytes around them.
abbrev pub parts : DecodedReceipt → ℕ
parts r =
    length r.journal + length r.proof + size_or_zero r.pqc_signature + size_or_zero r.pqc_public_key

abbrev pub overhead : DecodedReceipt → ℕ
overhead r = if eqb r.version 1 then 3 else if eqb r.proof_type groth16_pqc_hybrid then 42 else 38
