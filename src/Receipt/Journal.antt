-- ===== src/Receipt/Journal.antt =====
-- The journal's layout.
use liop.Common.{
  ℕ, ◌+◌, ◌^◌, ◌<◌, ◌≡◌, refl, ap, ◌∙◌, List, ◌++◌, arith, length, length-append, take, drop,
  lt→ltb, eqb_iff,
}
use liop.Common.Bytes.{to_be, from_be, length-to_be, from_be-to_be, take_front, drop_skip, take_all}
use liop.Common.Attempt.{ok}
use liop.Receipt.{ZkJournalV2, encode_journal_v2, decode_journal_v2, journal_at}

-- Digests of 32 bytes and numbers of 64 bits.
pub record IsEncodable (j : ZkJournalV2) : Type 0 where
  pub guest : length j.guest_image_id ≡ 32
  pub logic : length j.logic_digest ≡ 32
  pub dataset : length j.dataset_digest ≡ 32
  pub output : length j.output_digest ≡ 32
  pub fuel : j.fuel_consumed < 256 ^ 8
  pub timestamp : j.execution_timestamp < 256 ^ 8

abbrev numbers : ZkJournalV2 → List ℕ
numbers j = to_be 8 j.fuel_consumed ++ to_be 8 j.execution_timestamp

abbrev layout : ZkJournalV2 → List ℕ
layout j =
    j.guest_image_id ++ (j.logic_digest ++ (j.dataset_digest ++ (j.output_digest ++ numbers j)))

encode-layout : (j : ZkJournalV2) → IsEncodable j → encode_journal_v2 j ≡ ok (layout j)
unfolding encode_journal_v2
encode-layout j e = rw (
  (eqb_iff _ _).1 e.guest,
  (eqb_iff _ _).1 e.logic,
  (eqb_iff _ _).1 e.dataset,
  (eqb_iff _ _).1 e.output,
  lt→ltb _ _ e.fuel,
  lt→ltb _ _ e.timestamp,
)

encode-IsEncodable : (j : ZkJournalV2) (buf : List ℕ) → encode_journal_v2 j ≡ ok buf → IsEncodable j
unfolding encode_journal_v2
encode-IsEncodable j buf h = ground arith

length-layout : (j : ZkJournalV2) → IsEncodable j → length (layout j) ≡ 144
length-layout j e = omega (
  arith,
  length-append j.guest_image_id
      (j.logic_digest ++ (j.dataset_digest ++ (j.output_digest ++ numbers j))),
  length-append j.logic_digest (j.dataset_digest ++ (j.output_digest ++ numbers j)),
  length-append j.dataset_digest (j.output_digest ++ numbers j),
  length-append j.output_digest (numbers j),
  length-append (to_be 8 j.fuel_consumed) (to_be 8 j.execution_timestamp),
  length-to_be 8 j.fuel_consumed,
  length-to_be 8 j.execution_timestamp,
)

module _ (j : ZkJournalV2) (e : IsEncodable j) where
  behind_guest :
      (n m : ℕ)
      → n ≡ 32 + m
      → drop n (layout j)
        ≡ drop m (j.logic_digest ++ (j.dataset_digest ++ (j.output_digest ++ numbers j)))
  behind_guest n m h = drop_skip n m j.guest_image_id _ (omega (arith, e.guest))

  behind_logic :
      (n m : ℕ)
      → n ≡ 64 + m
      → drop n (layout j) ≡ drop m (j.dataset_digest ++ (j.output_digest ++ numbers j))
  behind_logic n m h =
      behind_guest n (32 + m) (omega arith)
      ∙ drop_skip (32 + m) m j.logic_digest _ (omega (arith, e.logic))

  behind_dataset :
      (n m : ℕ) → n ≡ 96 + m → drop n (layout j) ≡ drop m (j.output_digest ++ numbers j)
  behind_dataset n m h =
      behind_logic n (32 + m) (omega arith)
      ∙ drop_skip (32 + m) m j.dataset_digest _ (omega (arith, e.dataset))

  behind_output : (n m : ℕ) → n ≡ 128 + m → drop n (layout j) ≡ drop m (numbers j)
  behind_output n m h =
      behind_dataset n (32 + m) (omega arith)
      ∙ drop_skip (32 + m) m j.output_digest _ (omega (arith, e.output))

  journal_at-layout : journal_at (layout j) ≡ j
  journal_at-layout =
      let fuel =
        take_front 8 (to_be 8 j.fuel_consumed) (to_be 8 j.execution_timestamp)
          (length-to_be 8 j.fuel_consumed) in
      let late =
        drop_skip 8 0 (to_be 8 j.fuel_consumed) (to_be 8 j.execution_timestamp)
          (omega (arith, length-to_be 8 j.fuel_consumed)) in
      let stamp =
        take_all 8 (to_be 8 j.execution_timestamp)
          (omega (arith, length-to_be 8 j.execution_timestamp)) in
      λ i. record {
        guest_image_id =
            take_front 32 j.guest_image_id
              (j.logic_digest ++ (j.dataset_digest ++ (j.output_digest ++ numbers j))) e.guest i;
        logic_digest =
            (ap (take 32) (behind_guest 32 0 refl) ∙ take_front 32 j.logic_digest _ e.logic) i;
        dataset_digest =
            (ap (take 32) (behind_logic 64 0 refl) ∙ take_front 32 j.dataset_digest _ e.dataset) i;
        output_digest =
            (ap (take 32) (behind_dataset 96 0 refl) ∙ take_front 32 j.output_digest _ e.output) i;
        fuel_consumed =
            (ap (λ b. from_be 0 (take 8 b)) (behind_output 128 0 refl)
                ∙ ap (from_be 0) fuel
                ∙ from_be-to_be 8 j.fuel_consumed e.fuel)
              i;
        execution_timestamp =
            (ap (λ b. from_be 0 (take 8 b)) (behind_output 136 8 refl ∙ late)
                ∙ ap (from_be 0) stamp
                ∙ from_be-to_be 8 j.execution_timestamp e.timestamp)
              i;
      }

-- A journal with four digests of 32 bytes and numbers below 2 ^ 64 is encoded, in 144 bytes, from which
-- the decoder gives it back.
pub decode-encode_journal :
    (j : ZkJournalV2)
    → IsEncodable j
    → (buf : List ℕ) × (encode_journal_v2 j ≡ ok buf)
      × (length buf ≡ 144)
      × (decode_journal_v2 buf ≡ ok j)
unfolding decode_journal_v2
decode-encode_journal j e =
    let size = length-layout j e in
    (
      layout j,
      encode-layout j e,
      size,
      rw ((eqb_iff (length (layout j)) 144).1 size, journal_at-layout j e),
    )
