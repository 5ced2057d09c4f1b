-- ===== src/Receipt/Layout.antt =====
-- The parts of a receipt, where they stand.
use liop.Common.{
  ℕ, ◌+◌, ◌-◌, ◌^◌, ◌≤◌, ◌<◌, ◌≡◌, refl, ◌∙◌, List, ◌∷◌, ◌++◌, arith, length, length-append, drop,
  le→leb,
}
use liop.Common.Bytes.{
  to_be, length-to_be, from_be-to_be, subarray, read_be, bytes_eq_iff, take_front, drop_front,
  drop_skip, drop_add,
}
use liop.Receipt.{Sha256, sealed, decode_v2, decode_payload}

-- A two-byte length, what it measures, and the rest.
abbrev pub chunk : List ℕ → List ℕ → List ℕ
chunk xs rest = to_be 2 (length xs) ++ (xs ++ rest)

module _ (raw : List ℕ) (offset : ℕ) (xs rest : List ℕ) (at : drop offset raw ≡ chunk xs rest)
    (short : length xs < 256 ^ 2) where
  pub chunk_length : read_be 2 offset raw ≡ length xs
  chunk_length =
      rw (at, take_front 2 (to_be 2 (length xs)) (xs ++ rest) (length-to_be 2 (length xs)))
        (from_be-to_be 2 (length xs) short)

  pub chunk_body : drop (offset + 2) raw ≡ xs ++ rest
  chunk_body =
      rw (drop_add offset 2 raw, at)
        (drop_front 2 (to_be 2 (length xs)) (xs ++ rest) (length-to_be 2 (length xs)))

  pub chunk_behind : drop (offset + 2 + length xs) raw ≡ rest
  chunk_behind =
      rw (drop_add (offset + 2) (length xs) raw, chunk_body) (drop_front (length xs) xs rest refl)

module _ (sha : Sha256) where
  pub decode_v2-sealed :
      (payload : List ℕ)
      → 6 ≤ length payload
      → 6 + read_be 4 2 (sealed sha payload) ≤ length payload
      → decode_v2 sha (sealed sha payload) ≡ decode_payload sha (sealed sha payload)
  unfolding decode_v2
  decode_v2-sealed payload h k =
      let raw = sealed sha payload in
      let size : length raw ≡ length payload + 32 =
        omega (arith, length-append payload (sha.digest payload), sha.length-digest payload) in
      let cut : length raw - 32 ≡ length payload = omega arith in
      rw (
        le→leb 38 (length raw) (omega arith),
        le→leb (6 + read_be 4 2 raw + 32) (length raw) (omega arith),
        cut,
        drop_front (length payload) payload (sha.digest payload) refl,
        take_front (length payload) payload (sha.digest payload) refl,
        (bytes_eq_iff (sha.digest payload) (sha.digest payload)).1 refl,
      )

-- The front of a receipt: the version, the type and the journal behind its length.
abbrev pub front : ℕ → List ℕ → List ℕ → List ℕ
front pt journal tail = 2 ∷ pt ∷ (to_be 4 (length journal) ++ (journal ++ tail))

module _ (pt : ℕ) (journal tail : List ℕ) (short : length journal < 256 ^ 4) where
  pub front-length : read_be 4 2 (front pt journal tail) ≡ length journal
  front-length =
      rw
        (take_front 4 (to_be 4 (length journal)) (journal ++ tail)
          (length-to_be 4 (length journal)))
        (from_be-to_be 4 (length journal) short)

  pub front_at : (n m : ℕ) → n ≡ 6 + m → drop n (front pt journal tail) ≡ drop m (journal ++ tail)
  front_at n m h =
      drop_skip n m (2 ∷ pt ∷ to_be 4 (length journal)) (journal ++ tail)
        (omega (arith, length-to_be 4 (length journal)))

  pub front_journal : subarray 6 (6 + length journal) (front pt journal tail) ≡ journal
  front_journal =
      let n : 6 + length journal - 6 ≡ length journal = omega arith in
      rw (n, front_at 6 0 refl) (take_front (length journal) journal tail refl)

  pub front_tail : drop (6 + length journal) (front pt journal tail) ≡ tail
  front_tail =
      front_at (6 + length journal) (length journal) refl
      ∙ drop_front (length journal) journal tail refl

  pub front_size : length (front pt journal tail) ≡ 6 + length journal + length tail
  front_size = omega (
    arith,
    length-append (to_be 4 (length journal)) (journal ++ tail),
    length-append journal tail,
    length-to_be 4 (length journal),
  )
