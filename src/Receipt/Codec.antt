-- ===== src/Receipt/Codec.antt =====
-- Decoding after encoding.
use liop.Common.{
  ℕ, ◌+◌, ◌-◌, ◌^◌, ◌<◌, ◌≡◌, ◌≢◌, refl, ap, sym, ◌∙◌, false, none, some, List, ◌++◌, arith, length,
  length-append, drop, eqb, lt→ltb, le→leb,
}
use mathlib.Core.List.{append_assoc}
use mathlib.Core.Path.{subst}
use liop.Common.Bytes.{to_be, length-to_be, read_be, take_front}
use liop.Common.Attempt.{ok}
use liop.Receipt.{
  Sha256, DecodedReceipt, groth16_pqc_hybrid, sealed, header, encode_v2, encode_hybrid_v2, decode,
  decode_v2, decode_payload, decode_hybrid,
}
use liop.Receipt.Layout.{
  chunk, chunk_length, chunk_body, chunk_behind, decode_v2-sealed, front, front-length,
  front_journal, front_tail, front_size,
}

-- What is decoded of a receipt with these parts.
abbrev pub plain : ℕ → List ℕ → List ℕ → List ℕ → DecodedReceipt
plain pt journal proof raw = record {
  version = 2;
  proof_type = pt;
  journal = journal;
  proof = proof;
  raw = raw;
  pqc_signature = none;
  pqc_public_key = none;
}

abbrev pub hybrid : List ℕ → List ℕ → List ℕ → List ℕ → List ℕ → DecodedReceipt
hybrid journal proof signature key raw = record {
  version = 2;
  proof_type = groth16_pqc_hybrid;
  journal = journal;
  proof = proof;
  raw = raw;
  pqc_signature = some signature;
  pqc_public_key = some key;
}

module _ (sha : Sha256) where
  sealed-front :
      (pt : ℕ) (journal body : List ℕ)
      → sealed sha (header sha pt journal ++ (journal ++ body))
        ≡ front pt journal (body ++ sha.digest (header sha pt journal ++ (journal ++ body)))
  sealed-front pt journal body =
      let d = sha.digest (header sha pt journal ++ (journal ++ body)) in
      rw (append_assoc (to_be 4 (length journal)) (journal ++ body) d, append_assoc journal body d)

  decode_v2-front :
      (pt : ℕ) (journal body : List ℕ)
      → length journal < 256 ^ 4
      → let raw = sealed sha (header sha pt journal ++ (journal ++ body)) in
        decode_v2 sha raw ≡ decode_payload sha raw
  decode_v2-front pt journal body short =
      let payload = header sha pt journal ++ (journal ++ body) in
      let d = sha.digest payload in
      let size : length payload ≡ 6 + length journal + length body = omega (
        arith,
        length-append (to_be 4 (length journal)) (journal ++ body),
        length-append journal body,
        length-to_be 4 (length journal),
      ) in
      let measured : read_be 4 2 (sealed sha payload) ≡ length journal =
        rw (sealed-front pt journal body) (front-length pt journal (body ++ d) short) in
      decode_v2-sealed sha payload (omega arith) (omega arith)

  payload_plain :
      (pt : ℕ) (journal proof d : List ℕ)
      → eqb pt groth16_pqc_hybrid ≡ false
      → length journal < 256 ^ 4
      → length d ≡ 32
      → decode_payload sha (front pt journal (proof ++ d))
        ≡ ok (record {
          version = 2;
          proof_type = pt;
          journal = journal;
          proof = proof;
          raw = front pt journal (proof ++ d);
          pqc_signature = none;
          pqc_public_key = none;
        })
  unfolding decode_payload
  payload_plain pt journal proof d other short h =
      let raw = front pt journal (proof ++ d) in
      let size : length raw - 32 - (6 + length journal) ≡ length proof =
        omega (arith, front_size pt journal (proof ++ d) short, length-append proof d) in
      rw (
        front-length pt journal (proof ++ d) short,
        other,
        front_journal pt journal (proof ++ d) short,
        size,
        front_tail pt journal (proof ++ d) short,
        take_front (length proof) proof d refl,
      )

  payload_plain-sealed :
      (pt : ℕ) (journal proof : List ℕ)
      → pt ≢ groth16_pqc_hybrid
      → length journal < 256 ^ 4
      → let raw = sealed sha (header sha pt journal ++ (journal ++ proof)) in
        decode_payload sha raw ≡ ok (plain pt journal proof raw)
  payload_plain-sealed pt journal proof other short =
      let d = sha.digest (header sha pt journal ++ (journal ++ proof)) in
      subst (λ r. decode_payload sha r ≡ ok (plain pt journal proof r))
        (sym (sealed-front pt journal proof))
        (payload_plain pt journal proof d (ground arith) short
          (sha.length-digest (header sha pt journal ++ (journal ++ proof))))

  -- A receipt that is not hybrid, with a journal below 2 ^ 32 bytes, is encoded, and decodes to its
  -- parts with neither signature nor key.
  pub decode-encode_v2 :
      (pt : ℕ) (journal proof : List ℕ)
      → pt ≢ groth16_pqc_hybrid
      → length journal < 256 ^ 4
      → (raw : List ℕ) × (encode_v2 sha pt journal proof ≡ ok raw)
        × (decode sha raw ≡ ok (plain pt journal proof raw))
  unfolding decode encode_v2
  decode-encode_v2 pt journal proof other short = (
    sealed sha (header sha pt journal ++ (journal ++ proof)),
    rw (lt→ltb _ _ short),
    decode_v2-front pt journal proof short ∙ payload_plain-sealed pt journal proof other short,
  )

  hybrid_parts :
      (raw journal proof signature key d : List ℕ) (offset : ℕ)
      → drop offset raw ≡ chunk proof (chunk signature (key ++ d))
      → length raw ≡ offset + length (chunk proof (chunk signature (key ++ d)))
      → length proof < 256 ^ 2
      → length signature < 256 ^ 2
      → length d ≡ 32
      → decode_hybrid sha raw journal offset ≡ ok (hybrid journal proof signature key raw)
  unfolding decode_hybrid
  hybrid_parts raw journal proof signature key d offset at size short_proof short_signature h =
      let rest = chunk signature (key ++ d) in
      let at_signature = chunk_behind raw offset proof rest at short_proof in
      let at_key =
        chunk_behind raw (offset + 2 + length proof) signature (key ++ d) at_signature
          short_signature in
      let sizes : length raw ≡ offset + 2 + length proof + 2 + length signature + length key + 32 =
        omega (
          arith,
          length-append (to_be 2 (length proof)) (proof ++ rest),
          length-append proof rest,
          length-append (to_be 2 (length signature)) (signature ++ (key ++ d)),
          length-append signature (key ++ d),
          length-append key d,
          length-to_be 2 (length proof),
          length-to_be 2 (length signature),
        ) in
      let n_proof : offset + 2 + length proof - (offset + 2) ≡ length proof = omega arith in
      let n_signature : offset
            + 2
            + length proof
            + 2
            + length signature
            - (offset + 2 + length proof + 2)
          ≡ length signature =
        omega arith in
      let n_key : length raw - 32 - (offset + 2 + length proof + 2 + length signature)
          ≡ length key =
        omega arith in
      rw (
        chunk_length raw offset proof rest at short_proof,
        chunk_length raw (offset + 2 + length proof) signature (key ++ d) at_signature
            short_signature,
        le→leb (offset + 2 + 32) (length raw) (omega arith),
        le→leb (offset + 2 + length proof + 2 + 32) (length raw) (omega arith),
        le→leb (offset + 2 + length proof + 2 + length signature + 32) (length raw) (omega arith),
        n_proof,
        n_signature,
        n_key,
        chunk_body raw offset proof rest at short_proof,
        chunk_body raw (offset + 2 + length proof) signature (key ++ d) at_signature
            short_signature,
        at_key,
        take_front (length proof) proof rest refl,
        take_front (length signature) signature (key ++ d) refl,
        take_front (length key) key d refl,
      )

  chunks_assoc :
      (proof signature key d : List ℕ)
      → chunk proof (chunk signature key) ++ d ≡ chunk proof (chunk signature (key ++ d))
  chunks_assoc proof signature key d =
      append_assoc (to_be 2 (length proof)) (proof ++ chunk signature key) d
      ∙ ap (λ t. to_be 2 (length proof) ++ t)
          (append_assoc proof (chunk signature key) d
            ∙ ap (λ t. proof ++ t)
                (append_assoc (to_be 2 (length signature)) (signature ++ key) d
                  ∙ ap (λ t. to_be 2 (length signature) ++ t) (append_assoc signature key d)))

  payload_hybrid :
      (journal proof signature key d : List ℕ)
      → length journal < 256 ^ 4
      → length proof < 256 ^ 2
      → length signature < 256 ^ 2
      → length d ≡ 32
      → let raw = front groth16_pqc_hybrid journal (chunk proof (chunk signature key) ++ d) in
        decode_payload sha raw ≡ ok (hybrid journal proof signature key raw)
  unfolding decode_payload
  payload_hybrid journal proof signature key d short short_proof short_signature h =
      let tail = chunk proof (chunk signature key) ++ d in
      let raw = front groth16_pqc_hybrid journal tail in
      let same = chunks_assoc proof signature key d in
      rw
        (
          front-length groth16_pqc_hybrid journal tail short,
          front_journal groth16_pqc_hybrid journal tail short,
        )
        (hybrid_parts raw journal proof signature key d (6 + length journal)
          (front_tail groth16_pqc_hybrid journal tail short ∙ same)
          (front_size groth16_pqc_hybrid journal tail short
            ∙ ap (λ t. 6 + length journal + length t) same)
          short_proof short_signature h)

  payload_hybrid-sealed :
      (journal proof signature key : List ℕ)
      → length journal < 256 ^ 4
      → length proof < 256 ^ 2
      → length signature < 256 ^ 2
      → let raw = sealed sha (
          header sha groth16_pqc_hybrid journal
          ++ (journal ++ chunk proof (chunk signature key))) in
        decode_payload sha raw ≡ ok (hybrid journal proof signature key raw)
  payload_hybrid-sealed journal proof signature key short short_proof short_signature =
      let body = chunk proof (chunk signature key) in
      let payload = header sha groth16_pqc_hybrid journal ++ (journal ++ body) in
      subst (λ r. decode_payload sha r ≡ ok (hybrid journal proof signature key r))
        (sym (sealed-front groth16_pqc_hybrid journal body))
        (payload_hybrid journal proof signature key (sha.digest payload) short short_proof
          short_signature (sha.length-digest payload))

  -- A hybrid receipt with a journal below 2 ^ 32 bytes and a proof and a signature below 2 ^ 16 is
  -- encoded, and decodes to its parts.
  pub decode-encode_hybrid_v2 :
      (journal proof signature key : List ℕ)
      → length journal < 256 ^ 4
      → length proof < 256 ^ 2
      → length signature < 256 ^ 2
      → (raw : List ℕ) × (encode_hybrid_v2 sha journal proof signature key ≡ ok raw)
        × (decode sha raw ≡ ok (hybrid journal proof signature key raw))
  unfolding decode encode_hybrid_v2
  decode-encode_hybrid_v2 journal proof signature key short short_proof short_signature =
      let body = chunk proof (chunk signature key) in
      (
        sealed sha (header sha groth16_pqc_hybrid journal ++ (journal ++ body)),
        rw (lt→ltb _ _ short, lt→ltb _ _ short_proof, lt→ltb _ _ short_signature),
        decode_v2-front groth16_pqc_hybrid journal body short
            ∙ payload_hybrid-sealed journal proof signature key short short_proof short_signature,
      )
