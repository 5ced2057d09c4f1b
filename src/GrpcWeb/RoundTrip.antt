-- ===== src/GrpcWeb/RoundTrip.antt =====
-- Decoding after encoding.
use Prim.Native.Nat.{bit_and}
use liop.Common.{
  Bool-cases, inl, inr, ℕ, zero, suc, ◌+◌, ◌-◌, ◌^◌, ◌≤◌, ◌<◌, ◌≡◌, refl, ap, sym, ◌∙◌, List, [],
  ◌∷◌, ◌++◌, if◌then◌else◌, le→leb, eqb, length, length-append, arith, All,
}
use mathlib.Core.List.{append_assoc, append-nil}
use liop.Common.Bytes.{to_be, from_be, length-to_be, from_be-to_be, take_front, drop_front}
use liop.GrpcWeb.{
  GrpcWebFrame, flag_data, flag_trailers, encode_frame, encode_data_frame, encode_trailer_frame,
  decode_from, decode_frames,
}

-- The encoding of a frame.
abbrev pub encode : GrpcWebFrame → List ℕ
encode f = if f.is_trailer then encode_trailer_frame f.payload else encode_data_frame f.payload

pub encode_all : List GrpcWebFrame → List ℕ
encode_all [] = []
encode_all (f ∷ fs) = encode f ++ encode_all fs

abbrev flag_of : GrpcWebFrame → ℕ
flag_of f = if f.is_trailer then flag_trailers else flag_data

encode-frame : (f : GrpcWebFrame) → encode f ≡ encode_frame (flag_of f) f.payload
unfolding encode_data_frame encode_trailer_frame
encode-frame f = ground arith

decode_front :
    (fuel flag : ℕ) (size payload rest : List ℕ)
    → length size ≡ 4
    → from_be 0 size ≡ length payload
    → decode_from (suc fuel) (flag ∷ (size ++ (payload ++ rest)))
      ≡ record { is_trailer = eqb (bit_and flag flag_trailers) flag_trailers; payload = payload }
        ∷ decode_from fuel rest
unfolding decode_from
decode_front fuel flag size payload rest h e =
    let n = length-append size (payload ++ rest) in
    let m = length-append payload rest in
    let whole = length (flag ∷ (size ++ (payload ++ rest))) in
    rw (
      take_front 4 size (payload ++ rest) h,
      drop_front 4 size (payload ++ rest) h,
      e,
      take_front (length payload) payload rest refl,
      drop_front (length payload) payload rest refl,
      le→leb 5 whole (omega (arith, n)),
      le→leb (5 + length payload) whole (omega (arith, n, m)),
    )

decode_step :
    (fuel flag : ℕ) (payload rest : List ℕ)
    → length payload < 256 ^ 4
    → decode_from (suc fuel) (encode_frame flag payload ++ rest)
      ≡ record { is_trailer = eqb (bit_and flag flag_trailers) flag_trailers; payload = payload }
        ∷ decode_from fuel rest
unfolding encode_frame
decode_step fuel flag payload rest h =
    let size = to_be 4 (length payload) in
    ap (λ t. decode_from (suc fuel) (flag ∷ t)) (append_assoc size payload rest)
    ∙ decode_front fuel flag size payload rest (length-to_be 4 (length payload))
        (from_be-to_be 4 (length payload) h)

-- The payload's length fits the header.
abbrev pub Fits : GrpcWebFrame → Type 0
Fits f = length f.payload < 256 ^ 4

is_trailer-flag_of :
    (f : GrpcWebFrame) → eqb (bit_and (flag_of f) flag_trailers) flag_trailers ≡ f.is_trailer
is_trailer-flag_of f = elim (Bool-cases f.is_trailer) [ inl e ↦ rw e | inr e ↦ rw e ]

pred-pred : (m n : ℕ) → m - n ≡ suc m - suc n
pred-pred m n = omega arith

decode_from-encode_all :
    (fs : List GrpcWebFrame) (rest : List ℕ) (fuel : ℕ)
    → All Fits fs
    → length fs ≤ fuel
    → decode_from fuel (encode_all fs ++ rest) ≡ fs ++ decode_from (fuel - length fs) rest
unfolding encode_all
decode_from-encode_all [] rest fuel h k = ap (λ n. decode_from n rest) (omega arith)
decode_from-encode_all (f ∷ fs) rest zero h k = absurd (omega arith)
decode_from-encode_all (f ∷ fs) rest (suc fuel) (fits, h) k =
    let here = decode_step fuel (flag_of f) f.payload (encode_all fs ++ rest) fits in
    let there = decode_from-encode_all fs rest fuel h (omega arith) in
    rw (
      encode-frame f,
      append_assoc (encode_frame (flag_of f) f.payload) (encode_all fs) rest,
      here,
      is_trailer-flag_of f,
      there,
      pred-pred fuel (length fs),
    )

encode_frame-size : (flag : ℕ) (payload : List ℕ) → 1 ≤ length (encode_frame flag payload)
unfolding encode_frame
encode_frame-size flag payload = omega arith

frames-le : (fs : List GrpcWebFrame) → length fs ≤ length (encode_all fs)
unfolding encode_all
frames-le [] = omega arith
frames-le (f ∷ fs) =
    let size = encode_frame-size (flag_of f) f.payload in
    let e = ap length (encode-frame f) in
    omega (arith, length-append (encode f) (encode_all fs), frames-le fs, size, e)

decode_from-nil : (fuel : ℕ) → decode_from fuel [] ≡ []
unfolding decode_from
decode_from-nil zero = refl
decode_from-nil (suc fuel) = refl

-- Decoding the encodings of any frames, each with a payload below 2 ^ 32 bytes, gives the frames back
-- in order.
pub decode_frames-encode_all :
    (fs : List GrpcWebFrame) → All Fits fs → decode_frames (encode_all fs) ≡ fs
unfolding decode_frames
decode_frames-encode_all fs h =
    let bytes = encode_all fs in
    let whole = decode_from-encode_all fs [] (length bytes) h (frames-le fs) in
    rw (
      sym (ap (decode_from (length bytes)) (append-nil bytes)),
      whole,
      decode_from-nil (length bytes - length fs),
      append-nil fs,
    )
