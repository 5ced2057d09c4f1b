-- ===== src/GrpcWeb.antt =====
-- The frames of gRPC-Web (sdks/typescript/src/gateway/grpc-web.ts). A buffer is a list of bytes. The
-- text of a trailer, which `encodeURIComponent` and UTF-8 give, is a list of bytes here.
pub mod RoundTrip
mod Tests
use Prim.Native.Nat.{bit_and}
use liop.Common.{
  ℕ, zero, suc, ◌+◌, ◌-◌, String, Bool, true, false, not, Option, none, some, List, [], ◌∷◌, ◌++◌,
  if◌then◌else◌, leb, eqb, length, take, drop, coalesce_to,
}
use liop.Common.{String, ◌&&◌, ◌||◌, truthy}
use liop.Common.Bytes.{to_be, from_be}

abbrev pub flag_data : ℕ
flag_data = 0x00

abbrev pub flag_trailers : ℕ
flag_trailers = 0x80

abbrev pub header_length : ℕ
header_length = 5

pub record GrpcWebFrame : Type 0 where
  pub is_trailer : Bool
  pub payload : List ℕ

-- The header and the payload of a frame. `writeUInt32BE` throws from 2 ^ 32 on, which is more than a
-- buffer holds.
unfoldable pub encode_frame : ℕ → List ℕ → List ℕ
encode_frame flag payload = (flag ∷ []) ++ (to_be 4 (length payload) ++ payload)

unfoldable pub encode_data_frame : List ℕ → List ℕ
unfolding encode_frame
encode_data_frame payload = encode_frame flag_data payload

-- The trailer's text is given as its bytes.
unfoldable pub encode_trailer_frame : List ℕ → List ℕ
unfolding encode_frame
encode_trailer_frame trailer = encode_frame flag_trailers trailer

abbrev head_or_zero : List ℕ → ℕ
head_or_zero [] = 0
head_or_zero (b ∷ bs) = b

-- The frame at the front of the bytes that are left: its flag, its length and the rest behind the
-- header.
abbrev flag_at : List ℕ → ℕ
flag_at buffer = head_or_zero buffer

abbrev length_at : List ℕ → ℕ
length_at buffer = from_be 0 (take 4 (drop 1 buffer))

abbrev frame_at : List ℕ → GrpcWebFrame
frame_at buffer = record {
  is_trailer = eqb (bit_and (flag_at buffer) flag_trailers) flag_trailers;
  payload = take (length_at buffer) (drop header_length buffer);
}

-- The loop of `decodeFrames` on the bytes from `offset` on. Each frame takes five bytes at least, so
-- that the length of the buffer is fuel enough.
unfoldable pub decode_from : ℕ → List ℕ → List GrpcWebFrame
decode_from zero buffer = []
decode_from (suc fuel) buffer =
    let rest =
      frame_at buffer ∷ decode_from fuel (drop (length_at buffer) (drop header_length buffer)) in
    if leb header_length (length buffer)
    then (if leb (header_length + length_at buffer) (length buffer) then rest else [])
    else []

unfoldable pub decode_frames : List ℕ → List GrpcWebFrame
unfolding decode_from
decode_frames buffer = decode_from (length buffer) buffer

-- `frames.find((f) => !f.isTrailer)?.payload ?? Buffer.alloc(0)`
unfoldable pub data_payload : List GrpcWebFrame → List ℕ
data_payload [] = []
data_payload (f ∷ fs) = if f.is_trailer then data_payload fs else f.payload

-- What the handler of a request answers: a status and message as the bytes of the trailer, and data.
pub data Reply : Type 0 where
  answered : (trailer : List ℕ) → Option (List ℕ) → Reply
  threw : (trailer : List ℕ) → Reply

abbrev data_frame : Option (List ℕ) → List ℕ
data_frame none = []
data_frame (some []) = []
data_frame (some (b ∷ bs)) = encode_data_frame (b ∷ bs)

-- The body that `dispatchGrpcWebRequest` writes: a data frame if there is data, then a trailer frame;
-- the trailer alone if the handler throws.
unfoldable pub respond : Reply → List ℕ
respond (answered trailer payload) = data_frame payload ++ encode_trailer_frame trailer
respond (threw trailer) = encode_trailer_frame trailer

-- `lower` is `toLowerCase`, `starts_with` the engine's `startsWith`.
unfoldable pub is_grpc_web_request :
    (String → String) → (String → String → Bool) → Option String → Bool
is_grpc_web_request lower starts_with none = false
is_grpc_web_request lower starts_with (some content_type) =
    let low = lower content_type in
    truthy (some content_type)
    && (starts_with low "application/grpc-web"
        || starts_with low "application/grpc-web+proto"
        || starts_with low "application/grpc-web+json")
