-- ===== src/GrpcWeb/Tests.antt =====
-- A request of two frames.
use liop.Common.{◌≡◌, true, false, List, [], ◌∷◌, arith, All}
use liop.GrpcWeb.{GrpcWebFrame, decode_frames}
use liop.GrpcWeb.RoundTrip.{encode_all, decode_frames-encode_all, Fits}

abbrev two_frames : List GrpcWebFrame
two_frames =
    record { is_trailer = false; payload = 1 ∷ 2 ∷ [] }
    ∷ record { is_trailer = true; payload = 3 ∷ [] }
    ∷ []

two_frames-Fits : All Fits two_frames
two_frames-Fits = (omega arith, (omega arith, tt))

decode_frames-encode_all_example : decode_frames (encode_all two_frames) ≡ two_frames
decode_frames-encode_all_example = decode_frames-encode_all two_frames two_frames-Fits
