-- ===== src/Examples/Uploads.antt =====
-- An upload of one chunk, cut in the middle of its header.
use object_storage_proxy.Base.{
  ◌+◌, ◌-◌, ◌^◌, ◌<◌, ◌≡◌, ◌≢◌, refl, ap, ◌∙◌, some, List, [], ◌∷◌, ◌++◌, append-nil, arith, codes,
  length, take, drop, take-append-drop, until, starts_with, split, is_utf8, trim, usize_mod,
}
use object_storage_proxy.Streaming.Hex.{lower_hex, from_str_radix_16}
use object_storage_proxy.Streaming.Frame.{
  header_size, parse_aws_chunk_header, chunk_line, build_chunk_frame,
}
use object_storage_proxy.Streaming.State.{StreamingState}
use object_storage_proxy.Streaming.Filter.{done, fault, round, drain, stuck}
use object_storage_proxy.Streaming.RoundTrip.{Frame, frame_of, frame_of-IsFrame, parse-build}
use object_storage_proxy.Streaming.Drain.{IsUpload, wire}
use object_storage_proxy.Streaming.Fragments.{resigned_from}
use object_storage_proxy.Streaming.Upload.{upload, upload-resigned}
use object_storage_proxy.Streaming.Total.{drain-ne-stuck, round_overflow}
use object_storage_proxy.Examples.Sample.{sample_crypto, sample_calendar}

abbrev start : StreamingState
start = record {
  region = codes "eu-west-3";
  access_key = codes "AK";
  secret_key = codes "SK";
  ts = 0;
  prior_sig = codes "5eed";
  signing_key = codes "key";
  decode_buf = [];
}

abbrev frames : List Frame
frames = frame_of (codes "hello") (codes "ab") ∷ frame_of [] (codes "cd") ∷ []

frames-IsUpload : IsUpload frames
unfolding lower_hex
frames-IsUpload = (
  frame_of-IsFrame (codes "hello") (codes "ab") (omega arith) (omega arith),
  (λ e. cc),
  (frame_of-IsFrame [] (codes "cd") (omega arith) (omega arith), (λ e. refl), tt),
)

upload-resigned_example :
    upload sample_crypto sample_calendar
      (some start)
      (take 11 (wire frames) ∷ [])
      (drop 11 (wire frames))
    ≡ done (resigned_from sample_crypto sample_calendar start frames)
upload-resigned_example =
    upload-resigned sample_crypto sample_calendar start (take 11 (wire frames) ∷ [])
      (drop 11 (wire frames)) frames
      (ap (λ l. l ++ drop 11 (wire frames)) (append-nil (take 11 (wire frames)))
        ∙ take-append-drop 11 (wire frames))
      frames-IsUpload

parse-build_example :
    parse_aws_chunk_header (build_chunk_frame (codes "hello") (codes "ab") ++ codes "0;")
    ≡ some (length (chunk_line 5 (codes "ab")) + 2, 5)
parse-build_example = parse-build (codes "hello") (codes "ab") (codes "0;") (omega arith) frame_fits
  where
    frame_fits : length (build_chunk_frame (codes "hello") (codes "ab")) < usize_mod
    frame_fits = unfold build_chunk_frame lower_hex in omega arith

drain-ne-stuck_example :
    drain sample_crypto sample_calendar 30 (record start { decode_buf = codes "zz;\r\n" }) []
    ≢ stuck
drain-ne-stuck_example =
    drain-ne-stuck sample_crypto sample_calendar 30 (record start { decode_buf = codes "zz;\r\n" })
      [] (omega arith) (omega arith)

-- A chunk that claims 2^64 - 1 bytes.
abbrev huge : StreamingState
huge = record start { decode_buf = codes "ffffffffffffffff;a\r\nb" }

huge_header : parse_aws_chunk_header huge.decode_buf ≡ some (20, 2 ^ 64 - 1)
unfolding parse_aws_chunk_header header_size until starts_with split is_utf8 trim from_str_radix_16
huge_header = refl

round_overflow_example : round huge ≡ fault
round_overflow_example =
    round_overflow huge 20 (2 ^ 64 - 1) huge_header (omega arith) (omega arith) (omega arith)

plus_sign : from_str_radix_16 (codes "+1F") ≡ some 31
unfolding from_str_radix_16
plus_sign = refl
