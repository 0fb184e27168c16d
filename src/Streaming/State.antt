-- ===== src/Streaming/State.antt =====
-- The runtime state of an upload: `StreamingState` and `compute_chunk_signature` of
-- credentials/signer.rs.
use object_storage_proxy.Base.{[], ◌∷◌, ◌++◌, Bytes, codes}
use object_storage_proxy.External.{Crypto, Calendar, DateTime}
use object_storage_proxy.Streaming.Frame.{build_chunk_frame}

pub record StreamingState : Type 0 where
  pub region : Bytes
  pub access_key : Bytes
  pub secret_key : Bytes
  pub ts : DateTime
  pub prior_sig : Bytes
  pub signing_key : Bytes
  pub decode_buf : Bytes

-- SHA256("")
abbrev pub empty_sha256 : Bytes
empty_sha256 = codes "e3b0c44298fc1c149afbf4c8996fb92427ae41e4649b934ca495991b7852b855"

abbrev pub newline : Bytes
newline = 10 ∷ []

module _ (crypto : Crypto) (calendar : Calendar) where
  -- The errors of `io::Result` never arise.
  unfoldable pub compute_chunk_signature : Bytes → Bytes → Bytes → DateTime → Bytes → Bytes
  compute_chunk_signature payload signing_key prior_sig ts region =
      let time = calendar.long_datetime ts in
      let scope = calendar.short_date ts ++ (codes "/" ++ (region ++ codes "/s3/aws4_request")) in
      let string_to_sign =
        codes "AWS4-HMAC-SHA256-PAYLOAD"
        ++ (newline
            ++ (time
                ++ (newline
                    ++ (scope
                        ++ (newline
                            ++ (prior_sig
                                ++ (newline
                                    ++ (empty_sha256
                                        ++ (newline ++ crypto.digest_hex payload))))))))) in
      crypto.hex_encode (crypto.hmac_sign signing_key string_to_sign)

  -- The signing key comes from `signing_key(&ts, &secret_key, &region, "s3")`.
  unfoldable pub new : Bytes → Bytes → Bytes → Bytes → DateTime → Bytes → StreamingState
  new derived region access_key secret_key ts seed_signature = record {
    region = region;
    access_key = access_key;
    secret_key = secret_key;
    ts = ts;
    prior_sig = seed_signature;
    signing_key = derived;
    decode_buf = [];
  }

  -- The frame, and the state whose chain has moved on to this signature.
  unfoldable pub sign_chunk : StreamingState → Bytes → Bytes × StreamingState
  sign_chunk s payload =
      let sig = compute_chunk_signature payload s.signing_key s.prior_sig s.ts s.region in
      (build_chunk_frame payload sig, record s { prior_sig = sig })

  -- The terminal frame leaves the chain where it is.
  unfoldable pub final_chunk : StreamingState → Bytes
  final_chunk s =
      build_chunk_frame [] (compute_chunk_signature [] s.signing_key s.prior_sig s.ts s.region)
