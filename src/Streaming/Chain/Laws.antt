-- ===== src/Streaming/Chain/Laws.antt =====
-- `ChunkSigner` against `StreamingState`.
use object_storage_proxy.Base.{◌≡◌, ap, [], ◌∷◌, ◌++◌, append_assoc, Bytes, codes, length}
use object_storage_proxy.External.{Crypto, Calendar}
use object_storage_proxy.Streaming.Hex.{lower_hex}
use object_storage_proxy.Streaming.Frame.{crlf, build_chunk_frame}
use object_storage_proxy.Streaming.State.{StreamingState, empty_sha256, compute_chunk_signature}
use object_storage_proxy.Streaming.State
use object_storage_proxy.Streaming.Chain.{ChunkSigner, signature_of, sign_chunk, final_chunk}

-- The chunk signer at the place of a state: the same key, time, scope and last signature.
abbrev pub chained : Calendar → StreamingState → ChunkSigner
chained calendar s = record {
  signing_key = s.signing_key;
  scope = calendar.short_date s.ts ++ (codes "/" ++ (s.region ++ codes "/s3/aws4_request"));
  ts = calendar.long_datetime s.ts;
  prev_sig = s.prior_sig;
}

-- With the digest encoded a second time.
abbrev pub doubly_encoded : Crypto → Crypto
doubly_encoded crypto = record crypto { digest_hex = λ b. crypto.hex_encode (crypto.digest_hex b) }

frame_assoc : (a b c d : Bytes) → a ++ (b ++ (c ++ d)) ≡ (a ++ (b ++ c)) ++ d
frame_assoc a b c d = simp append_assoc

module _ (crypto : Crypto) (calendar : Calendar) where
  -- From the same place in a chain, `ChunkSigner::sign_chunk` gives the frame that
  -- `StreamingState::sign_chunk` would give if the digest of the payload were encoded as
  -- hexadecimal text twice, and moves to the same next place.
  pub sign_chunk-chained :
      (s : StreamingState) (chunk : Bytes)
      → sign_chunk crypto (chained calendar s) chunk ≡ (
        (State.sign_chunk (doubly_encoded crypto) calendar s chunk).0,
        chained calendar (State.sign_chunk (doubly_encoded crypto) calendar s chunk).1,
      )
  unfolding sign_chunk State.sign_chunk compute_chunk_signature build_chunk_frame
  sign_chunk-chained s chunk =
      let c' = doubly_encoded crypto in
      let sig = compute_chunk_signature c' calendar chunk s.signing_key s.prior_sig s.ts s.region in
      ap (λ frame. (frame, chained calendar (record s { prior_sig = sig })))
        (frame_assoc (lower_hex (length chunk)) (b';' ∷ codes "chunk-signature=") sig
          (crlf ++ (chunk ++ crlf)))

  -- The last frames agree.
  final_chunk-chained :
      (s : StreamingState)
      → crypto.digest_hex [] ≡ empty_sha256
      → final_chunk crypto (chained calendar s) ≡ State.final_chunk crypto calendar s
  unfolding final_chunk State.final_chunk compute_chunk_signature build_chunk_frame lower_hex
  final_chunk-chained s empty = rw empty (
      frame_assoc (codes "0") (b';' ∷ codes "chunk-signature=")
        (signature_of crypto (chained calendar s) empty_sha256) (crlf ++ crlf))
