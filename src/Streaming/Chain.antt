-- ===== src/Streaming/Chain.antt =====
-- `ChunkSigner` of credentials/signer.rs, a signer of chunks that the handlers do not use.
pub mod Laws
use object_storage_proxy.Base.{[], ◌∷◌, ◌++◌, Bytes, codes, length}
use object_storage_proxy.External.{Crypto}
use object_storage_proxy.Streaming.Hex.{lower_hex}
use object_storage_proxy.Streaming.Frame.{crlf}
use object_storage_proxy.Streaming.State.{empty_sha256, newline}

pub record ChunkSigner : Type 0 where
  pub signing_key : Bytes
  pub scope : Bytes
  pub ts : Bytes
  pub prev_sig : Bytes

abbrev pub new : Bytes → Bytes → Bytes → Bytes → ChunkSigner
new signing_key scope ts seed_signature = record {
  signing_key = signing_key;
  scope = scope;
  ts = ts;
  prev_sig = seed_signature;
}

-- The text that is signed for a chunk with this hash.
abbrev pub chunk_text : ChunkSigner → Bytes → Bytes
chunk_text c chunk_hash =
    codes "AWS4-HMAC-SHA256-PAYLOAD"
    ++ (newline
        ++ (c.ts
            ++ (newline
                ++ (c.scope
                    ++ (newline
                        ++ (c.prev_sig
                            ++ (newline ++ (empty_sha256 ++ (newline ++ chunk_hash)))))))))

module _ (crypto : Crypto) where
  -- `hex::encode(hmac::sign(&key, string_to_sign))`
  abbrev pub signature_of : ChunkSigner → Bytes → Bytes
  signature_of c chunk_hash =
      crypto.hex_encode (crypto.hmac_sign c.signing_key (chunk_text c chunk_hash))

  -- The hash is `hex::encode(sha256::digest(chunk))`, where `sha256::digest` is a text already.
  unfoldable pub sign_chunk : ChunkSigner → Bytes → Bytes × ChunkSigner
  sign_chunk c chunk =
      let sig = signature_of c (crypto.hex_encode (crypto.digest_hex chunk)) in
      (
        lower_hex (length chunk)
            ++ ((b';' ∷ codes "chunk-signature=") ++ (sig ++ (crlf ++ (chunk ++ crlf)))),
        record c { prev_sig = sig },
      )

  unfoldable pub final_chunk : ChunkSigner → Bytes
  final_chunk c =
      let sig = signature_of c empty_sha256 in
      codes "0" ++ ((b';' ∷ codes "chunk-signature=") ++ (sig ++ (crlf ++ crlf)))
