-- ===== src/Streaming/Upload.antt =====
-- A whole upload through `request_body_filter` of lib.rs, and what the upstream receives.
use object_storage_proxy.Base.{
  suc, ◌≡◌, refl, sym, ap, ◌∙◌, true, false, Option, some, List, [], ◌∷◌, ◌++◌, append_assoc,
  append-nil, arith, Bytes, length, unwrap_or,
}
use object_storage_proxy.External.{Crypto, Calendar}
use object_storage_proxy.Streaming.State.{StreamingState, final_chunk}
use object_storage_proxy.Streaming.Filter.{Outcome, done, panic, stuck, request_body_filter}
use object_storage_proxy.Streaming.RoundTrip.{Frame}
use object_storage_proxy.Streaming.Drain.{IsUpload, wire}
use object_storage_proxy.Streaming.Fragments.{resigned_from, drain_lem}

abbrev pub concat : List Bytes → Bytes
concat [] = []
concat (b ∷ bs) = b ++ concat bs

abbrev prepend : Bytes → Outcome Bytes → Outcome Bytes
prepend bytes (done out) = done (bytes ++ out)
prepend bytes panic = panic
prepend bytes stuck = stuck

module _ (crypto : Crypto) (calendar : Calendar) where
  -- The bytes sent for one call, and what is sent after it.
  abbrev then_send :
      Outcome (Option Bytes × Option StreamingState)
      → (Option StreamingState → Outcome Bytes)
      → Outcome Bytes
  then_send (done (body, state)) f = prepend (unwrap_or body []) (f state)
  then_send panic f = panic
  then_send stuck f = stuck

  -- The pieces arrive one after another, the last with `end_of_stream`.
  unfoldable pub upload : Option StreamingState → List Bytes → Bytes → Outcome Bytes
  upload state [] final =
      then_send (request_body_filter crypto calendar state (some final) true) (λ _. done [])
  upload state (b ∷ bs) final =
      then_send (request_body_filter crypto calendar state (some b) false)
        (λ state'. upload state' bs final)

  upload_last :
      (s : StreamingState) (final : Bytes) (fs : List Frame)
      → s.decode_buf ++ final ≡ wire fs
      → IsUpload fs
      → upload (some s) [] final ≡ done (resigned_from crypto calendar s fs)
  unfolding upload request_body_filter final_chunk
  upload_last s final fs w u =
      let buf = s.decode_buf ++ final in
      let d =
        drain_lem crypto calendar (suc (length buf)) (record s { decode_buf = buf }) [] [] fs
          (omega arith) (append-nil buf ∙ w) u in
      let whole = rw (d.ends refl) at d.whole in
      ground (arith, d.result, whole, append-nil (d.bytes ++ final_chunk crypto calendar d.state))

  -- However the client's upload is cut into pieces on its way, what goes upstream is each of its
  -- payloads in order, in a frame of its own that is signed over the signature before it, and the
  -- empty last frame; the call neither panics nor gets stuck. The pieces and what is in the buffer
  -- make up well-formed frames, of which only the last may be empty.
  pub upload-resigned :
      (s : StreamingState) (bs : List Bytes) (final : Bytes) (fs : List Frame)
      → s.decode_buf ++ (concat bs ++ final) ≡ wire fs
      → IsUpload fs
      → upload (some s) bs final ≡ done (resigned_from crypto calendar s fs)
  unfolding upload request_body_filter
  upload-resigned s [] final fs w u = upload_last s final fs w u
  upload-resigned s ([] ∷ bs) final fs w u = ground (arith, upload-resigned s bs final fs w u)
  upload-resigned s ((c ∷ b) ∷ bs) final fs w u =
      let buf = s.decode_buf ++ (c ∷ b) in
      let d =
        drain_lem crypto calendar (suc (length buf)) (record s { decode_buf = buf })
          (concat bs ++ final) [] fs (omega arith)
          (append_assoc s.decode_buf (c ∷ b) _
            ∙ (ap (λ l. s.decode_buf ++ (c ∷ l)) (sym (append_assoc b (concat bs) final)) ∙ w))
          u in
      ground (arith, d.result, d.whole, upload-resigned d.state bs final d.todo d.left d.upload)
