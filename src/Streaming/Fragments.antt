-- ===== src/Streaming/Fragments.antt =====
-- An upload passes through `request_body_filter` in pieces of any size.
use object_storage_proxy.Base.{
  ℕ, zero, suc, ◌<◌, ◌≡◌, ◌≢◌, inl, inr, refl, sym, ap, ◌∙◌, true, false, List, [], ◌∷◌, ◌++◌,
  append_assoc, append-nil, arith, ltb, ◌==◌, if◌then◌else◌, Bytes, length, length-append,
  Bool-cases, prefix_split, append-eq_nil, until,
}
use object_storage_proxy.External.{Crypto, Calendar, DateTime}
use object_storage_proxy.Streaming.Frame.{parse_aws_chunk_header, build_chunk_frame}
use object_storage_proxy.Streaming.State.{StreamingState, compute_chunk_signature, sign_chunk}
use object_storage_proxy.Streaming.Filter.{Outcome, done, wait, last, payload, round, drain}
use object_storage_proxy.Streaming.RoundTrip.{Frame, encode, IsFrame}
use object_storage_proxy.Streaming.Drain.{IsUpload, wire, round_wait, round_complete}

-- The payloads up to the empty last frame.
abbrev pub payloads : List Frame → List Bytes
payloads [] = []
payloads (f ∷ fs) = if length f.payload == 0 then [] else f.payload ∷ payloads fs

length-eq_zero : (s : Bytes) → (length s == 0) ≡ true → s ≡ []
length-eq_zero [] h = refl
length-eq_zero (c ∷ s) h = ground arith

round_nil : (s : StreamingState) → s.decode_buf ≡ [] → round s ≡ wait
unfolding round parse_aws_chunk_header until
round_nil s e = rw (e, round, parse_aws_chunk_header)

not_short :
    (s : StreamingState) (q : Bytes) (f : Frame) (fs : List Frame)
    → s.decode_buf ++ q ≡ wire (f ∷ fs)
    → length s.decode_buf < length (encode f)
    → q ≢ []
not_short s q f fs w l e = omega (
  arith,
  ap length w,
  ap length e,
  length-append {0} s.decode_buf q,
  length-append {0} (encode f) (wire fs),
)

shorter :
    (s : StreamingState) (f : Frame) (left : Bytes) (fuel : ℕ)
    → s.decode_buf ≡ encode f ++ left
    → length s.decode_buf < suc fuel
    → length left < fuel
shorter s f left fuel e l = omega (
  arith,
  ap length e,
  length-append {0} (encode f) left,
  length-append {0} f.line (13 ∷ 10 ∷ (f.payload ++ (13 ∷ 10 ∷ []))),
)

module _ (crypto : Crypto) (calendar : Calendar) where
  -- What should be sent upstream: each payload in a frame of its own, signed over the signature
  -- before it, and the empty last frame.
  abbrev pub resigned : Bytes → DateTime → Bytes → Bytes → List Bytes → Bytes
  resigned key ts region prior [] =
      build_chunk_frame [] (compute_chunk_signature crypto calendar [] key prior ts region)
  resigned key ts region prior (p ∷ ps) =
      let sig = compute_chunk_signature crypto calendar p key prior ts region in
      build_chunk_frame p sig ++ resigned key ts region sig ps

  abbrev pub resigned_from : StreamingState → List Frame → Bytes
  resigned_from s fs = resigned s.signing_key s.ts s.region s.prior_sig (payloads fs)

  -- The loop gets on with the upload: what it has written and what is left make up the whole, and
  -- with all the bytes there no frame is left.
  pub record Drained (s : StreamingState) (q out : Bytes) (fs : List Frame)
      (r : Outcome (Bytes × StreamingState)) : Type 0 where
    pub bytes : Bytes
    pub state : StreamingState
    pub todo : List Frame
    pub result : r ≡ done (out ++ bytes, state)
    pub left : state.decode_buf ++ q ≡ wire todo
    pub upload : IsUpload todo
    pub whole : resigned_from s fs ≡ bytes ++ resigned_from state todo
    pub ends : q ≡ [] → todo ≡ []

  Drained-wait :
      (fuel : ℕ) (s : StreamingState) (q out : Bytes) (fs : List Frame)
      → round s ≡ wait
      → s.decode_buf ++ q ≡ wire fs
      → IsUpload fs
      → (q ≡ [] → fs ≡ [])
      → Drained s q out fs (drain crypto calendar (suc fuel) s out)
  unfolding drain
  Drained-wait fuel s q out fs e w u ends = record {
    bytes = [];
    state = s;
    todo = fs;
    result = rw (e, drain, append-nil out);
    left = w;
    upload = u;
    whole = refl;
    ends = ends;
  }

  Drained-last :
      (fuel : ℕ) (s : StreamingState) (left q out : Bytes) (f : Frame) (fs : List Frame)
      → round s ≡ last (record s { decode_buf = left })
      → (length f.payload == 0) ≡ true
      → left ++ q ≡ wire fs
      → fs ≡ []
      → IsUpload fs
      → Drained s q out (f ∷ fs) (drain crypto calendar (suc fuel) s out)
  unfolding drain
  Drained-last fuel s left q out f fs e z w none_left u = record {
    bytes = [];
    state = record s { decode_buf = left };
    todo = fs;
    result = rw (e, drain, append-nil out);
    left = w;
    upload = u;
    whole = rw (z, none_left);
    ends = λ _. none_left;
  }

  abbrev signed : StreamingState → Bytes → Bytes → StreamingState
  signed s left p = record s {
    prior_sig = compute_chunk_signature crypto calendar p s.signing_key s.prior_sig s.ts s.region;
    decode_buf = left;
  }

  abbrev frame_for : StreamingState → Bytes → Bytes
  frame_for s p =
      build_chunk_frame p
        (compute_chunk_signature crypto calendar p s.signing_key s.prior_sig s.ts s.region)

  Drained-frame :
      (fuel : ℕ) (s : StreamingState) (left q out : Bytes) (f : Frame) (fs : List Frame)
      → round s ≡ payload (record s { decode_buf = left }) f.payload
      → (length f.payload == 0) ≡ false
      → Drained
          (signed s left f.payload)
          q
          (out ++ frame_for s f.payload)
          fs
          (drain crypto calendar fuel (signed s left f.payload) (out ++ frame_for s f.payload))
      → Drained s q out (f ∷ fs) (drain crypto calendar (suc fuel) s out)
  unfolding drain sign_chunk
  Drained-frame fuel s left q out f fs e z d = record {
    bytes = frame_for s f.payload ++ d.bytes;
    state = d.state;
    todo = d.todo;
    result = rw (e, drain) (d.result ∙ rw append_assoc);
    left = d.left;
    upload = d.upload;
    whole = rw z (rw d.whole (sym (append_assoc (frame_for s f.payload) d.bytes _)));
    ends = d.ends;
  }

  drain_complete :
      (fuel : ℕ) (s : StreamingState) (left q out : Bytes) (f : Frame) (fs : List Frame)
      → IsFrame f
      → (f.payload ≡ [] → fs ≡ [])
      → IsUpload fs
      → s.decode_buf ≡ encode f ++ left
      → left ++ q ≡ wire fs
      → ((p out' : Bytes)
          → Drained (signed s left p) q out' fs (drain crypto calendar fuel (signed s left p) out'))
      → Drained s q out (f ∷ fs) (drain crypto calendar (suc fuel) s out)
  drain_complete fuel s left q out f fs h ends u e w rest =
      elim (Bool-cases (length f.payload == 0)) [
        | inl z ↦
            Drained-last fuel s left q out f fs (round_complete s left f h e ∙ rw z) z w
              (ends (length-eq_zero f.payload z)) u
        | inr z ↦
            Drained-frame fuel s left q out f fs (round_complete s left f h e ∙ rw z) z
              (rest f.payload (out ++ frame_for s f.payload))
      ]

  -- With more fuel than bytes the loop gets on with the upload, whatever has arrived of it.
  pub drain_lem :
      (fuel : ℕ) (s : StreamingState) (q out : Bytes) (fs : List Frame)
      → length s.decode_buf < fuel
      → s.decode_buf ++ q ≡ wire fs
      → IsUpload fs
      → Drained s q out fs (drain crypto calendar fuel s out)
  drain_lem zero s q out fs l w u = elim l [ ]
  drain_lem (suc fuel) s q out [] l w u =
      Drained-wait fuel s q out [] (round_nil s (append-eq_nil s.decode_buf q w)) w u (λ _. refl)
  drain_lem (suc fuel) s q out (f ∷ fs) l w (h, ends, u) =
      elim (Bool-cases (ltb (length s.decode_buf) (length (encode f)))) [
        | inl short ↦
            Drained-wait fuel s q out (f ∷ fs) (round_wait s q (wire fs) f h w (ground arith)) w
              (h, ends, u) (λ none_left. absurd (not_short s q f fs w (ground arith) none_left))
        | inr whole ↦
            let (left, e, tail) =
              prefix_split (encode f) (wire fs) s.decode_buf q w (ground arith) in
            drain_complete fuel s left q out f fs h ends u e tail (λ p out'.
              drain_lem fuel (signed s left p) q out' fs (shorter s f left fuel e l) tail u)
      ]
