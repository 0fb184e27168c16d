-- ===== src/Signing/Encode/Laws.antt =====
-- Decoding gives the text back, and the output is in the alphabet of URIs.
use object_storage_proxy.Base.{
  ℕ, ◌+◌, ◌-◌, ◌*◌, ◌/◌, ◌%◌, ◌<◌, ◌≡◌, ◌⊎◌, inl, inr, refl, ap, ◌∙◌, Bool, true, false, [], ◌∷◌,
  ◌++◌, arith, ltb, ◌==◌, if◌then◌else◌, Bytes, All, All-append,
}
use object_storage_proxy.Signing.Encode.{is_unreserved, upper_digit, uri_encode_byte, uri_encode}

-- The value of an upper-case hexadecimal digit.
abbrev pub digit_of : ℕ → ℕ
digit_of c = if ltb c b'A' then c - b'0' else c - b'A' + 10

-- Percent-decoding, as RFC 3986 describes it, of texts whose escapes are whole.
pub decode : Bytes → Bytes
decode [] = []
decode (c ∷ []) = c ∷ []
decode (c ∷ d ∷ []) = c ∷ d ∷ []
decode (c ∷ d ∷ e ∷ s) =
    let escaped = (digit_of d * 16 + digit_of e) ∷ decode s in
    let plain = c ∷ decode (d ∷ e ∷ s) in if c == b'%' then escaped else plain

decode_plain : (c : ℕ) (s : Bytes) → (c == b'%') ≡ false → decode (c ∷ s) ≡ c ∷ decode s
unfolding decode
decode_plain c [] h = refl
decode_plain c (d ∷ []) h = refl
decode_plain c (d ∷ e ∷ s) h = rw (h, decode)

decode_escape :
    (d e : ℕ) (s : Bytes) → decode (b'%' ∷ d ∷ e ∷ s) ≡ (digit_of d * 16 + digit_of e) ∷ decode s
unfolding decode
decode_escape d e s = refl

digit_of-upper_digit : (d : ℕ) → d < 16 → digit_of (upper_digit d) ≡ d
unfolding upper_digit
digit_of-upper_digit d h = ground arith

escape_of : ℕ → Bytes
escape_of c = b'%' ∷ upper_digit (c / 16) ∷ upper_digit (c % 16) ∷ []

-- A byte is kept, or written as its escape.
uri_encode_byte-cases :
    (encode_slash : Bool) (c : ℕ)
    → c < 256
    → ((uri_encode_byte encode_slash c ≡ c ∷ []) × ((c == b'%') ≡ false))
      ⊎ (uri_encode_byte encode_slash c ≡ escape_of c)
unfolding uri_encode_byte escape_of
uri_encode_byte-cases slash c h = ground arith

decode_byte :
    (encode_slash : Bool) (c : ℕ) (s : Bytes)
    → c < 256
    → decode (uri_encode_byte encode_slash c ++ s) ≡ c ∷ decode s
unfolding escape_of
decode_byte slash c s h = elim (uri_encode_byte-cases slash c h) [
  | inl (kept, plain) ↦ rw kept (decode_plain c s plain)
  | inr escaped ↦ rw escaped (
      decode_escape _ _ s
      ∙ ground (
        arith,
        digit_of-upper_digit (c / 16) (omega arith),
        digit_of-upper_digit (c % 16) (omega arith),
      ))
]

-- Decoding undoes the encoding of any text, whether slashes are encoded or not.
pub decode-uri_encode :
    (s : Bytes) (encode_slash : Bool)
    → All (λ c. c < 256) s
    → decode (uri_encode s encode_slash) ≡ s
unfolding uri_encode
decode-uri_encode [] slash h = unfold decode in refl
decode-uri_encode (c ∷ s) slash h =
    decode_byte slash c (uri_encode s slash) h.0 ∙ ap (λ l. c ∷ l) (decode-uri_encode s slash h.1)

-- What the encoding with slashes encoded may write.
abbrev pub IsUriByte : ℕ → Type 0
IsUriByte c = (is_unreserved c ≡ true) ⊎ (c ≡ b'%')

upper_digit-IsUriByte : (d : ℕ) → d < 16 → IsUriByte (upper_digit d)
unfolding is_unreserved upper_digit
upper_digit-IsUriByte d h = ground arith

encoded_slash-cases :
    (c : ℕ)
    → c < 256
    → ((uri_encode_byte true c ≡ c ∷ []) × (is_unreserved c ≡ true))
      ⊎ (uri_encode_byte true c ≡ escape_of c)
unfolding uri_encode_byte escape_of
encoded_slash-cases c h = ground arith

byte-IsUriByte : (c : ℕ) → c < 256 → All IsUriByte (uri_encode_byte true c)
unfolding escape_of
byte-IsUriByte c h = elim (encoded_slash-cases c h) [
  | inl (kept, plain) ↦ rw kept (inl plain, tt)
  | inr escaped ↦ rw escaped (
    inr refl,
    (
      upper_digit-IsUriByte (c / 16) (omega arith),
      (upper_digit-IsUriByte (c % 16) (omega arith), tt),
    ),
  )
]

-- With slashes encoded, the output has nothing but unreserved characters and `%`: no byte of the
-- input can pass for a separator of the canonical request.
pub uri_encode-IsUriByte : (s : Bytes) → All (λ c. c < 256) s → All IsUriByte (uri_encode s true)
unfolding uri_encode
uri_encode-IsUriByte [] h = tt
uri_encode-IsUriByte (c ∷ s) h =
    All-append IsUriByte (uri_encode_byte true c) (uri_encode s true) (byte-IsUriByte c h.0)
      (uri_encode-IsUriByte s h.1)
