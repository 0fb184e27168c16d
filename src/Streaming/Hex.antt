-- ===== src/Streaming/Hex.antt =====
-- Hexadecimal sizes: `{:x}` of a usize, and `usize::from_str_radix(s, 16)`.
use native.Mathlib.Nat.{pow-suc}
pub use object_storage_proxy.Base.{usize_mod}
use object_storage_proxy.Base.{
  ℕ, zero, suc, ◌+◌, ◌-◌, ◌*◌, ◌/◌, ◌%◌, ◌^◌, ◌≤◌, ◌<◌, ◌≡◌, ◌≢◌, ◌⊎◌, inl, inr, refl, ap, ◌∙◌,
  ◌&&◌, Option, none, some, [], ◌∷◌, arith, ltb, leb, ◌==◌, if◌then◌else◌, Bytes, Bool-cases,
  Option-cases, is_empty, All,
}

digit : ℕ → ℕ
digit d = if ltb d 10 then b'0' + d else b'a' + (d - 10)

-- char::to_digit(16)
digit_value : ℕ → Option ℕ
digit_value c =
    if leb b'0' c && leb c b'9'
    then some (c - b'0')
    else if leb b'a' c && leb c b'f'
    then some (c - b'a' + 10)
    else if leb b'A' c && leb c b'F'
    then some (c - b'A' + 10)
    else none

print_hex : ℕ → ℕ → Bytes → Bytes
print_hex zero n out = out
print_hex (suc rounds) n out =
    let more = print_hex rounds (n / 16) (digit (n % 16) ∷ out) in
    if n / 16 == 0 then digit n ∷ out else more

-- format!("{:x}", n); sixteen digits are enough for a usize
unfoldable pub lower_hex : ℕ → Bytes
unfolding digit print_hex
lower_hex n = print_hex 16 n []

scan_hex : ℕ → Bytes → Option ℕ
scan_hex n [] = some n
scan_hex n (c ∷ s) = elim (digit_value c) [
  | none ↦ none
  | some d ↦ if ltb (n * 16 + d) usize_mod then scan_hex (n * 16 + d) s else none
]

-- usize::from_str_radix(s, 16).ok(): a sign `+` may stand first
unfoldable pub from_str_radix_16 : Bytes → Option ℕ
unfolding digit_value scan_hex
from_str_radix_16 [] = none
from_str_radix_16 (c ∷ s) =
    if c == b'+' then (if is_empty s then none else scan_hex 0 s) else scan_hex 0 (c ∷ s)

abbrev pub IsHexDigit : ℕ → Type 0
IsHexDigit c = ((b'0' ≤ c) × (c ≤ b'9')) ⊎ ((b'a' ≤ c) × (c ≤ b'f'))

digit-IsHexDigit : (d : ℕ) → d < 16 → IsHexDigit (digit d)
unfolding digit
digit-IsHexDigit d h = ground arith

print_hex-IsHexDigit :
    (rounds n : ℕ) (out : Bytes) → All IsHexDigit out → All IsHexDigit (print_hex rounds n out)
unfolding print_hex
print_hex-IsHexDigit zero n out h = h
print_hex-IsHexDigit (suc r) n out h =
    let deeper = print_hex-IsHexDigit r (n / 16) (digit (n % 16) ∷ out) in
    ground (arith, deeper (digit-IsHexDigit (n % 16) (omega arith), h), digit-IsHexDigit n)

-- A printed size consists of lower-case hexadecimal digits.
pub lower_hex-IsHexDigit : (n : ℕ) → All IsHexDigit (lower_hex n)
unfolding lower_hex
lower_hex-IsHexDigit n = print_hex-IsHexDigit 16 n [] tt

scan_hex-digit :
    (n d : ℕ) (s : Bytes)
    → d < 16
    → n * 16 + d < usize_mod
    → scan_hex n (digit d ∷ s) ≡ scan_hex (n * 16 + d) s
unfolding scan_hex digit digit_value
scan_hex-digit n d s h fits = ground arith

sixteenth : (r n : ℕ) → n < 16 ^ suc r → n / 16 < 16 ^ r
sixteenth r n h = let e : 16 ^ suc r ≡ 16 ^ r * 16 = pow-suc 16 r in omega arith

scan_hex_last :
    (n : ℕ) (out : Bytes)
    → n < usize_mod
    → scan_hex (n / 16) (digit (n % 16) ∷ out) ≡ scan_hex n out
scan_hex_last n out h =
    let e : n / 16 * 16 + n % 16 ≡ n = omega arith in
    scan_hex-digit (n / 16) (n % 16) out (omega arith) (omega arith) ∙ ap (λ k. scan_hex k out) e

scan_hex-print_hex :
    (rounds n : ℕ) (out : Bytes)
    → n < 16 ^ rounds
    → n < usize_mod
    → scan_hex 0 (print_hex rounds n out) ≡ scan_hex n out
unfolding print_hex
scan_hex-print_hex zero n out small fits = let e : 0 ≡ n = omega arith in ap (λ k. scan_hex k out) e
scan_hex-print_hex (suc r) n out small fits = elim (Bool-cases (n / 16 == 0)) [
  | inl last ↦ rw last (ground (arith, scan_hex-digit 0 n out))
  | inr more ↦ rw more (
      scan_hex-print_hex r (n / 16) (digit (n % 16) ∷ out) (sixteenth r n small) (omega arith)
      ∙ scan_hex_last n out fits)
]

print_hex-ne-nil : (r n d : ℕ) (out : Bytes) → print_hex r n (d ∷ out) ≢ []
unfolding print_hex
print_hex-ne-nil zero n d out = cc
print_hex-ne-nil (suc r) n d out =
    ground (arith, print_hex-ne-nil r (n / 16) (digit (n % 16)) (d ∷ out))

print_hex-suc-ne-nil : (r n : ℕ) (out : Bytes) → print_hex (suc r) n out ≢ []
unfolding print_hex
print_hex-suc-ne-nil r n out = ground (arith, print_hex-ne-nil r (n / 16) (digit (n % 16)) out)

pub lower_hex-ne-nil : (n : ℕ) → lower_hex n ≢ []
unfolding lower_hex
lower_hex-ne-nil n = print_hex-suc-ne-nil 15 n []

scan_hex-lower_hex : (n : ℕ) → n < usize_mod → scan_hex 0 (lower_hex n) ≡ some n
unfolding lower_hex
scan_hex-lower_hex n h = scan_hex-print_hex 16 n [] h h ∙ scan_hex_nil n
  where
    scan_hex_nil : (m : ℕ) → scan_hex m [] ≡ some m
    scan_hex_nil m = unfold scan_hex in refl

from_str_radix_16_digits :
    (s : Bytes) → s ≢ [] → All IsHexDigit s → from_str_radix_16 s ≡ scan_hex 0 s
unfolding from_str_radix_16
from_str_radix_16_digits [] h d = absurd (h refl)
from_str_radix_16_digits (c ∷ s) h d = ground arith

-- A printed size is read back.
pub from_str_radix_16-lower_hex : (n : ℕ) → n < usize_mod → from_str_radix_16 (lower_hex n) ≡ some n
from_str_radix_16-lower_hex n h =
    from_str_radix_16_digits (lower_hex n) (lower_hex-ne-nil n) (lower_hex-IsHexDigit n)
    ∙ scan_hex-lower_hex n h

scan_hex-lt : (s : Bytes) (n r : ℕ) → n < usize_mod → scan_hex n s ≡ some r → r < usize_mod
unfolding scan_hex
scan_hex-lt [] n r l h = ground arith
scan_hex-lt (c ∷ s) n r l h = elim (Option-cases (digit_value c)) [
  | inl bad ↦ ground arith
  | inr (d, good) ↦ ground (arith, scan_hex-lt s (n * 16 + d) r)
]

-- A size that has been read is a usize.
pub from_str_radix_16-lt : (s : Bytes) (n : ℕ) → from_str_radix_16 s ≡ some n → n < usize_mod
unfolding from_str_radix_16
from_str_radix_16-lt [] n h = cc
from_str_radix_16-lt (c ∷ s) n h =
    ground (arith, scan_hex-lt s 0 n (omega arith), scan_hex-lt (c ∷ s) 0 n (omega arith))
