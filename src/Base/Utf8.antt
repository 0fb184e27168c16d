-- ===== src/Base/Utf8.antt =====
-- `std::str::from_utf8` as a test, and `str::trim`, on bytes.
use mathlib.Core.List.{reverse}
use mathlib.Core.List.{reverse-cons, reverse-reverse}
use Prim.Native.Nat.{ℕ, zero, suc, ◌<◌}
use mathlib.Core.Path.{◌≡◌, refl}
use mathlib.Core.Bool.{Bool, true, false, ◌&&◌, ◌||◌}
use mathlib.Core.Option.{Option, none, some}
use mathlib.Core.List.{[], ◌∷◌}
use native.Mathlib.Omega.{arith}
use object_storage_proxy.Base.Tests.{ltb, leb, ◌==◌, if◌then◌else◌}
use object_storage_proxy.Base.Lists.{length, All, All-append}
use object_storage_proxy.Base.Text.{Bytes}

abbrev pub within : ℕ → ℕ → ℕ → Bool
within lo hi c = leb lo c && leb c hi

-- What a lead byte asks for: how many more bytes, and the range of the next one.
lead : ℕ → Option (ℕ × ℕ × ℕ)
lead c =
    if ltb c 0x80
    then some (0, 0x80, 0xbf)
    else if within 0xc2 0xdf c
    then some (1, 0x80, 0xbf)
    else if c == 0xe0
    then some (2, 0xa0, 0xbf)
    else if c == 0xed
    then some (2, 0x80, 0x9f)
    else if within 0xe1 0xef c
    then some (2, 0x80, 0xbf)
    else if c == 0xf0
    then some (3, 0x90, 0xbf)
    else if within 0xf1 0xf3 c
    then some (3, 0x80, 0xbf)
    else if c == 0xf4
    then some (3, 0x80, 0x8f)
    else none

utf8_from : ℕ → ℕ → ℕ → Bytes → Bool
utf8_from zero lo hi [] = true
utf8_from (suc n) lo hi [] = false
utf8_from zero lo hi (c ∷ s) = elim (lead c) [
  | none ↦ false
  | some (n, lo', hi') ↦ utf8_from n lo' hi' s
]
utf8_from (suc n) lo hi (c ∷ s) = within lo hi c && utf8_from n 0x80 0xbf s

unfoldable pub is_utf8 : Bytes → Bool
unfolding lead utf8_from
is_utf8 s = utf8_from zero 0x80 0xbf s

abbrev pub IsAscii : Bytes → Type 0
IsAscii = All (λ c. c < 128)

utf8_from_ascii : (lo hi : ℕ) (s : Bytes) → IsAscii s → utf8_from zero lo hi s ≡ true
unfolding utf8_from lead
utf8_from_ascii lo hi [] h = refl
utf8_from_ascii lo hi (c ∷ s) h = ground (arith, utf8_from_ascii 0x80 0xbf s h.1)

pub is_utf8_ascii : (s : Bytes) → IsAscii s → is_utf8 s ≡ true
unfolding is_utf8
is_utf8_ascii s h = utf8_from_ascii 0x80 0xbf s h

-- The characters with the property White_Space, by their one, two or three bytes.
white_1 : ℕ → Bool
white_1 a = within 9 13 a || a == 32

white_2 : ℕ → ℕ → Bool
white_2 a b = a == 0xc2 && (b == 0x85 || b == 0xa0)

white_3 : ℕ → ℕ → ℕ → Bool
white_3 a b c =
    (a == 0xe1 && (b == 0x9a && c == 0x80))
    || ((a == 0xe2
          && ((b == 0x80 && (within 0x80 0x8a c || (c == 0xa8 || (c == 0xa9 || c == 0xaf))))
              || (b == 0x81 && c == 0x9f)))
        || (a == 0xe3 && (b == 0x80 && c == 0x80)))

-- The text behind a first white character, and before a last one (of the text reversed).
behind_white : Bytes → Option Bytes
behind_white [] = none
behind_white (a ∷ []) = if white_1 a then some [] else none
behind_white (a ∷ b ∷ []) =
    if white_1 a then some (b ∷ []) else if white_2 a b then some [] else none
behind_white (a ∷ b ∷ c ∷ s) =
    if white_1 a
    then some (b ∷ c ∷ s)
    else if white_2 a b
    then some (c ∷ s)
    else if white_3 a b c
    then some s
    else none

before_white : Bytes → Option Bytes
before_white [] = none
before_white (a ∷ []) = if white_1 a then some [] else none
before_white (a ∷ b ∷ []) =
    if white_1 a then some (b ∷ []) else if white_2 b a then some [] else none
before_white (a ∷ b ∷ c ∷ s) =
    if white_1 a
    then some (b ∷ c ∷ s)
    else if white_2 b a
    then some (c ∷ s)
    else if white_3 c b a
    then some s
    else none

-- Rounds at most as many as bytes: each takes one away at least.
strip_white : (Bytes → Option Bytes) → ℕ → Bytes → Bytes
strip_white one zero s = s
strip_white one (suc fuel) s = elim (one s) [ none ↦ s | some r ↦ strip_white one fuel r ]

unfoldable pub trim : Bytes → Bytes
unfolding strip_white behind_white before_white white_1 white_2 white_3
trim s =
    let front = strip_white behind_white (length s) s in
    reverse (strip_white before_white (length front) (reverse front))

-- A byte of printing ASCII.
abbrev pub IsGraphic : ℕ → Type 0
IsGraphic c = (32 < c) × (c < 128)

behind_white_graphic : (s : Bytes) → All IsGraphic s → behind_white s ≡ none
unfolding behind_white white_1 white_2 white_3
behind_white_graphic [] h = refl
behind_white_graphic (a ∷ []) h = ground arith
behind_white_graphic (a ∷ b ∷ []) h = ground arith
behind_white_graphic (a ∷ b ∷ c ∷ s) ((ga, gb), h) = ground arith

before_white_graphic : (s : Bytes) → All IsGraphic s → before_white s ≡ none
unfolding before_white white_1 white_2 white_3
before_white_graphic [] h = refl
before_white_graphic (a ∷ []) h = ground arith
before_white_graphic (a ∷ b ∷ []) h = ground arith
before_white_graphic (a ∷ b ∷ c ∷ s) ((ga, gb), h) = ground arith

strip_white-none :
    (one : Bytes → Option Bytes) (n : ℕ) (s : Bytes) → one s ≡ none → strip_white one n s ≡ s
unfolding strip_white
strip_white-none one zero s h = refl
strip_white-none one (suc n) s h = ground arith

All-reverse : (s : Bytes) → All IsGraphic s → All IsGraphic (reverse s)
All-reverse [] h = tt
All-reverse (c ∷ s) h =
    rw reverse-cons (All-append IsGraphic (reverse s) (c ∷ []) (All-reverse s h.1) (h.0, tt))

-- A text of printing ASCII has nothing to trim.
pub trim_graphic : (s : Bytes) → All IsGraphic s → trim s ≡ s
unfolding trim
trim_graphic s h = rw (strip_white-none behind_white (length s) s (behind_white_graphic s h)) (
    rw
      (strip_white-none before_white (length s) (reverse s)
        (before_white_graphic (reverse s) (All-reverse s h)))
      (reverse-reverse s))
