-- ===== src/Base/Text.antt =====
-- Text as its UTF-8 bytes, with the operations of Rust's `str` that the program calls.
use Prim.Native.Nat.{ℕ, ◌≤◌}
use Prim.Native.Char.{code}
use Prim.Native.String.{String}
use mathlib.Core.Path.{◌≡◌, refl, ap, ◌∙◌}
use mathlib.Core.Logic.{◌≢◌, ◌↔◌}
use mathlib.Core.Bool.{Bool, true, false, ◌&&◌}
use mathlib.Core.Option.{Option, none, some}
use mathlib.Core.List.{List, [], ◌∷◌, ◌++◌, append-nil}
use native.Mathlib.Omega.{arith}
use object_storage_proxy.Base.Tests.{◌==◌, if◌then◌else◌, ◌>>=◌, unwrap_or}
use object_storage_proxy.Base.Lists.{length, length-append, drop, All}

abbrev pub Bytes : Type 0
Bytes = List ℕ

-- The code points of a literal; these are its bytes when the text is ASCII.
abbrev pub codes : String → Bytes
codes String.[] = []
codes (String.◌∷◌ c s) = code c ∷ codes s

abbrev pub is_empty {ℓ} : {A : Type ℓ} → List A → Bool
is_empty [] = true
is_empty (x ∷ xs) = false

-- s == t
abbrev pub beq : Bytes → Bytes → Bool
beq [] [] = true
beq [] (d ∷ t) = false
beq (c ∷ s) [] = false
beq (c ∷ s) (d ∷ t) = c == d && beq s t

pub beq→eq : (s t : Bytes) → beq s t ≡ true → s ≡ t
beq→eq [] [] h = refl
beq→eq [] (d ∷ t) h = cc
beq→eq (c ∷ s) [] h = cc
beq→eq (c ∷ s) (d ∷ t) h = ground (arith, beq→eq s t)

pub beq_refl : (s : Bytes) → beq s s ≡ true
beq_refl [] = refl
beq_refl (c ∷ s) = ground (arith, beq_refl s)

pub beq_iff : (s t : Bytes) → (beq s t ≡ true) ↔ (s ≡ t)
beq_iff s t = (beq→eq s t, λ e. rw e (beq_refl t))

-- The text behind a prefix.
abbrev pub strip_prefix : Bytes → Bytes → Option Bytes
strip_prefix [] s = some s
strip_prefix (c ∷ t) [] = none
strip_prefix (c ∷ t) (d ∷ s) = if c == d then strip_prefix t s else none

unfoldable pub starts_with : Bytes → Bytes → Bool
starts_with [] s = true
starts_with (c ∷ t) [] = false
starts_with (c ∷ t) (d ∷ s) = c == d && starts_with t s

-- The text before the first occurrence of `t`, and the text from there on.
unfoldable pub until : Bytes → Bytes → Option (Bytes × Bytes)
until t [] = if is_empty t then some ([], []) else none
until t (c ∷ s) =
    let later = (do (before, from) ← until t s; some (c ∷ before, from)) in
    if starts_with t (c ∷ s) then some ([], c ∷ s) else later

-- s.find(t)
abbrev pub find : Bytes → Bytes → Option ℕ
find t s = do (before, _) ← until t s; some (length before)

-- s.contains(t)
abbrev pub contains : Bytes → Bytes → Bool
contains t s = elim (until t s) [ none ↦ false | some _ ↦ true ]

-- s.split(sep), never empty
unfoldable pub split : ℕ → Bytes → List Bytes
split sep [] = [] ∷ []
split sep (c ∷ s) =
    if c == sep
    then [] ∷ split sep s
    else elim (split sep s) [ [] ↦ (c ∷ []) ∷ [] | p ∷ ps ↦ (c ∷ p) ∷ ps ]

-- parts.join(sep)
unfoldable pub join : Bytes → List Bytes → Bytes
join sep [] = []
join sep (p ∷ ps) = if is_empty ps then p else p ++ (sep ++ join sep ps)

-- parts.next()
abbrev pub first : List Bytes → Option Bytes
first [] = none
first (p ∷ ps) = some p

-- What stands behind the first `sep`, up to the next: `s.split(sep).nth(1)`.
unfoldable pub second_part : Bytes → Bytes → Option Bytes
second_part sep s = do
  (_, from) ← until sep s
  let behind = drop (length sep) from
  some (unwrap_or (do (part, _) ← until sep behind; some part) behind)

abbrev pub Lacks : ℕ → Bytes → Type 0
Lacks b = All (λ c. c ≢ b)

starts_with_nil : (s : Bytes) → starts_with [] s ≡ true
unfolding starts_with
starts_with_nil s = refl

pub starts_with-append : (t s : Bytes) → starts_with t (t ++ s) ≡ true
unfolding starts_with
starts_with-append [] s = refl
starts_with-append (c ∷ t) s = ground (arith, starts_with-append t s)

pub starts_with-eq_nil : (c : ℕ) (t : Bytes) → starts_with (c ∷ t) [] ≡ false
unfolding starts_with
starts_with-eq_nil c t = refl

-- The two parts of `until` are the whole text, and the second begins with the searched text.
pub until_sound :
    (t s before from : Bytes)
    → until t s ≡ some (before, from)
    → (s ≡ before ++ from) × (starts_with t from ≡ true)
unfolding until starts_with
until_sound [] [] before from h = ground arith
until_sound (d ∷ t) [] before from h = cc
until_sound t (c ∷ s) [] from h = ground arith
until_sound t (c ∷ s) (b ∷ before) from h = ground (arith, until_sound t s before from)

-- A text that begins with `t` is found at once.
pub until_here : (t s : Bytes) → starts_with t s ≡ true → until t s ≡ some ([], s)
unfolding until starts_with
until_here [] [] h = refl
until_here (d ∷ t) [] h = cc
until_here t (c ∷ s) h = ground arith

-- A run that lacks the first byte of `t` is passed over.
pub until_skip :
    (c : ℕ) (t p s before from : Bytes)
    → Lacks c p
    → until (c ∷ t) s ≡ some (before, from)
    → until (c ∷ t) (p ++ s) ≡ some (p ++ before, from)
unfolding until starts_with
until_skip c t [] s before from l h = h
until_skip c t (d ∷ p) s before from l h = ground (arith, until_skip c t p s before from l.1 h)

-- Behind a run that lacks its first byte, `t` is found.
pub until-append :
    (c : ℕ) (t p s : Bytes)
    → Lacks c p
    → until (c ∷ t) (p ++ ((c ∷ t) ++ s)) ≡ some (p, (c ∷ t) ++ s)
until-append c t p s l =
    until_skip c t p ((c ∷ t) ++ s) [] ((c ∷ t) ++ s) l
      (until_here (c ∷ t) ((c ∷ t) ++ s) (starts_with-append (c ∷ t) s))
    ∙ ap (λ (q : Bytes). some (q, (c ∷ t) ++ s)) (append-nil p)

pub split-ne-nil : (sep : ℕ) (s : Bytes) → split sep s ≢ []
unfolding split
split-ne-nil sep [] = cc
split-ne-nil sep (c ∷ s) = ground arith

pub split-Lacks : (sep : ℕ) (p : Bytes) → Lacks sep p → split sep p ≡ p ∷ []
unfolding split
split-Lacks sep [] l = refl
split-Lacks sep (c ∷ p) l = ground (arith, split-Lacks sep p l.1)

pub split-append :
    (sep : ℕ) (p s : Bytes) → Lacks sep p → split sep (p ++ (sep ∷ s)) ≡ p ∷ split sep s
unfolding split
split-append sep [] s l = ground arith
split-append sep (c ∷ p) s l = ground (arith, split-append sep p s l.1)

starts_with-append_right : (t s q : Bytes) → starts_with t s ≡ true → starts_with t (s ++ q) ≡ true
unfolding starts_with
starts_with-append_right [] s q h = refl
starts_with-append_right (c ∷ t) [] q h = cc
starts_with-append_right (c ∷ t) (d ∷ s) q h = ground (arith, starts_with-append_right t s q)

starts_with-append_long :
    (t s q : Bytes) → length t ≤ length s → starts_with t (s ++ q) ≡ starts_with t s
unfolding starts_with
starts_with-append_long [] s q h = refl
starts_with-append_long (c ∷ t) [] q h = elim h [ ]
starts_with-append_long (c ∷ t) (d ∷ s) q h =
    ap (λ b. c == d && b) (starts_with-append_long t s q (omega arith))

pub length-starts_with : (t s : Bytes) → starts_with t s ≡ true → length t ≤ length s
unfolding starts_with
length-starts_with [] s h = omega arith
length-starts_with (c ∷ t) [] h = cc
length-starts_with (c ∷ t) (d ∷ s) h = ground (arith, length-starts_with t s)

length-until : (t s before from : Bytes) → until t s ≡ some (before, from) → length t ≤ length s
length-until t s before from h =
    let (e, found) = until_sound t s before from h in
    omega (arith, length-starts_with t from found, ap length e, length-append {0} before from)

-- The first occurrence stays the first when text is added behind.
pub until_extend :
    (t s q before from : Bytes)
    → until t s ≡ some (before, from)
    → until t (s ++ q) ≡ some (before, from ++ q)
unfolding until
until_extend [] [] [] before from h = rw (append-nil from) h
until_extend [] [] (c ∷ q) before from h = ground (arith, starts_with_nil (c ∷ q))
until_extend (d ∷ t) [] q before from h = cc
until_extend t (c ∷ s) q [] from h = ground (arith, starts_with-append_right t (c ∷ s) q)
until_extend t (c ∷ s) q (b ∷ before) from h = ground (
  arith,
  until_extend t s q before from,
  starts_with-append_long t (c ∷ s) q,
  length-until t s before from,
)

-- A text is cut in one way at the first separator.
pub append-injective :
    (c : ℕ) (p q s t : Bytes)
    → Lacks c p
    → Lacks c q
    → p ++ (c ∷ s) ≡ q ++ (c ∷ t)
    → (p ≡ q) × (s ≡ t)
append-injective c [] [] s t lp lq e = (refl, ground arith)
append-injective c [] (d ∷ q) s t lp lq e = ground arith
append-injective c (d ∷ p) [] s t lp lq e = ground arith
append-injective c (d ∷ p) (b ∷ q) s t lp lq e =
    ground (arith, append-injective c p q s t lp.1 lq.1)
