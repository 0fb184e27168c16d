-- ===== src/Path.antt =====
-- Request paths: `parse_path` of parsers/path.rs.
pub mod Laws
pub mod Query
use object_storage_proxy.Base.{
  ℕ, zero, suc, Bool, not, Option, none, some, [], ◌∷◌, ◌==◌, if◌then◌else◌, ◌>>=◌, Bytes, codes,
  is_empty, find, drop, within,
}
use object_storage_proxy.External.{Nom}

-- A parse that may also panic.
pub data Parsed (A : Type 0) : Type 0 where
  ok : A → Parsed A
  err : Parsed A
  panic : Parsed A

abbrev pub slash : ℕ
slash = b'/'

abbrev pub not_slash : ℕ → Bool
not_slash c = not (c == slash)

-- A slice of a `str`, which panics inside a character of more than one byte.
abbrev pub on_boundary : Bytes → Parsed Bytes
on_boundary [] = ok []
on_boundary (c ∷ s) = if within 128 191 c then panic else ok (c ∷ s)

-- `&input[input.find(rest).expect(…) - 1..]`: at position 0 the subtraction leaves usize
unfoldable pub recover_slash : Bytes → Bytes → Parsed Bytes
recover_slash rest input = elim (find rest input) [
  | none ↦ panic
  | some position ↦ elim position [ zero ↦ panic | suc before ↦ on_boundary (drop before input) ]
]

abbrev pub with_path : Bytes → Parsed Bytes → Parsed (Bytes × Bytes)
with_path bucket (ok path) = ok (bucket, path)
with_path bucket err = err
with_path bucket panic = panic

abbrev pub or_err : {A B : Type 0} → Option A → (A → Parsed B) → Parsed B
or_err none f = err
or_err (some a) f = f a

module _ (nom : Nom) where
  -- `alt((preceded(char('/'), rest), map(eof, |_| "")))`
  unfoldable pub behind_bucket : Bytes → Option Bytes
  behind_bucket s = elim (nom.char slash s) [
    | none ↦ if is_empty s then some [] else none
    | some (rest, _) ↦ some rest
  ]

  -- The bucket, and what follows the slash behind it.
  unfoldable pub path_parts : Bytes → Option (Bytes × Bytes)
  path_parts input = do
    (behind_slash, _) ← nom.char slash input
    (after, bucket) ← nom.take_while1 not_slash behind_slash
    rest ← behind_bucket after
    some (bucket, rest)

  unfoldable pub parse_path : Bytes → Parsed (Bytes × Bytes)
  parse_path input = or_err (path_parts input) (λ (bucket, rest).
      if is_empty rest then ok (bucket, codes "/") else with_path bucket (recover_slash rest input))
