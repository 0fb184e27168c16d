-- ===== src/External.antt =====
-- What the program takes from other packages, as parameters of the model: the digests of `ring`,
-- `sha256` and `hex`, and the instants of `chrono`.
use object_storage_proxy.Base.{
  ℕ, zero, suc, is_some, length, ◌≡◌, refl, Bool, Option, none, some, List, [], ◌∷◌, ◌==◌,
  if◌then◌else◌, ◌>>=◌, Bytes, strip_prefix, until,
}

-- The longest run of bytes that pass a test, and what follows it.
unfoldable pub span : (ℕ → Bool) → Bytes → Bytes × Bytes
span p [] = ([], [])
span p (c ∷ s) = let (run, rest) = span p s in if p c then (c ∷ run, rest) else ([], c ∷ s)

abbrev pub non_empty : Bytes × Bytes → Option (Bytes × Bytes)
non_empty ([], rest) = none
non_empty (c ∷ run, rest) = some (rest, c ∷ run)

abbrev pub first_is : ℕ → Bytes → Option (Bytes × ℕ)
first_is c [] = none
first_is c (d ∷ s) = if d == c then some (s, d) else none

abbrev pub Parser : Type 0 → Type 0
Parser A = Bytes → Option (Bytes × A)

-- Items with separators between them, behind an item. A list ends before a separator that no item
-- follows. A round that takes nothing is an error.
unfoldable pub separated_from : {A : Type 0} → ℕ → Parser ℕ → Parser A → Parser (List A)
separated_from zero sep item s = some (s, [])
separated_from (suc n) sep item s = elim (do (s₁, _) ← sep s; item s₁) [
  | none ↦ some (s, [])
  | some (s₂, a) ↦
      if length s₂ == length s
      then none
      else (do (rest, items) ← separated_from n sep item s₂; some (rest, a ∷ items))
]

-- The first item, and the others.
abbrev pub separated : {A : Type 0} → Parser ℕ → Parser A → Parser (List A)
separated sep item s = do
  (s₁, a) ← item s
  (rest, items) ← separated_from (length s₁) sep item s₁
  some (rest, a ∷ items)

abbrev pub separated_or_none : {A : Type 0} → Parser ℕ → Parser A → Parser (List A)
separated_or_none sep item s = if is_some (item s) then separated sep item s else some (s, [])

-- The parsers of `nom` that the program combines. A parser gives the input that remains and its
-- output, or an error, whose content is left out. The laws are the documented behaviour.
pub record Nom : Type 0 where
  pub char : ℕ → Bytes → Option (Bytes × ℕ)
  pub tag : Bytes → Bytes → Option (Bytes × Bytes)
  pub take_until : Bytes → Bytes → Option (Bytes × Bytes)
  pub take_while1 : (ℕ → Bool) → Bytes → Option (Bytes × Bytes)
  pub separated_list0 : Parser ℕ → Parser (Bytes × Bytes) → Parser (List (Bytes × Bytes))
  pub separated_list1 : Parser ℕ → Parser (Bytes × Bytes) → Parser (List (Bytes × Bytes))
  pub char_lem : (c : ℕ) (s : Bytes) → char c s ≡ first_is c s
  pub tag_lem : (t s : Bytes) → tag t s ≡ (do r ← strip_prefix t s; some (r, t))
  pub take_until_lem :
      (t s : Bytes) → take_until t s ≡ (do (before, from) ← until t s; some (from, before))
  pub take_while1_lem : (p : ℕ → Bool) (s : Bytes) → take_while1 p s ≡ non_empty (span p s)
  pub separated_list0_lem :
      (sep : Parser ℕ) (item : Parser (Bytes × Bytes)) (s : Bytes)
      → separated_list0 sep item s ≡ separated_or_none sep item s
  pub separated_list1_lem :
      (sep : Parser ℕ) (item : Parser (Bytes × Bytes)) (s : Bytes)
      → separated_list1 sep item s ≡ separated sep item s

-- Parsers that do as the documentation says.
abbrev pub documented_nom : Nom
documented_nom = record {
  char = first_is;
  tag = λ t s. (do r ← strip_prefix t s; some (r, t));
  take_until = λ t s. (do (before, from) ← until t s; some (from, before));
  take_while1 = λ p s. non_empty (span p s);
  separated_list0 = separated_or_none;
  separated_list1 = separated;
  char_lem = λ c s. refl;
  tag_lem = λ t s. refl;
  take_until_lem = λ t s. refl;
  take_while1_lem = λ p s. refl;
  separated_list0_lem = λ sep item s. refl;
  separated_list1_lem = λ sep item s. refl;
}

-- `hmac::sign`, `sha256::digest` (hexadecimal), `ring::digest::digest` (raw) and `hex::encode`.
pub record Crypto : Type 0 where
  pub hmac_sign : Bytes → Bytes → Bytes
  pub digest_hex : Bytes → Bytes
  pub sha256 : Bytes → Bytes
  pub hex_encode : Bytes → Bytes

-- An instant is a number that orders as time does.
abbrev pub DateTime : Type 0
DateTime = ℕ

-- `format("%Y%m%d")` and `format("%Y%m%dT%H%M%SZ")`
pub record Calendar : Type 0 where
  pub short_date : DateTime → Bytes
  pub long_datetime : DateTime → Bytes

-- A parsed `url::Url`: its path, and its query pairs, percent-decoded.
pub record Url : Type 0 where
  pub path : Bytes
  pub query_pairs : List (Bytes × Bytes)

-- `HeaderValue::to_str` of `http`, and `Url::parse`.
pub record Web : Type 0 where
  pub to_str : Bytes → Option Bytes
  pub parse_url : Bytes → Option Url
