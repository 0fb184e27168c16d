-- ===== src/Path/Query.antt =====
-- Queries of a URI: `parse_query` of parsers/path.rs.
pub mod Laws
use object_storage_proxy.Base.{
  ℕ, Bool, true, false, ◌&&◌, ◌||◌, Option, none, some, List, [], ◌∷◌, if◌then◌else◌, ltb, ◌>>=◌,
  Bytes, codes, find, contains, until, Assoc, insert,
}
use object_storage_proxy.External.{Nom}

-- `input.find('&').is_none_or(|a| input.find('=').is_some_and(|e| e < a))`
abbrev pub equals_first : Bytes → Bool
equals_first input = elim (find (codes "&") input) [
  | none ↦ true
  | some a ↦ elim (find (codes "=") input) [ none ↦ false | some e ↦ ltb e a ]
]

-- The text up to `end`, or all of it.
unfoldable pub take_until_either : Bytes → Bytes → Option (Bytes × Bytes)
take_until_either end input = elim (until end input) [
  | none ↦ some ([], input)
  | some (before, from) ↦ some (from, before)
]

-- Pairs are put into a map one after another.
abbrev pub from_pairs : List (Bytes × Bytes) → Assoc Bytes → Assoc Bytes
from_pairs [] m = m
from_pairs ((k, v) ∷ pairs) m = from_pairs pairs (insert k v m)

-- `decode_segment` is `urlencoding::decode`, which fails where the text behind the escapes is not
-- UTF-8.
module _ (nom : Nom) (decode_segment : Bytes → Option Bytes) where
  -- `key=value`
  unfoldable pub key_with_value : Bytes → Option (Bytes × (Bytes × Bytes))
  key_with_value input = do
    (at_equals, raw_key) ← nom.take_until (codes "=") input
    key ← decode_segment raw_key
    (behind, _) ← nom.tag (codes "=") at_equals
    (rest, raw_value) ← take_until_either (codes "&") behind
    value ← decode_segment raw_value
    some (rest, (key, value))

  unfoldable pub bare_key : Bytes → Option (Bytes × (Bytes × Bytes))
  bare_key input = do
    (rest, raw_key) ← take_until_either (codes "&") input
    key ← decode_segment raw_key
    some (rest, (key, []))

  unfoldable pub key_value_pair : Bytes → Option (Bytes × (Bytes × Bytes))
  key_value_pair input =
      if contains (codes "=") input && equals_first input
      then key_with_value input
      else bare_key input

  unfoldable pub parse_query : Bytes → Option (Bytes × Assoc Bytes)
  parse_query input = do
    (rest, pairs) ← nom.separated_list0 (nom.char b'&') key_value_pair input
    some (rest, from_pairs pairs [])
