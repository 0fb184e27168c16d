-- ===== src/Server/Keystore.antt =====
-- HMAC keys: `parse_hmac_list` of parsers/keystore.rs, and `HmacKeyStore` of
-- credentials/hmac_keystore.rs.
use object_storage_proxy.Base.{
  Option, none, some, List, [], ◌∷◌, ◌>>=◌, Bytes, codes, Assoc, lookup, insert,
}
use object_storage_proxy.Path.{Parsed, ok, err, panic}
use object_storage_proxy.Server.Objects.{Python}

pub record HmacKeyStore : Type 0 where
  pub access_key : Bytes
  pub secret_key : Bytes

abbrev pub new : Bytes → Bytes → HmacKeyStore
new access_key secret_key = record { access_key = access_key; secret_key = secret_key }

abbrev pub get_access_key : HmacKeyStore → Bytes
get_access_key s = s.access_key

abbrev pub get_secret_key : HmacKeyStore → Bytes
get_secret_key s = s.secret_key

unfoldable pub key_pair : Assoc Bytes → Option (Bytes × Bytes)
key_pair item = do
  access_key ← lookup (codes "access_key") item
  secret_key ← lookup (codes "secret_key") item
  some (access_key, secret_key)

-- The loop over the list, with the map so far.
unfoldable pub insert_pairs : List (Assoc Bytes) → Assoc Bytes → Option (Assoc Bytes)
insert_pairs [] map = some map
insert_pairs (item ∷ list) map = do
  (access_key, secret_key) ← key_pair item
  insert_pairs list (insert access_key secret_key map)

abbrev or_error : Option (Assoc Bytes) → Parsed (Assoc Bytes)
or_error none = err
or_error (some map) = ok map

-- `extract(py).expect("dict mismatch")`
unfoldable pub parse_hmac_list : {P : Type 0} → Python P → P → Parsed (Assoc Bytes)
parse_hmac_list python hmac_list = elim (python.extract_text_maps hmac_list) [
  | none ↦ panic
  | some list ↦ or_error (insert_pairs list [])
]
