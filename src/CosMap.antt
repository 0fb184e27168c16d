-- ===== src/CosMap.antt =====
-- Bucket configurations: `CosMapItem` of parsers/cos_map.rs, and `BucketCredential` of
-- credentials/models.rs.
pub mod Ensured
use object_storage_proxy.Base.{
  ℕ, Bool, true, false, ◌&&◌, ◌||◌, Option, none, some, if◌then◌else◌, ◌>>=◌, is_some, or_else,
  unwrap_or, [], Bytes, codes,
}

pub record CosMapItem : Type 0 where
  pub host : Bytes
  pub port : ℕ
  pub region : Option Bytes
  pub api_key : Option Bytes
  pub access_key : Option Bytes
  pub secret_key : Option Bytes
  pub ttl : Option ℕ
  pub tls : Option Bool
  pub addressing_style : Option Bytes

pub data BucketCredential : Type 0 where
  hmac : Bytes → Bytes → BucketCredential
  api_key_of : Bytes → BucketCredential

-- `serde_json`: `from_str`, `Value::get` and `Value::as_str`.
pub record Json (J : Type 0) : Type 0 where
  pub from_str : Bytes → Option J
  pub get : J → Bytes → Option J
  pub as_str : J → Option Bytes

module _ {J : Type 0} (json : Json J) where
  -- `as_str().unwrap_or_default()`
  abbrev text_of : J → Bytes
  text_of v = unwrap_or (json.as_str v) []

  abbrev hmac_in : J → Option BucketCredential
  hmac_in v = do
    ak ← json.get v (codes "access_key")
    sk ← json.get v (codes "secret_key")
    some (hmac (text_of ak) (text_of sk))

  abbrev api_key_in : J → Option BucketCredential
  api_key_in v = do
    key ← or_else (json.get v (codes "api_key")) (json.get v (codes "apikey"))
    some (api_key_of (text_of key))

  unfoldable pub parse : Bytes → BucketCredential
  parse raw =
      unwrap_or (do v ← json.from_str raw; or_else (hmac_in v) (api_key_in v)) (api_key_of raw)

unfoldable pub has_hmac : CosMapItem → Bool
has_hmac item = is_some item.access_key && is_some item.secret_key

unfoldable pub has_api_key : CosMapItem → Bool
has_api_key item = is_some item.api_key

-- The item's fields that a credential fills.
abbrev pub fill : CosMapItem → BucketCredential → CosMapItem
fill item (hmac ak sk) = record item { access_key = some ak; secret_key = some sk }
fill item (api_key_of k) = record item { api_key = some k }

-- `Err` is `none`; the fetcher's own error too. The flag tells whether the fetcher was called.
module _ {J : Type 0} (json : Json J) where
  unfoldable pub ensure_credentials :
      CosMapItem → Bytes → Option (Bytes → Option Bytes) → Option CosMapItem × Bool
  ensure_credentials item bucket fetcher =
      if has_hmac item || has_api_key item then (some item, false) else elim fetcher [
        | none ↦ (none, false)
        | some fetch ↦
            ((do raw_creds ← fetch bucket; some (fill item (parse json raw_creds))), true)
      ]
