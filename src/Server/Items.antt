-- ===== src/Server/Items.antt =====
-- `parse_cos_map` of parsers/cos_map.rs.
use object_storage_proxy.Base.{
  Option, none, some, [], ◌∷◌, ◌>>=◌, or_else, Bytes, codes, Assoc, lookup, insert,
}
use object_storage_proxy.CosMap.{CosMapItem}
use object_storage_proxy.Server.Objects.{Python}

-- `.map(|v| v.extract(py)).transpose()?`: a value that is there has to have the type.
unfoldable pub optional : {P A : Type 0} → (P → Option A) → Option P → Option (Option A)
optional extract none = some none
optional extract (some v) = do a ← extract v; some (some a)

module _ {P : Type 0} (python : Python P) where
  -- One value under either of two names.
  abbrev pub either_name : Bytes → Bytes → Assoc P → Option P
  either_name name other inner_map = or_else (lookup name inner_map) (lookup other inner_map)

  unfoldable pub parse_item : Assoc P → Option CosMapItem
  parse_item inner_map = do
    host_obj ← lookup (codes "host") inner_map
    host ← python.extract_text host_obj
    port_obj ← lookup (codes "port") inner_map
    port ← python.extract_u16 port_obj
    region ← optional python.extract_text (lookup (codes "region") inner_map)
    api_key ←
        optional python.extract_text (either_name (codes "api_key") (codes "apikey") inner_map)
    ttl ← optional python.extract_u64 (either_name (codes "ttl") (codes "time-to-live") inner_map)
    tls ←
        optional python.extract_bool (either_name (codes "tls") (codes "is_tls_enabled") inner_map)
    access_key ←
        optional python.extract_text
          (either_name (codes "access_key") (codes "accessKey") inner_map)
    secret_key ←
        optional python.extract_text
          (either_name (codes "secret_key") (codes "secretKey") inner_map)
    addressing_style ←
        optional python.extract_text
          (either_name (codes "addressing_style") (codes "addressingStyle") inner_map)
    some (record {
      host = host;
      port = port;
      region = region;
      api_key = api_key;
      access_key = access_key;
      secret_key = secret_key;
      ttl = ttl;
      tls = tls;
      addressing_style = addressing_style;
    })

  -- The loop over the buckets, whose order is that of a hash map.
  unfoldable pub parse_items : Assoc (Assoc P) → Option (Assoc CosMapItem)
  parse_items [] = some []
  parse_items ((bucket, inner_map) ∷ raw_map) = do
    item ← parse_item inner_map
    map ← parse_items raw_map
    some (insert bucket item map)

  unfoldable pub parse_cos_map : P → Option (Assoc CosMapItem)
  parse_cos_map cos_dict = do raw_map ← python.extract_maps cos_dict; parse_items raw_map
