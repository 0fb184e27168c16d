-- ===== src/Examples/Started.antt =====
-- A server that starts, and the signer of chunks.
use object_storage_proxy.Base.{
  ℕ, ◌+◌, ◌%◌, ◌≡◌, refl, Bool, true, false, ◌||◌, Option, none, some, List, [], ◌∷◌, arith, ◌>>=◌,
  is_some, usize_mod, Bytes, codes, Assoc, lookup, insert, remove,
}
use object_storage_proxy.Path.{ok}
use object_storage_proxy.CosMap.{CosMapItem}
use object_storage_proxy.Authorization.{AuthEntry}
use object_storage_proxy.Server.Objects.{Python}
use object_storage_proxy.Server.Items.{optional, parse_item, parse_items, parse_cos_map}
use object_storage_proxy.Server.Keystore.{key_pair, insert_pairs, parse_hmac_list}
use object_storage_proxy.Server.Start.{
  ProxyServerConfig, serving, panicked, default, service, local_hmac_map, run_server,
}
use object_storage_proxy.Server.Laws.{
  last_secret, lookup-parse_hmac_list, run_server-cos_mapping, Use, turn_on, turn_off, request,
  use_all, counted, get_request_count-use_all,
}
use object_storage_proxy.Server.Counter.{fresh_counter, get_request_count}
use object_storage_proxy.Streaming.State.{StreamingState}
use object_storage_proxy.Streaming.State
use object_storage_proxy.Streaming.Chain.{sign_chunk}
use object_storage_proxy.Streaming.Chain.Laws.{chained, doubly_encoded, sign_chunk-chained}
use object_storage_proxy.Examples.Sample.{sample_crypto, sample_calendar}

-- Python objects of the kinds that a configuration has.
data Object : Type 0 where
  nothing : Object
  text : Bytes → Object
  number : ℕ → Object
  one_bucket : Object
  keys : List (Assoc Bytes) → Object

abbrev text_in : Object → Option Bytes
text_in (text t) = some t
text_in _ = none

abbrev number_in : Object → Option ℕ
number_in (number n) = some n
number_in _ = none

abbrev photos : Assoc Object
photos =
    (codes "host", text (codes "s3"))
    ∷ (codes "port", number 443)
    ∷ (codes "apikey", text (codes "secret"))
    ∷ []

abbrev maps_in : Object → Option (Assoc (Assoc Object))
maps_in one_bucket = some ((codes "photos", photos) ∷ [])
maps_in _ = none

abbrev keys_in : Object → Option (List (Assoc Bytes))
keys_in (keys l) = some l
keys_in _ = none

abbrev is_nothing : Object → Bool
is_nothing nothing = true
is_nothing _ = false

abbrev python : Python Object
python = record {
  none_object = nothing;
  is_none = is_nothing;
  extract_text = text_in;
  extract_u16 = number_in;
  extract_u64 = number_in;
  extract_bool = λ v. none;
  extract_maps = maps_in;
  extract_text_maps = keys_in;
  parameters = λ v. some [];
  as_validator = λ v. record {
    with_request = λ token bucket request. some (some true);
    plain = λ token bucket. some (some true);
  };
  as_hmac_fetcher = λ v access_key. none;
  as_creds_fetcher = λ v token bucket. none;
}

abbrev config : ProxyServerConfig Object
config = record (default python) { cos_map = one_bucket; http_port = some 6190 }

abbrev photos_item : CosMapItem
photos_item = record {
  host = codes "s3";
  port = 443;
  region = none;
  api_key = some (codes "secret");
  access_key = none;
  secret_key = none;
  ttl = none;
  tls = none;
  addressing_style = none;
}

abbrev empty_cache : ℕ → Assoc AuthEntry
empty_cache capacity = []

config_starts :
    run_server python empty_cache false config
    ≡ serving (service python empty_cache false config ((codes "photos", photos_item) ∷ []) [])
unfolding run_server local_hmac_map parse_cos_map parse_items parse_item optional lookup insert
    remove
config_starts = refl

run_server-cos_mapping_example :
    (raw : Assoc (Assoc Object)) × (maps_in config.cos_map ≡ some raw)
    × (lookup
          (codes "photos")
          (service python empty_cache false config
            ((codes "photos", photos_item) ∷ [])
            []).world.ctx.cos_mapping
        ≡ (lookup (codes "photos") raw >>= parse_item python))
    × ((is_some config.http_port || is_some config.https_port) ≡ true)
run_server-cos_mapping_example =
    run_server-cos_mapping python empty_cache false config
      (service python empty_cache false config ((codes "photos", photos_item) ∷ []) [])
      (codes "photos") config_starts

abbrev key_list : List (Assoc Bytes)
key_list =
    ((codes "access_key", codes "AK") ∷ (codes "secret_key", codes "old") ∷ [])
    ∷ ((codes "access_key", codes "AK") ∷ (codes "secret_key", codes "new") ∷ [])
    ∷ []

key_list_parsed : parse_hmac_list python (keys key_list) ≡ ok ((codes "AK", codes "new") ∷ [])
unfolding parse_hmac_list insert_pairs key_pair lookup insert remove
key_list_parsed = refl

lookup-parse_hmac_list_run :
    (list : List (Assoc Bytes)) × (keys_in (keys key_list) ≡ some list)
    × (lookup (codes "AK") ((codes "AK", codes "new") ∷ [])
        ≡ last_secret python (codes "AK") list none)
lookup-parse_hmac_list_run =
    lookup-parse_hmac_list python (keys key_list) ((codes "AK", codes "new") ∷ []) (codes "AK")
      key_list_parsed

-- A list that is no list of dictionaries stops the start.
config_panics :
    run_server python empty_cache false (record config { hmac_keystore = text (codes "AK") })
    ≡ panicked
unfolding run_server local_hmac_map parse_hmac_list
config_panics = refl

abbrev uses : List Use
uses = request ∷ turn_on ∷ request ∷ request ∷ turn_off ∷ request ∷ turn_on ∷ request ∷ []

get_request_count-use_all_run :
    get_request_count (use_all uses fresh_counter) ≡ (0 + counted uses false) % usize_mod
get_request_count-use_all_run = get_request_count-use_all uses fresh_counter (omega arith)

abbrev upload : StreamingState
upload =
    State.new sample_crypto sample_calendar (codes "key") (codes "eu") (codes "AK") (codes "SK") 7
      (codes "seed")

sign_chunk-chained_run : sign_chunk sample_crypto (chained sample_calendar upload) (codes "hi") ≡ (
  (State.sign_chunk (doubly_encoded sample_crypto) sample_calendar upload (codes "hi")).0,
  chained sample_calendar
      (State.sign_chunk (doubly_encoded sample_crypto) sample_calendar upload (codes "hi")).1,
)
sign_chunk-chained_run = sign_chunk-chained sample_crypto sample_calendar upload (codes "hi")
