-- ===== src/Server/Start.antt =====
-- `ProxyServerConfig` and `run_server` of lib.rs, up to the listeners. The server of pingora is
-- taken to be made without an error.
use object_storage_proxy.Base.{
  ℕ, Bool, false, ◌&&◌, not, Option, none, some, [], ◌++◌, if◌then◌else◌, ◌==◌, ◌>>=◌, is_some,
  unwrap_or, Bytes, codes, to_text, Assoc,
}
use object_storage_proxy.Path.{Parsed, ok, err}
use object_storage_proxy.Path
use object_storage_proxy.CosMap.{CosMapItem}
use object_storage_proxy.Tracker
use object_storage_proxy.Proxy.Upstream.{Config, new_ctx}
use object_storage_proxy.Gate.World.{Settings, World}
use object_storage_proxy.Gate.Replies.{default_server_name}
use object_storage_proxy.Server.Objects.{Python, callable_accepts_request}
use object_storage_proxy.Server.Items.{parse_cos_map}
use object_storage_proxy.Server.Keystore.{parse_hmac_list}

pub record ProxyServerConfig (P : Type 0) : Type 0 where
  pub bucket_creds_fetcher : Option P
  pub cos_map : P
  pub http_port : Option ℕ
  pub https_port : Option ℕ
  pub validator : Option P
  pub threads : Option ℕ
  pub verify : Option Bool
  pub hmac_keystore : P
  pub skip_signature_validation : Option Bool
  pub hmac_fetcher : Option P
  pub max_presign_url_usage_attempts : Option ℕ
  pub server_name : Bytes
  pub auth_cache_capacity : Option ℕ
  pub metrics_port : Option ℕ

-- `AUTH_CACHE_DEFAULT_CAPACITY`
abbrev pub default_capacity : ℕ
default_capacity = 1024

-- `AuthCache::new`: a cache cannot have room for nothing.
unfoldable pub capacity_of : ℕ → ℕ
capacity_of capacity = if capacity == 0 then default_capacity else capacity

-- Where the server listens; the second address is that of TLS with HTTP/2.
pub record Listeners : Type 0 where
  pub tcp : Option Bytes
  pub tls : Option Bytes

-- What serves the requests. Without a number of threads there are as many as pingora starts.
pub record Service (C : Type 0) : Type 0 where
  pub config : Config
  pub settings : Settings
  pub world : World C
  pub threads : Option ℕ
  pub listeners : Listeners

-- The start ends without a port, in a panic, or with a server that runs.
pub data Started (C : Type 0) : Type 0 where
  no_ports : Started C
  panicked : Started C
  serving : Service C → Started C

module _ {P : Type 0} (python : Python P) where
  abbrev pub default : ProxyServerConfig P
  default = record {
    bucket_creds_fetcher = none;
    cos_map = python.none_object;
    http_port = none;
    https_port = none;
    validator = none;
    threads = some 1;
    verify = none;
    hmac_keystore = python.none_object;
    skip_signature_validation = some false;
    hmac_fetcher = none;
    max_presign_url_usage_attempts = some 3;
    server_name = default_server_name;
    auth_cache_capacity = none;
    metrics_port = none;
  }

  -- The constructor; Python fills in arguments that are left out.
  abbrev pub new :
      P
      → Option P
      → Option P
      → Option ℕ
      → Option ℕ
      → Option P
      → Option ℕ
      → Option Bool
      → Option Bool
      → Option P
      → Option ℕ
      → Bytes
      → Option ℕ
      → Option ℕ
      → ProxyServerConfig P
  new cos_map hmac_keystore bucket_creds_fetcher http_port https_port validator threads verify
        skip_signature_validation hmac_fetcher max_presign_url_usage_attempts server_name
        auth_cache_capacity metrics_port =
      record {
        cos_map = cos_map;
        hmac_keystore = unwrap_or hmac_keystore python.none_object;
        bucket_creds_fetcher = bucket_creds_fetcher;
        http_port = http_port;
        https_port = https_port;
        validator = validator;
        threads = threads;
        verify = verify;
        skip_signature_validation = skip_signature_validation;
        hmac_fetcher = hmac_fetcher;
        max_presign_url_usage_attempts = max_presign_url_usage_attempts;
        server_name = server_name;
        auth_cache_capacity = auth_cache_capacity;
        metrics_port = metrics_port;
      }

  abbrev pub repr : ProxyServerConfig P → (Option ℕ → Bytes) → Bytes
  repr c debug_text =
      codes "ProxyServerConfig(http_port="
      ++ (to_text (unwrap_or c.http_port 0)
          ++ (codes ", https_port="
              ++ (to_text (unwrap_or c.https_port 0)
                  ++ (codes ", threads=" ++ (debug_text c.threads ++ codes ")")))))

  -- Without a list the store is empty; and also if an entry lacks a key.
  unfoldable pub local_hmac_map : P → Parsed (Assoc Bytes)
  local_hmac_map hmac_keystore =
      if python.is_none hmac_keystore then ok [] else elim (parse_hmac_list python hmac_keystore) [
        | ok map ↦ ok map
        | err ↦ ok []
        | Path.panic ↦ Path.panic
      ]

  unfoldable pub settings_of : ProxyServerConfig P → Settings
  settings_of c = record {
    max_presign_url_usage_attempts = c.max_presign_url_usage_attempts;
    skip_signature_validation = c.skip_signature_validation;
    validator_takes_request = (do
      v ← c.validator
      some (unwrap_or (callable_accepts_request python v) false));
    validator = (do v ← c.validator; some (python.as_validator v));
    hmac_fetcher = (do v ← c.hmac_fetcher; some (python.as_hmac_fetcher v));
    bucket_creds_fetcher = (do v ← c.bucket_creds_fetcher; some (python.as_creds_fetcher v));
  }

  abbrev pub address : ℕ → Bytes
  address port = codes "0.0.0.0:" ++ to_text port

  -- `lru_new` makes an empty cache. `tls_ready` says that the certificate and the key are set and
  -- can be loaded.
  module _ {C : Type 0} (lru_new : ℕ → C) (tls_ready : Bool) where
    abbrev pub service : ProxyServerConfig P → Assoc CosMapItem → Assoc Bytes → Service C
    service c cos_mapping hmac_keystore = record {
      config = record {
        cos_endpoint = codes "s3.eu-de.cloud-object-storage.appdomain.cloud";
        verify = c.verify;
      };
      settings = settings_of c;
      world = record {
        ctx = new_ctx cos_mapping [];
        hmac_keystore = hmac_keystore;
        auth_cache = lru_new (capacity_of (unwrap_or c.auth_cache_capacity default_capacity));
        tracker = Tracker.new;
        keys = [];
      };
      threads = c.threads;
      listeners = record {
        tcp = (do port ← c.http_port; some (address port));
        tls = (do port ← c.https_port; some (address port));
      };
    }

    unfoldable pub run_server : ProxyServerConfig P → Started C
    run_server c =
        if not (is_some c.http_port) && not (is_some c.https_port)
        then no_ports
        else elim (local_hmac_map c.hmac_keystore) [
          | err ↦ panicked
          | Path.panic ↦ panicked
          | ok hmac_keystore ↦ elim (parse_cos_map python c.cos_map) [
            | none ↦ panicked
            | some cos_mapping ↦
                if is_some c.https_port && not tls_ready
                then panicked
                else serving (service c cos_mapping hmac_keystore)
          ]
        ]
