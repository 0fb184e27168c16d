-- ===== src/Secrets.antt =====
-- `SecretsCache` of credentials/secrets_proxy.rs: IAM bearer tokens by bucket.
pub mod Freshness
pub mod Bearer
use object_storage_proxy.Base.{
  ℕ, ◌+◌, ◌-◌, ◌%◌, Bool, true, false, Option, none, some, [], leb, if◌then◌else◌, usize_mod, Bytes,
  Assoc, lookup, insert, remove,
}

pub record SecretValue : Type 0 where
  pub value : Bytes
  pub expiration : ℕ

abbrev pub SecretsCache : Type 0
SecretsCache = Assoc SecretValue

pub record IamResponse : Type 0 where
  pub access_token : Bytes
  pub expires_in : ℕ
  pub expiration : ℕ

-- `now >= self.expiration - 300`, in u64 as the release build computes it
unfoldable pub is_expired : ℕ → SecretValue → Bool
is_expired now s = leb ((s.expiration + usize_mod - 300) % usize_mod) now

unfoldable pub store : Bytes → Bytes → ℕ → SecretsCache → SecretsCache
store key value expiration cache =
    insert key (record { value = value; expiration = expiration }) cache

-- The token, the cache afterwards, and whether the fetcher was called.
pub record Got : Type 0 where
  pub token : Option Bytes
  pub cache : SecretsCache
  pub fetched : Bool

-- `bearer_fetcher().await` and what follows it; an error is `none`.
unfoldable pub renew : Bytes → Option IamResponse → SecretsCache → Got
unfolding store
renew key none cache = record { token = none; cache = cache; fetched = true }
renew key (some r) cache = record {
  token = some r.access_token;
  cache = store key r.access_token r.expiration cache;
  fetched = true;
}

unfoldable pub get : Bytes → ℕ → Option IamResponse → SecretsCache → Got
unfolding is_expired renew
get key now response cache = elim (lookup key cache) [
  | some secret ↦
      if is_expired now secret
      then renew key response cache
      else record { token = some secret.value; cache = cache; fetched = false }
  | none ↦ renew key response cache
]

unfoldable pub invalidate : Bytes → SecretsCache → SecretsCache
invalidate key cache = remove key cache
