-- ===== src/Credentials.antt =====
-- The access key and the scope of an `Authorization` header: parsers/credentials.rs.
pub mod RoundTrip
pub mod Params
use object_storage_proxy.Base.{ℕ, Option, none, some, [], ◌∷◌, ◌>>=◌, Bytes, codes}
use object_storage_proxy.External.{Nom}

module _ (nom : Nom) where
  -- The remaining input of the result is always empty.
  unfoldable pub parse_token_from_header : Bytes → Option (Bytes × Bytes)
  parse_token_from_header header = do
    (credential, _) ← nom.tag (codes "AWS4-HMAC-SHA256 Credential=") header
    (_, token) ← nom.take_until (codes "/") credential
    some ([], token)

  unfoldable pub parse_credential_scope : Bytes → Option (Bytes × (Bytes × Bytes))
  parse_credential_scope input = do
    (at_credential, _) ← nom.take_until (codes "Credential=") input
    (s₁, _) ← nom.tag (codes "Credential=") at_credential
    (s₂, access_key) ← nom.take_until (codes "/") s₁
    (s₃, _) ← nom.tag (codes "/") s₂
    (s₄, date) ← nom.take_until (codes "/") s₃
    (s₅, _) ← nom.tag (codes "/") s₄
    (s₆, region) ← nom.take_until (codes "/") s₅
    (s₇, _) ← nom.tag (codes "/") s₆
    (s₈, service) ← nom.take_until (codes "/aws4_request") s₇
    (remaining, _) ← nom.tag (codes "/aws4_request") s₈
    some (remaining, (region, service))
