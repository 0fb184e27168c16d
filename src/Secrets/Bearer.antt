-- ===== src/Secrets/Bearer.antt =====
-- `get_bearer` of credentials/secrets_proxy.rs, over a client of HTTP.
use object_storage_proxy.Base.{
  Bool, Option, none, [], ◌∷◌, if◌then◌else◌, ◌>>=◌, Bytes, codes, Assoc,
}
use object_storage_proxy.Secrets.{IamResponse}

-- An answer: whether the status is a success, and the body, if it can be read.
pub record Answer : Type 0 where
  pub is_success : Bool
  pub body : Option Bytes

-- `reqwest`: a form that is posted to an address, with the answer, if there is one; and the body
-- read as JSON.
pub record Client : Type 0 where
  pub post_form : Bytes → Assoc Bytes → Option Answer
  pub read_json : Bytes → Option IamResponse

abbrev pub token_form : Bytes → Assoc Bytes
token_form api_key =
    (codes "grant_type", codes "urn:ibm:params:oauth:grant-type:apikey")
    ∷ (codes "apikey", api_key)
    ∷ []

unfoldable pub get_bearer : Client → Bytes → Option IamResponse
get_bearer client api_key = do
  resp ← client.post_form (codes "https://iam.cloud.ibm.com/identity/token") (token_form api_key)
  if resp.is_success then (do text ← resp.body; client.read_json text) else none
