-- ===== src/Message.antt =====
-- Requests and headers, as the handlers of pingora see them.
use object_storage_proxy.Base.{
  Bool, Option, none, some, ◌++◌, if◌then◌else◌, Bytes, codes, Assoc, insert,
}

-- The scheme and the authority (both may be empty), the path, and the query.
pub record Uri : Type 0 where
  pub origin : Bytes
  pub path : Bytes
  pub query : Option Bytes

-- uri.to_string()
abbrev pub uri_text : Uri → Bytes
uri_text u = elim u.query [
  | none ↦ u.origin ++ u.path
  | some q ↦ u.origin ++ (u.path ++ (codes "?" ++ q))
]

-- Header names are in lower case.
pub record Request : Type 0 where
  pub method : Bytes
  pub uri : Uri
  pub headers : Assoc Bytes

-- What a handler ends with.
pub data Handled (A : Type 0) : Type 0 where
  finished : A → Handled A
  error : Handled A
  panic : Handled A

-- Parsers and checks of the `http` crate: a URI, the path and query of a URI that is built, an
-- authority, and a header's value.
pub record Http : Type 0 where
  pub parse_uri : Bytes → Option Uri
  pub parse_target : Bytes → Option (Bytes × Option Bytes)
  pub is_authority : Bytes → Bool
  pub is_header_value : Bytes → Bool

-- request.insert_header(name, value)?
unfoldable pub insert_header : Http → Bytes → Bytes → Request → Option Request
insert_header http name value req =
    if http.is_header_value value
    then some (record req { headers = insert name value req.headers })
    else none
