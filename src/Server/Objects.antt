-- ===== src/Server/Objects.antt =====
-- What the program takes from Python objects, and `callable_accepts_request` of
-- utils/functions.rs.
use object_storage_proxy.Base.{
  ℕ, Bool, true, false, ◌&&◌, Option, none, some, List, [], ◌∷◌, if◌then◌else◌, Bytes, codes, beq,
  contains, Assoc,
}
use object_storage_proxy.Gate.World.{Callback}

-- Conversions of `pyo3`, which fail for an object of another type, and calls of a callable. The
-- parameters of a callable are the names with the texts of their annotations; `none` stands for an
-- exception, at the start or at one parameter.
pub record Python (P : Type 0) : Type 0 where
  pub none_object : P
  pub is_none : P → Bool
  pub extract_text : P → Option Bytes
  pub extract_u16 : P → Option ℕ
  pub extract_u64 : P → Option ℕ
  pub extract_bool : P → Option Bool
  pub extract_maps : P → Option (Assoc (Assoc P))
  pub extract_text_maps : P → Option (List (Assoc Bytes))
  pub parameters : P → Option (List (Option (Bytes × Bytes)))
  pub as_validator : P → Callback
  pub as_hmac_fetcher : P → Bytes → Option Bytes
  pub as_creds_fetcher : P → Bytes → Bytes → Option Bytes

-- The loop over the parameters.
unfoldable pub any_request : List (Option (Bytes × Bytes)) → Option Bool
any_request [] = some false
any_request (none ∷ ps) = none
any_request (some (name, arg_type) ∷ ps) =
    let rest = any_request ps in
    if beq name (codes "request") && contains (codes "dict") arg_type then some true else rest

unfoldable pub callable_accepts_request : {P : Type 0} → Python P → P → Option Bool
callable_accepts_request python callable = elim (python.parameters callable) [
  | none ↦ none
  | some parameters ↦ any_request parameters
]
