-- ===== src/Credentials/Params/Laws.antt =====
-- What `parse_presigned_params` does without a query.
use object_storage_proxy.Base.{◌≡◌, none, [], arith, Bytes, codes, until}
use object_storage_proxy.External.{Nom, span}
use object_storage_proxy.Credentials.Params.{
  is_key_char, key_value, query_pairs, parse_presigned_params,
}

module _ (nom : Nom) (percent_decode : Bytes → Bytes) where
  key_value_nil : key_value nom percent_decode [] ≡ none
  unfolding key_value span
  key_value_nil = ground (arith, nom.take_while1_lem is_key_char [])

  -- A text without a question mark has no parameters, even if it is a query of itself: parsing it
  -- fails.
  pub parse_presigned_params_without :
      (input : Bytes)
      → until (codes "?") input ≡ none
      → parse_presigned_params nom percent_decode input ≡ none
  unfolding parse_presigned_params query_pairs
  parse_presigned_params_without input without = ground (
    arith,
    without,
    key_value_nil,
    nom.separated_list1_lem (nom.char b'&') (key_value nom percent_decode) [],
  )
