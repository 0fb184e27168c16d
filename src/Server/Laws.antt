-- ===== src/Server/Laws.antt =====
-- What the server starts with.
use object_storage_proxy.Base.{
  ℕ, ◌+◌, ◌%◌, ◌<◌, ◌≡◌, ◌⊎◌, inl, inr, refl, sym, ap, ◌∙◌, Bool, true, false, ◌||◌, Option, none,
  some, List, [], ◌∷◌, arith, if◌then◌else◌, ◌>>=◌, is_some, usize_mod, Bytes, beq, Assoc, lookup,
  insert, lookup-insert, Option-cases, Bool-cases,
}
use object_storage_proxy.Path.{Parsed, ok, err}
use object_storage_proxy.Path
use object_storage_proxy.CosMap.{CosMapItem}
use object_storage_proxy.Proxy.Upstream.{new_ctx}
use object_storage_proxy.Server.Objects.{Python}
use object_storage_proxy.Server.Items.{parse_item, parse_items, parse_cos_map}
use object_storage_proxy.Server.Keystore.{key_pair, insert_pairs, parse_hmac_list}
use object_storage_proxy.Server.Start.{
  ProxyServerConfig, Service, serving, local_hmac_map, run_server,
}
use object_storage_proxy.Server.Counter.{
  Counter, count_request, enable_request_counting, disable_request_counting, get_request_count,
}

module _ {P : Type 0} (python : Python P) where
  lookup-parse_items :
      (b : Bytes) (raw : Assoc (Assoc P)) (m : Assoc CosMapItem)
      → parse_items python raw ≡ some m
      → lookup b m ≡ (lookup b raw >>= parse_item python)
  unfolding parse_items lookup
  lookup-parse_items b [] m h = ground arith
  lookup-parse_items b ((k, inner) ∷ raw) m h = elim (Option-cases (parse_item python inner)) [
    | inl fails ↦ ground (arith, fails)
    | inr (item, parsed) ↦ elim (Option-cases (parse_items python raw)) [
      | inl fails ↦ ground (arith, parsed, fails)
      | inr (m', rest) ↦
          ground (arith, parsed, rest, lookup-insert k b item m', lookup-parse_items b raw m' rest)
    ]
  ]

  -- The secret key of the last entry with an access key.
  abbrev pub last_secret : Bytes → List (Assoc Bytes) → Option Bytes → Option Bytes
  last_secret k [] found = found
  last_secret k (item ∷ list) found =
      last_secret k list (elim (key_pair item) [
        | none ↦ found
        | some (ak, sk) ↦ if beq ak k then some sk else found
      ])

  lookup-insert_pairs :
      (k : Bytes) (list : List (Assoc Bytes)) (m m' : Assoc Bytes)
      → insert_pairs list m ≡ some m'
      → lookup k m' ≡ last_secret k list (lookup k m)
  unfolding insert_pairs
  lookup-insert_pairs k [] m m' h = ground arith
  lookup-insert_pairs k (item ∷ list) m m' h = elim (Option-cases (key_pair item)) [
    | inl fails ↦ ground (arith, fails)
    | inr ((ak, sk), found) ↦
        let inserted : insert_pairs list (insert ak sk m) ≡ some m' = ground (arith, found) in
        let ih = lookup-insert_pairs k list (insert ak sk m) m' inserted in
        rw found (ih ∙ ap (last_secret k list) (lookup-insert ak k sk m))
  ]

  -- A list of keys that can be read gives for every access key the secret key of the last entry
  -- with this access key, and none if there is no such entry.
  pub lookup-parse_hmac_list :
      (hmac_list : P) (m : Assoc Bytes) (k : Bytes)
      → parse_hmac_list python hmac_list ≡ ok m
      → (list : List (Assoc Bytes)) × (python.extract_text_maps hmac_list ≡ some list)
        × (lookup k m ≡ last_secret k list none)
  unfolding parse_hmac_list lookup
  lookup-parse_hmac_list hmac_list m k h =
      elim (Option-cases (python.extract_text_maps hmac_list)) [
        | inl panics ↦ ground (arith, panics)
        | inr (list, extracted) ↦ elim (Option-cases (insert_pairs list [])) [
          | inl fails ↦ ground (arith, extracted, fails)
          | inr (m', inserted) ↦
              let same : m' ≡ m = ground (arith, extracted, inserted) in
              (
                list,
                extracted,
                ap (lookup k) (sym same) ∙ lookup-insert_pairs k list [] m' inserted,
              )
        ]
      ]

  Parsed-cases :
      {A : Type 0} (o : Parsed A) → ((a : A) × (o ≡ ok a)) ⊎ ((o ≡ err) ⊎ (o ≡ Path.panic))
  Parsed-cases (ok a) = inl (a, refl)
  Parsed-cases err = inr (inl refl)
  Parsed-cases Path.panic = inr (inr refl)

  -- A server that starts has a port, and its mapping gives for every bucket what the configuration
  -- says: the configuration is a dictionary of dictionaries, and the item of a bucket in it is the
  -- parsed one; a bucket that is not in it has none.
  pub run_server-cos_mapping :
      {C : Type 0} (lru_new : ℕ → C) (tls_ready : Bool) (c : ProxyServerConfig P) (s : Service C)
      (bucket : Bytes)
      → run_server python lru_new tls_ready c ≡ serving s
      → (raw : Assoc (Assoc P)) × (python.extract_maps c.cos_map ≡ some raw)
        × (lookup bucket s.world.ctx.cos_mapping ≡ (lookup bucket raw >>= parse_item python))
        × ((is_some c.http_port || is_some c.https_port) ≡ true)
  unfolding run_server parse_cos_map new_ctx
  run_server-cos_mapping lru_new tls_ready c s bucket h =
      elim (Parsed-cases (local_hmac_map python c.hmac_keystore)) [
        | inr (inl fails) ↦ ground (arith, fails)
        | inr (inr panics) ↦ ground (arith, panics)
        | inl (keys, listed) ↦ elim (Option-cases (python.extract_maps c.cos_map)) [
          | inl fails ↦ ground (arith, listed, fails)
          | inr (raw, extracted) ↦ elim (Option-cases (parse_items python raw)) [
            | inl fails ↦ ground (arith, listed, extracted, fails)
            | inr (m, parsed) ↦
                let mapping : s.world.ctx.cos_mapping ≡ m =
                  ground (arith, listed, extracted, parsed) in
                (
                  raw,
                  extracted,
                  ap (lookup bucket) mapping ∙ lookup-parse_items bucket raw m parsed,
                  ground (arith, listed, extracted, parsed),
                )
          ]
        ]
      ]

-- What is done with the counter.
pub data Use : Type 0 where
  turn_on : Use
  turn_off : Use
  request : Use

abbrev pub use_counter : Use → Counter → Counter
use_counter turn_on = enable_request_counting
use_counter turn_off = disable_request_counting
use_counter request = count_request

abbrev pub use_all : List Use → Counter → Counter
use_all [] c = c
use_all (u ∷ us) c = use_all us (use_counter u c)

-- The requests that come while counting is on.
abbrev pub counted : List Use → Bool → ℕ
counted [] on = 0
counted (turn_on ∷ us) on = counted us true
counted (turn_off ∷ us) on = counted us false
counted (request ∷ us) on = (if on then 1 else 0) + counted us on

-- The counter has counted exactly the requests that came while counting was on, modulo 2^64;
-- turning it off and on again does not reset it.
pub get_request_count-use_all :
    (us : List Use) (c : Counter)
    → c.count < usize_mod
    → get_request_count (use_all us c) ≡ (c.count + counted us c.enabled) % usize_mod
unfolding get_request_count count_request enable_request_counting disable_request_counting
get_request_count-use_all [] c small = ground arith
get_request_count-use_all (turn_on ∷ us) c small =
    get_request_count-use_all us (record c { enabled = true }) small
get_request_count-use_all (turn_off ∷ us) c small =
    get_request_count-use_all us (record c { enabled = false }) small
get_request_count-use_all (request ∷ us) c small = elim (Bool-cases c.enabled) [
  | inl on ↦
      let c' : Counter = record c { count = (c.count + 1) % usize_mod } in
      let step : count_request c ≡ c' = ground (arith, on) in
      let ih = get_request_count-use_all us c' (omega arith) in
      ground (arith, on, ap (λ d. (use_all us d).count) step, ih)
  | inr off ↦
      let step : count_request c ≡ c = ground (arith, off) in
      ground (arith, off, ap (λ d. (use_all us d).count) step, get_request_count-use_all us c small)
]
