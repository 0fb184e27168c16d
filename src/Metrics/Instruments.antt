-- ===== src/Metrics/Instruments.antt =====
-- The instruments of utils/metrics.rs and their registration.
use object_storage_proxy.Base.{
  ℕ, ◌≡◌, ◌≢◌, Bool, true, false, ◌||◌, Option, none, some, List, [], ◌∷◌, ◌++◌, Bytes, codes, beq,
}

-- The `prometheus` crate: a registry refuses a full name that it has, and a full name is the
-- namespace and the name with an underscore between them.
pub record Prometheus (R : Type 0) : Type 0 where
  pub new : R
  pub register : Bytes → R → Option R
  pub has : Bytes → R → Bool
  pub fq_name : Bytes → Bytes → Bytes
  pub has-new : (name : Bytes) → has name new ≡ false
  pub register_new :
      (name : Bytes) (r : R)
      → has name r ≡ false
      → (r' : R) × (register name r ≡ some r')
        × ((other : Bytes) → has other r' ≡ (beq name other || has other r))
  pub register_old : (name : Bytes) (r : R) → has name r ≡ true → register name r ≡ none
  pub fq_name_lem :
      (namespace name : Bytes)
      → namespace ≢ []
      → name ≢ []
      → fq_name namespace name ≡ namespace ++ (codes "_" ++ name)

-- The buckets of a histogram, in thousandths, or the arguments of the crate's `exponential_buckets`.
pub data Kind : Type 0 where
  counter gauge : Kind
  histogram : List ℕ → Kind
  exponential_histogram : ℕ → ℕ → ℕ → Kind

pub record Instrument : Type 0 where
  pub namespace : Bytes
  pub name : Bytes
  pub kind : Kind
  pub labels : List Bytes

-- `Opts::new(name, help).namespace("osp")`
abbrev pub instrument : Bytes → Kind → List Bytes → Instrument
instrument name kind labels = record {
  namespace = codes "osp";
  name = name;
  kind = kind;
  labels = labels;
}

abbrev pub requests_total : Instrument
requests_total =
    instrument (codes "osp_requests_total") counter
      (codes "method" ∷ codes "bucket" ∷ codes "status" ∷ [])

abbrev pub request_errors_total : Instrument
request_errors_total =
    instrument (codes "osp_request_errors_total") counter
      (codes "method" ∷ codes "bucket" ∷ codes "error" ∷ [])

abbrev pub transfer_bytes_total : Instrument
transfer_bytes_total =
    instrument (codes "osp_transfer_bytes_total") counter (codes "direction" ∷ codes "bucket" ∷ [])

abbrev pub presigned_url_hits_total : Instrument
presigned_url_hits_total =
    instrument (codes "osp_presigned_url_hits_total") counter (codes "bucket" ∷ [])

abbrev pub presigned_url_rejected_total : Instrument
presigned_url_rejected_total =
    instrument (codes "osp_presigned_url_rejected_total") counter (codes "bucket" ∷ [])

abbrev pub active_connections : Instrument
active_connections = instrument (codes "osp_active_connections") gauge []

abbrev pub memory_bytes : Instrument
memory_bytes = instrument (codes "osp_memory_bytes") gauge []

abbrev pub build_info : Instrument
build_info = instrument (codes "osp_build_info") gauge (codes "version" ∷ codes "rustc" ∷ [])

abbrev pub request_duration_seconds : Instrument
request_duration_seconds =
    instrument (codes "osp_request_duration_seconds")
      (histogram (5 ∷ 10 ∷ 25 ∷ 50 ∷ 100 ∷ 250 ∷ 500 ∷ 1000 ∷ 2500 ∷ 5000 ∷ 10000 ∷ []))
      (codes "method" ∷ codes "bucket" ∷ [])

abbrev pub response_size_bytes : Instrument
response_size_bytes =
    instrument (codes "osp_response_size_bytes") (exponential_histogram 1024 4 10)
      (codes "method" ∷ codes "bucket" ∷ [])

-- The statics: the registry, and the instruments that have been initialised.
pub record Statics (R : Type 0) : Type 0 where
  pub registry : R
  pub initialised : List Bytes

unfoldable pub elem : Bytes → List Bytes → Bool
elem name [] = false
elem name (other ∷ names) = beq other name || elem name names

module _ {R : Type 0} (prometheus : Prometheus R) where
  abbrev pub full_name : Instrument → Bytes
  full_name i = prometheus.fq_name i.namespace i.name

  -- `Lazy::force`: the first time, the instrument is registered, with `expect("register")`. `none`
  -- is the panic.
  unfoldable pub force : Instrument → Statics R → Option (Statics R)
  force i s = elim (elem i.name s.initialised) [
    | true ↦ some s
    | false ↦ elim (prometheus.register (full_name i) s.registry) [
      | none ↦ none
      | some registry ↦ some (record { registry = registry; initialised = i.name ∷ s.initialised })
    ]
  ]

  unfoldable pub force_all : List Instrument → Statics R → Option (Statics R)
  force_all [] s = some s
  force_all (i ∷ is) s = elim (force i s) [ none ↦ none | some s' ↦ force_all is s' ]

  abbrev pub forced : List Instrument
  forced =
      requests_total ∷ request_errors_total ∷ transfer_bytes_total ∷ presigned_url_hits_total
      ∷ presigned_url_rejected_total ∷ active_connections ∷ memory_bytes ∷ build_info
      ∷ request_duration_seconds ∷ response_size_bytes ∷ []

  -- `init_metrics`, without the constant that `build_info` is set to.
  unfoldable pub init_metrics : Statics R → Option (Statics R)
  init_metrics = force_all forced
