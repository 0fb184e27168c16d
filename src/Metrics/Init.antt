-- ===== src/Metrics/Init.antt =====
-- What `init_metrics` of utils/metrics.rs registers when the server starts, and under which names.
use object_storage_proxy.Base.{map}
use object_storage_proxy.Base.{
  ◌≡◌, ◌≢◌, refl, ap, ◌∙◌, Bool, true, false, not, ◌&&◌, ◌||◌, some, List, [], ◌∷◌, ◌++◌, arith,
  Bytes, codes, beq, is_empty, All,
}
use object_storage_proxy.Metrics.Instruments.{
  Prometheus, Instrument, Statics, elem, full_name, force, force_all, forced, init_metrics,
}

-- The names that the README lists, in the reverse order.
abbrev pub documented : List Bytes
documented =
    codes "osp_response_size_bytes"
    ∷ codes "osp_request_duration_seconds"
    ∷ codes "osp_build_info"
    ∷ codes "osp_memory_bytes"
    ∷ codes "osp_active_connections"
    ∷ codes "osp_presigned_url_rejected_total"
    ∷ codes "osp_presigned_url_hits_total"
    ∷ codes "osp_transfer_bytes_total"
    ∷ codes "osp_request_errors_total"
    ∷ codes "osp_requests_total"
    ∷ []

-- The name that is exposed: the namespace comes before a name that already begins with it.
abbrev pub exposed : Instrument → Bytes
exposed i = i.namespace ++ (codes "_" ++ i.name)

unfoldable pub exposed_names : List Instrument → List Bytes → List Bytes
exposed_names [] names = names
exposed_names (i ∷ is) names = exposed_names is (exposed i ∷ names)

unfoldable pub all_names : List Instrument → List Bytes → List Bytes
all_names [] names = names
all_names (i ∷ is) names = all_names is (i.name ∷ names)

-- No instrument has the name of another, or one that is taken.
unfoldable separate : List Instrument → List Bytes → List Bytes → Bool
separate [] initialised names = true
separate (i ∷ is) initialised names =
    not (is_empty i.namespace)
    && (not (is_empty i.name)
        && (not (elem i.name initialised)
            && (not (elem (exposed i) names)
                && separate is (i.name ∷ initialised) (exposed i ∷ names))))

unfoldable all_elem : List Instrument → List Bytes → Bool
all_elem [] names = true
all_elem (i ∷ is) names = elem i.name names && all_elem is names

-- None of the names is there.
unfoldable agree : List Bytes → List Bytes → Bool
agree [] names = true
agree (n ∷ ns) names = not (elem n names) && agree ns names

not-true : (a : Bool) → not a ≡ true → a ≡ false
not-true true h = cc
not-true false h = refl

is_empty-ne : (s : Bytes) → not (is_empty s) ≡ true → s ≢ []
is_empty-ne s h e = ground arith

and_left : (a b : Bool) → (a && b) ≡ true → a ≡ true
and_left true b h = refl
and_left false b h = h

and_right : (a b : Bool) → (a && b) ≡ true → b ≡ true
and_right true b h = h
and_right false b h = cc

module _ {R : Type 0} (prometheus : Prometheus R) where
  -- The registry has these names and no other.
  abbrev pub Registered : List Bytes → R → Type 0
  Registered names r = (name : Bytes) → prometheus.has name r ≡ elem name names

  All-has :
      (ns names : List Bytes) (r : R)
      → Registered names r
      → agree ns names ≡ true
      → All (λ (n : Bytes). prometheus.has n r ≡ false) ns
  unfolding agree
  All-has [] names r registered h = tt
  All-has (n ∷ ns) names r registered h = (
    registered n ∙ not-true (elem n names) (and_left (not (elem n names)) _ h),
    All-has ns names r registered (and_right (not (elem n names)) _ h),
  )

  force_new :
      (i : Instrument) (s : Statics R) (names : List Bytes)
      → i.namespace ≢ []
      → i.name ≢ []
      → elem i.name s.initialised ≡ false
      → elem (exposed i) names ≡ false
      → Registered names s.registry
      → (r : R) × (force prometheus i s
          ≡ some (record { registry = r; initialised = i.name ∷ s.initialised }))
        × Registered (exposed i ∷ names) r
  unfolding force elem
  force_new i s names some_space some_name first free registered =
      let named = prometheus.fq_name_lem i.namespace i.name some_space some_name in
      let (r, done, has) =
        prometheus.register_new (full_name prometheus i) s.registry
          (ap (λ n. prometheus.has n s.registry) named ∙ (registered (exposed i) ∙ free)) in
      (
        r,
        ground (arith, first, done),
        λ name.
            has name
            ∙ (ap (λ n. beq n name || prometheus.has name s.registry) named
                ∙ ap (λ b. beq (exposed i) name || b) (registered name)),
      )

  force_all_new :
      (is : List Instrument) (s : Statics R) (names : List Bytes)
      → separate is s.initialised names ≡ true
      → Registered names s.registry
      → (r : R) × (force_all prometheus is s
          ≡ some (record { registry = r; initialised = all_names is s.initialised }))
        × Registered (exposed_names is names) r
  unfolding force_all separate all_names exposed_names
  force_all_new [] s names h registered = (s.registry, refl, registered)
  force_all_new (i ∷ is) s names h registered =
      let h1 = and_right (not (is_empty i.namespace)) _ h in
      let h2 = and_right (not (is_empty i.name)) _ h1 in
      let h3 = and_right (not (elem i.name s.initialised)) _ h2 in
      let (r, done, registered') =
        force_new i s names (is_empty-ne i.namespace (and_left (not (is_empty i.namespace)) _ h))
          (is_empty-ne i.name (and_left (not (is_empty i.name)) _ h1))
          (not-true (elem i.name s.initialised) (and_left (not (elem i.name s.initialised)) _ h2))
          (not-true (elem (exposed i) names) (and_left (not (elem (exposed i) names)) _ h3))
          registered in
      let s' : Statics R = record { registry = r; initialised = i.name ∷ s.initialised } in
      let (r', all_done, registered'') =
        force_all_new is s' (exposed i ∷ names) (and_right (not (elem (exposed i) names)) _ h3)
          registered' in
      (r', rw (force_all, done) all_done, registered'')

  force_all_again :
      (is : List Instrument) (s : Statics R)
      → all_elem is s.initialised ≡ true
      → force_all prometheus is s ≡ some s
  unfolding force_all force all_elem
  force_all_again [] s h = refl
  force_all_again (i ∷ is) s h = ground (arith, force_all_again is s)

  -- At its first call `init_metrics` panics nowhere, and a second call changes nothing. What the
  -- registry has then are ten names: those that the README lists, each with a further `osp_` in
  -- front; and it has none of the names as the README lists them.
  pub init_metrics-Registered :
      (s : Statics R) × (init_metrics prometheus
          (record { registry = prometheus.new; initialised = [] })
        ≡ some s)
      × (init_metrics prometheus s ≡ some s)
      × ((name : Bytes)
          → prometheus.has name s.registry ≡ elem name (map (λ n. codes "osp_" ++ n) documented))
      × All (λ (n : Bytes). prometheus.has n s.registry ≡ false) documented
  unfolding init_metrics separate elem exposed_names all_elem all_names agree
  init_metrics-Registered =
      let (r, done, registered) =
        force_all_new (forced prometheus) (record { registry = prometheus.new; initialised = [] })
          [] refl (λ name. prometheus.has-new name) in
      (
        record { registry = r; initialised = all_names (forced prometheus) [] },
        done,
        force_all_again (forced prometheus) _ refl,
        registered,
        All-has documented (exposed_names (forced prometheus) []) r registered refl,
      )
