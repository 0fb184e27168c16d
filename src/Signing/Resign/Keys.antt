-- ===== src/Signing/Resign/Keys.antt =====
-- Which request is signed, and with which keys.
use object_storage_proxy.Base.{
  ◌≡◌, ◌≢◌, ◌⊎◌, ap, inl, inr, refl, ◌∙◌, sym, subst, Option, none, some, [], arith, ◌>>=◌,
  unwrap_or, Bytes, codes, lookup, insert, lookup-insert_self, Option-cases, Bool-cases,
}
use object_storage_proxy.External.{Crypto, Calendar, DateTime, Web}
use object_storage_proxy.Message.{uri_text, Request, finished, Http, insert_header}
use object_storage_proxy.CosMap.{CosMapItem}
use object_storage_proxy.Signing.Key.{KeyCache}
use object_storage_proxy.Signing.Key.Cache.{IsPlain, IsValid}
use object_storage_proxy.Signing.AwsSign.{AwsSign, collect, sign, new, set_payload_override}
use object_storage_proxy.Signing.AwsSign.Equivalence.{sign-specified}
use object_storage_proxy.Signing.Specification
use object_storage_proxy.Signing.Resign.{
  or_error, signer_of, authorize, keys_of, dated, sign_request, resign_streaming_request,
}

insert_header-added :
    (http : Http) (name value : Bytes) (req r : Request)
    → or_error (insert_header http name value req) ≡ finished r
    → r ≡ record req { headers = insert name value req.headers }
unfolding insert_header
insert_header-added http name value req r h = elim (Bool-cases (http.is_header_value value)) [
  | inl good ↦ ground arith
  | inr bad ↦ ground arith
]

-- With the header that was set.
pub insert_header-finished :
    (http : Http) (name value : Bytes) (req r : Request)
    → or_error (insert_header http name value req) ≡ finished r
    → lookup name r.headers ≡ some value
insert_header-finished http name value req r h =
    subst (λ (q : Request). lookup name q.headers ≡ some value)
      (sym (insert_header-added http name value req r h))
      (lookup-insert_self name value req.headers)

module _ (crypto : Crypto) (calendar : Calendar) (web : Web) (http : Http) where
  -- The payload that a request is signed with: its own `x-amz-content-sha256`, or the one for a
  -- body in signed chunks.
  abbrev pub SignsPayload : AwsSign → Request → Type 0
  SignsPayload s q =
      ((s.payload_override ≡ lookup (codes "x-amz-content-sha256") q.headers)
        × (s.payload_override ≢ none))
      ⊎ ((s.payload_override ≡ none) × (s.body ≡ codes "STREAMING-AWS4-HMAC-SHA256-PAYLOAD"))

  -- The data of a signer for a request, at a time, with these keys.
  abbrev pub SignsRequest : DateTime → Bytes → Bytes → Bytes → Request → AwsSign → Type 0
  SignsRequest now region access_key secret_key q s =
      (s.method ≡ q.method)
      × (web.parse_url (uri_text q.uri) ≡ some s.url)
      × (s.headers ≡ collect web none q.headers [])
      × (s.datetime ≡ now)
      × (s.region ≡ region)
      × (s.service ≡ codes "s3")
      × (s.access_key ≡ access_key)
      × (s.secret_key ≡ secret_key)

  -- A request with the header that the specification gives for its own method, URL and headers,
  -- at a time, with these keys; nothing else is changed behind the signer.
  abbrev pub SignedWith : DateTime → Bytes → Bytes → Bytes → Request → Type 0
  SignedWith now region access_key secret_key r =
      (q : Request) × (s : AwsSign) × SignsRequest now region access_key secret_key q s
      × SignsPayload s q
      × (r ≡ record q {
        headers = insert (codes "authorization") (Specification.header crypto calendar s) q.headers;
      })

  -- With the keys of a bucket.
  abbrev pub SignedFor : DateTime → CosMapItem → Request → Type 0
  SignedFor now cfg =
      SignedWith now (unwrap_or cfg.region []) (unwrap_or cfg.access_key [])
        (unwrap_or cfg.secret_key [])

  -- A day and a region that can be told apart in the cache of signing keys.
  abbrev pub HasPlainRegion : DateTime → CosMapItem → Type 0
  HasPlainRegion now cfg = IsPlain (calendar.short_date now) (unwrap_or cfg.region []) (codes "s3")

  authorize-finished :
      (o : Option AwsSign) (req r : Request) (cache : KeyCache)
      → IsValid crypto cache
      → ((s : AwsSign) → o ≡ some s → IsPlain (calendar.short_date s.datetime) s.region s.service)
      → (authorize crypto calendar web http o req cache).0 ≡ finished r
      → (s : AwsSign) × (o ≡ some s)
        × (r ≡ record req {
          headers =
              insert (codes "authorization") (Specification.header crypto calendar s) req.headers;
        })
  unfolding authorize
  authorize-finished none req r cache v plain h = cc
  authorize-finished (some s) req r cache v plain h = (
    s,
    refl,
    insert_header-added http (codes "authorization") (sign crypto calendar s cache).0 req r h
        ∙ ap
            (λ (value : Bytes). record req {
              headers = insert (codes "authorization") value req.headers;
            })
            (sign-specified crypto calendar s cache (plain s refl) v).0,
  )

  signer_of-fields :
      (now : DateTime) (region ak sk body : Bytes) (req : Request) (s : AwsSign)
      → signer_of crypto calendar web http now region ak sk body req ≡ some s
      → (s.payload_override ≡ none)
        × (s.body ≡ body)
        × (s.datetime ≡ now)
        × (s.region ≡ region)
        × (s.service ≡ codes "s3")
  unfolding signer_of new
  signer_of-fields now region ak sk body req s h = ground arith

  signer_of-IsPlain :
      (now : DateTime) (region ak sk body : Bytes) (req : Request) (s : AwsSign)
      → IsPlain (calendar.short_date now) region (codes "s3")
      → signer_of crypto calendar web http now region ak sk body req ≡ some s
      → IsPlain (calendar.short_date s.datetime) s.region s.service
  signer_of-IsPlain now region ak sk body req s plain h =
      let (eo, eb, ed, er, es) = signer_of-fields now region ak sk body req s h in
      rw (ed, er, es) plain

  signer_of-SignsRequest :
      (now : DateTime) (region ak sk body : Bytes) (req : Request) (s : AwsSign)
      → signer_of crypto calendar web http now region ak sk body req ≡ some s
      → SignsRequest now region ak sk req s
  unfolding signer_of new
  signer_of-SignsRequest now region ak sk body req s h =
      elim (Option-cases (web.parse_url (uri_text req.uri))) [
        | inl bad ↦ ground (arith, bad)
        | inr (u, parsed) ↦ ground (arith, parsed)
      ]

  pub resigned :
      (now : DateTime) (region ak sk : Bytes) (req r : Request) (cache : KeyCache)
      → IsPlain (calendar.short_date now) region (codes "s3")
      → IsValid crypto cache
      → (resign_streaming_request crypto calendar web http now region ak sk req cache).0
        ≡ finished r
      → SignedWith now region ak sk r
  unfolding resign_streaming_request
  resigned now region ak sk req r cache plain v h =
      let (s, built, same) =
        authorize-finished _ _ r cache v (λ s e. signer_of-IsPlain _ _ _ _ _ _ s plain e) h in
      let (no_override, streams, ed, er, es) = signer_of-fields _ _ _ _ _ _ s built in
      (_, s, signer_of-SignsRequest now region ak sk _ _ s built, inr (no_override, streams), same)

  set_payload_override-some :
      (o : Option AwsSign) (hash : Bytes) (s : AwsSign)
      → (do t ← o; some (set_payload_override t hash)) ≡ some s
      → (t : AwsSign) × (o ≡ some t) × (s ≡ record t { payload_override = some hash })
  unfolding set_payload_override
  set_payload_override-some none hash s h = cc
  set_payload_override-some (some t) hash s h = (t, refl, ground arith)

  overridden :
      (now : DateTime) (region ak sk body hash : Bytes) (req r : Request) (cache : KeyCache)
      → IsPlain (calendar.short_date now) region (codes "s3")
      → IsValid crypto cache
      → lookup (codes "x-amz-content-sha256") req.headers ≡ some hash
      → (authorize crypto calendar web http
          (do
            s ← signer_of crypto calendar web http now region ak sk body req
            some (set_payload_override s hash))
          req
          cache).0
        ≡ finished r
      → SignedWith now region ak sk r
  overridden now region ak sk body hash req r cache plain v told h =
      let (s, built, same) =
        authorize-finished _ req r cache v
          (λ s e.
            let (t, found, sets) = set_payload_override-some _ hash s e in
            subst (λ (u : AwsSign). IsPlain (calendar.short_date u.datetime) u.region u.service)
              (sym sets) (signer_of-IsPlain now region ak sk body req t plain found))
          h in
      let (t, found, sets) = set_payload_override-some _ hash s built in
      (
        req,
        s,
        rw (sets) (signer_of-SignsRequest now region ak sk body req t found),
        rw (sets) (inl (sym told, λ e. cc)),
        same,
      )

  keys_of-some :
      (cfg : CosMapItem) (region ak sk : Bytes)
      → keys_of cfg ≡ some (region, ak, sk)
      → (region ≡ unwrap_or cfg.region [])
        × (ak ≡ unwrap_or cfg.access_key [])
        × (sk ≡ unwrap_or cfg.secret_key [])
  unfolding keys_of
  keys_of-some cfg region ak sk h = ground arith

  pub signed :
      (now : DateTime) (cfg : CosMapItem) (req r : Request) (cache : KeyCache)
      → HasPlainRegion now cfg
      → IsValid crypto cache
      → (sign_request crypto calendar web http now cfg req cache).0 ≡ finished r
      → SignedFor now cfg r
  unfolding sign_request dated
  signed now cfg req r cache plain v h = elim (Option-cases (keys_of cfg)) [
    | inl missing ↦ ground arith
    | inr ((region, ak, sk), found) ↦
        let (er, ea, es) = keys_of-some cfg region ak sk found in
        let done = rw (found, sign_request) at h in
        let with_keys =
          overridden now region ak sk _ _ _ r cache (rw (er) plain) v
            (lookup-insert_self (codes "x-amz-content-sha256") _ _) done in
        rw (er, ea, es) at with_keys
  ]
