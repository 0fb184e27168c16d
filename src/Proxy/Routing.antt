-- ===== src/Proxy/Routing.antt =====
-- Where the requests go.
use object_storage_proxy.Base.{
  ℕ, ◌≡◌, ◌≢◌, refl, ap, ◌∙◌, Bool, true, false, not, some, List, [], ◌∷◌, ◌++◌, arith,
  if◌then◌else◌, ◌==◌, Bytes, codes, starts_with, split, split-append, split-Lacks, join, lookup,
  All, Lacks, Option-cases, Bool-cases, inl, inr,
}
use object_storage_proxy.Base.{subst, none, unwrap_or, is_empty, Assoc, remove, lookup-remove}
use object_storage_proxy.External.{Crypto, Calendar, Web, Nom}
use object_storage_proxy.Message.{Request, Uri, Http}
use object_storage_proxy.Path.{ok}
use object_storage_proxy.Proxy.Upstream.{Config, Ctx, HttpPeer, upstream_peer}
use object_storage_proxy.Proxy.Target.{filter, cleaned_query, presigned_target, authority_of}
use object_storage_proxy.Proxy.Rewrite.{unsigned}

-- A host with its port, which is left out where it is 443.
abbrev pub with_port : (ℕ → Bytes) → Bytes → ℕ → Bytes
with_port to_text host port = if port == 443 then host else host ++ (codes ":" ++ to_text port)

-- The `host` header that a request is given names the peer that it is sent to, host and port, for
-- every addressing style, with and without a configuration of the bucket. The context holds the
-- bucket, and the configuration that the mapping has for it.
pub authority_of-upstream_peer :
    (nom : Nom) (to_text : ℕ → Bytes) (proxy : Config) (ctx : Ctx) (req : Request) (bucket : Bytes)
    (peer : HttpPeer)
    → ctx.cached_bucket ≡ some bucket
    → ctx.cached_bucket_config ≡ lookup bucket ctx.cos_mapping
    → upstream_peer nom proxy ctx req ≡ ok peer
    → authority_of to_text proxy.cos_endpoint bucket (lookup bucket ctx.cos_mapping)
      ≡ with_port to_text peer.host peer.port
unfolding upstream_peer authority_of
authority_of-upstream_peer nom to_text proxy ctx req bucket peer eb ec h =
    elim (Option-cases (lookup bucket ctx.cos_mapping)) [
      | inl missing ↦ ground (arith, eb, ec, missing, h)
      | inr (config, found) ↦ ground (arith, eb, ec, found, h)
    ]

filter-Lacks :
    (p : Bytes → Bool) (b : ℕ) (parts : List Bytes)
    → All (Lacks b) parts
    → All (Lacks b) (filter p parts)
filter-Lacks p b [] h = tt
filter-Lacks p b (x ∷ xs) h = ground (arith, filter-Lacks p b xs h.1)

All-filter : (p : Bytes → Bool) (parts : List Bytes) → All (λ x. p x ≡ true) (filter p parts)
All-filter p [] = tt
All-filter p (x ∷ xs) = ground (arith, All-filter p xs)

-- A byte put in front of the first part.
abbrev grow : ℕ → List Bytes → List Bytes
grow c [] = (c ∷ []) ∷ []
grow c (p ∷ ps) = (c ∷ p) ∷ ps

grow-Lacks : (b c : ℕ) (ps : List Bytes) → c ≢ b → All (Lacks b) ps → All (Lacks b) (grow c ps)
grow-Lacks b c [] ne h = ((ne, tt), tt)
grow-Lacks b c (p ∷ ps) ne h = ((ne, h.0), h.1)

split_suc : (b c : ℕ) (s : Bytes) → (c == b) ≡ false → split b (c ∷ s) ≡ grow c (split b s)
unfolding split
split_suc b c s h = elim (split b s) [ [] ↦ ground arith | p ∷ ps ↦ ground arith ]

split_sep : (b : ℕ) (s : Bytes) → split b (b ∷ s) ≡ [] ∷ split b s
unfolding split
split_sep b s = ground arith

split-nil : (b : ℕ) → split b [] ≡ [] ∷ []
unfolding split
split-nil b = refl

split-parts : (b : ℕ) (s : Bytes) → All (Lacks b) (split b s)
split-parts b [] = rw (split-nil b) (tt, tt)
split-parts b (c ∷ s) = elim (Bool-cases (c == b)) [
  | inl same ↦ let e : c ≡ b = ground arith in rw e (rw (split_sep b s) (tt, split-parts b s))
  | inr other ↦
      rw (split_suc b c s other) (grow-Lacks b c (split b s) (ground arith) (split-parts b s))
]

split-join :
    (b : ℕ) (p : Bytes) (ps : List Bytes)
    → All (Lacks b) (p ∷ ps)
    → split b (join (b ∷ []) (p ∷ ps)) ≡ p ∷ ps
unfolding join
split-join b p [] h = split-Lacks b p h.0
split-join b p (q ∷ ps) h =
    split-append b p (join (b ∷ []) (q ∷ ps)) h.0 ∙ ap (λ l. p ∷ l) (split-join b q ps h.1)

clean : Bytes → Bool
clean kv = not (starts_with (codes "X-Amz-") kv)

split-joined :
    (parts : List Bytes)
    → All (Lacks b'&') parts
    → All (λ x. clean x ≡ true) parts
    → All (λ x. clean x ≡ true) (split b'&' (join (codes "&") parts))
split-joined [] l h = unfold join split clean starts_with in (refl, tt)
split-joined (p ∷ ps) l h = rw (split-join b'&' p ps l) h

abbrev pub AllUnsigned : Bytes → Type 0
AllUnsigned q = All (λ kv. not (starts_with (codes "X-Amz-") kv) ≡ true) (split b'&' q)

-- No parameter is one of a signature.
pub split-cleaned_query : (q : Bytes) → AllUnsigned (cleaned_query q)
unfolding cleaned_query clean
split-cleaned_query q =
    split-joined (filter clean (split b'&' q))
      (filter-Lacks clean b'&' (split b'&' q) (split-parts b'&' q))
      (All-filter clean (split b'&' q))

AllUnsigned-nil : AllUnsigned []
unfolding split starts_with
AllUnsigned-nil = (refl, tt)

abbrev pub HasNoSignature : Request → Type 0
HasNoSignature r =
    AllUnsigned (unwrap_or r.uri.query []) × (lookup (codes "authorization") r.headers ≡ none)

-- Without the header that is removed.
lookup-stripped :
    (headers : Assoc Bytes)
    → lookup
        (codes "authorization")
        (remove (codes "accept-encoding") (remove (codes "authorization") headers))
      ≡ none
lookup-stripped headers = ground (
  arith,
  lookup-remove (codes "accept-encoding") (codes "authorization")
      (remove (codes "authorization") headers),
  lookup-remove (codes "authorization") (codes "authorization") headers,
)

module _ (crypto : Crypto) (calendar : Calendar) (web : Web) (http : Http) (nom : Nom)
    (to_text : ℕ → Bytes) where
  -- Of a request that is marked as presigned, the request that `upstream_request_filter` goes on
  -- with has no parameter of the client's signature in its query, none that begins with `X-Amz-`,
  -- and no `Authorization` header. A URI is taken to be parsed as it is documented: a path alone
  -- has no query, and what stands behind the question mark is the query.
  pub unsigned-AllUnsigned :
      (ctx : Ctx) (req plain : Request)
      → ctx.is_presigned ≡ some true
      → ((u : Uri) → http.parse_uri req.uri.path ≡ some u → u.query ≡ none)
      → ((u : Uri)
          → http.parse_uri
              (req.uri.path ++ (codes "?" ++ cleaned_query (unwrap_or req.uri.query [])))
            ≡ some u
          → u.query ≡ some (cleaned_query (unwrap_or req.uri.query [])))
      → unsigned crypto calendar web http nom to_text ctx req ≡ some plain
      → HasNoSignature plain
  unfolding unsigned presigned_target
  unsigned-AllUnsigned ctx req plain marked path_only with_query h =
      let cleaned = cleaned_query (unwrap_or req.uri.query []) in
      elim (Bool-cases (is_empty cleaned)) [
        | inl empty ↦ elim (Option-cases (http.parse_uri req.uri.path)) [
          | inl fails ↦ ground (arith, marked, empty, fails)
          | inr (u, parsed) ↦
              let same : ◌≡◌ {A = Request}
                  (record req {
                    uri = u;
                    headers =
                        remove (codes "accept-encoding")
                          (remove (codes "authorization") req.headers);
                  })
                  plain =
                ground (arith, marked, empty, parsed) in
              subst (λ (r : Request). HasNoSignature r) same
                (rw (path_only u parsed) AllUnsigned-nil, lookup-stripped req.headers)
        ]
        | inr other ↦
            elim (Option-cases (http.parse_uri (req.uri.path ++ (codes "?" ++ cleaned)))) [
              | inl fails ↦ ground (arith, marked, other, fails)
              | inr (u, parsed) ↦
                  let same : ◌≡◌ {A = Request}
                      (record req {
                        uri = u;
                        headers =
                            remove (codes "accept-encoding")
                              (remove (codes "authorization") req.headers);
                      })
                      plain =
                    ground (arith, marked, other, parsed) in
                  subst (λ (r : Request). HasNoSignature r) same
                    (
                      rw (with_query u parsed) (split-cleaned_query (unwrap_or req.uri.query [])),
                      lookup-stripped req.headers,
                    )
            ]
      ]
