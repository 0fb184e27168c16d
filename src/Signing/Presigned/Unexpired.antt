-- ===== src/Signing/Presigned/Unexpired.antt =====
-- A presigned URL is not accepted when its time is over.
use object_storage_proxy.Base.{
  ◌≤◌, ◌<◌, ◌⊎◌, ◌≡◌, ◌≢◌, refl, true, Option, none, some, arith, Bytes, codes, lookup,
  Option-cases, inl, inr,
}
use object_storage_proxy.External.{Crypto, Calendar, DateTime, Nom, Web}
use object_storage_proxy.Message.{Request, Http}
use object_storage_proxy.Signing.Key.{KeyCache}
use object_storage_proxy.Signing.Verify.{answered}
use object_storage_proxy.Signing.Presigned.{
  Seconds, UrlText, parse_i64, Presented, Expiry, unexpired, expired, malformed, overflow,
  expiry_of, checked, has_expired, presented, core_presigned, signature_is_valid_for_presigned,
}

-- Within the time that the URL states, if it states one.
abbrev pub InTime : UrlText → DateTime → Presented → Type 0
InTime urls now p =
    (lookup (codes "X-Amz-Expires") p.params ≡ none)
    ⊎ ((text : Bytes) × (secs : Seconds) × (expiry : DateTime) × (lookup (codes "X-Amz-Expires")
            p.params
          ≡ some text)
        × (parse_i64 text ≡ some secs)
        × (urls.add_seconds p.datetime secs ≡ some expiry)
        × (now ≤ expiry))

expiry_of-unexpired :
    (urls : UrlText) (now : DateTime) (p : Presented)
    → expiry_of urls now p ≡ unexpired
    → InTime urls now p
unfolding expiry_of
expiry_of-unexpired urls now p h = elim (Option-cases (lookup (codes "X-Amz-Expires") p.params)) [
  | inl silent ↦ inl silent
  | inr (text, found) ↦ elim (Option-cases (parse_i64 text)) [
    | inl bad ↦ ground (arith, found, bad, h)
    | inr (secs, parsed) ↦ elim (Option-cases (urls.add_seconds p.datetime secs)) [
      | inl far ↦ ground (arith, found, parsed, far, h)
      | inr (expiry, added) ↦
          inr (text, secs, expiry, found, parsed, added, ground (arith, found, parsed, added, h))
    ]
  ]
]

Expiry-cases : (e : Expiry) → (e ≡ unexpired) ⊎ (e ≢ unexpired)
Expiry-cases unexpired = inl refl
Expiry-cases expired = inr (λ e. cc)
Expiry-cases malformed = inr (λ e. cc)
Expiry-cases overflow = inr (λ e. cc)

module _ (crypto : Crypto) (calendar : Calendar) (web : Web) (nom : Nom)
    (parse_datetime : Bytes → Option DateTime) (http : Http) (urls : UrlText) where
  -- A presigned request is accepted only with everything that its signature covers, within the
  -- time that its URL states (if it states one, in seconds that are read as an i64), and by the
  -- check of its signature.
  pub signature_is_valid_for_presigned_sound :
      (now : DateTime) (req : Request) (secret_key : Bytes) (cache : KeyCache)
      → (signature_is_valid_for_presigned crypto calendar web nom parse_datetime http urls now req
          secret_key cache).0
        ≡ checked (answered true)
      → (p : Presented) × (presented crypto calendar web nom parse_datetime http urls req ≡ some p)
        × InTime urls now p
        × ((core_presigned crypto calendar web nom parse_datetime http urls p req secret_key
              cache).0
            ≡ checked (answered true))
  unfolding signature_is_valid_for_presigned
  signature_is_valid_for_presigned_sound now req secret_key cache h =
      elim (Option-cases (presented crypto calendar web nom parse_datetime http urls req)) [
        | inl bad ↦ ground arith
        | inr (p, found) ↦ elim (Expiry-cases (expiry_of urls now p)) [
          | inl early ↦ (p, found, expiry_of-unexpired urls now p early, ground arith)
          | inr late ↦ ground arith
        ]
      ]

  -- Once the time that a URL states is over, the answer is that it has expired, whatever its
  -- signature; the cache is not touched.
  pub signature_is_valid_for_presigned_late :
      (now : DateTime) (req : Request) (secret_key : Bytes) (cache : KeyCache) (p : Presented)
      (text : Bytes) (secs : Seconds) (expiry : DateTime)
      → presented crypto calendar web nom parse_datetime http urls req ≡ some p
      → lookup (codes "X-Amz-Expires") p.params ≡ some text
      → parse_i64 text ≡ some secs
      → urls.add_seconds p.datetime secs ≡ some expiry
      → expiry < now
      → signature_is_valid_for_presigned crypto calendar web nom parse_datetime http urls now req
          secret_key cache
        ≡ (has_expired, cache)
  unfolding signature_is_valid_for_presigned expiry_of
  signature_is_valid_for_presigned_late now req sk cache p text secs expiry found stated parsed
        added late =
      ground (arith, found, stated, parsed, added)
