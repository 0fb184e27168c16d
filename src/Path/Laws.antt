-- ===== src/Path/Laws.antt =====
-- What `parse_path` makes of a path.
use object_storage_proxy.Base.{
  ℕ, suc, ◌≤◌, ◌≡◌, ◌≢◌, ◌⊎◌, inl, inr, refl, sym, ap, ◌∙◌, true, Option, some, [], ◌∷◌, ◌++◌,
  append-nil, arith, ◌>>=◌, Bytes, codes, find, contains, drop-append_length, until, until_sound,
  until_extend, drop, length, length-append, length-drop, Lacks, Option-cases,
}
use object_storage_proxy.External.{Nom, span}
use object_storage_proxy.Path.{
  Parsed, ok, err, panic, slash, not_slash, on_boundary, recover_slash, behind_bucket, path_parts,
  parse_path, with_path,
}

span-Lacks :
    (b rest : Bytes) → Lacks slash b → span not_slash (b ++ (slash ∷ rest)) ≡ (b, slash ∷ rest)
unfolding span
span-Lacks [] rest l = refl
span-Lacks (c ∷ b) rest l = ground (arith, span-Lacks b rest l.1)

span_end : (b : Bytes) → Lacks slash b → span not_slash b ≡ (b, [])
unfolding span
span_end [] l = refl
span_end (c ∷ b) l = ground (arith, span_end b l.1)

span_sound :
    (s : Bytes)
    → (s ≡ (span not_slash s).0 ++ (span not_slash s).1) × Lacks slash (span not_slash s).0
unfolding span
span_sound [] = (refl, tt)
span_sound (c ∷ s) = ground (arith, span_sound s)

abbrev key_path : Bytes → Bytes → Bytes
key_path bucket key = slash ∷ (bucket ++ (slash ∷ key))

recover_slash_at :
    (rest input : Bytes) (i : ℕ)
    → find rest input ≡ some (suc i)
    → recover_slash rest input ≡ on_boundary (drop i input)
unfolding recover_slash
recover_slash_at rest input i e = rw (e, recover_slash)

recover_slash_zero :
    (rest input : Bytes) → find rest input ≡ some 0 → recover_slash rest input ≡ panic
unfolding recover_slash
recover_slash_zero rest input e = rw (e, recover_slash)

with_path-injective :
    (bucket : Bytes) (r : Parsed Bytes) (path : Bytes)
    → with_path bucket r ≡ ok (bucket, path)
    → r ≡ ok path
with_path-injective bucket (ok p) path h = ground arith
with_path-injective bucket err path h = cc
with_path-injective bucket panic path h = cc

on_boundary-ok : (s t : Bytes) → on_boundary s ≡ ok t → s ≡ t
on_boundary-ok [] t h = ground arith
on_boundary-ok (c ∷ s) t h = ground arith

-- An occurrence before the key's own place is recovered wrongly.
repeated_at :
    (bucket key before : Bytes)
    → find key (key_path bucket key) ≡ some (length before)
    → length before ≤ suc (length bucket)
    → recover_slash key (key_path bucket key) ≢ ok (slash ∷ key)
repeated_at bucket key [] e short h = let p = recover_slash_zero key (key_path bucket key) e in cc
repeated_at bucket key (c ∷ b) e short h =
    let p = recover_slash_at key (key_path bucket key) (length b) e in
    let q = on_boundary-ok (drop (length b) (key_path bucket key)) (slash ∷ key) (sym p ∙ h) in
    omega (
      arith,
      ap length q,
      length-drop {0} (length b) (key_path bucket key),
      length-append {0} bucket (slash ∷ key),
    )

module _ (nom : Nom) where
  path_parts_key :
      (bucket key : Bytes)
      → bucket ≢ []
      → Lacks slash bucket
      → path_parts nom (key_path bucket key) ≡ some (bucket, key)
  unfolding path_parts behind_bucket
  path_parts_key [] key nb l = absurd (nb refl)
  path_parts_key (c ∷ b) key nb l = ground (
    arith,
    nom.char_lem slash (key_path (c ∷ b) key),
    nom.take_while1_lem not_slash ((c ∷ b) ++ (slash ∷ key)),
    span-Lacks (c ∷ b) key l,
    nom.char_lem slash (slash ∷ key),
  )

  path_parts_bucket :
      (bucket : Bytes)
      → bucket ≢ []
      → Lacks slash bucket
      → path_parts nom (slash ∷ bucket) ≡ some (bucket, [])
  unfolding path_parts behind_bucket
  path_parts_bucket [] nb l = absurd (nb refl)
  path_parts_bucket (c ∷ b) nb l = ground (
    arith,
    nom.char_lem slash (slash ∷ c ∷ b),
    nom.take_while1_lem not_slash (c ∷ b),
    span_end (c ∷ b) l,
    nom.char_lem slash [],
  )

  sound_split :
      (c : ℕ) (s run after bucket rest : Bytes)
      → span not_slash s ≡ (run, after)
      → s ≡ run ++ after
      → path_parts nom (c ∷ s) ≡ some (bucket, rest)
      → (bucket ≢ []) × (run ≡ bucket) × ((c ∷ s ≡ slash ∷ bucket) ⊎ (c ∷ s ≡ key_path bucket rest))
  unfolding path_parts behind_bucket
  sound_split c s [] after bucket rest e whole h =
      ground (arith, nom.char_lem slash (c ∷ s), nom.take_while1_lem not_slash s)
  sound_split c s (r ∷ run) [] bucket rest e whole h = ground (
    arith,
    nom.char_lem slash (c ∷ s),
    nom.take_while1_lem not_slash s,
    nom.char_lem slash [],
    append-nil (r ∷ run),
  )
  sound_split c s (r ∷ run) (d ∷ after) bucket rest e whole h = ground (
    arith,
    nom.char_lem slash (c ∷ s),
    nom.take_while1_lem not_slash s,
    nom.char_lem slash (d ∷ after),
  )

  path_parts_sound :
      (input bucket rest : Bytes)
      → path_parts nom input ≡ some (bucket, rest)
      → (bucket ≢ [])
        × Lacks slash bucket
        × ((input ≡ slash ∷ bucket) ⊎ (input ≡ key_path bucket rest))
  path_parts_sound [] bucket rest h = unfold path_parts in ground (arith, nom.char_lem slash [])
  path_parts_sound (c ∷ s) bucket rest h =
      let (whole, clean) = span_sound s in
      let (some_bucket, same, shape) =
        sound_split c s (span not_slash s).0 (span not_slash s).1 bucket rest refl whole h in
      (some_bucket, rw same at clean, shape)

  -- Whatever path `parse_path` accepts, its bucket is the part between the first slash and the
  -- second or the end: it is not empty, holds no slash, and the path begins with it.
  pub parse_path-bucket :
      (input bucket path : Bytes)
      → parse_path nom input ≡ ok (bucket, path)
      → (bucket ≢ [])
        × Lacks slash bucket
        × ((input ≡ slash ∷ bucket)
            ⊎ ((rest : Bytes) × (input ≡ slash ∷ (bucket ++ (slash ∷ rest)))))
  unfolding parse_path
  parse_path-bucket input bucket path h = elim (Option-cases (path_parts nom input)) [
    | inl bad ↦ ground arith
    | inr ((b, rest), good) ↦
        let same : b ≡ bucket = ground arith in
        let (nonempty, clean, shape) = rw same at (path_parts_sound input b rest good) in
        (nonempty, clean, elim shape [ inl e ↦ inl e | inr e ↦ inr (rest, e) ])
  ]

  -- A bucket with no key has the path `/`, with and without a slash behind it.
  pub parse_path_root :
      (bucket : Bytes)
      → bucket ≢ []
      → Lacks slash bucket
      → (parse_path nom (slash ∷ bucket) ≡ ok (bucket, codes "/"))
        × (parse_path nom (slash ∷ (bucket ++ codes "/")) ≡ ok (bucket, codes "/"))
  unfolding parse_path
  parse_path_root bucket nb l =
      (ground (arith, path_parts_bucket bucket nb l), ground (arith, path_parts_key bucket [] nb l))

  parse_path_recovers :
      (bucket key : Bytes)
      → bucket ≢ []
      → Lacks slash bucket
      → key ≢ []
      → parse_path nom (key_path bucket key)
        ≡ with_path bucket (recover_slash key (key_path bucket key))
  unfolding parse_path
  parse_path_recovers bucket [] nb l nk = absurd (nk refl)
  parse_path_recovers bucket (c ∷ key) nb l nk =
      ground (arith, path_parts_key bucket (c ∷ key) nb l)

  -- Where the key occurs in the path for the first time at its own place, its path is the key
  -- behind a slash.
  pub parse_path_first :
      (bucket key : Bytes)
      → bucket ≢ []
      → Lacks slash bucket
      → key ≢ []
      → find key (slash ∷ (bucket ++ (slash ∷ key))) ≡ some (suc (suc (length bucket)))
      → parse_path nom (slash ∷ (bucket ++ (slash ∷ key))) ≡ ok (bucket, slash ∷ key)
  parse_path_first bucket key nb l nk e =
      parse_path_recovers bucket key nb l nk
      ∙ ap (with_path bucket) (
          recover_slash_at key (key_path bucket key) (suc (length bucket)) e
          ∙ ap on_boundary (drop-append_length bucket (slash ∷ key)))

  -- A key that also occurs in `/bucket` gets another path, or makes the parser panic: no such
  -- request has the path that was asked for.
  pub parse_path_repeated :
      (bucket key : Bytes)
      → bucket ≢ []
      → Lacks slash bucket
      → key ≢ []
      → contains key (slash ∷ bucket) ≡ true
      → parse_path nom (slash ∷ (bucket ++ (slash ∷ key))) ≢ ok (bucket, slash ∷ key)
  parse_path_repeated bucket key nb l nk inside e =
      elim (Option-cases (until key (slash ∷ bucket))) [
        | inl missing ↦ ground arith
        | inr ((before, from), found) ↦
            let here =
              ap (λ (o : Option (Bytes × Bytes)). (do (b, _) ← o; some (length b)))
                (until_extend key (slash ∷ bucket) (slash ∷ key) before from found) in
            let whole = (until_sound key (slash ∷ bucket) before from found).0 in
            repeated_at bucket key before here
              (omega (arith, ap length whole, length-append {0} before from))
              (with_path-injective bucket _ (slash ∷ key)
                (sym (parse_path_recovers bucket key nb l nk) ∙ e))
      ]
