-- ===== src/Path/Query/Laws.antt =====
-- What `parse_query` makes of a query.
use object_storage_proxy.Base.{
  ℕ, zero, suc, ◌≤◌, ◌<◌, ◌≡◌, refl, ap, inl, inr, ◌&&◌, Option, some, List, [], ◌∷◌, arith, Bytes,
  codes, length, length-append, until, until_sound, strip_prefix, Assoc, contains, Option-cases,
  Bool-cases,
}
use object_storage_proxy.External.{Nom, Parser, separated_from}
use object_storage_proxy.Path.Query.{
  equals_first, take_until_either, key_with_value, bare_key, from_pairs, key_value_pair,
  parse_query,
}

-- A parser that takes nothing back.
abbrev pub NoLonger : {A : Type 0} → Parser A → Type 0
NoLonger {A} item = (s rest : Bytes) (a : A) → item s ≡ some (rest, a) → length rest ≤ length s

strip_prefix-NoLonger : (t s rest : Bytes) → strip_prefix t s ≡ some rest → length rest ≤ length s
strip_prefix-NoLonger [] s rest h = ground arith
strip_prefix-NoLonger (c ∷ t) [] rest h = cc
strip_prefix-NoLonger (c ∷ t) (d ∷ s) rest h = ground (arith, strip_prefix-NoLonger t s rest)

until-NoLonger :
    (t s before from : Bytes) → until t s ≡ some (before, from) → length from ≤ length s
until-NoLonger t s before from h =
    let (whole, _) = until_sound t s before from h in
    omega (arith, ap length whole, length-append before from)

take_until_either-NoLonger : (t : Bytes) → NoLonger (take_until_either t)
unfolding take_until_either
take_until_either-NoLonger t s rest taken h = elim (Option-cases (until t s)) [
  | inl without ↦ ground (arith, without)
  | inr ((before, from), found) ↦ ground (arith, found, until-NoLonger t s before from found)
]

module _ (nom : Nom) (decode_segment : Bytes → Option Bytes) where
  take_until-NoLonger : (t : Bytes) → NoLonger (nom.take_until t)
  take_until-NoLonger t s from before h = elim (Option-cases (until t s)) [
    | inl without ↦ ground (arith, nom.take_until_lem t s, without)
    | inr ((front, back), found) ↦
        ground (arith, nom.take_until_lem t s, found, until-NoLonger t s front back found)
  ]

  tag-NoLonger : (t : Bytes) → NoLonger (nom.tag t)
  tag-NoLonger t s rest taken h = elim (Option-cases (strip_prefix t s)) [
    | inl without ↦ ground (arith, nom.tag_lem t s, without)
    | inr (back, found) ↦
        ground (arith, nom.tag_lem t s, found, strip_prefix-NoLonger t s back found)
  ]

  key_with_value-NoLonger : NoLonger (key_with_value nom decode_segment)
  unfolding key_with_value
  key_with_value-NoLonger s rest pair h = elim (Option-cases (nom.take_until (codes "=") s)) [
    | inl fails ↦ ground (arith, fails)
    | inr ((at_equals, raw_key), e1) ↦ elim (Option-cases (decode_segment raw_key)) [
      | inl fails ↦ ground (arith, e1, fails)
      | inr (key, e2) ↦ elim (Option-cases (nom.tag (codes "=") at_equals)) [
        | inl fails ↦ ground (arith, e1, e2, fails)
        | inr ((behind, t), e3) ↦ elim (Option-cases (take_until_either (codes "&") behind)) [
          | inl fails ↦ ground (arith, e1, e2, e3, fails)
          | inr ((rest', raw_value), e4) ↦ elim (Option-cases (decode_segment raw_value)) [
            | inl fails ↦ ground (arith, e1, e2, e3, e4, fails)
            | inr (value, e5) ↦ ground (
              arith,
              e1,
              e2,
              e3,
              e4,
              e5,
              take_until-NoLonger _ _ _ _ e1,
              tag-NoLonger _ _ _ _ e3,
              take_until_either-NoLonger _ _ _ _ e4,
            )
          ]
        ]
      ]
    ]
  ]

  bare_key-NoLonger : NoLonger (bare_key nom decode_segment)
  unfolding bare_key
  bare_key-NoLonger s rest pair h = elim (Option-cases (take_until_either (codes "&") s)) [
    | inl fails ↦ ground (arith, fails)
    | inr ((rest', raw_key), e1) ↦ elim (Option-cases (decode_segment raw_key)) [
      | inl fails ↦ ground (arith, e1, fails)
      | inr (key, e2) ↦ ground (arith, e1, e2, take_until_either-NoLonger _ _ _ _ e1)
    ]
  ]

  key_value_pair-NoLonger : NoLonger (key_value_pair nom decode_segment)
  unfolding key_value_pair
  key_value_pair-NoLonger s rest pair h =
      elim (Bool-cases (contains (codes "=") s && equals_first s)) [
        | inl with_equals ↦ key_with_value-NoLonger s rest pair (ground (arith, with_equals))
        | inr bare ↦ bare_key-NoLonger s rest pair (ground (arith, bare))
      ]

  char-shorter : (c d : ℕ) (s rest : Bytes) → nom.char c s ≡ some (rest, d) → length rest < length s
  char-shorter c d [] rest h = ground (arith, nom.char_lem c [])
  char-shorter c d (b ∷ s) rest h = ground (arith, nom.char_lem c (b ∷ s))

  -- The rounds behind the first item never fail.
  separated_from_total :
      {A : Type 0} (n c : ℕ) (item : Parser A) (s : Bytes)
      → NoLonger item
      → (rest : Bytes) × (items : List A) × (separated_from n (nom.char c) item s
          ≡ some (rest, items))
  unfolding separated_from
  separated_from_total zero c item s shrinks = (s, [], refl)
  separated_from_total (suc n) c item s shrinks = elim (Option-cases (nom.char c s)) [
    | inl without ↦ (s, [], ground (arith, without))
    | inr ((s₁, d), e1) ↦ elim (Option-cases (item s₁)) [
      | inl fails ↦ (s, [], ground (arith, e1, fails))
      | inr ((s₂, a), e2) ↦
          let (rest, items, h) = separated_from_total n c item s₂ shrinks in
          (rest, a ∷ items, ground (arith, e1, e2, h, char-shorter c d s s₁ e1, shrinks s₁ s₂ a e2))
    ]
  ]

  -- `parse_query` has no errors: whatever the query, it gives a map and a rest that it has not
  -- read.
  pub parse_query_total :
      (input : Bytes)
      → (rest : Bytes) × (m : Assoc Bytes) × (parse_query nom decode_segment input ≡ some (rest, m))
  unfolding parse_query
  parse_query_total input = elim (Option-cases (key_value_pair nom decode_segment input)) [
    | inl fails ↦ (
      input,
      [],
      ground (
        arith,
        fails,
        nom.separated_list0_lem (nom.char b'&') (key_value_pair nom decode_segment) input,
      ),
    )
    | inr ((s, pair), e) ↦
        let (rest, items, h) =
          separated_from_total (length s) b'&' (key_value_pair nom decode_segment) s
            key_value_pair-NoLonger in
        (
          rest,
          from_pairs (pair ∷ items) [],
          ground (
            arith,
            e,
            h,
            nom.separated_list0_lem (nom.char b'&') (key_value_pair nom decode_segment) input,
          ),
        )
  ]
