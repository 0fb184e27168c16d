-- ===== src/Gate/Uses.antt =====
-- How often a presigned URL can be used: `request_filter`'s limit over a sequence of requests.
use object_storage_proxy.Base.{
  ℕ, ◌+◌, ◌-◌, ◌<◌, ◌≡◌, sym, subst, inl, inr, Bool, true, false, ◌&&◌, List, [], ◌∷◌, arith,
  if◌then◌else◌, ltb, usize_mod, Bytes, beq, beq_iff, Bool-cases,
}
use object_storage_proxy.Message.{uri_text, Request, Http}
use object_storage_proxy.Tracker.Counting.{count_of, count_of-track}
use object_storage_proxy.Gate.World.{Settings, World, Stage, next, stop}
use object_storage_proxy.Gate.Usage.{is_presigned_url, max_uses, usage_limit}

abbrev pub min : ℕ → ℕ → ℕ
min m n = if ltb m n then m else n

abbrev pub goes_on : {C A : Type 0} → Stage C A → Bool
goes_on (next a w) = true
goes_on (stop r w) = false

abbrev pub world_of : {C A : Type 0} → Stage C A → World C
world_of (next a w) = w
world_of (stop r w) = w

-- Whether a request is a use of the URL.
abbrev pub is_use : Bytes → Request → Bool
is_use url req = is_presigned_url req && beq (uri_text req.uri) url

abbrev pub one_if : Bool → ℕ
one_if b = if b then 1 else 0

abbrev pub uses : Bytes → List Request → ℕ
uses url [] = 0
uses url (req ∷ reqs) = one_if (is_use url req) + uses url reqs

one_more :
    (used passed : Bool) (c max n rest : ℕ)
    → passed ≡ (used && ltb c max)
    → rest ≡ min n (max - (c + one_if used))
    → one_if passed + rest ≡ min (one_if used + n) (max - c)
one_more used passed c max n rest h h' = ground arith

module _ {C : Type 0} (settings : Settings) (http : Http) where
  -- How many uses of the URL pass, of the requests one after another.
  abbrev pub passes : Bytes → List Request → World C → ℕ
  passes url [] w = 0
  passes url (req ∷ reqs) w =
      one_if (goes_on (usage_limit settings http req w) && is_use url req)
      + passes url reqs (world_of (usage_limit settings http req w))

  -- A use counts, and passes as long as the count stays within the limit; another request does not
  -- change the count.
  usage_limit-count :
      (url : Bytes) (req : Request) (w : World C)
      → count_of w.tracker url + 1 < usize_mod
      → (count_of (world_of (usage_limit settings http req w)).tracker url
          ≡ count_of w.tracker url + one_if (is_use url req))
        × ((goes_on (usage_limit settings http req w) && is_use url req)
            ≡ (is_use url req && ltb (count_of w.tracker url) (max_uses settings)))
  unfolding usage_limit
  usage_limit-count url req w fits = elim (Bool-cases (is_presigned_url req)) [
    | inr other ↦ ground (arith, other)
    | inl presigned ↦ elim (Bool-cases (beq (uri_text req.uri) url)) [
      | inr different ↦
          ground (arith, presigned, different, count_of-track w.tracker (uri_text req.uri) url fits)
      | inl same ↦ ground (
        arith,
        presigned,
        same,
        beq_iff (uri_text req.uri) url,
        count_of-track w.tracker (uri_text req.uri) url fits,
      )
    ]
  ]

  -- Of the uses of one presigned URL, as many pass as the limit leaves: with the count at `c`
  -- before, any sequence of requests in which the URL is used `n` times has `min n (max - c)` of
  -- them pass, as long as the count stays below 2^64.
  pub passes_lem :
      (url : Bytes) (reqs : List Request) (w : World C)
      → count_of w.tracker url + uses url reqs + 1 < usize_mod
      → passes url reqs w ≡ min (uses url reqs) (max_uses settings - count_of w.tracker url)
  passes_lem url [] w fits = ground arith
  passes_lem url (req ∷ reqs) w fits =
      let (counted, passed) = usage_limit-count url req w (omega arith) in
      let w' = world_of (usage_limit settings http req w) in
      let rest =
        passes_lem url reqs w'
          (subst (λ c. c + uses url reqs + 1 < usize_mod) (sym counted) (omega arith)) in
      one_more (is_use url req) _ (count_of w.tracker url) (max_uses settings) (uses url reqs) _
        passed
        (subst (λ c. passes url reqs w' ≡ min (uses url reqs) (max_uses settings - c)) counted rest)
