-- ===== src/Lifecycle/Decision.antt =====
-- The steps of a request at the validator (lib.rs), and `get_or_validate` of utils/validator.rs: what
-- each look at the cache leads to.
use object_storage_proxy.Base.{
  ℕ, suc, ◌+◌, ◌≤◌, ◌<◌, ◌≡◌, inl, inr, refl, sym, ap, ◌∙◌, Bool, true, false, ◌&&◌, Option, none,
  some, [], arith, unwrap_or, Bytes, is_empty, Option-cases, Bool-cases, if◌then◌else◌, Assoc,
}
use object_storage_proxy.Base
use object_storage_proxy.External.{DateTime}
use object_storage_proxy.Message.{Request}
use object_storage_proxy.Path.Query.{parse_query}
use object_storage_proxy.Authorization.{
  fresh, remember, decided, Validated, get_or_validate, validate_locked,
}
use object_storage_proxy.Authorization
use object_storage_proxy.Gate.World.{Settings, World, failed, panic, next, stop, M}
use object_storage_proxy.Gate.Validate.{
  Instants, validate_request, details, effective_ttl, after_decision, ask_validator,
}
use object_storage_proxy.Gate.Filter.{Packages}
use object_storage_proxy.Lifecycle.Phases.{
  Question, missed, storing, judged, question_key, look, look_again,
}

module _ {C J : Type 0} (p : Packages C J) (settings : Settings) (now : DateTime) (times : Instants)
    (req : Request) where
  abbrev pub ask : Question → M C Bool
  ask q =
      ask_validator p.lru p.nom p.decode_segment p.web settings times q.callback
        (unwrap_or (Base.◌>>=◌ q.config (λ c. c.ttl)) 0) q.access_key q.bucket req

  abbrev pub ttl_of : Question → ℕ
  ttl_of q = effective_ttl (unwrap_or (Base.◌>>=◌ q.config (λ c. c.ttl)) 0)

  abbrev pub answer_to : Assoc Bytes → Question → Option Bool
  answer_to query_dict q =
      validate_request q.access_key q.bucket (details p.web req query_dict) q.callback
        (unwrap_or settings.validator_takes_request false)

  abbrev pub locked : Assoc Bytes → Question → M C Bool
  locked query_dict q w =
      after_decision p.lru
        (validate_locked p.lru (question_key p settings now times req q) (ttl_of q) times.looked
          times.written (answer_to query_dict q) w.auth_cache)
        w

  abbrev pub keep : Bool → Question → M C Bool
  keep authorized q w =
      elim (remember p.lru (question_key p settings now times req q) times.written (ttl_of q)
        authorized w.auth_cache) [
          | none ↦ stop panic w
          | some cache ↦ next authorized (record w { auth_cache = cache })
        ]

  abbrev pub decision_of : Assoc Bytes → Question → World C → Validated C
  decision_of query_dict q w =
      get_or_validate p.lru (question_key p settings now times req q) (ttl_of q) times.first
        times.looked times.written (answer_to query_dict q) w.auth_cache w.auth_cache

  abbrev pub locked_decision : Assoc Bytes → Question → World C → Validated C
  locked_decision query_dict q w =
      validate_locked p.lru (question_key p settings now times req q) (ttl_of q) times.looked
        times.written (answer_to query_dict q) w.auth_cache

  pub look_misses :
      (rest : Bytes) (query_dict : Assoc Bytes) (q : Question) (w : World C)
      → parse_query p.nom p.decode_segment (unwrap_or req.uri.query []) ≡ some (rest, query_dict)
      → fresh p.lru (question_key p settings now times req q) times.first w.auth_cache ≡ none
      → look p settings now times req q w ≡ next (missed query_dict q) w
  unfolding look
  look_misses rest query_dict q w parsed misses = ground (arith, parsed, misses)

  pub look_hits :
      (rest : Bytes) (query_dict : Assoc Bytes) (q : Question) (w : World C) (b : Bool)
      → parse_query p.nom p.decode_segment (unwrap_or req.uri.query []) ≡ some (rest, query_dict)
      → fresh p.lru (question_key p settings now times req q) times.first w.auth_cache ≡ some b
      → look p settings now times req q w ≡ next (judged b q) w
  unfolding look
  look_hits rest query_dict q w b parsed hits = ground (arith, parsed, hits)

  pub look_again_hits :
      (query_dict : Assoc Bytes) (q : Question) (w : World C) (b : Bool)
      → fresh p.lru (question_key p settings now times req q) times.looked w.auth_cache ≡ some b
      → look_again p settings now times req query_dict q w ≡ next (judged b q) w
  unfolding look_again
  look_again_hits query_dict q w b hits = ground (arith, hits)

  pub look_again_fails :
      (query_dict : Assoc Bytes) (q : Question) (w : World C)
      → fresh p.lru (question_key p settings now times req q) times.looked w.auth_cache ≡ none
      → answer_to query_dict q ≡ none
      → look_again p settings now times req query_dict q w ≡ stop failed w
  unfolding look_again
  look_again_fails query_dict q w misses fails = ground (arith, misses, fails)

  pub look_again_asks :
      (query_dict : Assoc Bytes) (q : Question) (w : World C) (b : Bool)
      → fresh p.lru (question_key p settings now times req q) times.looked w.auth_cache ≡ none
      → answer_to query_dict q ≡ some b
      → look_again p settings now times req query_dict q w ≡ next (storing b q) w
  unfolding look_again
  look_again_asks query_dict q w b misses says = ground (arith, misses, says)

  -- The one decision of `get_or_validate`, taken apart.
  module _ (query_dict : Assoc Bytes) (q : Question) (w : World C) where
    pub first_hit :
        (b : Bool)
        → fresh p.lru (question_key p settings now times req q) times.first w.auth_cache ≡ some b
        → decision_of query_dict q w
          ≡ record { verdict = decided b; cache = w.auth_cache; called = false }
    unfolding get_or_validate
    first_hit b hits = ground (arith, hits)

    pub first_miss :
        fresh p.lru (question_key p settings now times req q) times.first w.auth_cache ≡ none
        → decision_of query_dict q w ≡ locked_decision query_dict q w
    unfolding get_or_validate
    first_miss misses = ground (arith, misses)

    pub second_hit :
        (b : Bool)
        → fresh p.lru (question_key p settings now times req q) times.looked w.auth_cache ≡ some b
        → locked_decision query_dict q w
          ≡ record { verdict = decided b; cache = w.auth_cache; called = false }
    unfolding validate_locked
    second_hit b hits = ground (arith, hits)

    pub no_answer :
        fresh p.lru (question_key p settings now times req q) times.looked w.auth_cache ≡ none
        → answer_to query_dict q ≡ none
        → locked_decision query_dict q w
          ≡ record { verdict = Authorization.failed; cache = w.auth_cache; called = true }
    unfolding validate_locked
    no_answer misses fails = ground (arith, misses, fails)

    pub an_answer :
        (b : Bool)
        → fresh p.lru (question_key p settings now times req q) times.looked w.auth_cache ≡ none
        → answer_to query_dict q ≡ some b
        → after_decision p.lru (locked_decision query_dict q w) w ≡ keep b q w
    unfolding validate_locked
    an_answer b misses says =
        elim (Option-cases (
          remember p.lru (question_key p settings now times req q) times.written (ttl_of q) b
            w.auth_cache)) [
              | inl overflows ↦ ground (arith, misses, says, overflows)
              | inr (cache, kept) ↦ ground (arith, misses, says, kept)
            ]

    pub ask-parsed :
        (rest : Bytes)
        → parse_query p.nom p.decode_segment (unwrap_or req.uri.query []) ≡ some (rest, query_dict)
        → ask q w ≡ after_decision p.lru (decision_of query_dict q w) w
    unfolding ask_validator
    ask-parsed rest parsed = ground (arith, parsed)
