-- ===== src/Gate/Races.antt =====
-- The limit of `request_filter` on a presigned URL, with requests that run at once: a request is
-- counted at one step and looks at the count at a later one.
use object_storage_proxy.Base.{
  ℕ, ◌+◌, ◌-◌, ◌≤◌, ◌<◌, ◌≡◌, true, false, arith, ltb, usize_mod, Bytes, beq,
}
use object_storage_proxy.Message.{uri_text, Request}
use object_storage_proxy.Tracker.{UrlTracker, track}
use object_storage_proxy.Tracker.Counting.{count_of, count_of-track}
use object_storage_proxy.Gate.World.{Settings}
use object_storage_proxy.Gate.Usage.{max_uses}
use object_storage_proxy.Gate.Uses.{is_use}

-- The uses of one URL: those that are counted and have not looked yet, and those that have passed.
pub record Race : Type 0 where
  pub tracker : UrlTracker
  pub pending : ℕ
  pub passed : ℕ

module _ (settings : Settings) (url : Bytes) where
  pub data RaceStep (s : Race) : Race → Type 0 where
    counted :
        (req : Request)
        → is_use url req ≡ true
        → count_of s.tracker url + 1 < usize_mod
        → RaceStep s
            (record s { tracker = track s.tracker (uri_text req.uri); pending = s.pending + 1 })
    counted_other :
        (other : Bytes)
        → beq other url ≡ false
        → count_of s.tracker url + 1 < usize_mod
        → RaceStep s (record s { tracker = track s.tracker other })
    pass :
        0 < s.pending
        → ltb (max_uses settings) (count_of s.tracker url) ≡ false
        → RaceStep s (record s { pending = s.pending - 1; passed = s.passed + 1 })
    deny :
        0 < s.pending
        → ltb (max_uses settings) (count_of s.tracker url) ≡ true
        → RaceStep s (record s { pending = s.pending - 1 })

  pub data RaceReach (t : UrlTracker) : Race → Type 0 where
    race_start : RaceReach t (record { tracker = t; pending = 0; passed = 0 })
    race_later : {s u : Race} → RaceReach t s → RaceStep s u → RaceReach t u

  -- Every use that has passed or may still pass is in the count.
  abbrev Bounded : UrlTracker → Race → Type 0
  Bounded t s =
      (count_of t url + s.passed + s.pending ≤ count_of s.tracker url)
      × (s.passed ≤ max_uses settings - count_of t url)

  RaceStep-Bounded : (t : UrlTracker) (s u : Race) → RaceStep s u → Bounded t s → Bounded t u
  RaceStep-Bounded t s u (counted req used fits) (below, few) =
      (ground (arith, used, count_of-track s.tracker (uri_text req.uri) url fits), few)
  RaceStep-Bounded t s u (counted_other other differs fits) (below, few) =
      (ground (arith, count_of-track s.tracker other url fits), few)
  RaceStep-Bounded t s u (pass waiting free) (below, few) = (omega arith, ground arith)
  RaceStep-Bounded t s u (deny waiting full) (below, few) = (omega arith, few)

  -- Requests that use one presigned URL at once do not get past its limit: with the count at `c`
  -- before, at most `max - c` uses of the URL pass, in whatever order the requests are counted and
  -- look at the count, as long as the count stays below 2^64.
  pub RaceReach-passed :
      (t : UrlTracker) (s : Race) → RaceReach t s → s.passed ≤ max_uses settings - count_of t url
  RaceReach-passed t s r = (reach_bounded t s r).1
    where
      reach_bounded : (t : UrlTracker) (s : Race) → RaceReach t s → Bounded t s
      reach_bounded t s race_start = (omega arith, omega arith)
      reach_bounded t s (race_later {s = before} r step) =
          RaceStep-Bounded t before s step (reach_bounded t before r)
