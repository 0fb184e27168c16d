-- ===== src/Tracker/Counting.antt =====
-- The tracker counts.
use object_storage_proxy.Base.{
  ℕ, ◌+◌, ◌%◌, ◌<◌, ◌≡◌, List, [], ◌∷◌, arith, if◌then◌else◌, unwrap_or, usize_mod, Bytes, beq,
  beq_iff, lookup, lookup-insert,
}
use object_storage_proxy.Tracker.{UrlTracker, track, get}

abbrev pub count_of : UrlTracker → Bytes → ℕ
count_of t url = unwrap_or (get t url) 0

abbrev pub track_all : UrlTracker → List Bytes → UrlTracker
track_all t [] = t
track_all t (url ∷ urls) = track_all (track t url) urls

abbrev pub occurrences : Bytes → List Bytes → ℕ
occurrences url [] = 0
occurrences url (u ∷ us) = (if beq u url then 1 else 0) + occurrences url us

pub count_of-track :
    (t : UrlTracker) (u url : Bytes)
    → count_of t url + 1 < usize_mod
    → count_of (track t u) url ≡ count_of t url + (if beq u url then 1 else 0)
unfolding track get
count_of-track t u url fits = ground (
  arith,
  lookup-insert u url ((unwrap_or (lookup u t.counts) 0 + 1) % usize_mod) t.counts,
  beq_iff u url,
)

-- After any uses of any URLs, each URL's count has grown by the number of its own uses, as long as
-- that stays below 2^64.
pub count_of-track_all :
    (urls : List Bytes) (t : UrlTracker) (url : Bytes)
    → count_of t url + occurrences url urls + 1 < usize_mod
    → count_of (track_all t urls) url ≡ count_of t url + occurrences url urls
count_of-track_all [] t url fits = omega arith
count_of-track_all (u ∷ us) t url fits =
    ground (arith, count_of-track t u url, count_of-track_all us (track t u) url)
