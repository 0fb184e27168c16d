-- ===== src/Tracker.antt =====
-- `UrlTracker` of lib.rs: how often each presigned URL has been used.
pub mod Counting
use object_storage_proxy.Base.{
  ℕ, ◌+◌, ◌%◌, Option, none, some, List, [], ◌∷◌, unwrap_or, usize_mod, Bytes, Assoc, lookup,
  insert,
}

pub record UrlTracker : Type 0 where
  pub counts : Assoc ℕ

abbrev pub new : UrlTracker
new = record { counts = [] }

-- `*entry(url).or_insert(0) += 1`
unfoldable pub track : UrlTracker → Bytes → UrlTracker
track t url = record {
  counts = insert url ((unwrap_or (lookup url t.counts) 0 + 1) % usize_mod) t.counts;
}

unfoldable pub get : UrlTracker → Bytes → Option ℕ
get t url = lookup url t.counts

-- The order of the entries is that of the map.
unfoldable pub get_all : UrlTracker → List (Bytes × ℕ)
get_all t = t.counts
