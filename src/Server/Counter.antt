-- ===== src/Server/Counter.antt =====
-- The counter of requests of lib.rs: `REQ_COUNTER` and `REQ_COUNTER_ENABLED`.
use object_storage_proxy.Base.{ℕ, ◌+◌, ◌%◌, Bool, true, false, if◌then◌else◌, usize_mod}

pub record Counter : Type 0 where
  pub enabled : Bool
  pub count : ℕ

abbrev pub fresh_counter : Counter
fresh_counter = record { enabled = false; count = 0 }

unfoldable pub enable_request_counting : Counter → Counter
enable_request_counting c = record c { enabled = true }

unfoldable pub disable_request_counting : Counter → Counter
disable_request_counting c = record c { enabled = false }

unfoldable pub get_request_count : Counter → ℕ
get_request_count c = c.count

-- At the start of `upstream_peer`; the sum wraps around.
unfoldable pub count_request : Counter → Counter
count_request c = if c.enabled then record c { count = (c.count + 1) % usize_mod } else c
