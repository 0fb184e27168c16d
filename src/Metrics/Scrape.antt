-- ===== src/Metrics/Scrape.antt =====
-- The endpoint that Prometheus reads, and the sample of the memory (utils/metrics.rs).
use object_storage_proxy.Base.{
  ◌≡◌, Bool, true, false, ◌||◌, Option, none, some, List, [], ◌∷◌, ◌++◌, if◌then◌else◌, ◌==◌, Bytes,
  codes, is_empty, starts_with, contains, split, All, to_text, length, ◌>>=◌, ℕ, arith,
}

-- Space, tab, line feed, vertical tab, form feed, carriage return: the file has no other.
abbrev is_space : ℕ → Bool
is_space c = (c == 32) || ((c == 9) || ((c == 10) || ((c == 11) || ((c == 12) || (c == 13)))))

abbrev pub put_char : ℕ → List Bytes → List Bytes
put_char c [] = (c ∷ []) ∷ []
put_char c (word ∷ words) = (c ∷ word) ∷ words

-- The runs between white space, the empty ones too.
unfoldable pub runs : Bytes → List Bytes
runs [] = [] ∷ []
runs (c ∷ s) = let rest = runs s in if is_space c then [] ∷ rest else put_char c rest

-- split_whitespace
unfoldable pub words : List Bytes → List Bytes
words [] = []
words (run ∷ rest) = let others = words rest in if is_empty run then others else run ∷ others

abbrev pub second_word : List Bytes → Option Bytes
second_word (first ∷ second ∷ rest) = some second
second_word _ = none

-- Floating-point numbers and their text are the standard library's, on the machine's f64.
module _ {F : Type 0} (parse_f64 : Bytes → Option F) (times_1024 : F → F) where
  -- The line of the resident set: the gauge is set if its second word is a number.
  abbrev pub sample : Bytes → F → F
  sample line gauge = elim (do word ← second_word (words (runs line)); parse_f64 word) [
    | none ↦ gauge
    | some kb ↦ times_1024 kb
  ]

  unfoldable pub first_sample : List Bytes → F → F
  first_sample [] gauge = gauge
  first_sample (line ∷ lines) gauge =
      let later = first_sample lines gauge in
      if starts_with (codes "VmRSS:") line then sample line gauge else later

  -- The split at line feeds stands for `lines`, which also takes away a carriage return at the end of
  -- a line and an empty last line; neither makes a difference to the words.
  -- `update_memory_gauge` with the content of /proc/self/status, if it can be read; the gauge is
  -- MEMORY_BYTES.
  unfoldable pub update_memory_gauge : Option Bytes → F → F
  update_memory_gauge none gauge = gauge
  update_memory_gauge (some status) gauge = first_sample (split 10 status) gauge

  -- The lines before the line of the resident set do not matter, nor do those behind it.
  pub first_sample_at :
      (before after : List Bytes) (line : Bytes) (gauge : F)
      → All (λ (l : Bytes). starts_with (codes "VmRSS:") l ≡ false) before
      → starts_with (codes "VmRSS:") line ≡ true
      → first_sample (before ++ (line ∷ after)) gauge ≡ sample line gauge
  unfolding first_sample
  first_sample_at [] after line gauge none_before here = ground (arith, here)
  first_sample_at (l ∷ before) after line gauge none_before here =
      ground (arith, none_before.0, first_sample_at before after line gauge none_before.1 here)

-- `serve_metrics` for one connection: what is read is the text of its first 4096 bytes.
unfoldable pub scrape_answer : Bytes → Bytes → Bytes
scrape_answer req gathered =
    let found = contains (codes "GET /metrics") req in
    let status = if found then codes "200 OK" else codes "404 Not Found" in
    let body = if found then gathered else codes "not found\n" in
    codes "HTTP/1.1 "
    ++ (status
        ++ (codes "\r\nContent-Type: text/plain; version=0.0.4\r\nContent-Length: "
            ++ (to_text (length body) ++ (codes "\r\nConnection: close\r\n\r\n" ++ body))))
