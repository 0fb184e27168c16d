-- ===== src/Examples/Metered.antt =====
-- Metrics of a server with a few requests.
use object_storage_proxy.Base.{
  ◌≡◌, refl, true, false, ◌||◌, ◌*◌, Option, none, some, List, [], ◌∷◌, ◌++◌, if◌then◌else◌, arith,
  Bytes, codes, beq, All, length, until, starts_with, to_text,
}
use object_storage_proxy.External.{documented_nom, span}
use object_storage_proxy.Path.{parse_path, path_parts, behind_bucket, recover_slash}
use object_storage_proxy.Metrics.Instruments.{
  Prometheus, Statics, elem, init_metrics, requests_total,
}
use object_storage_proxy.Base.{map}
use object_storage_proxy.Metrics.Init.{documented, init_metrics-Registered}
use object_storage_proxy.Metrics.Connections.{
  negsuc, dec, minus, Requests, Changes, come, logged_early, none_yet, after, Changes-gauge,
}
use object_storage_proxy.Metrics.Recorded.{bucket_label}
use object_storage_proxy.Metrics.Labels.{
  Exchange, recorded, added, requests_total_twice, bucket_label-parse_path,
  transfer_bytes_total-length, recorded_body,
}
use object_storage_proxy.Metrics.Instruments.{transfer_bytes_total}
use object_storage_proxy.Metrics.Scrape.{scrape_answer, update_memory_gauge}
use object_storage_proxy.Base.{split}
use object_storage_proxy.Metrics.Scrape.{runs, words, first_sample}

abbrev register : Bytes → List Bytes → Option (List Bytes)
register name r = if elem name r then none else some (name ∷ r)

register_new :
    (name : Bytes) (r : List Bytes)
    → elem name r ≡ false
    → (r' : List Bytes) × (register name r ≡ some r')
      × ((other : Bytes) → elem other r' ≡ (beq name other || elem other r))
register_new name r h = (name ∷ r, ground (arith, h), λ other. unfold elem in refl)

register_old : (name : Bytes) (r : List Bytes) → elem name r ≡ true → register name r ≡ none
register_old name r h = ground (arith, h)

abbrev names_only : Prometheus (List Bytes)
names_only = record {
  new = [];
  register = register;
  has = elem;
  fq_name = λ namespace name. namespace ++ (codes "_" ++ name);
  has-new = λ name. unfold elem in refl;
  register_new = register_new;
  register_old = register_old;
  fq_name_lem = λ namespace name some_space some_name. refl;
}

init_metrics-Registered_example :
    (s : Statics (List Bytes)) × (init_metrics names_only
        (record { registry = []; initialised = [] })
      ≡ some s)
    × (init_metrics names_only s ≡ some s)
    × ((name : Bytes) → elem name s.registry ≡ elem name (map (λ n. codes "osp_" ++ n) documented))
    × All (λ (n : Bytes). elem n s.registry ≡ false) documented
init_metrics-Registered_example = init_metrics-Registered names_only

-- One request that the filter has answered, and nothing else.
abbrev answered : Requests
answered = record { gauge = negsuc 0; waiting = 0; active = 0; ended_early = 1; retries = 0 }

answered_early : Changes answered
unfolding dec
answered_early = after (after none_yet come) (logged_early (omega arith))

Changes-gauge_example : negsuc 0 ≡ minus 0 1
Changes-gauge_example = Changes-gauge answered answered_early

abbrev exchange : Exchange
exchange = record {
  method = codes "GET";
  path = codes "/photos/cat";
  bucket = codes "photos";
  presigned = true;
  status = 404;
  content_length = some (codes "9");
}

requests_total_twice_run :
    added requests_total (recorded (exchange ∷ exchange ∷ []))
    ≡ 2 * length (exchange ∷ exchange ∷ [])
requests_total_twice_run = requests_total_twice (exchange ∷ exchange ∷ [])

bucket_label-parse_path_example : bucket_label (codes "/photos/cat") ≡ codes "photos"
bucket_label-parse_path_example =
    bucket_label-parse_path documented_nom (codes "/photos/cat") (codes "photos") (codes "/cat")
      (unfold parse_path path_parts behind_bucket recover_slash until starts_with span in refl)

transfer_bytes_total-length_run :
    added transfer_bytes_total
      (recorded_body (codes "/b/k") (some (codes "ab") ∷ none ∷ some (codes "c") ∷ []))
    ≡ 3
transfer_bytes_total-length_run =
    transfer_bytes_total-length (codes "/b/k") (some (codes "ab") ∷ none ∷ some (codes "c") ∷ [])

not_found :
    scrape_answer (codes "GET /") (codes "m 1")
    ≡ codes
        "HTTP/1.1 404 Not Found\r\nContent-Type: text/plain; version=0.0.4\r\nContent-Length: 10\r\nConnection: close\r\n\r\nnot found\n"
unfolding scrape_answer to_text until starts_with
not_found = refl

crlf : codes "\r\n" ≡ 13 ∷ 10 ∷ []
crlf = refl

memory_sampled :
    update_memory_gauge
      (λ word. some word)
      (λ kb. kb)
      (some (codes "Name: p\nVmRSS:\t 12 kB\nVmRSS: 3"))
      []
    ≡ codes "12"
unfolding update_memory_gauge first_sample split runs words starts_with
memory_sampled = refl
