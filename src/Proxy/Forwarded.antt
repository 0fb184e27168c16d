-- ===== src/Proxy/Forwarded.antt =====
-- Which headers reach the upstream.
use object_storage_proxy.Base.{
  ℕ, ◌≡◌, refl, ◌∙◌, not, ◌||◌, ◌&&◌, none, some, is_some, List, [], ◌∷◌, arith, if◌then◌else◌,
  ◌==◌, Bytes, codes, beq, beq_iff, Assoc, lookup, insert, remove, lookup-insert, lookup-remove,
}
use object_storage_proxy.Signing.AwsSign.{any_of}
use object_storage_proxy.Proxy.Target.{keep, to_remove, remove_all, response_filter}

lookup-remove_all :
    (names : List Bytes) (n : Bytes) (headers : Assoc Bytes)
    → lookup n (remove_all names headers) ≡ (if any_of names n then none else lookup n headers)
unfolding remove_all
lookup-remove_all [] n headers = refl
lookup-remove_all (m ∷ names) n headers =
    lookup-remove_all names n (remove m headers) ∙ ground (arith, lookup-remove m n headers)

any_of-to_remove :
    (n : Bytes) (headers : Assoc Bytes)
    → any_of (to_remove headers) n ≡ (not (keep n) && is_some (lookup n headers))
unfolding to_remove lookup
any_of-to_remove n [] = ground arith
any_of-to_remove n ((m, w) ∷ headers) = ground (arith, any_of-to_remove n headers, beq_iff m n)

-- A header reaches the upstream exactly where its name may be passed on: then with its value, and
-- any other is gone.
pub lookup-forwarded :
    (n : Bytes) (headers : Assoc Bytes)
    → lookup n (remove_all (to_remove headers) headers)
      ≡ (if keep n then lookup n headers else none)
lookup-forwarded n headers =
    ground (arith, lookup-remove_all (to_remove headers) n headers, any_of-to_remove n headers)

abbrev server : Bytes
server = codes "server"

abbrev content_type : Bytes
content_type = codes "content-type"

-- A response names the proxy as its server; where the upstream gave no content type and the status
-- is 200 or 206, its content type is `application/octet-stream`; every other header is as it was.
pub lookup-response_filter :
    (status : ℕ) (server_name n : Bytes) (headers : Assoc Bytes)
    → lookup n (response_filter status server_name headers) ≡ (
        if beq (codes "server") n
        then some server_name
        else if beq (codes "content-type") n
            && (not (is_some (lookup (codes "content-type") headers))
                && (status == 200 || status == 206))
        then some (codes "application/octet-stream")
        else lookup n headers)
unfolding response_filter
lookup-response_filter status server_name n headers =
    let named = insert server server_name (remove server headers) in
    ground (
      arith,
      lookup-insert server n server_name (remove server headers),
      lookup-insert server content_type server_name (remove server headers),
      lookup-remove server n headers,
      lookup-remove server content_type headers,
      lookup-insert content_type n (codes "application/octet-stream") named,
      beq_iff server n,
      beq_iff content_type n,
    )
