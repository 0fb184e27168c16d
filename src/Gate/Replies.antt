-- ===== src/Gate/Replies.antt =====
-- The responses of `request_filter`, and utils/response.rs.
use object_storage_proxy.Base.{
  ℕ, true, false, List, [], ◌∷◌, ◌++◌, map, if◌then◌else◌, Bytes, codes, beq, to_text, length,
  Assoc, insert,
}
use object_storage_proxy.Message.{Http}
use object_storage_proxy.Signing.Order.{sort}
use object_storage_proxy.CosMap.{CosMapItem}
use object_storage_proxy.Gate.World.{
  Write, response_header, response_body, error_response, Refusal, respond, failed,
}

-- `<osp⚡>`, in UTF-8
abbrev pub default_server_name : Bytes
default_server_name = codes "<osp" ++ (0xe2 ∷ 0x9a ∷ 0xa1 ∷ codes ">")

abbrev pub concat_text : List Bytes → Bytes
concat_text [] = []
concat_text (t ∷ ts) = t ++ concat_text ts

-- The header of a response names the server; an invalid name is an error.
abbrev pub when_valid : Http → List Write → Refusal
when_valid http writes = if http.is_header_value default_server_name then respond writes else failed

unfoldable pub write_error_response_with_header : Http → ℕ → Bytes → Refusal
write_error_response_with_header http status_code msg = when_valid http (
    response_header status_code
      (insert (codes "x-content-type-options") (codes "nosniff") (
        insert (codes "server") default_server_name
          (insert (codes "content-type") (codes "text/plain") [])))
      false
    ∷ response_body msg false
    ∷ error_response status_code msg
    ∷ [])

-- An XML document, behind its header.
abbrev pub xml_response : ℕ → Bytes → List Write
xml_response status xml =
    response_header status
      (insert (codes "content-length") (to_text (length xml)) (
        insert (codes "content-type") (codes "application/xml")
          (insert (codes "server") default_server_name [])))
      false
    ∷ response_body xml true
    ∷ []

abbrev pub bucket_entry : Bytes → Bytes
bucket_entry n =
    codes "<Bucket><Name>"
    ++ (n ++ codes "</Name><CreationDate>2000-01-01T00:00:00.000Z</CreationDate></Bucket>")

abbrev pub key_of : Bytes × CosMapItem → Bytes
key_of (bucket, item) = bucket

unfoldable pub list_buckets : Http → Assoc CosMapItem → Refusal
list_buckets http mapping =
    let entries = concat_text (map bucket_entry (sort (map key_of mapping))) in
    let body =
      codes
        "<?xml version=\"1.0\" encoding=\"UTF-8\"?><ListAllMyBucketsResult xmlns=\"http://s3.amazonaws.com/doc/2006-03-01/\"><Owner><ID>proxy</ID><DisplayName>proxy</DisplayName></Owner><Buckets>"
      ++ (entries ++ codes "</Buckets></ListAllMyBucketsResult>") in
    when_valid http (xml_response 200 body)

-- A response to HEAD has no body.
unfoldable pub no_such_bucket : Http → Bytes → Bytes → Refusal
no_such_bucket http method hdr_bucket =
    let xml =
      codes
        "<?xml version=\"1.0\" encoding=\"UTF-8\"?><Error><Code>NoSuchBucket</Code><Message>The specified bucket does not exist</Message><BucketName>"
      ++ (hdr_bucket ++ codes "</BucketName></Error>") in
    when_valid http (
      if beq method (codes "HEAD")
      then response_header 404 (insert (codes "server") default_server_name []) true ∷ []
      else xml_response 404 xml)
