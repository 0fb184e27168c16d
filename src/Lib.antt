-- ===== src/Lib.antt =====
-- The object storage proxy: an S3 proxy that checks a client's signature and authorization, and
-- signs its requests again with the credentials of the upstream bucket. The paths below are those
-- of the repository.
--
-- Base holds what the parts share: tests on numbers, lists, byte texts, association lists and
-- UTF-8. A text is a list of bytes. External holds what comes from other packages, as parameters:
-- the parsers of nom with their documented behaviour, digests, dates, and URLs.
--
-- Streaming: uploads in aws-chunked framing (src/credentials/signer.rs, and request_body_filter of
-- src/lib.rs). Streaming.Hex and Streaming.Frame are the frame parser and printer, Streaming.State
-- is StreamingState, Streaming.Filter the handler, and Streaming.Chain the unused ChunkSigner. The
-- handler's loop runs on fuel, one more than the length of the buffer; every round takes at least
-- two bytes off it. Sums of lengths are reduced modulo 2^64, as the release build does.
--
-- Signing: SigV4 (src/credentials/signer.rs). Signing.Order sorts, Signing.Encode is uri_encode
-- and canonical_query_string, Signing.Key is signing_key with SIGNING_KEY_CACHE, Signing.AwsSign
-- is AwsSign. A function that uses the cache returns it beside its result.
--
-- Path is parse_path of src/parsers/path.rs, Path.Query parse_query. Credentials holds the header
-- parsers of src/parsers/credentials.rs, Credentials.Params parse_presigned_params. A panic is a
-- result of its own.
--
-- Message holds requests, with header names in lower case, and checks of the http crate.
-- Signing.Verify is the check of a client's signature, Signing.Presigned that of a presigned URL,
-- over an interface of the url and chrono crates, Signing.Specification the texts that are signed,
-- written apart from the signer, Signing.Resign the signing of requests for the upstream,
-- Signing.Wrap the unused wrap_streaming_body.
--
-- Proxy: the handlers of src/lib.rs. Proxy.Upstream is MyCtx and upstream_peer, Proxy.Rewrite
-- upstream_request_filter, of which Proxy.Target holds the rewriting of target and headers, with
-- response_filter. A handler returns the request, the context and the cache of signing keys; the
-- clocks and the answer of the IAM service are arguments. The laws are in Proxy.Routing,
-- Proxy.Forwarded and Proxy.Authenticated.
--
-- Tracker is UrlTracker of src/lib.rs. Secrets is SecretsCache of
-- src/credentials/secrets_proxy.rs: the clock and the answer of the IAM service are arguments;
-- Secrets.Bearer is get_bearer over a client of HTTP. Authorization is AuthCache of
-- src/utils/validator.rs over an interface of the lru crate, with instants in nanoseconds; a call
-- takes the cache as it is at its first look and as it is when it holds the lock of the key.
-- Authorization.Tasks has the same calls as tasks that run at once, one access of the shared
-- cache, the lock of a key or the clock at a step, in any order, with insert and invalidate in
-- between. CosMap is CosMapItem of src/parsers/cos_map.rs with BucketCredential of
-- src/credentials/models.rs, over an interface of serde_json.
--
-- Gate is request_filter of src/lib.rs, for one request at a time. Gate.World holds the context,
-- the state that all requests share and the form of a step, which goes on or stops with what is
-- written to the client; Gate.Usage is the limit on presigned URLs, Gate.Keys the check of a
-- signature, Gate.Validate the call of the validator (validate_request of src/utils/validator.rs),
-- Gate.Replies the responses, and Gate.Filter the handler. The Python callables are functions, and
-- the clocks arguments. Gate.Steps and Gate.Passed have the inversion of each step, Gate.Admission
-- and Gate.Through what a request that passes has shown, Gate.Uses the limit over many requests,
-- and Gate.Races the limit for requests that run at once.
--
-- Server is the start (src/lib.rs): Server.Objects what is taken from Python objects and
-- callable_accepts_request of src/utils/functions.rs, Server.Items parse_cos_map, Server.Keystore
-- parse_hmac_list of src/parsers/keystore.rs and HmacKeyStore, Server.Start ProxyServerConfig and
-- run_server up to the listeners, Server.Counter the counter of requests.
--
-- Examples holds concrete instances of the parameters, and runs.
--
-- Lifecycle is the server with many requests (src/lib.rs, MyProxy and MyCtx). Lifecycle.Phases
-- cuts request_filter into steps, which are made of the functions of Gate; Lifecycle.System has
-- the shared objects, the part of a context that is a request's own, and the moves: a request
-- arrives, makes a step, is refused, or is sent by upstream_request_filter, in any order. The
-- clocks may read anything at a step. upstream_peer, which changes nothing of this state, is left
-- out, and so is the lock of a decision's key, which only takes orders away. A request takes at
-- most fourteen steps. Lifecycle.Evidence states what a request has shown where it stands, and
-- Lifecycle.Invariant what holds of the whole server. Gate.Stages has the laws of such steps, and
-- Gate.DecisionKeys the keys of decisions.
--
-- Metrics is src/utils/metrics.rs and where src/lib.rs records metrics: Metrics.Instruments the
-- instruments and init_metrics over an interface of the prometheus crate, Metrics.Recorded what
-- the handlers record, as data, Metrics.Connections the gauge of connections, Metrics.Scrape the
-- sample of the memory and the answer of the endpoint.
--
-- Not modelled: logging and tracing, the text format of the metrics and their sockets, the banner,
-- the registration of the Python module, and the packages that the program uses: pingora, pyo3,
-- tokio, nom, ring, chrono, url, lru, serde_json, prometheus and reqwest are parameters.
pub mod Authorization
pub mod Base
pub mod CosMap
pub mod Credentials
pub mod Examples
pub mod External
pub mod Gate
pub mod Lifecycle
pub mod Message
pub mod Metrics
pub mod Path
pub mod Proxy
pub mod Secrets
pub mod Server
pub mod Signing
pub mod Streaming
pub mod Tracker
