-- ===== src/Lib.antt =====
-- vaps stores payloads of virtual assets and serves them over HTTP. An upload goes through an upload
-- session or comes at once; its bytes are checked, put into the durable object store, kept in a cache
-- of files and described by a metadata record. A pull is answered from the memory cache, the files or
-- the object store, as a whole or for one range. Every request is attributed to a source, failed ones
-- are logged, and the dashboard pages through these stores and the log files.
--
-- Base, Text, Int64, Dict, Sorting, Paging, Http and Bucket are shared: lists over the native numbers,
-- Go strings as lists of bytes, int64 with its wrap-around and strconv's decimal numbers, maps, stable
-- sorting, pages of lists, what the handlers use of net/http, and a bucket of go.etcd.io/bbolt as a
-- record of operations and laws. The parts of the program:
--
-- - Cache: internal/cache/cache.go. A cache is its map from keys to list elements, its list with the
--   newest in front, and its counters; Add, Get, Has, Stats are add, get, has, stats. The loop of Add
--   runs on fuel: one more than the entries, since every round removes one. Cache/Lru has the
--   abstract cache, a list of entries.
-- - ByteRange: internal/httpapi/range.go. parseSingleRangeHeader is cut at its early returns into
--   parse_spec, parse_suffix, parse_from, parse_open and parse_closed.
-- - Reqlog: internal/reqlog/store.go. Record is add_record; the counters are 64 bits.
-- - Uploads: internal/uploadsession/store.go. The state is the database and the temporary files;
--   Append is append, append_to and append_file, one for each stage of its checks. Each call happens
--   at one time, and a transaction that returns an error leaves the database as it was.
-- - PullStats: internal/httpapi/pull_stats.go.
-- - Metadata: internal/metadata/store.go. The state is the database, the dashboard's index and the
--   flag of a running query.
-- - Blobs: internal/blobstore/store.go and internal/utils/iohash.go. The state is the files under the
--   cache's root; which operations of the file system succeed is an argument.
-- - Objects: internal/objectstore/store.go, the interface of the durable store: what Put accepts, Head
--   and Open answer.
-- - Payloads: internal/httpapi/storage.go, over Blobs, Objects and Metadata;
--   payloadRecord is in Payloads/Resolve.
-- - Pull: internal/httpapi/payload_pull.go. Pull has the answer behind a hit of the memory cache,
--   Pull/Opening openPayload with openDiskOrRemote, existsWithMetadata and markCached of handler.go,
--   Pull/Ranges openRemoteRange, Pull/Handlers getPullPayload, headPullPayload and pullPayload.
-- - Queries: parseMetadataQuery of internal/httpapi/handler.go with its helpers, and uniqueHashes.
-- - Requests: what the handlers read of a request, with queryHash, queryPayloadIdentity and writeJSON of
--   internal/httpapi/handler.go and isTusRequest and bearerToken of internal/httpapi/auth_helpers.go.
-- - Push: internal/httpapi/payload_push.go with the rest of auth_helpers.go, over Uploads.Store and
--   Payloads. The stores and what the handlers use of packages are the record Services, their state is
--   World, and what one request meets (time, random bytes, file system) is Env. Push/Handlers has
--   finalizeUpload and the checks of HEAD and DELETE, Push/Creations the handlers that create uploads,
--   Push/Patches tusPatchUpload, directPush and pushPayload.
-- - Recorders: the response writers of internal/httpapi/handler.go, http_meter.go and
--   error_recorder.go, each over any writer; a handler is the list of its calls.
-- - Middleware: HTTPHandler, which puts requestSources, AccessLog, httpMeter and errorRecorder around
--   the router.
-- - Meter: internal/httpmeter/meter.go. Meter/Reached has the interleavings of requests.
-- - Vcs: internal/metadata/vcs.go and internal/httpapi/metadata_v2.go.
-- - Config: internal/appconfig/config.go. Config/Args has FromArgsWithBaseDir and cli.go; the TOML
--   decoder, the flag parser, url.Parse and package filepath are the record Host.
-- - Sources: internal/auth/store.go. The state is the database and the activity of the process.
-- - Logreader: internal/logreader/reader.go. The scan keeps the sessions, their lines and whether the
--   last session is open.
-- - Tests: the parts on concrete inputs.
--
-- Locks are left out: each operation is one step. CRC-32C, SHA-256, random bytes, the regular
-- expressions, package time and the object store's backend are parameters. Texts are ASCII where the
-- program changes their case or trims them. Counts of things in memory are natural numbers. JSON
-- and base64 are parameters, and so are the texts of errors that come from a store. A request is one
-- step of the stores. Opening of databases, the dashboard's pages, the S3 client and
-- start-up are not modelled; the meter's Stats computes with floating point numbers and is left out.
pub mod Base
pub mod Text
pub mod Int64
pub mod Http
pub mod ByteRange
pub mod Cache
pub mod Config
pub mod Paging
pub mod Meter
pub mod Middleware
pub mod Queries
pub mod Recorders
pub mod Reqlog
pub mod Requests
pub mod Sorting
pub mod Dict
pub mod Bucket
pub mod Uploads
pub mod PullStats
pub mod Metadata
pub mod Blobs
pub mod Objects
pub mod Payloads
pub mod Sources
pub mod Vcs
pub mod Pull
pub mod Push
pub mod Logreader
pub mod Tests
