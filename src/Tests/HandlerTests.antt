-- ===== src/Tests/HandlerTests.antt =====
-- A request through the recorders, the meter of two requests, and a posted record.
use vaps.Base.{
  ◌≡◌, ◌<◌, ◌^◌, refl, ap, false, true, Option, none, some, List, [], ◌∷◌, length, arith,
  Bool-cases, inl, inr,
}
use mathlib.Core.List.{Memᴰ}
use vaps.Text.{Bytes, codes, same, same→eq, to_lower, trim_space}
use vaps.Int64.{pos}
use vaps.Dict.{Dict, lookup}
use vaps.Bucket.{memory_bucket}
use vaps.Http.{Response, empty_response, write_header, write, set_header}
use vaps.Requests.{Request, get, post, query_value, write_json}
use vaps.Reqlog
use vaps.Sources.{Token}
use vaps.Blobs.{valid_hash}
use vaps.Recorders.{Call, status, content, serve, response_writer}
use vaps.Metadata.{PayloadQuery}
use vaps.Queries.{Values, ok, parse_metadata_query, values_of}
use vaps.Queries.Accepted.{Accepted, parse_metadata_query-Accepted}
use vaps.Meter.{Meter, Sample, new_meter, begin, finish}
use vaps.Meter.Reached.{Reached, start, begun, ended, Balanced, Reached-Balanced}
use vaps.Middleware.{Peer, Server, http_handler}
use vaps.Middleware.Observed.{Observed, http_handler-Observed}
use vaps.Vcs.{VcsRecord, VcsRequest, post_vcs_metadata}
use vaps.Vcs.Stored.{Found, get_vcs_metadata-Found}

abbrev slow_request : Sample
slow_request = record { status = pos 404; duration = pos 5; bytes_in = pos 0; bytes_out = pos 9 }

abbrev two_begun : Meter
two_begun = begin (begin new_meter)

one_ended : Reached 2 (slow_request ∷ []) (finish 7 slow_request two_begun)
one_ended =
    ended 2 [] two_begun 7 slow_request (omega arith)
      (begun 1 [] (begin new_meter) (begun 0 [] new_meter start))

Reached-Balanced_example : Balanced 2 (slow_request ∷ []) (finish 7 slow_request two_begun)
Reached-Balanced_example =
    Reached-Balanced 2 (slow_request ∷ []) (finish 7 slow_request two_begun) one_ended (omega arith)

abbrev pull_request : Request
pull_request = record {
  method = get;
  path = codes "/v2/payload/pull";
  headers = [];
  query = [];
  content_length = pos 0;
  body = record { content = []; broken = false };
}

abbrev peer : Peer
peer = record { remote_addr = codes "10.0.0.1"; user_agent = codes "UE"; method_name = codes "GET" }

abbrev idle_server : Server (Dict Token)
idle_server = record {
  meter = new_meter;
  reqlog = Reqlog.new (pos 3);
  auth = record { db = []; activity = [] };
}

abbrev missing : List Call
missing = status 404 ∷ content (codes "no") ∷ []

missing_short : length (serve response_writer missing empty_response).body < 2 ^ 63
unfolding serve write write_header
missing_short = omega arith

http_handler-Observed_example :
    Observed
      (λ ip. false)
      (λ a. none)
      (memory_bucket Token)
      (λ t. t)
      (pos 0)
      true
      7
      (pos 5)
      pull_request
      peer
      idle_server
      (serve response_writer missing empty_response)
      (http_handler
        (λ ip. false)
        (λ a. none)
        (memory_bucket Token)
        (λ t. t)
        (pos 0)
        true
        7
        (pos 5)
        pull_request
        peer
        missing
        idle_server)
http_handler-Observed_example =
    http_handler-Observed (λ ip. false) (λ a. none) (memory_bucket Token) (λ t. t) (pos 0) true 7
      (pos 5) pull_request peer missing idle_server missing_short

abbrev hash : Bytes
hash = codes "0123456789abcdef0123456789abcdef01234567"

abbrev vcs_request : VcsRequest
vcs_request = record {
  payload_hash = hash;
  vcs_type = codes "Git";
  repo = codes "r";
  revision = codes "1";
  path = codes "p";
  asset_id = [];
  metadata = none;
}

abbrev decode : Bytes → Option VcsRequest
decode text = some vcs_request

abbrev vcs_post : Request
vcs_post = record pull_request { method = post; path = codes "/v2/metadata" }

abbrev vcs_get : Request
vcs_get = record pull_request {
  path = codes "/v2/metadata";
  query = (codes "payload_hash", hash) ∷ [];
}

abbrev posted : Dict VcsRecord × Response
posted =
    post_vcs_metadata (memory_bucket VcsRecord) true decode (λ r. r.key) (λ rs. []) [] vcs_post 7 []
      [] empty_response

posted_status : posted.1.status ≡ some 201
unfolding post_vcs_metadata valid_hash to_lower trim_space same write_json write set_header
posted_status = refl

-- ForEach visits what Get finds.
memory_entries :
    (k : Bytes) (r : VcsRecord) (d : Dict VcsRecord)
    → (memory_bucket VcsRecord).get k d ≡ some r
    → Memᴰ (k, r) d
unfolding lookup
memory_entries k r [] h = absurd (ground arith)
memory_entries k r ((j, s) ∷ d) h = elim (Bool-cases (same j k)) [
  | inl e ↦ Memᴰ.head (ground (arith, same→eq j k))
  | inr e ↦ Memᴰ.tail (memory_entries k r d (ground arith))
]

same_hash :
    (request : VcsRequest)
    → decode vcs_post.body.content ≡ some request
    → to_lower (trim_space (query_value (codes "payload_hash") vcs_get))
      ≡ to_lower (trim_space request.payload_hash)
unfolding query_value lookup same to_lower trim_space
same_hash request h = ap (λ q. to_lower (trim_space (payload_hash_of q))) h
  where
    payload_hash_of : Option VcsRequest → Bytes
    payload_hash_of none = []
    payload_hash_of (some q) = q.payload_hash

get_vcs_metadata-Found_example :
    Found
      (memory_bucket VcsRecord)
      memory_entries
      true
      decode
      (λ r. r.key)
      (λ rs. [])
      []
      vcs_post
      vcs_get
      7
      []
      posted.0
get_vcs_metadata-Found_example =
    get_vcs_metadata-Found (memory_bucket VcsRecord) memory_entries true decode (λ r. r.key)
      (λ rs. []) [] vcs_post vcs_get 7 [] [] posted.0 posted.1 refl posted_status same_hash

abbrev query_values : Values
query_values = (codes "limit", codes "900" ∷ []) ∷ (codes "status", codes "local,cache" ∷ []) ∷ []

abbrev local_query : PayloadQuery
local_query = record {
  hash_contains = [];
  require_local = true;
  require_cache = true;
  backup = none;
  min_size = none;
  max_size = none;
  sort_by = codes "created";
  sort_order = codes "desc";
  limit = pos 500;
  offset = pos 0;
}

parsed : parse_metadata_query query_values ≡ ok local_query
unfolding parse_metadata_query same trim_space values_of to_lower
parsed = refl

parse_metadata_query-Accepted_example : Accepted local_query
parse_metadata_query-Accepted_example =
    parse_metadata_query-Accepted query_values local_query parsed
