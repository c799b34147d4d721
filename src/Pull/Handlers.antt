-- ===== src/Pull/Handlers.antt =====
-- The handlers of pulls, internal/httpapi/payload_pull.go. A nil memory cache is `none`; the connection
-- takes every byte.
use vaps.Base.{ℕ, Bool, false, not, Option, none, some, [], length, if◌then◌else◌}
use vaps.Text.{Bytes, same, codes}
use vaps.Int64.{ℤ, pos, format_int}
use vaps.Dict.{lookup}
use vaps.Bucket.{Bucket}
use vaps.Cache
use vaps.Cache.{Cache, enabled, can_store, add}
use vaps.Http.{Response, set_header, write_header, write, error}
use vaps.Blobs.{Disk}
use vaps.Objects
use vaps.Objects.{Objects}
use vaps.Metadata.{Payload}
use vaps.ByteRange
use vaps.ByteRange.{
  ByteRange, parse_single_range_header, write_range_response, range_length, content_range,
}
use vaps.Payloads
use vaps.Payloads.{validate_remote_payload, record_payload_etag}
use vaps.PullStats.{PullTracker, record_memory_hit, record_remote, record_pull_origin}
use vaps.Requests.{
  Request, refused, accepted, get, head, post, patch, delete, options, other_method, query_hash,
  or_empty,
}
use vaps.Pull.{set_payload_headers, refuse_range, answer_cached}
use vaps.Pull.Opening.{Error, store, range, ok, err, Opened, open_payload, mark_cached}
use vaps.Pull.Ranges.{
  Ranged, unhandled, failed, opened, write_payload_open_error, open_remote_range,
}

module _ (b : Bucket Payload) (o : Objects) (has_meta has_objects : Bool)
    (checksum_of : Bytes → Bytes) (error_text : Error → Bytes) where
  open b use {Db}
  open o use {State}

  -- The state that pulls change.
  pub record World : Type 0 where
    pub stores : Payloads.World Db State
    pub cache : Option Cache
    pub pull : PullTracker

  -- h.cache.Enabled()
  abbrev cache_on : Option Cache → Bool
  cache_on none = false
  cache_on (some c) = enabled c

  -- memoryPayload
  unfoldable pub memory_payload : Bytes → Option Cache → Option Cache × Option Bytes
  memory_payload hash none = (none, none)
  memory_payload hash (some c) =
      let (d, found) = Cache.get hash c in if enabled c then (some d, found) else (some c, none)

  -- h.cache.CanStore(size)
  abbrev cache_takes : ℤ → Option Cache → Bool
  cache_takes size none = false
  cache_takes size (some c) = can_store c size

  -- The end of getPullPayload: a payload that was read goes into the memory cache. The outer none
  -- would be an Add that does not end.
  unfoldable pub remember : Bytes → Bytes → World → Option World
  remember hash content s = elim s.cache [
    | none ↦ some s
    | some c ↦ elim (add hash content c) [
      | none ↦ none
      | some (d, added) ↦
          let stores =
            if added
            then mark_cached b o has_meta has_objects checksum_of hash s.stores
            else s.stores in
          some (record s { cache = some d; stores = stores })
    ]
  ]

  -- The end of getPullPayload for a request with a Range header, behind setPayloadHeaders.
  unfoldable pub answer_range :
      Bytes → Bytes → Opened → World → Response → Option (World × Response)
  answer_range hash header f s w =
      let kept = remember hash f.content s in
      if f.broken
      then some (s, error (error_text (store Payloads.read_failed)) 500 w)
      else elim (parse_single_range_header header f.info.size) [
        | ByteRange.err e ↦ some (s, refuse_range e f.info.size w)
        | ByteRange.ok parsed ↦ elim (write_range_response w f.content f.info.size parsed) [
          | none ↦ none
          | some answer ↦
              if cache_takes f.info.size s.cache
              then (elim kept [ none ↦ none | some t ↦ some (t, answer) ])
              else some (s, answer)
        ]
      ]

  -- The end of getPullPayload without a Range header, behind setPayloadHeaders.
  unfoldable pub answer_whole : Bytes → Opened → World → Response → Option (World × Response)
  answer_whole hash f s w =
      let ranged = set_header (codes "Accept-Ranges") (codes "bytes") w in
      let sized = set_header (codes "Content-Length") (format_int f.info.size) ranged in
      let started = write_header 200 sized in
      let kept = remember hash f.content s in
      if not (cache_takes f.info.size s.cache)
      then some (s, write f.content started)
      else if f.broken
      then some (s, started)
      else elim kept [ none ↦ none | some t ↦ some (t, write f.content started) ]

  -- getPullPayload behind a miss of the memory cache and of openRemoteRange
  unfoldable pub answer_opened :
      Disk → Bytes → Bytes → ℕ → Bool → World → Response → Option (World × Response)
  answer_opened disk hash header now checked s w =
      let (x, found) = open_payload b o has_meta has_objects checksum_of disk hash now s.stores in
      let t = record s { stores = x } in
      elim found [
        | err e ↦ some (t, write_payload_open_error error_text e w)
        | ok f ↦
            let counted = record t { pull = record_pull_origin f.from_disk checked s.pull } in
            let labelled = set_payload_headers f.info.hash f.info.size w in
            let whole = answer_whole hash f counted labelled in
            let part = answer_range hash header f counted labelled in
            if same header [] then whole else part
      ]

  -- The answer of getPullPayload to what openRemoteRange has handled.
  unfoldable pub answer_ranged : Bool → Ranged → World → Response → Option (World × Response)
  answer_ranged checked unhandled s w = none
  answer_ranged checked (failed (range ByteRange.not_satisfiable) info) s w =
      some (s, refuse_range ByteRange.not_satisfiable info.size w)
  answer_ranged checked (failed e info) s w = some (s, write_payload_open_error error_text e w)
  answer_ranged checked (opened content info parsed) s w =
      let labelled = set_payload_headers info.hash info.size w in
      let ranged = set_header (codes "Accept-Ranges") (codes "bytes") labelled in
      let placed = set_header (codes "Content-Range") (content_range parsed info.size) ranged in
      let sized = set_header (codes "Content-Length") (format_int (range_length parsed)) placed in
      some
        (record s { pull = record_remote checked s.pull }, write content (write_header 206 sized))

  -- getPullPayload behind queryHash; none is a panic of the slice.
  unfoldable pub get_payload_of :
      Option (Bytes → ℤ → ℤ → State → Objects.Result Objects.Opened)
      → Disk
      → Bytes
      → Bytes
      → ℕ
      → World
      → Response
      → Option (World × Response)
  get_payload_of open_range disk hash header now s w =
      let checked = cache_on s.cache in
      let (c, found) = memory_payload hash s.cache in
      let looked = record s { cache = c } in
      let (x, ranged) =
        open_remote_range b o has_meta has_objects checksum_of open_range disk hash header now
          s.stores in
      let fetched = record looked { stores = x } in
      let here = answer_opened disk hash header now checked looked w in
      elim found [
        | some content ↦
            elim (answer_cached header content
              (set_payload_headers hash (pos (length content)) w)) [
                | none ↦ none
                | some answer ↦ some (record looked { pull = record_memory_hit s.pull }, answer)
              ]
        | none ↦ if same header [] then here else elim ranged [
          | unhandled ↦ here
          | failed e info ↦ answer_ranged checked (failed e info) fetched w
          | opened content info parsed ↦
              answer_ranged checked (opened content info parsed) fetched w
        ]
      ]

  -- The answer of headPullPayload for a payload that is there.
  unfoldable pub described : Bytes → ℤ → Response → Response
  described hash size w =
      write_header 200
        (set_header (codes "Accept-Ranges") (codes "bytes") (set_payload_headers hash size w))

  -- headPullPayload behind queryHash
  unfoldable pub head_payload_of : Disk → Bytes → ℕ → World → Response → World × Response
  head_payload_of disk hash now s w =
      let checked = cache_on s.cache in
      let (c, in_memory) = memory_payload hash s.cache in
      let looked = record s { cache = c } in
      let (x, found) = open_payload b o has_meta has_objects checksum_of disk hash now s.stores in
      elim in_memory [
        | some content ↦ (
          record looked { pull = record_memory_hit s.pull },
          described hash (pos (length content)) w,
        )
        | none ↦ elim found [
          | err e ↦ (record looked { stores = x }, write_payload_open_error error_text e w)
          | ok f ↦ (
            record looked { stores = x; pull = record_pull_origin f.from_disk checked s.pull },
            described f.info.hash f.info.size w,
          )
        ]
      ]

  -- pullPayload; none is a panic of the slice.
  unfoldable pub pull_payload :
      Option (Bytes → ℤ → ℤ → State → Objects.Result Objects.Opened)
      → Disk
      → ℕ
      → Request
      → World
      → Response
      → Option (World × Response)
  pull_payload open_range disk now r s w =
      let header = or_empty (lookup (codes "Range") r.headers) in
      let refusal : Option (World × Response) =
        some (s, error (codes "method not allowed") 405 w) in
      let found = query_hash r w in
      elim r.method [
        | get ↦ elim found [
          | refused answer ↦ some (s, answer)
          | accepted hash ↦ get_payload_of open_range disk hash header now s w
        ]
        | head ↦ elim found [
          | refused answer ↦ some (s, answer)
          | accepted hash ↦ some (head_payload_of disk hash now s w)
        ]
        | post ↦ refusal
        | patch ↦ refusal
        | delete ↦ refusal
        | options ↦ refusal
        | other_method ↦ refusal
      ]
