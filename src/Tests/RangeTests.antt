-- ===== src/Tests/RangeTests.antt =====
-- Range requests on a payload of five bytes, and the caches.
use vaps.Base.{◌-◌, ◌≤◌, ◌≡◌, refl, some, [], ◌∷◌, ◌++◌, length, arith}
use vaps.Text.{Bytes, same, codes, trim_space, has_prefix, trim_prefix, contains, split_once}
use vaps.Int64.{pos, sub64, parse_int, format_int}
use vaps.Dict
use vaps.Http.{Response}
use vaps.ByteRange.{ByteRange, ok, parse_single_range_header, write_range_response, content_range}
use vaps.ByteRange.Bounds.{InBounds, parse_single_range_header-InBounds}
use vaps.ByteRange.Slices.{write_range_response-serves, fresh, bytes_between}
use vaps.ByteRange.Requests.{
  parse_single_range_header-closed, parse_single_range_header-suffix, unit_prefix,
}
use vaps.Pull.{respond_cached}
use vaps.Pull.Answers.{Answers, respond_cached-Answers}
use vaps.Cache.{Cache, new, get, can_store, stats}
use vaps.Cache.Lru.{view, size}
use vaps.Cache.Invariant.{Inv}
use vaps.Cache.Refine.{Added, add-Added, Got, get-Got}
use vaps.Cache.Runs.{adds, gets, run, run-stats, new-Inv}

abbrev payload : Bytes
payload = codes "abcde"

abbrev middle : ByteRange
middle = record { start = pos 1; end = pos 3 }

middle-parsed : parse_single_range_header (codes "bytes=1-3") (pos 5) ≡ ok middle
unfolding parse_single_range_header parse_int sub64 trim_space has_prefix trim_prefix contains
    split_once same
middle-parsed = refl

parse_single_range_header-InBounds_example : InBounds 5 middle
parse_single_range_header-InBounds_example =
    parse_single_range_header-InBounds 5 (omega arith) (omega arith) (codes "bytes=1-3") middle
      middle-parsed

abbrev middle-InBounds : InBounds (length payload) middle
middle-InBounds = record {
  first = 1;
  last = 3;
  start = refl;
  end = refl;
  ordered = omega arith;
  inside = omega arith;
}

write_range_response-serves_example :
    (w : Response) × (write_range_response (fresh []) payload (pos (length payload)) middle
      ≡ some w)
    × (w.status ≡ some 206)
    × (w.body ≡ bytes_between 1 3 payload)
    × (Dict.lookup (codes "Content-Length") w.headers ≡ some (format_int (pos (length w.body))))
    × (Dict.lookup (codes "Content-Range") w.headers
        ≡ some (content_range middle (pos (length payload))))
write_range_response-serves_example =
    write_range_response-serves payload middle (omega arith) middle-InBounds []

parse_single_range_header-closed_example :
    parse_single_range_header
      (unit_prefix ++ format_int (pos 1) ++ b'-' ∷ format_int (pos 3))
      (pos 5)
    ≡ ok (record { start = pos 1; end = pos 3 })
parse_single_range_header-closed_example =
    parse_single_range_header-closed 1 3 5 (omega arith) (omega arith) (omega arith)

parse_single_range_header-suffix_example :
    parse_single_range_header (unit_prefix ++ b'-' ∷ format_int (pos 2)) (pos 0)
    ≡ ok (record { start = pos (0 - 2); end = sub64 (pos 0) (pos 1) })
parse_single_range_header-suffix_example =
    parse_single_range_header-suffix 2 0 (omega arith) (omega arith) (omega arith)

abbrev small_cache : Cache
small_cache = new (pos 8) (pos 4)

small-Inv : Inv 8 small_cache
small-Inv = new-Inv 8 (pos 4)

add-Added_example : Added 8 (codes "k") (codes "abc") small_cache
add-Added_example =
    add-Added 8 (omega arith) (codes "k") (codes "abc") small_cache small-Inv (omega arith)
      (unfold can_store in refl)

get-Got_example :
    Got 8 (codes "k") small_cache (get (codes "k") small_cache).0 (get (codes "k") small_cache).1
get-Got_example = get-Got 8 (codes "k") small_cache (omega arith) small-Inv

run-stats_example :
    (c : Cache) × (run
        (adds (codes "a") (codes "12345") ∷ adds (codes "b") (codes "6789") ∷ gets (codes "a") ∷ [])
        (new (pos 8) (pos 8))
      ≡ some c)
    × ((stats c).used_bytes ≡ pos (size (view c)))
    × (size (view c) ≤ 8)
    × ((stats c).entries ≡ length (view c))
run-stats_example =
    run-stats 8 (pos 8)
      (adds (codes "a") (codes "12345") ∷ adds (codes "b") (codes "6789") ∷ gets (codes "a") ∷ [])
      (omega arith)

respond_cached-Answers_example :
    (w : Response) × (respond_cached (codes "h") (codes "bytes=9-") payload (fresh []) ≡ some w)
    × Answers payload (codes "bytes=9-") w
respond_cached-Answers_example =
    respond_cached-Answers (codes "h") (codes "bytes=9-") payload (omega arith) (omega arith)
