-- ===== src/Logreader.antt =====
-- internal/logreader/reader.go: the sessions of the server and their lines, read from its log files.
-- Times are nanoseconds since 1970. Counts are at most the number of lines read.
pub mod Counts
pub mod Pages
use vaps.Base.{
  ℕ, ◌+◌, Bool, true, false, ◌&&◌, ◌||◌, not, Option, none, some, List, [], ◌∷◌, ◌++◌, length, take,
  drop, ltb, leb, if◌then◌else◌, select,
}
use mathlib.Core.List.{reverse}
use vaps.Text.{Bytes, same, to_lower, to_upper, trim_space, contains, codes}
use vaps.Int64.{ℤ, pos, pos_part, lt_ℤ, le_ℤ, format_int}
use vaps.Dict.{Dict, lookup, insert}
use vaps.Paging.{sub_list}
use vaps.Sorting.{sort_stable}

pub record Session : Type 0 where
  pub id : Bytes
  pub status : Bytes
  pub started_at : ℤ
  pub ended_at : Option ℤ
  pub exit_code : Option ℤ
  pub log_count : ℕ

pub record Entry : Type 0 where
  pub timestamp : ℤ
  pub level : Bytes
  pub message : Bytes

pub record Query : Type 0 where
  pub status : Bytes
  pub session_id : Bytes
  pub search : Bytes
  pub level : Bytes
  pub limit : ℤ
  pub offset : ℤ
  pub newest : Bool

pub record Result {ℓ} (A : Type ℓ) : Type ℓ where
  pub items : List A
  pub total : ℕ
  pub limit : ℕ
  pub offset : ℕ

-- What opening and scanning a file gives: it is gone, it cannot be opened, or its lines, and whether
-- scanning or closing it failed.
pub data LogFile : Type 0 where
  missing unreadable : LogFile
  scanned : List Bytes → Bool → LogFile

-- What `read` keeps; `current` is nil, or points at the last session.
pub record Scan : Type 0 where
  pub sessions : List Session
  pub entries : Dict (List Entry)
  pub current : Bool

-- classify
unfoldable pub classify : Bytes → Bytes
classify message =
    let lower = to_lower message in
    if contains lower (codes "panic")
      || contains lower (codes "fatal")
      || contains lower (codes " failed")
      || contains lower (codes "error=")
      || contains lower (codes " error")
    then codes "ERROR"
    else if contains lower (codes "warning")
        || contains lower (codes " warn")
        || contains lower (codes "shutdown signal")
    then codes "WARN"
    else codes "INFO"

-- entries[id], nil if missing
abbrev pub or_nil : Option (List Entry) → List Entry
or_nil none = []
or_nil (some l) = l

abbrev pub entries_of : Bytes → Dict (List Entry) → List Entry
entries_of id m = or_nil (lookup id m)

-- entries[id] = append(entries[id], e)
unfoldable pub append_entry : Bytes → Entry → Dict (List Entry) → Dict (List Entry)
append_entry id e m = insert id (entries_of id m ++ e ∷ []) m

-- sessions[len(sessions)-1]
unfoldable pub last_session : List Session → Option Session
last_session [] = none
last_session (s ∷ []) = some s
last_session (s ∷ t ∷ l) = last_session (t ∷ l)

-- A write through `current`.
unfoldable pub set_last : Session → List Session → List Session
set_last r [] = []
set_last r (s ∷ []) = r ∷ []
set_last r (s ∷ t ∷ l) = s ∷ set_last r (t ∷ l)

-- The session of a startup line.
unfoldable pub started : Bytes → ℤ → Session
started id at = record {
  id = id;
  status = codes "active";
  started_at = at;
  ended_at = none;
  exit_code = none;
  log_count = 1;
}

-- sessionByID
unfoldable pub session_by_id : List Session → Bytes → Option Session
session_by_id [] id = none
session_by_id (s ∷ l) id = if same s.id id then some s else session_by_id l id

-- The regular expressions give the text of their group; parse_rfc3339 and parse_local are the two
-- uses of package time, the latter for the first 19 bytes of a line, and `zero_time` is time.Time{};
-- atoi is the value that strconv.Atoi returns beside its error.
module _ (startup_pattern stopped_pattern : Bytes → Option Bytes)
    (parse_rfc3339 parse_local : Bytes → Option ℤ) (zero_time : ℤ) (atoi : Bytes → ℤ) where
  -- parseLine
  unfoldable pub parse_line : Bytes → ℤ × Bytes
  parse_line line =
      let whole : ℤ × Bytes = (zero_time, trim_space line) in
      if leb 19 (length line)
      then (elim (parse_local (take 19 line)) [
        | none ↦ whole
        | some timestamp ↦ (timestamp, trim_space (drop 19 line))
      ])
      else whole

  -- The startup branch of the loop in `read`.
  unfoldable pub start_session : ℤ → Bytes → Bytes → Scan → Scan
  unfolding started append_entry
  start_session timestamp message stamp s =
      let at : ℤ = elim (parse_rfc3339 stamp) [ none ↦ timestamp | some t ↦ t ] in
      let id = codes "session-" ++ format_int at in
      record {
        sessions = s.sessions ++ started id at ∷ [];
        entries =
            append_entry id
              (record { timestamp = timestamp; level = codes "INFO"; message = message }) s.entries;
        current = true;
      }

  -- The rest of the loop's body, for the current session.
  unfoldable pub log_line : ℤ → Bytes → Session → Scan → Scan
  unfolding classify append_entry set_last
  log_line timestamp message session s =
      let entry : Entry = record {
        timestamp = timestamp;
        level = classify message;
        message = message;
      } in
      let entries = append_entry session.id entry s.entries in
      let counted : Session = record session { log_count = session.log_count + 1 } in
      elim (stopped_pattern message) [
        | none ↦ record {
          sessions = set_last counted s.sessions;
          entries = entries;
          current = true;
        }
        | some code ↦ record {
          sessions =
              set_last
                (record counted {
                  status = codes "ended";
                  ended_at = some timestamp;
                  exit_code = some (atoi code);
                })
                s.sessions;
          entries = entries;
          current = false;
        }
      ]

  -- The loop's body, behind parseLine.
  unfoldable pub scan_message : ℤ × Bytes → Scan → Scan
  unfolding start_session log_line last_session
  scan_message (timestamp, message) s = elim (startup_pattern message) [
    | some stamp ↦ start_session timestamp message stamp s
    | none ↦
        if s.current
        then (elim (last_session s.sessions) [
          | none ↦ s
          | some session ↦ log_line timestamp message session s
        ])
        else s
  ]

  -- The loop's body.
  unfoldable pub scan_line : Bytes → Scan → Scan
  unfolding parse_line scan_message
  scan_line line s = scan_message (parse_line line) s

  unfoldable pub scan_lines : List Bytes → Scan → Scan
  unfolding scan_line
  scan_lines [] s = s
  scan_lines (l ∷ ls) s = scan_lines ls (scan_line l s)

  -- The loop over the files, in the order of their names; none is an error.
  unfoldable pub scan_files : List LogFile → Scan → Option Scan
  unfolding scan_lines
  scan_files [] s = some s
  scan_files (missing ∷ fs) s = scan_files fs s
  scan_files (unreadable ∷ fs) s = none
  scan_files (scanned lines failed ∷ fs) s =
      let rest = scan_files fs (scan_lines lines s) in if failed then none else rest

  -- read; a Reader without a directory has no files.
  unfoldable pub read : Bytes → List LogFile → Option Scan
  unfolding scan_files
  read dir files =
      let empty : Scan = record { sessions = []; entries = []; current = false } in
      if same (trim_space dir) [] then some empty else scan_files files empty

module _ {ℓ} {A : Type ℓ} where
  -- page
  unfoldable pub page : List A → ℤ → ℤ → Result A
  page items limit offset =
      let positive = if le_ℤ limit (pos 0) then 100 else pos_part limit in
      let limit' = if ltb 500 positive then 500 else positive in
      let offset' = if lt_ℤ offset (pos 0) then 0 else pos_part offset in
      let total = length items in
      let end = if ltb total (offset' + limit') then total else offset' + limit' in
      record {
        items = if leb total offset' then [] else sub_list offset' end items;
        total = total;
        limit = limit';
        offset = offset';
      }

-- The conditions of the loop in Sessions.
unfoldable pub session_matches : Query → Session → Bool
session_matches q s =
    let status = to_lower (trim_space q.status) in
    let search = to_lower (trim_space q.search) in
    if not (same status []) && not (same status (codes "all")) && not (same s.status status)
    then false
    else if not (same search []) && not (contains (to_lower s.id) search)
    then false
    else true

unfoldable pub later_first : Session → Session → Bool
later_first a b = lt_ℤ b.started_at a.started_at

-- Sessions, behind `read`.
unfoldable pub list_sessions : Query → Scan → Result Session
unfolding session_matches later_first page
list_sessions q s =
    page (sort_stable later_first (select (session_matches q) s.sessions)) q.limit q.offset

-- The conditions of the loop in Log.
unfoldable pub entry_matches : Query → Entry → Bool
entry_matches q e =
    let search = to_lower (trim_space q.search) in
    let level = to_upper (trim_space q.level) in
    if not (same level []) && not (same level (codes "ALL")) && not (same e.level level)
    then false
    else if not (same search []) && not (contains (to_lower e.message) search)
    then false
    else true

-- Log, behind `read`; none is the error for an unknown session.
unfoldable pub log : Query → Scan → Option (Result Entry)
unfolding session_by_id entry_matches page
log q s = elim (session_by_id s.sessions q.session_id) [
  | none ↦ none
  | some session ↦
      let filtered = select (entry_matches q) (entries_of q.session_id s.entries) in
      some (page (if q.newest then reverse filtered else filtered) q.limit q.offset)
]
