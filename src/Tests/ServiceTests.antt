-- ===== src/Tests/ServiceTests.antt =====
-- The request log, the log files, the sources and the pull counters on a few events.
use vaps.Base.{
  ◌+◌, ◌%◌, ◌^◌, ◌≡◌, ◌↔◌, refl, true, false, Option, none, some, List, [], ◌∷◌, length, select,
  if◌then◌else◌,
}
use mathlib.Core.List.{Perm}
use vaps.Text.{Bytes, same, codes, trim_space}
use vaps.Int64.{ℤ, pos}
use vaps.Bucket.{memory_bucket}
use vaps.Paging.{page_of, Asked}
use vaps.Sorting.{Chain}
use vaps.Reqlog
use vaps.Reqlog.{Record, query, query_matches, count_by_token_hash, stored_record, stats_filtered}
use vaps.Reqlog.History.{
  Event, run, run-records, stored_all, latest, stats_filtered-counts, count_if, shown, shown_client,
  shown_server,
}
use vaps.Reqlog.Queries
use vaps.Reqlog.Queries.{query-page, matching}
use vaps.PullStats
use vaps.PullStats.{
  Pull, from_memory, from_origin, new_pull_tracker, Balanced, length_pulls, run-counters,
}
use vaps.Sources
use vaps.Sources.{Token, Store, issue, ok}
use vaps.Sources.Laws.{
  issue-validate, Resolved, observe_all, observe_all-requests, requests, known, seen,
}
use vaps.Logreader
use vaps.Logreader.{
  Session, Scan, LogFile, scanned, read, list_sessions, later_first, session_matches,
}
use vaps.Logreader.Counts.{Counted, read-Counted}
use vaps.Logreader.Pages
use vaps.Logreader.Pages.{Page, NoEarlier, list_sessions-Page}

abbrev failed_request : Record
failed_request = record {
  id = 0;
  at = some 9;
  method = codes "GET";
  path = codes "/v2/metadata";
  status = pos 404;
  message = codes "missing";
  remote_ip = [];
  user_agent = [];
  token_hash = codes "t";
  client_id = [];
}

abbrev events : List Event
events = (9, failed_request) ∷ (10, failed_request) ∷ []

abbrev log_store : Reqlog.Store
log_store = run events (Reqlog.new (pos 1))

abbrev any_query : Reqlog.Query
any_query = record {
  token_hash = [];
  path = [];
  min_status = pos 0;
  max_status = pos 0;
  limit = pos 10;
  offset = pos 0;
  exclude_dashboard = true;
}

run-records_example : log_store.records ≡ latest (Reqlog.new (pos 1)).max (stored_all 0 events)
run-records_example = run-records (pos 1) events

stats_filtered-counts_example :
    ((stats_filtered true log_store).total_count ≡ count_if (shown true) events % 2 ^ 64)
    × ((stats_filtered true log_store).client_errors ≡ count_if (shown_client true) events % 2 ^ 64)
    × ((stats_filtered true log_store).server_errors ≡ count_if (shown_server true) events % 2 ^ 64)
stats_filtered-counts_example = stats_filtered-counts true (pos 1) events

query-page_example :
    ((query any_query log_store).items
      ≡ page_of
          (query any_query log_store).limit
          (query any_query log_store).offset
          (matching any_query log_store))
    × Asked any_query.limit any_query.offset
        (query any_query log_store).limit
        (query any_query log_store).offset
    × ((query any_query log_store).total ≡ length (matching any_query log_store))
    × ((r : Record) → (query_matches any_query r ≡ true) ↔ Queries.Wanted any_query r)
query-page_example = query-page any_query log_store

abbrev pulls : List Pull
pulls = from_memory ∷ from_origin true true ∷ from_origin false false ∷ []

run-counters_example :
    Balanced (PullStats.run pulls new_pull_tracker)
    × (((PullStats.run pulls new_pull_tracker).overall.hits
            + (PullStats.run pulls new_pull_tracker).overall.misses)
          % 2 ^ 64
        ≡ length_pulls pulls % 2 ^ 64)
run-counters_example = run-counters pulls

abbrev no_sources : Store (List (Bytes × Token))
no_sources = record { db = []; activity = [] }

abbrev issued : Store (List (Bytes × Token)) × Sources.Result Bytes
issued =
    issue (memory_bucket Token) (λ t. t) (pos 0) (some (codes "tok")) (pos 3) (codes "me")
      (codes "::1") [] none no_sources

issued_ok : issued ≡ (issued.0, ok (codes "tok"))
unfolding issue same
issued_ok = refl

issue-validate_example :
    Resolved
      (memory_bucket Token)
      (λ t. t)
      (pos 0)
      (codes "me")
      (codes "::1")
      (codes "tok")
      issued.0
issue-validate_example =
    issue-validate (memory_bucket Token) (λ t. t) (pos 0) (some (codes "tok")) (pos 3) (codes "me")
      (codes "::1") [] none no_sources issued.0 (codes "tok") tt issued_ok

abbrev visits : List (ℤ × Bytes × Bytes × Bytes)
visits = (pos 4, codes "tok", [], []) ∷ (pos 5, codes "x", [], []) ∷ []

observe_all-requests_example :
    ((observe_all
        (memory_bucket Token)
        (λ t. t)
        (pos 0)
        visits
        (record { db = issued.0.db; activity = [] })).db
      ≡ issued.0.db)
    × (requests
          (memory_bucket Token)
          (λ t. t)
          (pos 0)
          (codes "tok")
          (observe_all
            (memory_bucket Token)
            (λ t. t)
            (pos 0)
            visits
            (record { db = issued.0.db; activity = [] }))
        ≡ (if known
              (memory_bucket Token)
              (λ t. t)
              (pos 0)
              (codes "tok")
              (record { db = issued.0.db; activity = [] })
            then seen (memory_bucket Token) (λ t. t) (pos 0) (codes "tok") visits % 2 ^ 64
            else 0))
observe_all-requests_example =
    observe_all-requests (memory_bucket Token) (λ t. t) (pos 0) (codes "tok") visits issued.0.db

abbrev find_text : Bytes → Bytes → Option Bytes
find_text t line = if same line t then some [] else none

abbrev log_files : List LogFile
log_files =
    scanned (codes "start" ∷ codes "an error=1" ∷ codes "stop" ∷ []) false ∷ LogFile.missing ∷ []

abbrev scan_result : Option Scan
scan_result =
    read (find_text (codes "start")) (find_text (codes "stop")) (λ s. some (pos 7)) (λ s. none)
      (pos 0) (λ s. pos 0) (codes "/log") log_files

abbrev or_none : Option Scan → Scan
or_none none = record { sessions = []; entries = []; current = true }
or_none (some s) = s

scan_ok : scan_result ≡ some (or_none scan_result)
unfolding read same trim_space
scan_ok = refl

read-Counted_example : Counted (or_none scan_result)
read-Counted_example =
    read-Counted (find_text (codes "start")) (find_text (codes "stop")) (λ s. some (pos 7))
      (λ s. none) (pos 0) (λ s. pos 0) (codes "/log") log_files (or_none scan_result) scan_ok

abbrev all_sessions : Logreader.Query
all_sessions = record {
  status = codes "all";
  session_id = [];
  search = [];
  level = [];
  limit = pos 0;
  offset = pos 0;
  newest = false;
}

list_sessions-Page_example :
    (hits : List Session) × Page all_sessions.limit all_sessions.offset hits
      (list_sessions all_sessions (or_none scan_result))
    × Chain NoEarlier hits
    × Perm hits (select (session_matches all_sessions) (or_none scan_result).sessions)
    × ((t : Session) → (session_matches all_sessions t ≡ true) ↔ Pages.Wanted all_sessions t)
list_sessions-Page_example = list_sessions-Page all_sessions (or_none scan_result)
