-- ===== src/Logreader/Counts.antt =====
-- The number of lines of the sessions.
use vaps.Base.{
  ℕ, suc, ◌+◌, ◌≡◌, refl, sym, ap, ◌∙◌, subst, true, false, Option, none, some, List, [], ◌∷◌, ◌++◌,
  length, length-append, arith, if◌then◌else◌, Bool-cases, Option-cases, inl, inr, All, All-append,
}
use vaps.Text.{Bytes, same, same→eq, codes, trim_space}
use vaps.Int64.{ℤ}
use vaps.Dict.{Dict, lookup, lookup-insert}
use vaps.Logreader.{
  Session, Entry, LogFile, missing, unreadable, scanned, Scan, entries_of, or_nil, append_entry,
  last_session, set_last, classify, started, parse_line, start_session, log_line, scan_message,
  scan_line, scan_lines, scan_files, read,
}

-- The sum of the counts of the sessions with an identifier.
abbrev pub lines_of : Bytes → List Session → ℕ
lines_of id [] = 0
lines_of id (s ∷ l) = if same s.id id then s.log_count + lines_of id l else lines_of id l

-- A session is "ended" when it has an end and an exit code, and "active" while it has none.
abbrev pub Closed : Session → Type 0
Closed s = elim s.exit_code [
  | none ↦ (s.status ≡ codes "active") × (s.ended_at ≡ none)
  | some code ↦ (s.status ≡ codes "ended") × (t : ℤ) × (s.ended_at ≡ some t)
]

lines_of-append :
    (id : Bytes) (l m : List Session) → lines_of id (l ++ m) ≡ lines_of id l + lines_of id m
lines_of-append id [] m = omega arith
lines_of-append id (s ∷ l) m = ground (arith, lines_of-append id l m)

lookup-append_entry :
    (id k : Bytes) (e : Entry) (m : Dict (List Entry))
    → lookup id (append_entry k e m)
      ≡ (if same k id then some (entries_of k m ++ e ∷ []) else lookup id m)
unfolding append_entry
lookup-append_entry id k e m = lookup-insert id k (entries_of k m ++ e ∷ []) m

length-append_entry :
    (id k : Bytes) (e : Entry) (m : Dict (List Entry))
    → length (entries_of id (append_entry k e m))
      ≡ (if same k id then suc (length (entries_of id m)) else length (entries_of id m))
length-append_entry id k e m =
    ap (λ o. length (or_nil o)) (lookup-append_entry id k e m) ∙ elim (Bool-cases (same k id)) [
      | inl h ↦ rw (h, same→eq k id h) (length-append (entries_of id m) (e ∷ []) ∙ omega arith)
      | inr h ↦ rw h refl
    ]

lines_of-start :
    (id k : Bytes) (at : ℤ) (e : Entry) (l : List Session) (m : Dict (List Entry))
    → lines_of id l ≡ length (entries_of id m)
    → lines_of id (l ++ started k at ∷ []) ≡ length (entries_of id (append_entry k e m))
unfolding started
lines_of-start id k at e l m h =
    lines_of-append id l (started k at ∷ []) ∙ ground (arith, length-append_entry id k e m)

-- Replacing the last session by one with one line more.
lines_of-set_last :
    (id : Bytes) (s r : Session) (l : List Session)
    → last_session l ≡ some s
    → r.id ≡ s.id
    → r.log_count ≡ s.log_count + 1
    → lines_of id (set_last r l) ≡ (if same s.id id then suc (lines_of id l) else lines_of id l)
unfolding last_session set_last
lines_of-set_last id s r [] h i c = absurd (ground arith)
lines_of-set_last id s r (x ∷ []) h i c = ground arith
lines_of-set_last id s r (x ∷ y ∷ l) h i c = ground (arith, lines_of-set_last id s r (y ∷ l) h i c)

some_inj : {A : Type 0} (a b : A) → some a ≡ some b → a ≡ b
some_inj a b h = cc

All-set_last :
    (P : Session → Type 0) (r : Session) (l : List Session) → All P l → P r → All P (set_last r l)
unfolding set_last
All-set_last P r [] h p = tt
All-set_last P r (x ∷ []) h p = (p, tt)
All-set_last P r (x ∷ y ∷ l) h p = (h.0, All-set_last P r (y ∷ l) h.1 p)

All-last :
    (P : Session → Type 0) (s : Session) (l : List Session)
    → All P l
    → last_session l ≡ some s
    → P s
unfolding last_session
All-last P s [] h e = absurd (ground arith)
All-last P s (x ∷ []) h e = subst P (some_inj x s e) h.0
All-last P s (x ∷ y ∷ l) h e = All-last P s (y ∷ l) h.1 e

-- The log counts each line once, and each session is either open or closed.
pub record Counted (s : Scan) : Type 0 where
  pub lines : (id : Bytes) → lines_of id s.sessions ≡ length (entries_of id s.entries)
  pub closed : All Closed s.sessions

module _ (startup_pattern stopped_pattern : Bytes → Option Bytes)
    (parse_rfc3339 parse_local : Bytes → Option ℤ) (zero_time : ℤ) (atoi : Bytes → ℤ) where
  start_session-Counted :
      (timestamp : ℤ) (message stamp : Bytes) (s : Scan)
      → Counted s
      → Counted (
          start_session startup_pattern stopped_pattern parse_rfc3339 parse_local zero_time atoi
            timestamp message stamp s)
  unfolding start_session started
  start_session-Counted timestamp message stamp s c = record {
    lines = λ id. lines_of-start id _ _ _ s.sessions s.entries (c.lines id);
    closed = All-append Closed s.sessions _ c.closed ((refl, refl), tt);
  }

  log_line-Counted :
      (timestamp : ℤ) (message : Bytes) (session : Session) (s : Scan)
      → Counted s
      → last_session s.sessions ≡ some session
      → Counted (
          log_line startup_pattern stopped_pattern parse_rfc3339 parse_local zero_time atoi
            timestamp message session s)
  unfolding log_line
  log_line-Counted timestamp message session s c e = elim (Option-cases (stopped_pattern message)) [
    | inl none_stop ↦
        rw (none_stop, log_line)
          (record {
            lines = λ id.
                lines_of-set_last id session _ s.sessions e refl refl
                ∙ ground (
                  arith,
                  c.lines id,
                  length-append_entry id session.id
                      (record {
                        timestamp = timestamp;
                        level = classify message;
                        message = message;
                      })
                      s.entries,
                );
            closed =
                All-set_last Closed _ s.sessions c.closed
                  (All-last Closed session s.sessions c.closed e);
          })
    | inr (code, stop) ↦
        rw (stop, log_line)
          (record {
            lines = λ id.
                lines_of-set_last id session _ s.sessions e refl refl
                ∙ ground (
                  arith,
                  c.lines id,
                  length-append_entry id session.id
                      (record {
                        timestamp = timestamp;
                        level = classify message;
                        message = message;
                      })
                      s.entries,
                );
            closed = All-set_last Closed _ s.sessions c.closed (refl, timestamp, refl);
          })
  ]

  message-idle :
      (timestamp : ℤ) (message : Bytes) (s : Scan)
      → startup_pattern message ≡ none
      → s.current ≡ false
      → scan_message startup_pattern stopped_pattern parse_rfc3339 parse_local zero_time atoi
          (timestamp, message)
          s
        ≡ s
  unfolding scan_message
  message-idle timestamp message s e idle = ground arith

  message-log :
      (timestamp : ℤ) (message : Bytes) (session : Session) (s : Scan)
      → startup_pattern message ≡ none
      → s.current ≡ true
      → last_session s.sessions ≡ some session
      → scan_message startup_pattern stopped_pattern parse_rfc3339 parse_local zero_time atoi
          (timestamp, message)
          s
        ≡ log_line startup_pattern stopped_pattern parse_rfc3339 parse_local zero_time atoi
            timestamp message session s
  unfolding scan_message
  message-log timestamp message session s e running f = ground arith

  message-none :
      (timestamp : ℤ) (message : Bytes) (s : Scan)
      → startup_pattern message ≡ none
      → last_session s.sessions ≡ none
      → scan_message startup_pattern stopped_pattern parse_rfc3339 parse_local zero_time atoi
          (timestamp, message)
          s
        ≡ s
  unfolding scan_message
  message-none timestamp message s e f = ground arith

  message-start :
      (timestamp : ℤ) (message stamp : Bytes) (s : Scan)
      → startup_pattern message ≡ some stamp
      → scan_message startup_pattern stopped_pattern parse_rfc3339 parse_local zero_time atoi
          (timestamp, message)
          s
        ≡ start_session startup_pattern stopped_pattern parse_rfc3339 parse_local zero_time atoi
            timestamp message stamp s
  unfolding scan_message
  message-start timestamp message stamp s e = ground arith

  scan_message-Counted :
      (timestamp : ℤ) (message : Bytes) (s : Scan)
      → Counted s
      → Counted (
          scan_message startup_pattern stopped_pattern parse_rfc3339 parse_local zero_time atoi
            (timestamp, message)
            s)
  scan_message-Counted timestamp message s c = elim (Option-cases (startup_pattern message)) [
    | inr (stamp, e) ↦
        rw (message-start timestamp message stamp s e)
          (start_session-Counted timestamp message stamp s c)
    | inl e ↦ elim (Bool-cases s.current) [
      | inr idle ↦ subst Counted (sym (message-idle timestamp message s e idle)) c
      | inl running ↦ elim (Option-cases (last_session s.sessions)) [
        | inl f ↦ subst Counted (sym (message-none timestamp message s e f)) c
        | inr (session, f) ↦
            rw (message-log timestamp message session s e running f)
              (log_line-Counted timestamp message session s c f)
      ]
    ]
  ]

  scan_line-Counted :
      (line : Bytes) (s : Scan)
      → Counted s
      → Counted (
          scan_line startup_pattern stopped_pattern parse_rfc3339 parse_local zero_time atoi line s)
  unfolding scan_line
  scan_line-Counted line s c =
      let p =
        parse_line startup_pattern stopped_pattern parse_rfc3339 parse_local zero_time atoi line in
      scan_message-Counted p.0 p.1 s c

  scan_lines-Counted :
      (lines : List Bytes) (s : Scan)
      → Counted s
      → Counted (
          scan_lines startup_pattern stopped_pattern parse_rfc3339 parse_local zero_time atoi lines
            s)
  unfolding scan_lines
  scan_lines-Counted [] s c = c
  scan_lines-Counted (l ∷ ls) s c = scan_lines-Counted ls _ (scan_line-Counted l s c)

  scan_files-Counted :
      (files : List LogFile) (s r : Scan)
      → Counted s
      → scan_files startup_pattern stopped_pattern parse_rfc3339 parse_local zero_time atoi files s
        ≡ some r
      → Counted r
  unfolding scan_files
  scan_files-Counted [] s r c h = subst Counted (some_inj s r h) c
  scan_files-Counted (missing ∷ fs) s r c h = scan_files-Counted fs s r c h
  scan_files-Counted (unreadable ∷ fs) s r c h = absurd (ground arith)
  scan_files-Counted (scanned lines failed ∷ fs) s r c h =
      scan_files-Counted fs _ r (scan_lines-Counted lines s c) (ground arith)

  -- When the log files can be read, each line is counted once: for every identifier the counts of
  -- the sessions with it add up to the number of its entries; a session with an exit code is
  -- "ended" and has an end, one without is "active" and has none.
  pub read-Counted :
      (dir : Bytes) (files : List LogFile) (r : Scan)
      → read startup_pattern stopped_pattern parse_rfc3339 parse_local zero_time atoi dir files
        ≡ some r
      → Counted r
  unfolding read
  read-Counted dir files r h = elim (Bool-cases (same (trim_space dir) [])) [
    | inl e ↦ subst Counted (some_inj nothing r (ground arith)) nothing-Counted
    | inr e ↦ scan_files-Counted files nothing r nothing-Counted (ground arith)
  ]
    where
      nothing : Scan
      nothing = record { sessions = []; entries = []; current = false }

      nothing-Counted : Counted nothing
      nothing-Counted = record { lines = λ id. unfold lookup in refl; closed = tt }
