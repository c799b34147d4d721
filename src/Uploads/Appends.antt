-- ===== src/Uploads/Appends.antt =====
-- Appending to an upload: the offset protocol, and the file that holds what was received.
use vaps.Base.{
  ℕ, ◌+◌, ◌≡◌, true, false, inl, inr, none, some, ◌++◌, length, arith, Bool-cases, Option-cases,
}
use vaps.Text.{Bytes}
use vaps.Int64.{ℤ, pos, add64, eq_ℤ}
use vaps.Dict.{lookup, insert}
use vaps.Bucket.{Bucket}
use vaps.Uploads.{Session, ok, World, Reader, is_final, ensure_active}
use vaps.Uploads.Store.{get_locked, append, append_to, append_file}

module _ (b : Bucket Session) (temp_dir : Bytes) (expiration : ℕ) where
  open b use {Db, get, put, delete, entries, get-put, get-delete}

  -- What a successful Append did: the session was active, not final and at the offset that the
  -- client named; the file got the reader's bytes behind the old ones, and the session an offset
  -- that moved by their number and a renewed expiry.
  pub record Appended (id : Bytes) (offset : ℤ) (reader : Reader) (now : ℕ) (w w' : World Db)
      (r : Session) : Type 0 where
    pub before : Session
    pub old : Bytes
    pub found : get id w.db ≡ some before
    pub active : ensure_active now before ≡ none
    pub open_kind : is_final before.kind ≡ false
    pub at_offset : eq_ℤ before.offset offset ≡ true
    pub file : lookup before.temp_path w.files ≡ some old
    pub whole : reader.broken ≡ false
    pub files : w'.files ≡ insert before.temp_path (old ++ reader.content) w.files
    pub session : r ≡ record before {
      offset = add64 before.offset (pos (length reader.content));
      updated_at = now;
      expires_at = now + expiration;
    }
    pub stored : put before.id r w.db ≡ some w'.db

  module _ (id : Bytes) (offset : ℤ) (reader : Reader) (now : ℕ) (w w' : World Db)
      (r : Session) where
    append_file-Appended :
        (s : Session) (old : Bytes)
        → get id w.db ≡ some s
        → ensure_active now s ≡ none
        → is_final s.kind ≡ false
        → eq_ℤ s.offset offset ≡ true
        → lookup s.temp_path w.files ≡ some old
        → append_file b temp_dir expiration s old reader now w ≡ (w', ok r)
        → Appended id offset reader now w w' r
    unfolding append_file
    append_file-Appended s old f a k o l h = record {
      before = s;
      old = old;
      found = f;
      active = a;
      open_kind = k;
      at_offset = o;
      file = l;
      whole = ground arith;
      files = ground arith;
      session = ground arith;
      stored = ground arith;
    }

    append_to-Appended :
        (s : Session)
        → get id w.db ≡ some s
        → append_to b temp_dir expiration s offset reader now w ≡ (w', ok r)
        → Appended id offset reader now w w' r
    unfolding append_to
    append_to-Appended s f h = elim (Option-cases (ensure_active now s)) [
      | inr (e, a) ↦ absurd (ground arith)
      | inl a ↦ elim (Bool-cases (is_final s.kind)) [
        | inl k ↦ absurd (ground arith)
        | inr k ↦ elim (Bool-cases (eq_ℤ s.offset offset)) [
          | inr o ↦ absurd (ground arith)
          | inl o ↦ elim (Option-cases (lookup s.temp_path w.files)) [
            | inl l ↦ absurd (ground arith)
            | inr (old, l) ↦ append_file-Appended s old f a k o l (ground arith)
          ]
        ]
      ]
    ]

    -- Append succeeds only on an active session that is not final, at the offset that the client
    -- names, with a file and a reader that does not break off; the reader's bytes are then behind
    -- the old ones in the file, and the offset has moved by their number (as an int64).
    pub append-Appended :
        append b temp_dir expiration id offset reader now w ≡ (w', ok r)
        → Appended id offset reader now w w' r
    unfolding append get_locked
    append-Appended h = elim (Option-cases (get id w.db)) [
      | inl e ↦ absurd (ground arith)
      | inr (s, e) ↦ append_to-Appended s e (ground arith)
    ]

    -- The payload that the session is for stays.
    pub Appended-identity :
        (s : Session)
        → get id w.db ≡ some s
        → Appended id offset reader now w w' r
        → (r.expected_hash ≡ s.expected_hash) × (r.expected_checksum ≡ s.expected_checksum)
    Appended-identity s g a = ground (arith, a.found, a.session)
