-- ===== src/Uploads/Store.antt =====
-- The operations of the upload store, over any bucket.
use vaps.Base.{
  ℕ, ◌+◌, not, Option, none, some, List, [], ◌∷◌, ◌++◌, length, if◌then◌else◌, map, select,
}
use vaps.Text.{Bytes, same, codes, trim_space, has_prefix, split_once, trim_prefix}
use vaps.Int64.{ℤ, pos, add64, eq_ℤ}
use vaps.Dict.{Dict, lookup, insert, remove}
use vaps.Bucket.{Bucket}
use vaps.Uploads.{
  Kind, final, Session, Error, not_found, offset_mismatch, invalid_state, io, Result, ok, err,
  World, Reader, is_final, ensure_active, temp_path, check_partials, total_length, is_stale,
}

-- The text behind the first occurrence of `t`.
unfoldable pub after_first : Bytes → Bytes → Option Bytes
after_first t [] = if has_prefix [] t then some [] else none
after_first t (c ∷ s) =
    let later = after_first t s in
    if has_prefix (c ∷ s) t then some (trim_prefix (c ∷ s) t) else later

-- GetByRef: the identifier that a reference names.
unfoldable pub ref_id : Bytes → Bytes
unfolding after_first
ref_id ref = elim (after_first (codes "upload_id=") ref) [
  | none ↦ ref
  | some rest ↦ (split_once b'&' rest).0
]

module _ (b : Bucket Session) (temp_dir : Bytes) (expiration : ℕ) where
  open b use {Db, get, put, delete, entries}

  -- getLocked
  unfoldable pub get_locked : Bytes → Db → Result Session
  get_locked id d = elim (get id d) [ none ↦ err not_found | some s ↦ ok s ]

  -- Get
  unfoldable pub get_session : Bytes → ℕ → World Db → Result Session
  unfolding get_locked ensure_active
  get_session id now w = elim (get_locked id w.db) [
    | err e ↦ err e
    | ok s ↦ elim (ensure_active now s) [ some e ↦ err e | none ↦ ok s ]
  ]

  abbrev pub new_session : Bytes → Bytes → Bytes → Kind → ℤ → List Bytes → ℕ → Session
  new_session id hash checksum kind len refs now = record {
    id = id;
    expected_hash = hash;
    expected_checksum = checksum;
    kind = kind;
    length = len;
    offset = pos 0;
    temp_path = temp_path temp_dir id;
    partial_refs = refs;
    created_at = now;
    updated_at = now;
    expires_at = now + expiration;
    completed_at = none;
    terminated_at = none;
  }

  -- Create; `new_id` is what newID returns, none for an error of the random source.
  unfoldable pub create :
      Option Bytes
      → Bytes
      → Bytes
      → Kind
      → ℤ
      → List Bytes
      → ℕ
      → World Db
      → World Db × Result Session
  unfolding insert remove
  create none hash checksum kind len refs now w = (w, err io)
  create (some id) hash checksum kind len refs now w =
      let s = new_session id hash checksum kind len refs now in
      let opened = insert s.temp_path [] w.files in
      elim (put id s w.db) [
        | none ↦ (record w { files = remove s.temp_path opened }, err io)
        | some d ↦ (record { db = d; files = opened }, ok s)
      ]

  -- The part of Append behind the opening of the file. The bytes stay in the file also when the
  -- reader breaks off or the session cannot be written.
  unfoldable pub append_file : Session → Bytes → Reader → ℕ → World Db → World Db × Result Session
  unfolding insert
  append_file s old reader now w =
      let written = insert s.temp_path (old ++ reader.content) w.files in
      let s' = record s {
        offset = add64 s.offset (pos (length reader.content));
        updated_at = now;
        expires_at = now + expiration;
      } in
      if reader.broken then (record w { files = written }, err io) else elim (put s.id s' w.db) [
        | none ↦ (record w { files = written }, err io)
        | some d ↦ (record { db = d; files = written }, ok s')
      ]

  unfoldable pub append_to : Session → ℤ → Reader → ℕ → World Db → World Db × Result Session
  unfolding ensure_active append_file
  append_to s offset reader now w = elim (ensure_active now s) [
    | some e ↦ (w, err e)
    | none ↦
        if is_final s.kind
        then (w, err invalid_state)
        else if not (eq_ℤ s.offset offset)
        then (w, err offset_mismatch)
        else elim (lookup s.temp_path w.files) [
          | none ↦ (w, err io)
          | some old ↦ append_file s old reader now w
        ]
  ]

  -- Append
  unfoldable pub append : Bytes → ℤ → Reader → ℕ → World Db → World Db × Result Session
  unfolding get_locked append_to
  append id offset reader now w = elim (get_locked id w.db) [
    | err e ↦ (w, err e)
    | ok s ↦ append_to s offset reader now w
  ]

  -- The loop of MarkCompleted over the references: the paths to remove, and the database.
  unfoldable pub delete_partials : List Bytes → Db → Option (Db × List Bytes)
  unfolding get_locked
  delete_partials [] d = some (d, [])
  delete_partials (ref ∷ refs) d =
      let skip = delete_partials refs d in
      elim (get_locked ref d) [
        | err e ↦ skip
        | ok p ↦ elim (delete ref d) [
          | none ↦ none
          | some d' ↦ elim (delete_partials refs d') [
            | none ↦ none
            | some (d'', paths) ↦ some (d'', p.temp_path ∷ paths)
          ]
        ]
      ]

  unfoldable pub remove_files : List Bytes → Dict Bytes → Dict Bytes
  unfolding remove
  remove_files [] files = files
  remove_files (p ∷ ps) files = remove_files ps (remove p files)

  -- MarkCompleted
  unfoldable pub mark_completed : Bytes → ℕ → World Db → World Db × Result Session
  unfolding get_locked delete_partials remove_files
  mark_completed id now w = elim (get_locked id w.db) [
    | err e ↦ (w, err e)
    | ok s ↦
        let s' = record s { completed_at = some now; updated_at = now } in
        let refs = if is_final s.kind then s.partial_refs else [] in
        elim (delete_partials refs w.db) [
          | none ↦ (w, err io)
          | some (d, paths) ↦ elim (delete id d) [
            | none ↦ (w, err io)
            | some d' ↦
                (record { db = d'; files = remove_files (s.temp_path ∷ paths) w.files }, ok s')
          ]
        ]
  ]

  -- Terminate; none is nil.
  unfoldable pub terminate : Bytes → World Db → World Db × Option Error
  unfolding get_locked remove
  terminate id w = elim (get_locked id w.db) [
    | err e ↦ (w, none)
    | ok s ↦ elim (delete id w.db) [
      | none ↦ (w, some io)
      | some d ↦ (record { db = d; files = remove s.temp_path w.files }, none)
    ]
  ]

  -- OpenTemp: the bytes of the session's file, and the session.
  unfoldable pub open_temp : Bytes → ℕ → World Db → Result (Bytes × Session)
  unfolding get_session lookup
  open_temp id now w = elim (get_session id now w) [
    | err e ↦ err e
    | ok s ↦ elim (lookup s.temp_path w.files) [ none ↦ err io | some c ↦ ok (c, s) ]
  ]

  -- refreshOffset
  unfoldable pub refresh_offset : Bytes → ℤ → ℕ → World Db → World Db × Result Session
  unfolding get_locked
  refresh_offset id offset now w = elim (get_locked id w.db) [
    | err e ↦ (w, err e)
    | ok s ↦
        let s' = record s { offset = offset; updated_at = now; expires_at = now + expiration } in
        elim (put s.id s' w.db) [ none ↦ (w, err io) | some d ↦ (record w { db = d }, ok s') ]
  ]

  -- The loop that copies the partial files behind one another; none: one of them is missing.
  unfoldable pub concat_files : List Session → Dict Bytes → Option Bytes
  unfolding lookup
  concat_files [] files = some []
  concat_files (p ∷ ps) files =
      let rest = concat_files ps files in
      elim (lookup p.temp_path files) [
        | none ↦ none
        | some c ↦ elim rest [ none ↦ none | some r ↦ some (c ++ r) ]
      ]

  -- BuildFinalFromPartials; what was written to a final file that is then removed is left out.
  unfoldable pub build_final :
      Option Bytes → Bytes → Bytes → List Session → ℕ → World Db → World Db × Result Session
  unfolding check_partials total_length create concat_files terminate refresh_offset
  build_final new_id hash checksum partials now w =
      elim (check_partials now hash checksum partials) [
        | some e ↦ (w, err e)
        | none ↦
            let total = total_length (pos 0) partials in
            let (w1, made) =
              create new_id hash checksum final total (map (λ p. p.id) partials) now w in
            elim made [
              | err e ↦ (w1, err e)
              | ok f ↦ elim (concat_files partials w1.files) [
                | none ↦ ((terminate f.id w1).0, err io)
                | some content ↦
                    refresh_offset f.id total now
                      (record w1 { files = insert f.temp_path content w1.files })
              ]
            ]
      ]

  unfoldable pub terminate_all : List (Bytes × Session) → World Db → World Db
  unfolding terminate
  terminate_all [] w = w
  terminate_all ((k, s) ∷ rest) w = terminate_all rest (terminate s.id w).0

  -- CleanupExpired
  unfoldable pub cleanup_expired : ℕ → World Db → World Db
  unfolding is_stale terminate_all
  cleanup_expired now w = terminate_all (select (λ e. is_stale now e.1) (entries w.db)) w

  -- GetByRef
  unfoldable pub get_by_ref : Bytes → ℕ → World Db → Result Session
  unfolding ref_id get_session
  get_by_ref ref now w =
      let trimmed = trim_space ref in
      if same trimmed [] then err not_found else get_session (ref_id trimmed) now w
