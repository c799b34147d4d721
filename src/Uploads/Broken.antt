-- ===== src/Uploads/Broken.antt =====
-- Append with a reader that breaks off.
use vaps.Base.{
  ℕ, ◌≤◌, ◌≡◌, refl, sym, ap, ◌∙◌, true, false, some, none, ◌++◌, length, length-append, arith,
}
use vaps.Text.{Bytes, same_refl}
use vaps.Int64.{ℤ, pos, eq_ℤ}
use vaps.Dict.{lookup, insert, lookup-insert}
use vaps.Bucket.{Bucket}
use vaps.Uploads.{Session, Reader, World, io, err, ensure_active, is_final, temp_path}
use vaps.Uploads.Store.{append}
use vaps.Uploads.Lifecycle.{Consistent, Matches}

module _ (b : Bucket Session) (temp_dir : Bytes) (expiration : ℕ) where
  open b use {Db, get, put, delete, entries, get-put, get-delete}

  append_broken :
      (id : Bytes) (offset : ℤ) (reader : Reader) (now : ℕ) (w : World Db) (s : Session)
      (old : Bytes)
      → get id w.db ≡ some s
      → ensure_active now s ≡ none
      → is_final s.kind ≡ false
      → eq_ℤ s.offset offset ≡ true
      → lookup s.temp_path w.files ≡ some old
      → reader.broken ≡ true
      → append b temp_dir expiration id offset reader now w
        ≡ (record w { files = insert s.temp_path (old ++ reader.content) w.files }, err io)
  unfolding append
  append_broken id offset reader now w s old g a k o l c = ground arith

  -- More bytes in the file than the session's offset says.
  grown_file :
      (id more : Bytes) (w : World Db) (s : Session)
      → get id w.db ≡ some s
      → 1 ≤ length more
      → (m : Matches b temp_dir expiration id w.files s)
      → ¬ (
          Consistent b temp_dir expiration
            (record w { files = insert s.temp_path (m.content ++ more) w.files }))
  grown_file id more w s g h m v =
      let n = v.at id s g in
      let written =
        lookup-insert (temp_path temp_dir id) (temp_path temp_dir id) (m.content ++ more) w.files
        ∙ rw (same_refl (temp_path temp_dir id)) refl in
      let found : some n.content ≡ some (m.content ++ more) =
        sym n.file
        ∙ ap (λ p. lookup (temp_path temp_dir id) (insert p (m.content ++ more) w.files)) m.path
        ∙ written in
      let size : pos (length n.content) ≡ pos (length m.content) = sym n.size ∙ m.size in
      absurd (
        ground (
          arith,
          ap length (some_same n.content (m.content ++ more) found),
          size,
          length-append m.content more,
        ))
    where
      some_same : (x y : Bytes) → some x ≡ some y → x ≡ y
      some_same x y e = cc

  -- When the reader breaks off behind at least one byte, on an active session that is not final,
  -- at the offset that the client names, and each session's offset was the length of its file,
  -- Append answers an I/O error and leaves the sessions, but their offsets are no longer the
  -- lengths of their files.
  pub append-breaks :
      (id : Bytes) (offset : ℤ) (reader : Reader) (now : ℕ) (w : World Db) (s : Session)
      → Consistent b temp_dir expiration w
      → get id w.db ≡ some s
      → ensure_active now s ≡ none
      → is_final s.kind ≡ false
      → eq_ℤ s.offset offset ≡ true
      → reader.broken ≡ true
      → 1 ≤ length reader.content
      → let r = append b temp_dir expiration id offset reader now w in
        (r.1 ≡ err io) × (r.0.db ≡ w.db) × ¬ (Consistent b temp_dir expiration r.0)
  append-breaks id offset reader now w s v g a k o c h =
      let m = v.at id s g in
      let e =
        append_broken id offset reader now w s m.content g a k o
          (ap (λ p. lookup p w.files) m.path ∙ m.file) c in
      rw e (refl, refl, grown_file id reader.content w s g h m)
