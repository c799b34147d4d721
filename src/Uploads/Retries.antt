-- ===== src/Uploads/Retries.antt =====
-- A request that is sent again after it succeeded.
use vaps.Base.{
  ℕ, ◌+◌, ◌^◌, ◌<◌, ◌≡◌, refl, ◌∙◌, false, inl, inr, none, some, length, length-append, arith,
  Option-cases,
}
use vaps.Text.{Bytes, same_refl}
use vaps.Int64.{ℤ, eq_ℤ}
use vaps.Dict.{lookup}
use vaps.Bucket.{Bucket}
use vaps.Uploads.{
  Session, Error, offset_mismatch, ok, err, World, Reader, is_final, ensure_active, temp_path,
}
use vaps.Uploads.Store.{append}
use vaps.Uploads.Appends.{Appended}
use vaps.Uploads.Lifecycle.{
  Consistent, matched, old_content, new_offset, get-after, appended, old_fits,
}

module _ (b : Bucket Session) (temp_dir : Bytes) (expiration : ℕ) where
  open b use {Db, get, put, delete, entries, get-put, get-delete}

  other_offset :
      (id : Bytes) (offset : ℤ) (again : Reader) (later : ℕ) (w : World Db) (r : Session)
      → get id w.db ≡ some r
      → ensure_active later r ≡ none
      → is_final r.kind ≡ false
      → eq_ℤ r.offset offset ≡ false
      → append b temp_dir expiration id offset again later w ≡ (w, err offset_mismatch)
  unfolding append
  other_offset id offset again later w r g a k o = ground arith

  not_active :
      (id : Bytes) (offset : ℤ) (again : Reader) (later : ℕ) (w : World Db) (r : Session)
      (e : Error)
      → get id w.db ≡ some r
      → ensure_active later r ≡ some e
      → append b temp_dir expiration id offset again later w ≡ (w, err e)
  unfolding append
  not_active id offset again later w r e g a = ground arith

  refused_at_other_offset :
      (id : Bytes) (offset : ℤ) (again : Reader) (later : ℕ) (w : World Db) (r : Session)
      → get id w.db ≡ some r
      → is_final r.kind ≡ false
      → eq_ℤ r.offset offset ≡ false
      → (e : Error) × (append b temp_dir expiration id offset again later w ≡ (w, err e))
  refused_at_other_offset id offset again later w r g k o =
      elim (Option-cases (ensure_active later r)) [
        | inl a ↦ (offset_mismatch, other_offset id offset again later w r g a k o)
        | inr (e, a) ↦ (e, not_active id offset again later w r e g a)
      ]

  Appended_again :
      (id : Bytes) (offset : ℤ) (reader : Reader) (now : ℕ) (w w' : World Db) (r : Session)
      → Consistent b temp_dir expiration w
      → (a : Appended b temp_dir expiration id offset reader now w w' r) → 0 < length reader.content
      → length a.old + length reader.content < 2 ^ 63
      → (again : Reader) (later : ℕ)
      → (e : Error) × (append b temp_dir expiration id offset again later w' ≡ (w', err e))
  Appended_again id offset reader now w w' r v a some_bytes fits again later =
      refused_at_other_offset id offset again later w' r
        (get-after b temp_dir expiration id offset reader now w w' r v a fits id
          ∙ rw (same_refl id) refl)
        (rw a.session (a.open_kind))
        (ground (
          arith,
          new_offset b temp_dir expiration id offset reader now w w' r v a fits,
          length-append a.old reader.content,
          (matched b temp_dir expiration id offset reader now w w' r v a fits).size,
          old_content b temp_dir expiration id offset reader now w w' r v a fits,
          a.at_offset,
        ))

  -- Once an Append with at least one byte has succeeded, the same request sent again is refused
  -- and changes nothing, at any time and whatever its bytes are: no byte is stored twice. Before,
  -- each session's offset was the length of its file, and the file stays below 2^63 bytes.
  pub append_again :
      (id : Bytes) (offset : ℤ) (reader : Reader) (now : ℕ) (w w' : World Db) (r : Session)
      (old : Bytes)
      → Consistent b temp_dir expiration w
      → append b temp_dir expiration id offset reader now w ≡ (w', ok r)
      → lookup (temp_path temp_dir id) w.files ≡ some old
      → length old + length reader.content < 2 ^ 63
      → 0 < length reader.content
      → (again : Reader) (later : ℕ)
      → (e : Error) × (append b temp_dir expiration id offset again later w' ≡ (w', err e))
  append_again id offset reader now w w' r old v h file fits some_bytes again later =
      Appended_again id offset reader now w w' r v
        (appended b temp_dir expiration id offset reader now w w' r old v h file fits) some_bytes
        (old_fits b temp_dir expiration id offset reader now w w' r old v h file fits) again later
