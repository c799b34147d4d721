-- ===== src/Uploads/Lifecycle.antt =====
-- The sessions and their files over the life of an upload: each file holds as many bytes as its
-- session's offset says.
use vaps.Base.{
  ℕ, ◌+◌, ◌^◌, ◌<◌, ◌≡◌, refl, sym, ap, subst, ◌∙◌, false, inl, inr, none, some, List, [], ◌++◌,
  length, length-append, arith, if◌then◌else◌, Bool-cases,
}
use vaps.Text.{Bytes, same, same_refl, same→eq, codes}
use vaps.Text.Laws.{append_cancel_middle}
use vaps.Int64.{ℤ, pos}
use vaps.Int64.Laws.{add64-pos}
use vaps.Dict.{Dict, lookup, insert, remove, lookup-insert, lookup-remove}
use vaps.Bucket.{Bucket}
use vaps.Uploads.{Kind, Session, ok, World, Reader, temp_path}
use vaps.Uploads.Store.{append, create, new_session}
use vaps.Uploads.Appends.{Appended, append-Appended}

same-temp_path : (t a c : Bytes) → same (temp_path t a) (temp_path t c) ≡ same a c
same-temp_path t a c = elim (Bool-cases (same a c)) [
  | inl e ↦ rw (e, same→eq a c e) (same_refl (temp_path t c))
  | inr e ↦ elim (Bool-cases (same (temp_path t a) (temp_path t c))) [
    | inr d ↦ d ∙ sym e
    | inl d ↦ absurd (ground (arith, equal (same→eq _ _ d), same_refl c))
  ]
]
  where
    equal : temp_path t a ≡ temp_path t c → a ≡ c
    equal h = append_cancel_middle (t ++ codes "/") a c (codes ".upload") h

module _ (b : Bucket Session) (temp_dir : Bytes) (expiration : ℕ) where
  open b use {Db, get, put, delete, entries, get-put, get-delete}

  -- A session found under an identifier carries it, has the file that the identifier names, and the
  -- file holds as many bytes as the offset says.
  pub record Matches (id : Bytes) (files : Dict Bytes) (s : Session) : Type 0 where
    pub content : Bytes
    pub same_id : s.id ≡ id
    pub path : s.temp_path ≡ temp_path temp_dir id
    pub file : lookup (temp_path temp_dir id) files ≡ some content
    pub size : s.offset ≡ pos (length content)

  pub record Consistent (w : World Db) : Type 0 where
    pub at : (id : Bytes) (s : Session) → get id w.db ≡ some s → Matches id w.files s

  Matches-insert :
      (id j : Bytes) (c : Bytes) (files : Dict Bytes) (s : Session)
      → same id j ≡ false
      → Matches j files s
      → Matches j (insert (temp_path temp_dir id) c files) s
  Matches-insert id j c files s h m = record {
    content = m.content;
    same_id = m.same_id;
    path = m.path;
    file =
        rw
          (
            lookup-insert (temp_path temp_dir j) (temp_path temp_dir id) c files,
            same-temp_path temp_dir id j,
            h,
          )
          (m.file);
    size = m.size;
  }

  Matches-remove :
      (id j : Bytes) (files : Dict Bytes) (s : Session)
      → same id j ≡ false
      → Matches j files s
      → Matches j (remove (temp_path temp_dir id) files) s
  Matches-remove id j files s h m = record {
    content = m.content;
    same_id = m.same_id;
    path = m.path;
    file =
        rw
          (
            lookup-remove (temp_path temp_dir j) (temp_path temp_dir id) files,
            same-temp_path temp_dir id j,
            h,
          )
          (m.file);
    size = m.size;
  }

  -- One session and its file are replaced.
  Consistent-update :
      (id : Bytes) (r : Session) (c : Bytes) (w w' : World Db)
      → Consistent w
      → ((j : Bytes) → get j w'.db ≡ (if same id j then some r else get j w.db))
      → w'.files ≡ insert (temp_path temp_dir id) c w.files
      → Matches id w'.files r
      → Consistent w'
  Consistent-update id r c w w' v g f m = record {
    at = λ j s h. elim (Bool-cases (same id j)) [
      | inl e ↦
          let r_is_s : r ≡ s = ground (arith, g j) in
          subst (λ k. Matches k w'.files s) (same→eq id j e) (subst (Matches id w'.files) r_is_s m)
      | inr e ↦ rw f (Matches-insert id j c w.files s e (v.at j s (sym (g j ∙ rw e refl) ∙ h)))
    ];
  }

  -- One session and its file are removed.
  pub Consistent-removal :
      (id : Bytes) (w w' : World Db)
      → Consistent w
      → ((j : Bytes) → get j w'.db ≡ (if same id j then none else get j w.db))
      → w'.files ≡ remove (temp_path temp_dir id) w.files
      → Consistent w'
  Consistent-removal id w w' v g f = record {
    at = λ j s h. elim (Bool-cases (same id j)) [
      | inl e ↦ absurd (ground (arith, g j))
      | inr e ↦ rw f (Matches-remove id j w.files s e (v.at j s (sym (g j ∙ rw e refl) ∙ h)))
    ];
  }

  module _ (id : Bytes) (offset : ℤ) (reader : Reader) (now : ℕ) (w w' : World Db) (r : Session)
      (v : Consistent w) (a : Appended b temp_dir expiration id offset reader now w w' r)
      (fits : length a.old + length reader.content < 2 ^ 63) where
    pub matched : Matches id w.files a.before
    matched = v.at id a.before a.found

    pub old_content : matched.content ≡ a.old
    old_content = ground (arith, matched.file, a.file, matched.path)

    pub new_offset : r.offset ≡ pos (length (a.old ++ reader.content))
    new_offset =
        rw (a.session, matched.size, old_content, length-append a.old reader.content)
          (add64-pos (length a.old) (length reader.content) fits)

    pub get-after : (j : Bytes) → get j w'.db ≡ (if same id j then some r else get j w.db)
    get-after j = rw (← matched.same_id) (get-put j a.before.id r w.db w'.db a.stored)

    Matches-appended : Matches id w'.files r
    Matches-appended = record {
      content = a.old ++ reader.content;
      same_id = rw a.session (matched.same_id);
      path = rw a.session (matched.path);
      file =
          rw
            (
              a.files,
              matched.path,
              lookup-insert (temp_path temp_dir id) (temp_path temp_dir id)
                  (a.old ++ reader.content) w.files,
              same_refl (temp_path temp_dir id),
            )
            refl;
      size = new_offset;
    }

    Appended-Consistent : Consistent w'
    Appended-Consistent =
        Consistent-update id r (a.old ++ reader.content) w w' v get-after
          (a.files ∙ ap (λ p. insert p (a.old ++ reader.content) w.files) matched.path)
          Matches-appended

  module _ (id : Bytes) (offset : ℤ) (reader : Reader) (now : ℕ) (w w' : World Db) (r : Session)
      (old : Bytes) (v : Consistent w)
      (h : append b temp_dir expiration id offset reader now w ≡ (w', ok r))
      (file : lookup (temp_path temp_dir id) w.files ≡ some old)
      (fits : length old + length reader.content < 2 ^ 63) where
    pub appended : Appended b temp_dir expiration id offset reader now w w' r
    appended = append-Appended b temp_dir expiration id offset reader now w w' r h

    old_file : appended.old ≡ old
    old_file = ground (arith, appended.file, file, (v.at id appended.before appended.found).path)

    pub old_fits : length appended.old + length reader.content < 2 ^ 63
    old_fits = rw old_file fits

    -- If each session's offset is the length of its file, a successful Append keeps it so, as long
    -- as its file stays below 2^63 bytes.
    pub append-Consistent : Consistent w'
    append-Consistent = Appended-Consistent id offset reader now w w' r v appended old_fits

  record Created (id hash checksum : Bytes) (kind : Kind) (len : ℤ) (refs : List Bytes) (now : ℕ)
      (w w' : World Db) (s : Session) : Type 0 where
    session : s ≡ new_session b temp_dir expiration id hash checksum kind len refs now
    files : w'.files ≡ insert (temp_path temp_dir id) [] w.files
    stored : put id s w.db ≡ some w'.db

  create-Created :
      (id hash checksum : Bytes) (kind : Kind) (len : ℤ) (refs : List Bytes) (now : ℕ)
      → (w w' : World Db) (s : Session)
      → create b temp_dir expiration (some id) hash checksum kind len refs now w ≡ (w', ok s)
      → Created id hash checksum kind len refs now w w' s
  unfolding create
  create-Created id hash checksum kind len refs now w w' s h = record {
    session = ground arith;
    files = ground arith;
    stored = ground arith;
  }

  -- If each session's offset is the length of its file, this holds also behind a successful
  -- Create.
  pub create-Consistent :
      (id hash checksum : Bytes) (kind : Kind) (len : ℤ) (refs : List Bytes) (now : ℕ)
      → (w w' : World Db) (s : Session) → Consistent w
      → create b temp_dir expiration (some id) hash checksum kind len refs now w ≡ (w', ok s)
      → Consistent w'
  create-Consistent id hash checksum kind len refs now w w' s v h =
      Consistent-update id s [] w w' v (λ j. get-put j id s w.db w'.db c.stored) c.files
        (record {
          content = [];
          same_id = rw c.session refl;
          path = rw c.session refl;
          file =
              rw
                (
                  c.files,
                  lookup-insert (temp_path temp_dir id) (temp_path temp_dir id) [] w.files,
                  same_refl (temp_path temp_dir id),
                )
                refl;
          size = rw c.session refl;
        })
    where
      c : Created id hash checksum kind len refs now w w' s
      c = create-Created id hash checksum kind len refs now w w' s h
