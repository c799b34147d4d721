-- ===== src/Blobs/Eviction.antt =====
-- The eviction of cached files.
use vaps.Base.{
  ℕ, ◌+◌, ◌-◌, ◌^◌, ap, ◌≤◌, ◌<◌, ◌≡◌, refl, sym, ◌∙◌, Bool, true, false, some, [], ◌∷◌, All, arith,
  Bool-cases, inl, inr,
}
use vaps.Text.{Bytes, same, same→eq, same_refl}
use vaps.Int64.{pos, le_ℤ}
use vaps.Int64.Laws.{add64-pos, sub64-pos}
use vaps.Dict.{Dict, lookup, remove, lookup-remove}
use vaps.Sorting.{sort_stable, insert_sorted}
use vaps.Blobs.{BlobFile, Disk, file_size, total_size, older, remove_until, evict}

-- The bytes of all files.
abbrev pub bytes_of : Dict BlobFile → ℕ
bytes_of [] = 0
bytes_of ((p, f) ∷ m) = file_size f + bytes_of m

-- Below 2^63 the sum of the walk does not wrap around.
total_size-bytes_of :
    (n : ℕ) (l : Dict BlobFile)
    → n + bytes_of l < 2 ^ 63
    → total_size (pos n) l ≡ pos (n + bytes_of l)
unfolding total_size
total_size-bytes_of n [] h = ap pos (omega arith)
total_size-bytes_of n ((p, f) ∷ l) h =
    ap (λ t. total_size t l) (add64-pos n (file_size f) (omega (arith, h)))
    ∙ total_size-bytes_of (n + file_size f) l (omega (arith, h))
    ∙ ap pos (omega arith)

abbrev Fresh : Bytes → Dict BlobFile → Type 0
Fresh p l = All (λ e. same p e.0 ≡ false) l

-- No path stands in the list twice.
abbrev pub Unique : Dict BlobFile → Type 0
Unique [] = Unit {0}
Unique ((p, f) ∷ l) = Fresh p l × Unique l

same_sym : (a b : Bytes) → same a b ≡ false → same b a ≡ false
same_sym a b h = ground (arith, same→eq b a, same_refl a)

Fresh-remove : (p q : Bytes) (l : Dict BlobFile) → Fresh p l → Fresh p (remove q l)
unfolding remove
Fresh-remove p q [] h = tt
Fresh-remove p q ((r, f) ∷ l) h = ground (arith, h.0, Fresh-remove p q l h.1)

remove-Unique : (q : Bytes) (l : Dict BlobFile) → Unique l → Unique (remove q l)
unfolding remove
remove-Unique q [] u = tt
remove-Unique q ((r, f) ∷ l) u = ground (arith, Fresh-remove r q l u.0, remove-Unique q l u.1)

remove-Fresh : (p : Bytes) (l : Dict BlobFile) → Fresh p l → remove p l ≡ l
unfolding remove
remove-Fresh p [] h = refl
remove-Fresh p ((r, f) ∷ l) h = ground (arith, h.0, remove-Fresh p l h.1, same_sym p r)

bytes_of-remove :
    (p : Bytes) (f : BlobFile) (l : Dict BlobFile)
    → Unique l
    → lookup p l ≡ some f
    → file_size f + bytes_of (remove p l) ≡ bytes_of l
unfolding remove lookup
bytes_of-remove p f [] u h = absurd (ground arith)
bytes_of-remove p f ((r, g) ∷ l) u h =
    ground (arith, same→eq r p, remove-Fresh r l u.0, bytes_of-remove p f l u.1)

-- The files that are left to be considered are those that are there.
record Left (es files : Dict BlobFile) : Type 0 where
  unique : Unique es
  unique_files : Unique files
  there : All (λ e. lookup e.0 files ≡ some e.1) es
  same_size : bytes_of files ≡ bytes_of es

There-remove :
    (p : Bytes) (es files : Dict BlobFile)
    → Fresh p es
    → All (λ e. lookup e.0 files ≡ some e.1) es
    → All (λ e. lookup e.0 (remove p files) ≡ some e.1) es
There-remove p [] files h t = tt
There-remove p ((q, g) ∷ es) files h t =
    (lookup-remove q p files ∙ rw (h.0) (t.0), There-remove p es files h.1 t.1)

Left-step :
    (p : Bytes) (f : BlobFile) (es files : Dict BlobFile)
    → Left ((p, f) ∷ es) files
    → Left es (remove p files)
Left-step p f es files v = record {
  unique = v.unique.1;
  unique_files = remove-Unique p files v.unique_files;
  there = There-remove p es files v.unique.0 v.there.1;
  same_size = omega (arith, v.same_size, bytes_of-remove p f files v.unique_files v.there.0);
}

remove_until-bound :
    (m total : ℕ) (es files : Dict BlobFile)
    → Left es files
    → total ≡ bytes_of files
    → total < 2 ^ 63
    → ((remove_until (pos m) true (pos total) es files).1 ≡ true)
      × (bytes_of (remove_until (pos m) true (pos total) es files).0 ≤ m)
unfolding remove_until
remove_until-bound m total [] files v h k = (refl, omega (arith, v.same_size))
remove_until-bound m total ((p, f) ∷ es) files v h k =
    let less = bytes_of-remove p f files v.unique_files v.there.0 in
    elim (Bool-cases (le_ℤ (pos total) (pos m))) [
      | inl e ↦ rw e (refl, ground arith)
      | inr e ↦
          rw (e, sub64-pos total (file_size f) k (omega (arith, h, less)))
            (remove_until-bound m (total - file_size f) es (remove p files)
              (Left-step p f es files v) (omega (arith, h, less)) (omega (arith, k)))
    ]

There-cons :
    (p : Bytes) (f : BlobFile) (es l : Dict BlobFile)
    → Fresh p es
    → All (λ e. lookup e.0 l ≡ some e.1) es
    → All (λ e. lookup e.0 ((p, f) ∷ l) ≡ some e.1) es
unfolding lookup
There-cons p f [] l h t = tt
There-cons p f ((q, g) ∷ es) l h t = (rw (h.0) (t.0), There-cons p f es l h.1 t.1)

There-self : (l : Dict BlobFile) → Unique l → All (λ e. lookup e.0 l ≡ some e.1) l
unfolding lookup
There-self [] u = tt
There-self ((p, f) ∷ l) u = (rw (same_refl p) refl, There-cons p f l l u.0 (There-self l u.1))

module _ (less : Bytes × BlobFile → Bytes × BlobFile → Bool) where
  All-insert_sorted :
      (P : Bytes × BlobFile → Type 0) (x : Bytes × BlobFile) (l : Dict BlobFile)
      → P x
      → All P l
      → All P (insert_sorted less x l)
  unfolding insert_sorted
  All-insert_sorted P x [] p h = (p, tt)
  All-insert_sorted P x (y ∷ l) p h = elim (Bool-cases (less y x)) [
    | inl e ↦ rw e (h.0, All-insert_sorted P x l p h.1)
    | inr e ↦ rw e (p, h)
  ]

  All-sort_stable :
      (P : Bytes × BlobFile → Type 0) (l : Dict BlobFile) → All P l → All P (sort_stable less l)
  unfolding sort_stable
  All-sort_stable P [] h = tt
  All-sort_stable P (x ∷ l) h =
      All-insert_sorted P x (sort_stable less l) h.0 (All-sort_stable P l h.1)

  Unique-insert_sorted :
      (p : Bytes) (f : BlobFile) (l : Dict BlobFile)
      → Fresh p l
      → Unique l
      → Unique (insert_sorted less (p, f) l)
  unfolding insert_sorted
  Unique-insert_sorted p f [] h u = (tt, tt)
  Unique-insert_sorted p f ((q, g) ∷ l) h u = elim (Bool-cases (less (q, g) (p, f))) [
    | inl e ↦ rw e (
      All-insert_sorted (λ e'. same q e'.0 ≡ false) (p, f) l (same_sym p q h.0) u.0,
      Unique-insert_sorted p f l h.1 u.1,
    )
    | inr e ↦ rw e (h, u)
  ]

  Unique-sort_stable : (l : Dict BlobFile) → Unique l → Unique (sort_stable less l)
  unfolding sort_stable
  Unique-sort_stable [] u = tt
  Unique-sort_stable ((p, f) ∷ l) u =
      Unique-insert_sorted p f (sort_stable less l)
        (All-sort_stable (λ e'. same p e'.0 ≡ false) l u.0) (Unique-sort_stable l u.1)

  bytes_of-insert_sorted :
      (x : Bytes × BlobFile) (l : Dict BlobFile)
      → bytes_of (insert_sorted less x l) ≡ file_size x.1 + bytes_of l
  unfolding insert_sorted
  bytes_of-insert_sorted x [] = refl
  bytes_of-insert_sorted x (y ∷ l) = ground (arith, bytes_of-insert_sorted x l)

  bytes_of-sort_stable : (l : Dict BlobFile) → bytes_of (sort_stable less l) ≡ bytes_of l
  unfolding sort_stable
  bytes_of-sort_stable [] = refl
  bytes_of-sort_stable (x ∷ l) =
      omega (arith, bytes_of-insert_sorted x (sort_stable less l), bytes_of-sort_stable l)

Left-start : (l : Dict BlobFile) → Unique l → Left (sort_stable older l) l
Left-start l u = record {
  unique = Unique-sort_stable older l u;
  unique_files = u;
  there = All-sort_stable older (λ e. lookup e.0 l ≡ some e.1) l (There-self l u);
  same_size = sym (bytes_of-sort_stable older l);
}

-- With a limit of m > 0 bytes, when the directory can be read, files can be removed, no path is
-- there twice and the files have fewer than 2^63 bytes together, an eviction succeeds and leaves
-- files of at most m bytes together.
pub evict-bound :
    (m : ℕ) (disk : Disk) (files : Dict BlobFile)
    → 0 < m
    → Unique files
    → bytes_of files < 2 ^ 63
    → disk.walk ≡ true
    → disk.remove_cached ≡ true
    → let r = evict disk (record { max_cache_bytes = pos m; files = files }) in
      (r.1 ≡ true) × (bytes_of r.0.files ≤ m)
unfolding evict
evict-bound m disk files positive u small walk removable =
    let r =
      remove_until-bound m (bytes_of files) (sort_stable older files) files (Left-start files u)
        refl small in
    let sum : total_size (pos 0) files ≡ pos (bytes_of files) =
      total_size-bytes_of 0 files (omega (arith, small))
      ∙ ap pos {y = bytes_of files} (omega arith) in
    elim (Bool-cases (le_ℤ (pos m) (pos 0))) [
      | inl e ↦ absurd (ground arith)
      | inr e ↦ rw (e, walk, removable, sum) r
    ]
