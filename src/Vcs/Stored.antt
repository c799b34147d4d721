-- ===== src/Vcs/Stored.antt =====
-- A record that was posted is among those that are got for its payload.
use vaps.Base.{
  ℕ, ◌≡◌, refl, ap, subst, ◌∙◌, Bool, true, false, Option, some, List, [], ◌∷◌, ◌++◌, append_assoc,
  map, select, arith, Bool-cases, Option-cases, inl, inr,
}
use mathlib.Core.List.{Memᴰ}
use vaps.Text.{
  Bytes, same, same_refl, codes, trim_space, to_lower, is_space, has_prefix, has_prefix-append,
}
use vaps.Text.Laws.{NoSpace, trim_space-NoSpace}
use vaps.Bucket.{Bucket}
use vaps.Http.{Response, empty_response}
use vaps.Http.Statuses.{error-status}
use vaps.Requests.{Request, query_value, write_json}
use vaps.Blobs.{valid_hash, all_hex, is_hex}
use vaps.Vcs.{
  VcsRecord, VcsRequest, vcs_key, trimmed, record_of, put_vcs_record, query_vcs_by_payload_hash,
  post_record, post_vcs_metadata, get_vcs_metadata,
}

all_hex-NoSpace : (s : Bytes) → all_hex s ≡ true → NoSpace s
unfolding all_hex is_space is_hex
all_hex-NoSpace [] h = tt
all_hex-NoSpace (c ∷ s) h = (ground arith, all_hex-NoSpace s (ground arith))

to_lower-twice : (s : Bytes) → to_lower (to_lower s) ≡ to_lower s
unfolding to_lower
to_lower-twice [] = refl
to_lower-twice (c ∷ s) = ground (arith, to_lower-twice s)

-- A hash that was normalized and is valid stays as it is.
normalized_again :
    (s : Bytes) → valid_hash (to_lower s) ≡ true → to_lower (trim_space (to_lower s)) ≡ to_lower s
unfolding valid_hash
normalized_again s h =
    rw (trim_space-NoSpace (to_lower s) (all_hex-NoSpace (to_lower s) (ground arith)))
      (to_lower-twice s)

valid_hash-nonempty : (s : Bytes) → valid_hash s ≡ true → same s [] ≡ false
unfolding valid_hash same
valid_hash-nonempty [] h = absurd (ground arith)
valid_hash-nonempty (c ∷ s) h = refl

Mem-select :
    {A : Type 0} (p : A → Bool) (x : A) (l : List A) → p x ≡ true → Memᴰ x l → Memᴰ x (select p l)
Mem-select p x [] h m = elim m [ ]
Mem-select p x (y ∷ l) h (Memᴰ.head e) = elim (Bool-cases (p y)) [
  | inl k ↦ rw (k, select) (Memᴰ.head e)
  | inr k ↦ absurd (ground arith)
]
Mem-select p x (y ∷ l) h (Memᴰ.tail m) = elim (Bool-cases (p y)) [
  | inl k ↦ rw (k, select) (Memᴰ.tail (Mem-select p x l h m))
  | inr k ↦ rw (k, select) (Mem-select p x l h m)
]

Mem-map : {A B : Type 0} (f : A → B) (x : A) (l : List A) → Memᴰ x l → Memᴰ (f x) (map f l)
Mem-map f x [] m = elim m [ ]
Mem-map f x (y ∷ l) (Memᴰ.head e) = Memᴰ.head (ap f e)
Mem-map f x (y ∷ l) (Memᴰ.tail m) = Memᴰ.tail (Mem-map f x l m)

-- The key of a record starts with its hash and a bar.
vcs_key-has_prefix : (r : VcsRecord) → has_prefix (vcs_key r) (r.payload_hash ++ codes "|") ≡ true
unfolding vcs_key
vcs_key-has_prefix r =
    let rest =
      to_lower r.vcs_type
      ++ codes "|"
      ++ r.repo
      ++ codes "|"
      ++ r.revision
      ++ codes "|"
      ++ r.path in
    subst (λ k. has_prefix k (r.payload_hash ++ codes "|") ≡ true)
      (append_assoc r.payload_hash (codes "|") rest)
      (has_prefix-append (r.payload_hash ++ codes "|") rest)

hash_of : (q : VcsRequest) → to_lower (trim_space q.payload_hash) ≡ (trimmed q).payload_hash
unfolding trimmed
hash_of q = refl

record_of-hash :
    (q : VcsRequest) (now : ℕ) (ip : Bytes) → q.payload_hash ≡ (record_of q now ip).payload_hash
unfolding record_of
record_of-hash q now ip = refl

normalized-hash :
    (q : VcsRequest)
    → valid_hash (trimmed q).payload_hash ≡ true
    → to_lower (trim_space (trimmed q).payload_hash) ≡ (trimmed q).payload_hash
unfolding trimmed
normalized-hash q v = normalized_again (trim_space q.payload_hash) v

module _ (b : Bucket VcsRecord) where
  open b use {Db, get, put, entries, get-put}

  module _
      (entries-get : (k : Bytes) (r : VcsRecord) (d : Db)
        → get k d ≡ some r
        → Memᴰ (k, r) (entries d)) where
    -- PutVCSRecord, then QueryVCSByPayloadHash with the hash.
    query-put :
        (r : VcsRecord) (d e : Db) (hash : Bytes)
        → put_vcs_record b r d ≡ some e
        → to_lower (trim_space hash) ≡ r.payload_hash
        → (l : List VcsRecord) × (query_vcs_by_payload_hash b hash e ≡ some l)
          × Memᴰ (record r { key = vcs_key r }) l
    unfolding put_vcs_record query_vcs_by_payload_hash
    query-put r d e hash h k =
        let q : VcsRecord = record r { key = vcs_key r } in
        let found = get-put (vcs_key r) (vcs_key r) q d e h ∙ rw (same_refl (vcs_key r)) refl in
        let l =
          map (λ e. e.1) (select (λ e. has_prefix e.0 (r.payload_hash ++ codes "|")) (entries e)) in
        (
          l,
          rw k refl,
          Mem-map (λ e. e.1) (vcs_key r, q) _
              (Mem-select (λ e. has_prefix e.0 (r.payload_hash ++ codes "|")) (vcs_key r, q)
                (entries e) (vcs_key-has_prefix r) (entries-get (vcs_key r) q e found)),
        )

    module _ (has_meta : Bool) (decode : Bytes → Option VcsRequest) (render : VcsRecord → Bytes)
        (render_all : List VcsRecord → Bytes) (failure : Bytes) where
      post_record-inv :
          (request : VcsRequest) (now : ℕ) (ip : Bytes) (d e : Db) (a : Response)
          → post_record b has_meta decode render render_all failure request now ip d empty_response
            ≡ (e, a)
          → a.status ≡ some 201
          → (valid_hash (trimmed request).payload_hash ≡ true)
            × (put_vcs_record b (record_of (trimmed request) now ip) d ≡ some e)
      unfolding post_record
      post_record-inv request now ip d e a h c =
          let refused = error-status (codes "invalid payload_hash") 400 empty_response refl in
          let missing =
            error-status (codes "vcs_type, repo, revision, and path are required") 400
              empty_response refl in
          let failed = error-status failure 500 empty_response refl in
          elim (Option-cases (put_vcs_record b (record_of (trimmed request) now ip) d)) [
            | inl q ↦ absurd (ground (arith, refused, missing, failed))
            | inr (t, q) ↦ ground (arith, refused, missing)
          ]

      post-inv :
          (r : Request) (now : ℕ) (ip : Bytes) (d e : Db) (a : Response)
          → post_vcs_metadata b has_meta decode render render_all failure r now ip d empty_response
            ≡ (e, a)
          → a.status ≡ some 201
          → (request : VcsRequest) × (decode r.body.content ≡ some request)
            × (has_meta ≡ true)
            × (post_record b has_meta decode render render_all failure request now ip d
                  empty_response
                ≡ (e, a))
      unfolding post_vcs_metadata
      post-inv r now ip d e a h c =
          let absent = error-status (codes "metadata is not configured") 503 empty_response refl in
          let large = error-status (codes "metadata body too large") 413 empty_response refl in
          let invalid = error-status (codes "invalid json body") 400 empty_response refl in
          elim (Option-cases (decode r.body.content)) [
            | inl q ↦ absurd (ground (arith, absent, large, invalid))
            | inr (request, q) ↦ (request, q, ground (arith, absent), ground (arith, absent, large))
          ]

      -- The posted record, under its key, is in the answer `l` to the request `g`.
      pub record Found (r g : Request) (now : ℕ) (ip : Bytes) (e : Db) : Type 0 where
        pub request : VcsRequest
        pub decoded : decode r.body.content ≡ some request
        pub records : List VcsRecord
        pub answer :
            get_vcs_metadata b has_meta decode render render_all failure g e empty_response
            ≡ write_json 200 (render_all records) empty_response
        pub member :
            (let q = record_of (trimmed request) now ip in
              Memᴰ (record q { key = vcs_key q }) records)

      get-answer :
          (g : Request) (e : Db) (hash : Bytes) (l : List VcsRecord)
          → has_meta ≡ true
          → valid_hash hash ≡ true
          → query_vcs_by_payload_hash b hash e ≡ some l
          → to_lower (trim_space (query_value (codes "payload_hash") g)) ≡ hash
          → get_vcs_metadata b has_meta decode render render_all failure g e empty_response
            ≡ write_json 200 (render_all l) empty_response
      unfolding get_vcs_metadata
      get-answer g e hash l m v s k = rw (k, m, valid_hash-nonempty hash v, v, s) refl

      -- If a POST of version control metadata is answered with 201, a GET for the same payload, up
      -- to spaces and letter case, is answered with 200 and with a list in which the posted record
      -- stands; the database visits every record that it has.
      pub get_vcs_metadata-Found :
          (r g : Request) (now : ℕ) (ip : Bytes) (d e : Db) (a : Response)
          → post_vcs_metadata b has_meta decode render render_all failure r now ip d empty_response
            ≡ (e, a)
          → a.status ≡ some 201
          → ((request : VcsRequest)
              → decode r.body.content ≡ some request
              → to_lower (trim_space (query_value (codes "payload_hash") g))
                ≡ to_lower (trim_space request.payload_hash))
          → Found r g now ip e
      get_vcs_metadata-Found r g now ip d e a h c asked =
          let (request, q, m, p) = post-inv r now ip d e a h c in
          let (v, put') = post_record-inv request now ip d e a p c in
          let t : VcsRequest = trimmed request in
          let (l, found, member) =
            query-put (record_of t now ip) d e t.payload_hash put'
              (normalized-hash request v ∙ record_of-hash t now ip) in
          record {
            request = request;
            decoded = q;
            records = l;
            answer = get-answer g e t.payload_hash l m v found (asked request q ∙ hash_of request);
            member = member;
          }
