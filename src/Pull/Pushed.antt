-- ===== src/Pull/Pushed.antt =====
-- A payload that was pushed is pulled with the bytes that it was pushed with.
use vaps.Base.{
  ℕ, ◌≡◌, sym, ap, subst, ◌∙◌, Bool, true, false, none, some, [], arith, Option-cases, inl, inr,
}
use vaps.Text.{Bytes, same}
use vaps.Int64.{ℤ}
use vaps.Dict.{lookup}
use vaps.Bucket.{Bucket}
use vaps.Blobs
use vaps.Blobs.{
  Disk, Staged, stage, publish, compare_cached, link_staged, relative_path, evict, checksum_valid,
}
use vaps.Objects.{Objects}
use vaps.Metadata
use vaps.Metadata.{Payload, get_payload}
use vaps.Payloads
use vaps.Payloads.{
  World, put_payload_durably, publish_local, commit_object, commit_payload_metadata,
}
use vaps.Payloads.Durable.{
  put_payload_durably-Durable, staged-cases, payload-cases, stage-inv, checksum_valid-nonempty,
}
use vaps.Payloads.Records.{commit_payload_metadata-Recorded}
use vaps.Payloads.Resolve.{payload_record}
use vaps.Pull.Opening.{Opened, ok, open_disk_or_remote}
use vaps.Pull.Opened.{open_disk_or_remote-Checked}

module _ (b : Bucket Payload) (o : Objects) (checksum_of : Bytes → Bytes) where
  open b use {Db, get}
  open o use {State, fetch}

  publish-identity :
      (disk : Disk) (staged : Staged) (s : Blobs.Store) (i : Blobs.Info)
      → (publish checksum_of disk staged s).1 ≡ Blobs.ok i
      → (i.hash ≡ staged.info.hash) × (i.checksum ≡ staged.info.checksum)
  unfolding publish compare_cached link_staged
  publish-identity disk staged s i h = elim (staged-cases (relative_path staged.info.hash)) [
    | inl (e, q) ↦ absurd (ground arith)
    | inr (path, q) ↦ ground (arith, Option-cases (lookup path s.files))
  ]

  publish_local-identity :
      (disk : Disk) (staged : Staged) (created : Bool) (etag : Bytes) (w w' : World Db State)
      (i : Blobs.Info)
      → publish_local b o true true checksum_of disk staged created etag w ≡ (w', Payloads.ok i)
      → (i.hash ≡ staged.info.hash) × (i.checksum ≡ staged.info.checksum)
  unfolding publish_local
  publish_local-identity disk staged created etag w w' i h =
      let published = publish checksum_of disk staged w.blobs in
      elim (staged-cases published.1) [
        | inl (e, q) ↦ ground arith
        | inr (j, q) ↦ let (k, c) = publish-identity disk staged w.blobs j q in ground arith
      ]

  put_payload_durably-identity :
      (disk : Disk) (now : ℤ) (hash checksum content : Bytes) (w w' : World Db State)
      (i : Blobs.Info)
      → put_payload_durably b o true true checksum_of disk now hash checksum content false w
        ≡ (w', Payloads.ok i)
      → (i.hash ≡ hash) × (i.checksum ≡ checksum) × (same checksum [] ≡ false)
  unfolding put_payload_durably
  put_payload_durably-identity disk now hash checksum content w w' i h =
      elim (staged-cases (stage checksum_of disk now hash checksum content false)) [
        | inl (e, q) ↦ absurd (ground arith)
        | inr (staged, q) ↦
            let (k, c, t, v, u) =
              stage-inv b o true checksum_of disk now hash checksum content false staged q in
            let committed = commit_object b o true true checksum_of disk staged w.remote in
            elim (payload-cases committed.1) [
              | inl (e, g) ↦ absurd (ground arith)
              | inr ((created, etag), g) ↦
                  let (k', c') =
                    publish_local-identity disk staged created etag
                      (record w { remote = committed.0 }) w' i (ground arith) in
                  (k' ∙ k, c' ∙ c, checksum_valid-nonempty b o true checksum_of checksum v)
            ]
      ]

  -- A record with a checksum is answered as it is.
  payload_record-known :
      (hash : Bytes) (now : ℕ) (w : World Db State) (p : Payload)
      → get_payload b hash w.meta ≡ Metadata.ok p
      → same p.checksum [] ≡ false
      → payload_record b o true true checksum_of hash now w ≡ (w, Payloads.ok p)
  unfolding payload_record
  payload_record-known hash now w p h k = ground arith

  -- If an upload created its object and its metadata was committed without an error, then a pull
  -- of the hash that is opened, whatever local files are left by then, gives the uploaded bytes if
  -- it is not answered from a local file; a record that the upload replaces carries the hash that
  -- it stands under.
  pub open_disk_or_remote-uploaded :
      (disk disk' : Disk) (now : ℤ) (noted later : ℕ) (hash checksum content : Bytes)
      (w w1 w2 y : World Db State) (i : Blobs.Info) (left : Blobs.Store) (f : Opened)
      → put_payload_durably b o true true checksum_of disk now hash checksum content false w
        ≡ (w1, Payloads.ok i)
      → i.created ≡ true
      → ((p : Payload) → get i.hash w1.meta.db ≡ some p → p.hash ≡ i.hash)
      → commit_payload_metadata b o true true checksum_of disk noted i w1 ≡ (w2, none)
      → open_disk_or_remote b o true true checksum_of disk' hash later (record w2 { blobs = left })
        ≡ (y, ok f)
      → f.from_disk ≡ false
      → f.content ≡ content
  open_disk_or_remote-uploaded disk disk' now noted later hash checksum content w w1 w2 y i left f
        pushed created keyed noted_ok opened remote =
      let (k, c, filled) =
        put_payload_durably-identity disk now hash checksum content w w1 i pushed in
      let (same_checksum, durable) =
        put_payload_durably-Durable b o true checksum_of disk now hash checksum content false w w1 i
          pushed in
      let noted_record =
        commit_payload_metadata-Recorded b o true checksum_of disk noted i w1 w2 keyed noted_ok in
      let known =
        payload_record-known hash later (record w2 { blobs = left }) noted_record.entry
          (subst (λ h. get_payload b h w2.meta ≡ Metadata.ok noted_record.entry) k
            noted_record.found)
          (ap (λ x. same x []) (noted_record.checksum ∙ c) ∙ filled) in
      let (p, x, found, checked) =
        open_disk_or_remote-Checked b o true true checksum_of disk' hash later
          (record w2 { blobs = left }) y f opened in
      let (_, _, _, _, _, g, fetched, agrees, _) = checked.remote remote in
      let same_remote : x.remote ≡ w1.remote =
        ap (λ r. r.0.remote) (sym found ∙ known) ∙ noted_record.same_remote in
      agrees ∙ durable.bytes created g (ap (fetch hash) (sym same_remote) ∙ fetched)
