-- ===== src/Payloads/Records.antt =====
-- The metadata record of an upload.
use vaps.Base.{
  ℕ, ◌≡◌, refl, ◌∙◌, Bool, true, none, some, arith, if◌then◌else◌, Option-cases, inl, inr,
}
use vaps.Text.{Bytes, same_refl}
use vaps.Bucket.{Bucket}
use vaps.Blobs
use vaps.Blobs.{Disk, exists}
use vaps.Objects.{Objects}
use vaps.Metadata
use vaps.Metadata.{Payload, PayloadStatus, stored, cached, put_payload, get_payload, reread}
use vaps.Payloads.{World, save_record, merge_record, new_record, commit_payload_metadata}
use vaps.Payloads.Durable.{staged-cases}

module _ (b : Bucket Payload) (o : Objects) (has_objects : Bool) (checksum_of : Bytes → Bytes) where
  open b use {Db, get, put, get-put}
  open o use {State}

  -- GetPayload gives a record with the upload's checksum and size, and the blobs and the objects are
  -- untouched.
  pub record Recorded (info : Blobs.Info) (w w' : World Db State) : Type 0 where
    pub entry : Payload
    pub found : get_payload b info.hash w'.meta ≡ Metadata.ok entry
    pub checksum : entry.checksum ≡ info.checksum
    pub size : entry.size ≡ info.size
    pub same_blobs : w'.blobs ≡ w.blobs
    pub same_remote : w'.remote ≡ w.remote

  pub save_record-found :
      (p : Payload) (w w' : World Db State)
      → save_record b o true has_objects checksum_of p w ≡ (w', none)
      → (get p.hash w'.meta.db ≡ some (reread p)) × (w'.blobs ≡ w.blobs) × (w'.remote ≡ w.remote)
  unfolding save_record put_payload
  save_record-found p w w' h = elim (Option-cases (put p.hash (reread p) w.meta.db)) [
    | inl e ↦ absurd (ground arith)
    | inr (d, e) ↦ (
      ground (arith, get-put p.hash p.hash (reread p) w.meta.db d e, same_refl p.hash),
      ground arith,
      ground arith,
    )
  ]

  save_record-Recorded :
      (info : Blobs.Info) (p : Payload) (w w' : World Db State)
      → p.hash ≡ info.hash
      → p.checksum ≡ info.checksum
      → p.size ≡ info.size
      → save_record b o true has_objects checksum_of p w ≡ (w', none)
      → Recorded info w w'
  unfolding get_payload
  save_record-Recorded info p w w' k c z h =
      let (f, blobs, remote) = save_record-found p w w' h in
      record {
        entry = reread p;
        found = ground (arith, f, k);
        checksum = unfold reread in c;
        size = unfold reread in z;
        same_blobs = blobs;
        same_remote = remote;
      }

  merge_record-fields :
      (info : Blobs.Info) (status : PayloadStatus) (now : ℕ) (p q : Payload)
      → merge_record b o true has_objects checksum_of info status now p ≡ some q
      → (q.hash ≡ p.hash) × (q.checksum ≡ info.checksum) × (q.size ≡ info.size)
  unfolding merge_record
  merge_record-fields info status now p q h = ground arith

  -- After a commit of metadata that reports no error GetPayload gives a record with the checksum
  -- and the size of the upload, and the files and the object store are untouched, if a record that
  -- was there before carries the hash that it stands under.
  pub commit_payload_metadata-Recorded :
      (disk : Disk) (now : ℕ) (info : Blobs.Info) (w w' : World Db State)
      → ((p : Payload) → get info.hash w.meta.db ≡ some p → p.hash ≡ info.hash)
      → commit_payload_metadata b o true has_objects checksum_of disk now info w ≡ (w', none)
      → Recorded info w w'
  unfolding commit_payload_metadata get_payload
  commit_payload_metadata-Recorded disk now info w w' keyed h =
      elim (staged-cases (exists disk info.hash w.blobs)) [
        | inl (e, f) ↦ absurd (ground arith)
        | inr (here, f) ↦
            let status : PayloadStatus = if here then cached else stored in
            elim (Option-cases (get info.hash w.meta.db)) [
              | inl e ↦
                  save_record-Recorded info
                    (new_record b o true has_objects checksum_of info status now) w w' refl refl
                    refl (ground arith)
              | inr (p, e) ↦
                  elim (Option-cases
                    (merge_record b o true has_objects checksum_of info status now p)) [
                      | inl m ↦ absurd (ground arith)
                      | inr (q, m) ↦
                          let (k, c, z) = merge_record-fields info status now p q m in
                          save_record-Recorded info q w w' (k ∙ keyed p e) c z (ground arith)
                    ]
            ]
      ]

  -- The objects do not depend on the record.
  pub commit_payload_metadata-remote :
      (has_meta : Bool) (disk : Disk) (now : ℕ) (info : Blobs.Info) (w : World Db State)
      → (commit_payload_metadata b o has_meta has_objects checksum_of disk now info w).0.remote
        ≡ w.remote
  unfolding commit_payload_metadata save_record get_payload
  commit_payload_metadata-remote has_meta disk now info w =
      elim (staged-cases (exists disk info.hash w.blobs)) [
        | inl (e, f) ↦ ground arith
        | inr (here, f) ↦
            let status : PayloadStatus = if here then cached else stored in
            elim (Option-cases (get info.hash w.meta.db)) [
              | inl e ↦ ground arith
              | inr (p, e) ↦ ground (
                arith,
                Option-cases (merge_record b o has_meta has_objects checksum_of info status now p),
              )
            ]
      ]
