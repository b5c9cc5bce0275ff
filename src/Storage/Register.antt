-- ===== src/Storage/Register.antt =====
-- What MemoryFS reads after RegisterMetadata has written.
use csi_driver_trusted_ca.Common.{
  ◌≡◌, true, some, [], Bytes, lookup, insert, lookup-insert, list_eq, nat_eq, =?_refl, arith,
  Option-cases, inl, inr,
}
use csi_driver_trusted_ca.Storage.{Metadata, Files, ok}
use csi_driver_trusted_ca.Storage.Memory.{
  Codec, MemoryFs, metadata_file, read_metadata, register_metadata, register_in,
}

module _ (c : Codec) (meta : Metadata) (again : c.unmarshal (c.marshal meta) ≡ some meta) where
  read-stored :
      (vol : Files) (m : MemoryFs) (k : Bytes)
      → read_metadata c k (insert k (insert metadata_file (c.marshal meta) vol) m) ≡ ok meta
  unfolding read_metadata
  read-stored vol m k = ground (
    arith,
    lookup-insert k k (insert metadata_file (c.marshal meta) vol) m,
    lookup-insert metadata_file metadata_file (c.marshal meta) vol,
    =?_refl k,
    =?_refl metadata_file,
    again,
  )

  register_in-read :
      (vol : Files) (m : MemoryFs)
      → (register_in c meta vol m).0 ≡ ok true
      → read_metadata c meta.volume_id (register_in c meta vol m).1 ≡ ok meta
  unfolding register_in
  register_in-read vol m h = ground (arith, read-stored vol m meta.volume_id)

  -- When RegisterMetadata reports that it has written, ReadMetadata returns what was registered. The
  -- metadata is one that encoding/json reads back as it was written.
  pub register_metadata-read :
      (m : MemoryFs)
      → (register_metadata c meta m).0 ≡ ok true
      → read_metadata c meta.volume_id (register_metadata c meta m).1 ≡ ok meta
  unfolding register_metadata
  register_metadata-read m h = elim (Option-cases (lookup meta.volume_id m)) [
    | inl e ↦
        rw (e, register_metadata)
          (register_in-read [] (insert meta.volume_id [] m) (rw (e, register_metadata) at h))
    | inr (vol, e) ↦
        rw (e, register_metadata) (register_in-read vol m (rw (e, register_metadata) at h))
  ]
