-- ===== src/Filesystem/Stray.antt =====
-- RegisterMetadata of Filesystem over metadata that is no JSON.
use csi_driver_trusted_ca.Common.{
  ℕ, refl, ap, subst, ◌≡◌, ◌≢◌, ◌∙◌, inl, true, false, none, some, [], ◌∷◌, Bytes, list_eq, nat_eq,
  list_beq,
}
use csi_driver_trusted_ca.Path.{clean_elems, clean_loop, split, is_abs}
use csi_driver_trusted_ca.Validate.{FilePath}
use csi_driver_trusted_ca.Sys.{Owner, ok, err, not_exist, file, Nodes}
use csi_driver_trusted_ca.Sys.Returns.{Returns, Returns-bind, Returns-pure}
use csi_driver_trusted_ca.Os.{at, is_dir_at, parent}
use csi_driver_trusted_ca.Storage.{Metadata, Reply, invalid_json}
use csi_driver_trusted_ca.Storage.Memory.{Codec, metadata_file}
use csi_driver_trusted_ca.Filesystem.{
  read_metadata, register_metadata, update_metadata, write_metadata, metadata_path_for_volume_id,
  volume_path, no_metadata,
}
use csi_driver_trusted_ca.Filesystem.Calm.{write_file-Returns, ensure_volume_directory-Returns}
use csi_driver_trusted_ca.Filesystem.Register.{
  Room, read_metadata-file, exists_node-missing, data_file, IsReadableRoot,
}
use csi_driver_trusted_ca.Filesystem.Listing.{list_volumes-stops}
use csi_driver_trusted_ca.Filesystem.Write.{list_volumes}

-- the path of the metadata of the volume without a name
nameless_path : metadata_path_for_volume_id [] ≡ metadata_file ∷ []
unfolding metadata_path_for_volume_id volume_path clean_elems clean_loop split is_abs list_beq
nameless_path = refl

-- the path of the metadata of a volume with the name of the file
stray_path : metadata_path_for_volume_id metadata_file ≡ metadata_file ∷ metadata_file ∷ []
unfolding metadata_path_for_volume_id volume_path clean_elems clean_loop split is_abs list_beq
stray_path = refl

abbrev first_name : FilePath → Bytes
first_name (a ∷ q) = a
first_name [] = []

abbrev second_name : FilePath → Bytes
second_name (a ∷ b ∷ q) = b
second_name _ = []

module _ (c : Codec) (base_dir : Bytes) (root_readable : IsReadableRoot base_dir) (meta : Metadata)
    (n : Nodes) (t : Bytes) (m : ℕ) (u : Owner)
    (plain : clean_elems meta.volume_id ≡ meta.volume_id ∷ []) (room : Room meta.volume_id n)
    (there : at (meta.volume_id ∷ metadata_file ∷ []) n ≡ some (file t m u))
    (corrupt : c.unmarshal t ≡ none) (changed : c.deep_equal [] meta.volume_context ≡ false)
    (named : meta.volume_id ≢ metadata_file) (root : at (metadata_file ∷ []) n ≡ none)
    (below : at (metadata_file ∷ metadata_file ∷ []) n ≡ none) where
  -- what is written at the root
  abbrev stray : Bytes
  stray = c.marshal (record (no_metadata c) { volume_context = meta.volume_context })

  cannot_read :
      (n' : Nodes)
      → at (meta.volume_id ∷ metadata_file ∷ []) n' ≡ some (file t m u)
      → Returns (read_metadata c base_dir meta.volume_id) n' (ok (Reply.err invalid_json)) n'
  cannot_read n' h =
      subst (λ x. Returns (read_metadata c base_dir meta.volume_id) n' (ok x) n')
        (ap (λ o. elim o [ none ↦ Reply.err invalid_json | some m ↦ Reply.ok m ]) corrupt)
        (read_metadata-file c base_dir root_readable meta.volume_id plain n' t m u h)

  -- Over metadata that is no JSON, RegisterMetadata reports success and leaves that metadata, so that
  -- ReadMetadata goes on failing, and ListVolumes fails from then on. The volume context is not empty,
  -- io/fs takes the path of the tmpfs, as it does below a relative data root, no call fails by chance,
  -- the volume ID is one plain name, and the tmpfs has no metadata of its own.
  pub register_metadata-Stray :
      (n' : Nodes) × Returns (register_metadata c base_dir meta) n (ok true) n'
      × Returns (read_metadata c base_dir meta.volume_id) n' (ok (Reply.err invalid_json)) n'
      × Returns (list_volumes base_dir) n' (err not_exist) n'
  unfolding register_metadata update_metadata write_metadata is_dir_at parent
  register_metadata-Stray =
      let p = metadata_file ∷ [] in
      let (n1, r1, h1) =
        ensure_volume_directory-Returns meta.volume_id plain n room.vol room.data_ in
      let free : at p n1 ≡ none = h1.other p (λ e. named (ap first_name e)) (cc) ∙ root in
      let (n2, r2, h2) = write_file-Returns p stray 0o600 n1 (inl (free, refl)) in
      let kept : at (meta.volume_id ∷ metadata_file ∷ []) n2 ≡ some (file t m u) =
        h2.other _ (cc) ∙ h1.other _ (cc) (λ e. data_file (ap second_name e)) ∙ there in
      let nothing : at (metadata_file ∷ metadata_file ∷ []) n2 ≡ none =
        h2.other _ (cc) ∙ h1.other _ (cc) (λ e. named (ap first_name e)) ∙ below in
      (
        n2,
        Returns-bind _ _ (cannot_read n there) (
            rw (update_metadata, changed)
              (Returns-bind _ _ r1
                (Returns-bind _ _ (rw nameless_path r2) (Returns-pure true n2)))),
        cannot_read n2 kept,
        list_volumes-stops base_dir root_readable metadata_file (file stray h2.mode h2.owner) n2
            h2.there
            (exists_node-missing (metadata_path_for_volume_id metadata_file) n2
              (rw stray_path nothing)),
      )
