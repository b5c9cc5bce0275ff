-- ===== src/Filesystem/Register.antt =====
-- ReadMetadata and RegisterMetadata of Filesystem on a tree where no call fails by chance, for a volume
-- ID that is one plain name.
use csi_driver_trusted_ca.Common.{
  list_eq, nat_eq, true, =?_ne, codes, ◌≢◌, list_beq, refl, ◌∙◌, ap, inl, inr, ◌⊎◌, [], ◌∷◌, some,
  none, ℕ, Bytes, ◌≡◌,
}
use csi_driver_trusted_ca.Filesystem.{
  pure, ensure_volume_directory, write_metadata, metadata_path_for_volume_id, decode_file, at,
  clean_elems, Nodes, FilePath, exists_node, Codec, read_metadata, valid_path, tempfs_path, open_fs,
}
use csi_driver_trusted_ca.Sys.Returns.{
  Returns-pure, Returns-attempt, Returns-bind, Returns-refused, Returns-call, Returns,
}
use csi_driver_trusted_ca.Sys.{Owner, Result, ◌>>◌, not_exist, ok, err, syscall, file}
use csi_driver_trusted_ca.Os.{parent, is_dir_at, read_file, read_node}
use csi_driver_trusted_ca.Storage.Memory.{metadata_file}
use csi_driver_trusted_ca.Storage.{Metadata, not_found, Reply}
use csi_driver_trusted_ca.Os.Change.{follow_self}
use csi_driver_trusted_ca.Filesystem.Calm.{
  write_file-Returns, IsWritable, ensure_volume_directory-Returns, HasRoom, metadata_path-plain,
}

pub exists_node-Returns :
    (p : FilePath) (t : Bytes) (m : ℕ) (u : Owner) (n : Nodes)
    → at p n ≡ some (file t m u)
    → Returns (syscall (exists_node p)) n (ok tt) n
unfolding exists_node
exists_node-Returns p t m u n h =
    let self = follow_self n p (λ t l. cc) in
    Returns-call (exists_node p) (rw (self, exists_node) (rw h refl))

pub exists_node-missing :
    (p : FilePath) (n : Nodes)
    → at p n ≡ none
    → Returns (syscall (exists_node p)) n (err not_exist) n
unfolding exists_node
exists_node-missing p n h =
    let self = follow_self n p (λ t l. cc) in
    Returns-refused (exists_node p) (rw (self, exists_node) (rw h refl))

pub read_file-Returns :
    (p : FilePath) (t : Bytes) (m : ℕ) (u : Owner) (n : Nodes)
    → at p n ≡ some (file t m u)
    → Returns (read_file p) n (ok t) n
unfolding read_node
read_file-Returns p t m u n h =
    let self = follow_self n p (λ t l. cc) in
    Returns-call (read_node p) (rw (self, read_node) (rw h refl))

-- io/fs takes the path of the tmpfs, so that a relative base directory is one.
abbrev pub IsReadableRoot : Bytes → Type 0
IsReadableRoot base_dir = valid_path (tempfs_path base_dir) ≡ true

pub open_fs-Returns :
    (base_dir : Bytes) (p : FilePath) (n : Nodes) (r : Result Unit)
    → IsReadableRoot base_dir
    → Returns (syscall (exists_node p)) n r n
    → Returns (open_fs base_dir p) n r n
unfolding open_fs
open_fs-Returns base_dir p n r root h = rw (root, open_fs) h

module _ (c : Codec) (base_dir : Bytes) (root : IsReadableRoot base_dir) (id : Bytes)
    (plain : clean_elems id ≡ id ∷ []) (n : Nodes) where
  pub read_metadata-missing :
      at (id ∷ metadata_file ∷ []) n ≡ none
      → Returns (read_metadata c base_dir id) n (ok (Reply.err not_found)) n
  unfolding read_metadata
  read_metadata-missing h =
      Returns-bind _ _
        (Returns-attempt (
          open_fs-Returns base_dir (metadata_path_for_volume_id id) n (err not_exist) root (
            exists_node-missing (metadata_path_for_volume_id id) n
              (rw (metadata_path-plain id plain) h))))
        (Returns-pure (Reply.err not_found) n)

  pub read_metadata-file :
      (t : Bytes) (m : ℕ) (u : Owner)
      → at (id ∷ metadata_file ∷ []) n ≡ some (file t m u)
      → Returns (read_metadata c base_dir id) n (ok (decode_file c (ok t))) n
  unfolding read_metadata
  read_metadata-file t m u h =
      let p = metadata_path_for_volume_id id in
      let there : at p n ≡ some (file t m u) = rw (metadata_path-plain id plain) h in
      let found = exists_node-Returns p t m u n there in
      Returns-bind _ _ (Returns-attempt (open_fs-Returns base_dir p n (ok tt) root found)) (
        Returns-bind _ _ (Returns-attempt found) (
          Returns-bind _ _ (Returns-attempt (read_file-Returns p t m u n there))
            (Returns-pure (decode_file c (ok t)) n)))

-- The metadata of a volume is kept in its file, and no path changed but that file and its directories.
pub record Registered (id : Bytes) (text : Bytes) (n n' : Nodes) : Type 0 where
  pub mode : ℕ
  pub owner : Owner
  pub there : at (id ∷ metadata_file ∷ []) n' ≡ some (file text mode owner)
  pub other :
      (q : FilePath)
      → id ∷ [] ≢ q
      → id ∷ codes "data" ∷ [] ≢ q
      → id ∷ metadata_file ∷ [] ≢ q
      → at q n' ≡ at q n

-- what ensureVolumeDirectory needs
pub record Room (id : Bytes) (n : Nodes) : Type 0 where
  pub vol : HasRoom (id ∷ []) n
  pub data_ : HasRoom (id ∷ codes "data" ∷ []) n

pub data_file : codes "data" ≢ metadata_file
unfolding list_beq
data_file = =?_ne _ _ refl

module _ (c : Codec) (id : Bytes) (plain : clean_elems id ≡ id ∷ []) (n : Nodes)
    (room : Room id n) where
  -- the directories are ensured and the file is written
  pub stored-Returns :
      (meta : Metadata)
      → (at (id ∷ metadata_file ∷ []) n ≡ none)
        ⊎ ((t : Bytes) × (m : ℕ) × (u : Owner) × (at (id ∷ metadata_file ∷ []) n
              ≡ some (file t m u)))
      → (n' : Nodes) × Returns
          (do ensure_volume_directory id; write_metadata c id meta; pure true)
          n
          (ok true)
          n'
        × Registered id (c.marshal meta) n n'
  unfolding write_metadata is_dir_at parent
  stored-Returns meta place =
      let p = id ∷ metadata_file ∷ [] in
      let (n1, r1, h1) = ensure_volume_directory-Returns id plain n room.vol room.data_ in
      let same : at p n1 ≡ at p n = h1.other p (cc) (λ q. data_file (ap second q)) in
      let writable : IsWritable p n1 = elim place [
        | inl free ↦ inl (same ∙ free, rw (is_dir_at, h1.vol.1) refl)
        | inr (t, m, u, h) ↦ inr (t, m, u, same ∙ h)
      ] in
      let (n2, r2, h2) = write_file-Returns p (c.marshal meta) 0o600 n1 writable in
      (
        n2,
        Returns-bind _ _ r1
            (Returns-bind _ _ (rw (metadata_path-plain id plain) r2) (Returns-pure true n2)),
        record {
          mode = h2.mode;
          owner = h2.owner;
          there = h2.there;
          other = λ q a b d. h2.other q d ∙ h1.other q a b;
        },
      )
    where
      second : FilePath → Bytes
      second (a ∷ b ∷ q) = b
      second _ = []
