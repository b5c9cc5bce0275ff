-- ===== src/Filesystem/Restart.antt =====
-- NewManager over Filesystem: a driver that starts again on the tmpfs of the last one.
use csi_driver_trusted_ca.Common.{
  ℕ, ◌≡◌, ap, ◌∙◌, List, [], ◌∷◌, none, some, Bytes, All, All-mono, contains, list_eq, nat_eq,
}
use csi_driver_trusted_ca.Path.{clean_elems}
use csi_driver_trusted_ca.Sys.{Owner, ok, file, Nodes, Sys}
use csi_driver_trusted_ca.Sys.Returns.{Returns, Returns-bind, Returns-pure}
use csi_driver_trusted_ca.Os.{at}
use csi_driver_trusted_ca.Storage.{Metadata, Reply, invalid_json, Storage}
use csi_driver_trusted_ca.Storage.Memory.{Codec, metadata_file}
use csi_driver_trusted_ca.LinuxTls.{DirEntry, names_of, entries_in}
use csi_driver_trusted_ca.Filesystem.{FilesystemOptions, metadata_path_for_volume_id}
use csi_driver_trusted_ca.Filesystem.Write.{open_each, list_volumes}
use csi_driver_trusted_ca.Filesystem.Calm.{metadata_path-plain}
use csi_driver_trusted_ca.Filesystem.Register.{
  exists_node-Returns, read_metadata-file, IsReadableRoot, open_fs-Returns,
}
use csi_driver_trusted_ca.Filesystem.Listing.{read_tempfs-Returns}
use csi_driver_trusted_ca.Filesystem.Interface.{Disk, replied, answered, filesystem}
use csi_driver_trusted_ca.Manager.{Manager, Options, started, new_manager, is_managed}
use csi_driver_trusted_ca.Manager.Resume.{
  IsComplete, IsReadable, new_manager_iff, new_manager-is_managed,
}

-- the names of the tmpfs's entries
abbrev pub entry_names : Nodes → List Bytes
entry_names n = names_of (entries_in [] n)

-- the entry is a volume whose metadata can be read
pub record IsStored (c : Codec) (n : Nodes) (id : Bytes) : Type 0 where
  pub plain : clean_elems id ≡ id ∷ []
  pub text : Bytes
  pub mode : ℕ
  pub owner : Owner
  pub there : at (id ∷ metadata_file ∷ []) n ≡ some (file text mode owner)
  pub meta : Metadata
  pub decoded : c.unmarshal text ≡ some meta

module _ (c : Codec) (base_dir : Bytes) (root : IsReadableRoot base_dir) (n : Nodes) where
  open_each-Returns :
      (es : List DirEntry)
      → All (IsStored c n) (names_of es)
      → Returns (open_each base_dir es) n (ok (names_of es)) n
  unfolding open_each
  open_each-Returns [] h = Returns-pure [] n
  open_each-Returns ((id, is_dir) ∷ es) (h, hs) =
      Returns-bind _ _
        (open_fs-Returns base_dir (metadata_path_for_volume_id id) n (ok tt) root (
          exists_node-Returns (metadata_path_for_volume_id id) h.text h.mode h.owner n
            (rw (metadata_path-plain id h.plain) h.there)))
        (Returns-bind _ _ (open_each-Returns es hs) (Returns-pure (id ∷ names_of es) n))

  list_volumes-Returns :
      All (IsStored c n) (entry_names n) → Returns (list_volumes base_dir) n (ok (entry_names n)) n
  unfolding list_volumes
  list_volumes-Returns h =
      Returns-bind _ _ (read_tempfs-Returns base_dir n root) (open_each-Returns (entries_in [] n) h)

module _ (c : Codec) (f : FilesystemOptions) (base_dir : Bytes) (stamp : Disk → Bytes)
    (randoms : Disk → List Bytes) (openssl : Bytes → Sys Unit)
    (root : IsReadableRoot base_dir) where
  abbrev fs : Storage
  fs = filesystem c f base_dir stamp randoms openssl

  abbrev disk : Nodes → Disk
  disk n = record { nodes = n; faults = [] }

  lists :
      (n : Nodes)
      → All (IsStored c n) (entry_names n)
      → fs.list_volumes (disk n) ≡ Reply.ok (entry_names n)
  lists n h =
      let (seen, e) = (list_volumes-Returns c base_dir root n h).run [] in ap (λ x. replied (x.0)) e

  reads : (n : Nodes) (id : Bytes) → IsStored c n id → IsReadable fs (disk n) id
  reads n id h =
      let (seen, e) =
        (read_metadata-file c base_dir root id h.plain n h.text h.mode h.owner h.there).run [] in
      (
        h.meta,
        ap (λ x. answered (x.0)) e
            ∙ ap (λ o. elim o [ none ↦ Reply.err invalid_json | some m ↦ Reply.ok m ]) h.decoded,
      )

  -- When every entry of the tmpfs is a volume whose metadata can be read, NewManager over Filesystem
  -- starts, and its manager manages exactly those volumes. Its options are set, io/fs takes the path of
  -- the tmpfs, as it does below a relative data root, no call fails by chance, and the names are plain.
  pub new_manager-restarts :
      (opts : Options) (n : Nodes) (k : Bytes)
      → IsComplete opts
      → All (IsStored c n) (entry_names n)
      → (m : Manager) × (new_manager fs opts (disk n) ≡ started m)
        × (is_managed k m ≡ contains (entry_names n) k)
  new_manager-restarts opts n k complete h =
      let (m, e) =
        (new_manager_iff fs (disk n) opts (entry_names n) complete (lists n h)).1
          (All-mono (entry_names n) (λ id s. reads n id s) h) in
      (m, e, new_manager-is_managed fs (disk n) opts (entry_names n) m k complete (lists n h) e)
