-- ===== src/Filesystem/Write.antt =====
-- WriteFiles, ListVolumes and the start of Filesystem. The atomic writer runs on the volume's data
-- directory; its path there is relative to that directory. os.Chown with a group changes the group of a
-- file; a directory's is not part of the tree.
use csi_driver_trusted_ca.Common.{
  ℕ, ◌-◌, ◌%◌, ◌^◌, ◌==◌, if◌then◌else◌, List, [], ◌∷◌, ◌++◌, Option, none, some, Bytes,
}
use csi_driver_trusted_ca.Path.{clean_elems}
use csi_driver_trusted_ca.Validate.{FilePath}
use csi_driver_trusted_ca.Sys.{
  Owner, Result, ok, err, not_exist, invalid, file, dir, link, Nodes, Sys, syscall, pure, raise,
  ◌>>=◌, ◌>>◌, attempt,
}
use csi_driver_trusted_ca.Os.{at, follow, write_node}
use csi_driver_trusted_ca.Storage.{Metadata, Files}
use csi_driver_trusted_ca.Writer.{data_dir_name, write}
use csi_driver_trusted_ca.LinuxTls.{DirEntry, read_dir_node, dir_funcs_for_volume}
use csi_driver_trusted_ca.Filesystem.{
  ℤ, pos, negsuc, FilesystemOptions, FsGroup, group, not_an_integer, out_of_range,
  fs_group_for_metadata, make_payload, data_path_for_volume_id, metadata_path_for_volume_id,
  ensure_volume_directory, exists_node, open_fs, valid_path, tempfs_path,
}
use csi_driver_trusted_ca.Filesystem.Within.{within}

-- the group as chown takes it, in 32 bits
unfoldable pub gid_number : ℤ → ℕ
gid_number (pos n) = n % 2 ^ 32
gid_number (negsuc n) = 2 ^ 32 - 1 - n % 2 ^ 32

-- The greatest number stands for no change.
unfoldable pub with_group : ℤ → Owner → Owner
with_group gid u =
    if gid_number gid == 4294967295 then u else record u { group = some (gid_number gid) }

-- os.Chown(p, -1, gid), where the tree has no group for directories
unfoldable pub chgrp_node : FilePath → ℤ → Nodes → Result (Unit × Nodes)
chgrp_node p gid n = elim (at (follow p n) n) [
  | none ↦ err not_exist
  | some (file c m u) ↦ ok (tt, write_node (follow p n) (file c m (with_group gid u)) n)
  | some (dir m) ↦ ok (tt, n)
  | some (link t) ↦ err invalid
]

-- the error of fsGroupForMetadata
abbrev pub of_fs_group : FsGroup → Sys (Option ℤ)
of_fs_group (group g) = pure g
of_fs_group not_an_integer = raise invalid
of_fs_group (out_of_range g) = raise invalid

abbrev pub chown_data_dir : Bytes → Option ℤ → Sys Unit
chown_data_dir id none = pure tt
chown_data_dir id (some gid) = syscall (chgrp_node (data_path_for_volume_id id) gid)

-- NewAtomicWriter looks at no error but one.
abbrev pub checked_target : Result Unit → Sys Unit
checked_target (err not_exist) = raise not_exist
checked_target _ = pure tt

unfoldable pub new_atomic_writer : FilePath → Sys Unit
new_atomic_writer d = do there ← attempt (syscall (exists_node d)); checked_target there

-- dirName/filename, through the link ..data
unfoldable pub written_file : FilePath → Bytes → Nodes → FilePath
written_file d filename n = elim (at (d ++ data_dir_name ∷ []) n) [
  | some (link t) ↦ d ++ (t ++ clean_elems filename)
  | _ ↦ d ++ data_dir_name ∷ clean_elems filename
]

unfoldable pub chgrp_written_node : FilePath → Bytes → ℤ → Nodes → Result (Unit × Nodes)
chgrp_written_node d filename gid n = chgrp_node (written_file d filename n) gid n

unfoldable pub chown_each : FilePath → ℤ → Files → Sys Unit
chown_each d gid [] = pure tt
chown_each d gid ((filename, content) ∷ files) =
    syscall (chgrp_written_node d filename gid) >> chown_each d gid files

abbrev pub chown_files : FilePath → Files → Option ℤ → Sys Unit
chown_files d files none = pure tt
chown_files d files (some gid) = chown_each d gid files

-- The time, the random names of new directories and the command openssl are parameters.
module _ (f : FilesystemOptions) (base_dir stamp : Bytes) (randoms : List Bytes)
    (openssl : Bytes → Sys Unit) where
  unfoldable pub write_volume : Metadata → Files → Sys Unit
  write_volume meta files = within (data_path_for_volume_id meta.volume_id) (
      write stamp randoms (make_payload files)
        (dir_funcs_for_volume (valid_path (tempfs_path base_dir)) openssl meta))

  unfoldable pub write_files : Metadata → Files → Sys Unit
  write_files meta files = do
    ensure_volume_directory meta.volume_id
    fs_group ← of_fs_group (fs_group_for_metadata f meta)
    chown_data_dir meta.volume_id fs_group
    new_atomic_writer (data_path_for_volume_id meta.volume_id)
    write_volume meta files
    chown_files (data_path_for_volume_id meta.volume_id) files fs_group

-- fs.ReadDir of the tmpfs
unfoldable pub read_tempfs : Bytes → Sys (List DirEntry)
read_tempfs base_dir =
    if valid_path (tempfs_path base_dir) then syscall (read_dir_node []) else raise invalid

module _ (base_dir : Bytes) where
  -- Open of each volume's metadata
  unfoldable pub open_each : List DirEntry → Sys (List Bytes)
  open_each [] = pure []
  open_each ((name, is_dir) ∷ dirs) = do
    open_fs base_dir (metadata_path_for_volume_id name)
    vols ← open_each dirs
    pure (name ∷ vols)

  unfoldable pub list_volumes : Sys (List Bytes)
  list_volumes = do dirs ← read_tempfs base_dir; open_each dirs
