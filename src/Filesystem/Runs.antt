-- ===== src/Filesystem/Runs.antt =====
-- A run of WriteFiles on a volume that has one version of its files.
use csi_driver_trusted_ca.Common.{
  erase, contains, keys, =?_ne, ◌≢◌, Dict, ◌≡◌, refl, sym, subst, [], ◌∷◌, none, some, Bytes, codes,
  lookup, insert, list_beq, list_eq, nat_eq, ◌=?◌, arith, inl, inr, Bool-cases,
}
use csi_driver_trusted_ca.Path.{clean, join, has_prefix, split, is_abs, clean_elems, clean_loop}
use csi_driver_trusted_ca.Validate.{
  valid, FileProjection, FilePath, validate_payload, validate_entries, validate_path, check_items,
  check_first,
}
use csi_driver_trusted_ca.Sys.{
  of_process, ok, ◌>>=◌, syscall, attempt, raise, Error, file, dir, link, Nodes, Sys, pure,
}
use csi_driver_trusted_ca.Sys.Keeps.{Keeps-pure}
use csi_driver_trusted_ca.Os.{
  follow, write_file, mkdir_all, remove_all, is_dir_at, write_node, write_content_node, open_node,
  ensure_dir_node, parent, below, has_entries, erase_node, remove_each, remove_node, read_node,
  lstat_node, walk_node, rename_node, symlink_node, readlink_node, chmod_node, mkdir_node,
  mkdir_temp, at, under,
}
use csi_driver_trusted_ca.Storage.{Metadata, Files}
use csi_driver_trusted_ca.Writer.{
  write_entry, write_payload_to_dir, remove_paths, remove_user_visible_paths, should_write_file,
  should_write_payload, difference, sub_paths, new_paths, relative_paths, paths_to_remove, retire,
  switch_link, make_link, create_user_visible_files, add_new_files, run_dir_funcs, stage,
  new_timestamp_dir, read_old_dir, write_clean, write, strip,
}
use csi_driver_trusted_ca.Writer.Stage.{UnreservedNames}
use csi_driver_trusted_ca.Writer.View.{IsTarget}
use csi_driver_trusted_ca.Writer.Atomic.{ValidUnreserved}
use csi_driver_trusted_ca.LinuxTls.Rehash.{IsRehash, listing, name_difference_self}
use csi_driver_trusted_ca.Filesystem.{
  valid_path, valid_elems, tempfs_path, exists_node, fs_group_for_metadata, ensure_volume_directory,
  FilesystemOptions, pos, make_payload, volume_path, data_path_for_volume_id,
}
use csi_driver_trusted_ca.Filesystem.Within.{lifted, outside, graft, within, sub}
use csi_driver_trusted_ca.Filesystem.Write.{
  with_group, gid_number, chgrp_node, written_file, chgrp_written_node, chown_each,
  new_atomic_writer, write_volume, write_files,
}
use csi_driver_trusted_ca.Filesystem.Below.{IsAtomicBelow}
use csi_driver_trusted_ca.Filesystem.Atomic.{write_files-IsAtomicBelow}
use csi_driver_trusted_ca.LinuxTls.Leaves.{LeavesEntry}
use csi_driver_trusted_ca.Filesystem.Visible.{write_files-Showing, ShowingBelow}
use csi_driver_trusted_ca.LinuxTls.{
  bytes_ltb, insert_entry, entries_in, read_dir_node, append_node, add_entry, add_entries,
  name_difference, list_files_in_dir, openssl_rehash, create_ca_bundle, dir_funcs_for_volume,
  bundle_name,
}
use csi_driver_trusted_ca.Sys.Hoare.{Hoare-pure}

abbrev pub meta : Metadata
meta = record { volume_id = codes "v1"; target_path = codes "/pods/1"; volume_context = [] }

-- the data root of the Helm chart
abbrev pub data_root : Bytes
data_root = codes "csi-data-dir"

abbrev data_path : FilePath
data_path = codes "v1" ∷ codes "data" ∷ []

abbrev version_1 : Bytes
version_1 = codes "..2021.1"

abbrev pub tmpfs : Nodes
tmpfs =
    (codes "v1" ∷ [], dir 0o644)
    ∷ (data_path, dir 0o550)
    ∷ (codes "v1" ∷ codes "data" ∷ codes "..data" ∷ [], link (version_1 ∷ []))
    ∷ (codes "v1" ∷ codes "data" ∷ version_1 ∷ [], dir 0o755)
    ∷ (codes "v1" ∷ codes "data" ∷ version_1 ∷ codes "a" ∷ [], file (codes "old") 0o440 of_process)
    ∷ (codes "v1" ∷ codes "data" ∷ codes "a" ∷ [], link (codes "..data" ∷ codes "a" ∷ []))
    ∷ []

-- what is below the data directory
abbrev data_dir : Nodes
data_dir =
    ([], dir 0o550)
    ∷ (codes "..data" ∷ [], link (version_1 ∷ []))
    ∷ (version_1 ∷ [], dir 0o755)
    ∷ (version_1 ∷ codes "a" ∷ [], file (codes "old") 0o440 of_process)
    ∷ (codes "a" ∷ [], link (codes "..data" ∷ codes "a" ∷ []))
    ∷ []

data_dir-rooted :
    (e : Bytes) (p : FilePath) → at (e ∷ []) data_dir ≡ none → at (e ∷ p) data_dir ≡ none
unfolding at lookup list_beq
data_dir-rooted e [] h = h
data_dir-rooted e (f ∷ p) h = elim (Bool-cases (version_1 =? e)) [
  | inl q ↦ ground arith
  | inr q ↦ ground arith
]

data_dir-IsTarget : IsTarget data_dir
unfolding at lookup list_beq
data_dir-IsTarget = record {
  version =
      inr (version_1, record { links = refl; there = λ e. absurd (cc); other = cc; clear = refl });
  rooted = data_dir-rooted;
}

tmpfs-IsTarget : IsTarget (sub (data_path_for_volume_id (codes "v1")) tmpfs)
unfolding sub under strip data_path_for_volume_id volume_path clean_elems clean_loop split is_abs
    list_beq
tmpfs-IsTarget = data_dir-IsTarget

-- openssl finds nothing to do
abbrev pub no_links : Bytes → Sys Unit
no_links ts = pure tt

pub no_links-IsRehash : IsRehash no_links
unfolding pure
no_links-IsRehash = record {
  keeps = λ ts n0 O fresh sub. Keeps-pure tt tt;
  names = λ ts w. subst UnreservedNames (sym (name_difference_self (listing ts w.nodes))) tt;
}

abbrev pub roots : Files
roots = (codes "root.pem", codes "PEM") ∷ []

roots-ValidUnreserved : ValidUnreserved (validate_payload (make_payload roots))
unfolding make_payload validate_payload validate_entries validate_path check_items check_first split
    is_abs has_prefix list_beq clean_elems clean_loop insert
roots-ValidUnreserved = (cc, tt)

write_files-IsAtomicBelow_example :
    IsAtomicBelow
      (data_path_for_volume_id (codes "v1"))
      tmpfs
      (write_files
        (record { fixed_fs_group = some (pos 1000); fs_group_volume_attribute_key = [] })
        data_root
        (codes "2022")
        (codes "1" ∷ [])
        no_links
        meta
        roots
        (record {
          nodes = tmpfs;
          observed = [];
          faults = none ∷ none ∷ none ∷ some Error.exist ∷ [];
        })).1
write_files-IsAtomicBelow_example =
    write_files-IsAtomicBelow
      (record { fixed_fs_group = some (pos 1000); fs_group_volume_attribute_key = [] }) data_root
      (codes "2022") (codes "1" ∷ []) no_links meta roots tmpfs
      (none ∷ none ∷ none ∷ some Error.exist ∷ []) tmpfs-IsTarget (omega arith)
      roots-ValidUnreserved no_links-IsRehash

abbrev pub root_pem : FileProjection
root_pem = record { content = codes "PEM"; mode = 0o440; fs_user = none }

abbrev pub cleaned_roots : Dict FilePath FileProjection
cleaned_roots = (codes "root.pem" ∷ [], root_pem) ∷ []

pub roots_clean : validate_payload (make_payload roots) ≡ valid cleaned_roots
unfolding make_payload validate_payload validate_entries validate_path check_items check_first split
    is_abs has_prefix list_beq clean_elems clean_loop insert
roots_clean = refl

pub root_found : lookup (codes "root.pem" ∷ []) cleaned_roots ≡ some root_pem
unfolding lookup list_beq
root_found = refl

pub no_links-LeavesEntry : LeavesEntry (codes "root.pem" ∷ []) no_links
unfolding pure
no_links-LeavesEntry = record { keeps = λ ts x. Hoare-pure tt λ w h. h }

pub bundle_apart : bundle_name ∷ [] ≢ codes "root.pem" ∷ []
unfolding list_beq
bundle_apart = =?_ne _ _ refl

abbrev pub by_root : FilesystemOptions
by_root = record { fixed_fs_group = some (pos 1000); fs_group_volume_attribute_key = [] }

pub writes_roots :
    (write_files by_root data_root
      (codes "2022")
      (codes "1" ∷ [])
      no_links
      meta
      roots
      (record { nodes = tmpfs; observed = []; faults = [] })).0
    ≡ ok tt
unfolding write_files write_volume valid_path valid_elems tempfs_path clean join within sub graft
    outside lifted ensure_volume_directory fs_group_for_metadata new_atomic_writer chown_each
    chgrp_written_node written_file chgrp_node with_group gid_number exists_node
    data_path_for_volume_id volume_path make_payload dir_funcs_for_volume create_ca_bundle
    openssl_rehash list_files_in_dir name_difference add_entries add_entry append_node read_dir_node
    entries_in insert_entry bytes_ltb write write_clean read_old_dir new_timestamp_dir mkdir_temp
    mkdir_node chmod_node stage run_dir_funcs add_new_files create_user_visible_files readlink_node
    symlink_node make_link switch_link rename_node retire paths_to_remove walk_node relative_paths
    strip new_paths sub_paths difference should_write_payload should_write_file lstat_node read_node
    remove_user_visible_paths remove_paths remove_node remove_all remove_each erase_node has_entries
    under below keys contains erase attempt raise validate_payload validate_entries validate_path
    check_items check_first split is_abs has_prefix clean_elems clean_loop write_payload_to_dir
    write_entry mkdir_all write_file parent ensure_dir_node open_node write_content_node syscall
    pure ◌>>=◌ at lookup insert write_node follow is_dir_at list_beq
writes_roots = refl

write_files-Showing_example :
    ShowingBelow
      (data_path_for_volume_id (codes "v1"))
      (codes "root.pem")
      []
      root_pem
      (write_files by_root data_root
        (codes "2022")
        (codes "1" ∷ [])
        no_links
        meta
        roots
        (record { nodes = tmpfs; observed = []; faults = [] })).1
write_files-Showing_example =
    write_files-Showing by_root data_root (codes "2022") (codes "1" ∷ []) no_links meta roots tmpfs
      [] cleaned_roots (codes "root.pem") [] root_pem tmpfs-IsTarget (omega arith) roots_clean
      (cc, tt) no_links-IsRehash no_links-LeavesEntry bundle_apart root_found writes_roots
