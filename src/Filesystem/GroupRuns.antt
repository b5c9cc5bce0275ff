-- ===== src/Filesystem/GroupRuns.antt =====
-- The group of a file that was written.
use csi_driver_trusted_ca.Common.{
  erase, contains, keys, ◌≢◌, ◌≡◌, refl, [], ◌∷◌, none, some, codes, lookup, insert, list_beq,
  list_eq, nat_eq, arith, In, inl,
}
use csi_driver_trusted_ca.Path.{clean, join, has_prefix, split, is_abs, clean_elems, clean_loop}
use csi_driver_trusted_ca.Validate.{
  validate_payload, validate_entries, validate_path, check_items, check_first,
}
use csi_driver_trusted_ca.Sys.{Owner, ◌>>=◌, syscall, attempt, raise, file, pure}
use csi_driver_trusted_ca.Os.{
  follow, write_file, mkdir_all, remove_all, is_dir_at, write_node, write_content_node, open_node,
  ensure_dir_node, parent, below, has_entries, erase_node, remove_each, remove_node, read_node,
  lstat_node, walk_node, rename_node, symlink_node, readlink_node, chmod_node, mkdir_node,
  mkdir_temp, at, under,
}
use csi_driver_trusted_ca.Writer.{
  write_entry, write_payload_to_dir, remove_paths, remove_user_visible_paths, should_write_file,
  should_write_payload, difference, sub_paths, new_paths, relative_paths, paths_to_remove, retire,
  switch_link, make_link, create_user_visible_files, add_new_files, run_dir_funcs, stage,
  new_timestamp_dir, read_old_dir, write_clean, write, strip,
}
use csi_driver_trusted_ca.Writer.View.{view}
use csi_driver_trusted_ca.Filesystem.{
  valid_path, valid_elems, tempfs_path, exists_node, fs_group_for_metadata, ensure_volume_directory,
  group, pos, make_payload, volume_path, data_path_for_volume_id,
}
use csi_driver_trusted_ca.Filesystem.Within.{lifted, outside, graft, within, sub}
use csi_driver_trusted_ca.Filesystem.Write.{
  with_group, gid_number, chgrp_node, written_file, chgrp_written_node, chown_each,
  new_atomic_writer, write_volume, write_files,
}
use csi_driver_trusted_ca.Filesystem.Grouped.{write_files-grouped}
use csi_driver_trusted_ca.LinuxTls.{
  bytes_ltb, insert_entry, entries_in, read_dir_node, append_node, add_entry, add_entries,
  name_difference, list_files_in_dir, openssl_rehash, create_ca_bundle, dir_funcs_for_volume,
}
use csi_driver_trusted_ca.Filesystem.Runs.{
  meta, data_root, tmpfs, no_links, roots, by_root, writes_roots,
}

thousand : gid_number (pos 1000) ≢ 4294967295
unfolding gid_number
thousand h = omega (arith, h)

asked : fs_group_for_metadata by_root meta ≡ group (some (pos 1000))
unfolding fs_group_for_metadata
asked = refl

listed : In (codes "root.pem") (keys roots)
unfolding keys
listed = inl refl

abbrev by_thousand : Owner
by_thousand = record { user = none; group = some 1000 }

seen_root :
    view
      (sub
        (data_path_for_volume_id meta.volume_id)
        (write_files by_root data_root
          (codes "2022")
          (codes "1" ∷ [])
          no_links
          meta
          roots
          (record { nodes = tmpfs; observed = []; faults = [] })).1.nodes)
      (clean_elems (codes "root.pem"))
    ≡ some (file (codes "PEM") 0o440 by_thousand)
unfolding view write_files write_volume valid_path valid_elems tempfs_path clean join within sub
    graft outside lifted ensure_volume_directory fs_group_for_metadata new_atomic_writer chown_each
    chgrp_written_node written_file chgrp_node with_group gid_number exists_node
    data_path_for_volume_id volume_path make_payload dir_funcs_for_volume create_ca_bundle
    openssl_rehash list_files_in_dir name_difference add_entries add_entry append_node read_dir_node
    entries_in insert_entry bytes_ltb write write_clean read_old_dir new_timestamp_dir mkdir_temp
    mkdir_node chmod_node stage run_dir_funcs add_new_files create_user_visible_files readlink_node
    symlink_node make_link switch_link rename_node retire paths_to_remove walk_node relative_paths
    strip new_paths sub_paths difference should_write_payload should_write_file lstat_node read_node
    remove_user_visible_paths remove_paths remove_node remove_all remove_each erase_node has_entries
    under below keys contains erase attempt raise validate_payload validate_entries validate_path
    check_items check_first split is_abs has_prefix clean_elems clean_loop write_payload_to_dir
    write_entry mkdir_all write_file parent ensure_dir_node open_node write_content_node syscall
    pure ◌>>=◌ at lookup insert write_node follow is_dir_at list_beq
seen_root = refl

write_files-grouped_example : by_thousand.group ≡ some (gid_number (pos 1000))
write_files-grouped_example =
    write_files-grouped by_root data_root (codes "2022") (codes "1" ∷ []) no_links meta roots
      (record { nodes = tmpfs; observed = []; faults = [] }) (pos 1000) (codes "root.pem")
      (codes "PEM") 0o440 by_thousand asked thousand listed writes_roots seen_root
