-- ===== src/Filesystem/Pods.antt =====
-- A pod's first volume on an empty tmpfs, and a driver that starts again.
use csi_driver_trusted_ca.Common.{
  sym, All, subst, erase, contains, keys, ◌≡◌, ◌≢◌, refl, [], ◌∷◌, none, some, Bytes, codes, lookup,
  insert, list_beq, list_eq, nat_eq, arith, inl, true, false, List,
}
use csi_driver_trusted_ca.Path.{clean, join, has_prefix, split, is_abs, clean_elems, clean_loop}
use csi_driver_trusted_ca.Validate.{
  validate_payload, validate_entries, validate_path, check_items, check_first,
}
use csi_driver_trusted_ca.Sys.{of_process, dir, file, Nodes, ◌>>=◌, syscall, attempt, raise, pure}
use csi_driver_trusted_ca.Os.{
  follow, write_file, mkdir_all, remove_all, is_dir_at, write_node, write_content_node, open_node,
  ensure_dir_node, parent, below, has_entries, erase_node, remove_each, remove_node, read_node,
  lstat_node, walk_node, rename_node, symlink_node, readlink_node, chmod_node, mkdir_node,
  mkdir_temp, at, under,
}
use csi_driver_trusted_ca.Storage.{Metadata, Files, Reply, not_found, other, Storage}
use csi_driver_trusted_ca.Writer.{
  write_entry, write_payload_to_dir, remove_paths, remove_user_visible_paths, should_write_file,
  should_write_payload, difference, sub_paths, new_paths, relative_paths, paths_to_remove, retire,
  switch_link, make_link, create_user_visible_files, add_new_files, run_dir_funcs, stage,
  new_timestamp_dir, read_old_dir, write_clean, write, strip,
}
use csi_driver_trusted_ca.Writer.View.{IsTarget}
use csi_driver_trusted_ca.Filesystem.{
  open_fs, valid_path, valid_elems, tempfs_path, exists_node, fs_group_for_metadata,
  ensure_volume_directory, FilesystemOptions, make_payload, volume_path, data_path_for_volume_id,
  metadata_path_for_volume_id, write_metadata, read_metadata, register_metadata,
}
use csi_driver_trusted_ca.Filesystem.Within.{lifted, outside, graft, within, sub}
use csi_driver_trusted_ca.Filesystem.Write.{
  with_group, gid_number, chgrp_node, written_file, chgrp_written_node, chown_each,
  new_atomic_writer, write_volume, write_files,
}
use csi_driver_trusted_ca.LinuxTls.{
  bytes_ltb, insert_entry, entries_in, read_dir_node, append_node, add_entry, add_entries,
  name_difference, list_files_in_dir, openssl_rehash, create_ca_bundle, dir_funcs_for_volume,
}
use csi_driver_trusted_ca.Storage.Memory.{metadata_file, Codec}
use csi_driver_trusted_ca.Filesystem.Interface.{filesystem, Disk}
use csi_driver_trusted_ca.Driver.{
  Node, clean_up, bind_mount, ensure_mounted, ephemeral_key, ensure_managed, is_mount, is_ephemeral,
  publish_body, node_publish_volume, from_node_publish_volume_request, PublishRequest, Mounter,
  done,
}
use csi_driver_trusted_ca.Filesystem.Published.{publish-ShowsOn, ShowsOn}
use csi_driver_trusted_ca.Manager.{
  started, new_manager, Options, Manager, close_channel, is_volume_ready, fetch_and_write,
  manage_volume_immediate, manage_volume_if_not_managed, unmanage_volume, empty, is_managed,
}
use csi_driver_trusted_ca.Filesystem.Register.{Room, IsReadableRoot}
use csi_driver_trusted_ca.Filesystem.Runs.{
  root_found, bundle_apart, no_links-LeavesEntry, no_links-IsRehash, roots_clean, cleaned_roots,
  roots, root_pem, no_links,
}
use csi_driver_trusted_ca.Manager.Resume.{IsComplete}
use csi_driver_trusted_ca.Filesystem.Refused.{filesystem-refused}
use csi_driver_trusted_ca.Filesystem.Restart.{new_manager-restarts, entry_names, IsStored}

abbrev request : PublishRequest
request = record {
  volume_id = codes "v1";
  target_path = codes "/pods/1";
  readonly = true;
  volume_context = (ephemeral_key, codes "true") ∷ [];
}

-- reads the one volume back
abbrev one_volume : Codec
one_volume = record {
  marshal = λ meta. meta.volume_id;
  unmarshal = λ json. some (record {
    volume_id = json;
    target_path = codes "/pods/1";
    volume_context = request.volume_context;
  });
  deep_equal = λ a b. false;
}

-- the data root of the Helm chart
abbrev data_root : Bytes
data_root = codes "csi-data-dir"

root_readable : IsReadableRoot data_root
unfolding valid_path valid_elems tempfs_path clean clean_elems clean_loop join is_abs split list_beq
root_readable = refl

-- the state is the target that is mounted
abbrev one_target : Mounter
one_target = record {
  State = Bytes;
  is_mount_point = λ to st. is_mount false;
  mkdir_all = λ to st. (none, st);
  mount = λ from to options st. (none, to);
  unmount = λ to st. (none, []);
}

abbrev no_group : FilesystemOptions
no_group = record { fixed_fs_group = none; fs_group_volume_attribute_key = [] }

abbrev roots_source : Metadata → Reply Files
roots_source meta = Reply.ok roots

abbrev year : Disk → Bytes
year d = codes "2022"

abbrev draws : Disk → List Bytes
draws d = codes "1" ∷ []

abbrev tmpfs : Storage
tmpfs = filesystem one_volume no_group data_root year draws no_links

abbrev node : Node tmpfs one_target
node = record { manager = empty; store = record { nodes = []; faults = [] }; mounts = [] }

not_managed : is_managed (codes "v1") empty ≡ false
unfolding is_managed lookup
not_managed = refl

plain_id : clean_elems (codes "v1") ≡ codes "v1" ∷ []
unfolding clean_elems clean_loop split is_abs list_beq
plain_id = refl

empty_Room : Room (codes "v1") []
unfolding at lookup
empty_Room = record { vol = inl refl; data_ = inl refl }

no_metadata : at (codes "v1" ∷ metadata_file ∷ []) [] ≡ none
unfolding at lookup
no_metadata = refl

reads_back :
    one_volume.unmarshal (one_volume.marshal (from_node_publish_volume_request request))
    ≡ some (from_node_publish_volume_request request)
unfolding from_node_publish_volume_request
reads_back = refl

empty-IsTarget : IsTarget (sub (data_path_for_volume_id (codes "v1")) [])
unfolding sub at lookup
empty-IsTarget = record { version = inl refl; rooted = λ e p h. refl }

publishes : (node_publish_volume tmpfs one_target roots_source request node).0 ≡ done
unfolding node_publish_volume publish_body is_ephemeral from_node_publish_volume_request
    ensure_managed ensure_mounted bind_mount clean_up is_managed unmanage_volume
    manage_volume_if_not_managed manage_volume_immediate fetch_and_write is_volume_ready
    close_channel register_metadata read_metadata write_metadata metadata_path_for_volume_id
    write_files write_volume open_fs valid_path valid_elems tempfs_path clean join within sub graft
    outside lifted ensure_volume_directory fs_group_for_metadata new_atomic_writer chown_each
    chgrp_written_node written_file chgrp_node with_group gid_number exists_node
    data_path_for_volume_id volume_path make_payload dir_funcs_for_volume create_ca_bundle
    openssl_rehash list_files_in_dir name_difference add_entries add_entry append_node read_dir_node
    entries_in insert_entry bytes_ltb write write_clean read_old_dir new_timestamp_dir mkdir_temp
    mkdir_node chmod_node stage run_dir_funcs add_new_files create_user_visible_files readlink_node
    symlink_node make_link switch_link rename_node retire paths_to_remove walk_node relative_paths
    strip new_paths sub_paths difference should_write_payload should_write_file lstat_node read_node
    remove_user_visible_paths remove_paths remove_node remove_all remove_each erase_node has_entries
    under below keys contains erase attempt raise validate_payload validate_entries validate_path
    check_items check_first split is_abs has_prefix clean_elems clean_loop write_payload_to_dir
    write_entry mkdir_all write_file parent ensure_dir_node open_node write_content_node syscall
    pure ◌>>=◌ at lookup insert write_node follow is_dir_at list_beq
publishes = refl

publish-ShowsOn_example :
    ShowsOn
      (codes "v1")
      (codes "root.pem")
      []
      root_pem
      (node_publish_volume tmpfs one_target roots_source request node).1.store
publish-ShowsOn_example =
    publish-ShowsOn one_volume no_group data_root year draws no_links one_target roots_source
      request node [] roots cleaned_roots (codes "root.pem") [] root_pem root_readable refl
      not_managed plain_id empty_Room no_metadata reads_back empty-IsTarget (λ d. omega arith) refl
      roots_clean (cc, tt) no_links-IsRehash no_links-LeavesEntry bundle_apart root_found publishes

abbrev manager_options : Options
manager_options = record {
  has_log = true;
  has_metadata_reader = true;
  has_get_certificates = true;
  has_write_certificates = true;
  node_id = codes "node";
}

options-IsComplete : IsComplete manager_options
options-IsComplete = record {
  log = refl;
  metadata_reader = refl;
  get_certificates = refl;
  write_certificates = refl;
  node_id = cc;
}

-- what a driver has left
abbrev left_over : Nodes
left_over =
    (codes "v1" ∷ [], dir 0o644)
    ∷ (codes "v1" ∷ codes "data" ∷ [], dir 0o550)
    ∷ (codes "v1" ∷ metadata_file ∷ [], file (codes "v1") 0o600 of_process)
    ∷ []

left_over-names : entry_names left_over ≡ codes "v1" ∷ []
unfolding entries_in under strip insert_entry
left_over-names = refl

left_over-file :
    at (codes "v1" ∷ metadata_file ∷ []) left_over ≡ some (file (codes "v1") 0o600 of_process)
unfolding at lookup list_beq
left_over-file = refl

left_over-IsStored : IsStored one_volume left_over (codes "v1")
unfolding from_node_publish_volume_request
left_over-IsStored = record {
  plain = plain_id;
  text = codes "v1";
  mode = 0o600;
  owner = of_process;
  there = left_over-file;
  meta = from_node_publish_volume_request request;
  decoded = reads_back;
}

new_manager-restarts_example :
    (m : Manager) × (new_manager tmpfs manager_options (record { nodes = left_over; faults = [] })
      ≡ started m)
    × (is_managed (codes "v1") m ≡ contains (entry_names left_over) (codes "v1"))
new_manager-restarts_example =
    new_manager-restarts one_volume no_group data_root year draws no_links root_readable
      manager_options left_over (codes "v1") options-IsComplete
      (subst (All (IsStored one_volume left_over)) (sym left_over-names) (left_over-IsStored, tt))

-- the default data root
absolute : is_abs (codes "/csi-data-dir") ≡ true
unfolding is_abs
absolute = refl

abbrev misplaced : Storage
misplaced = filesystem one_volume no_group (codes "/csi-data-dir") year draws no_links

filesystem-refused_example :
    (misplaced.read_metadata (codes "v1") (record { nodes = left_over; faults = [] })
      ≡ Reply.err not_found)
    × (misplaced.list_volumes (record { nodes = left_over; faults = [] })
        ≡ Reply.err (other (codes "filesystem")))
    × ((misplaced.write_files
          (from_node_publish_volume_request request)
          roots
          (record { nodes = left_over; faults = [] })).0
        ≢ Reply.ok tt)
filesystem-refused_example =
    filesystem-refused one_volume no_group (codes "/csi-data-dir") year draws no_links
      (record { nodes = left_over; faults = [] }) (codes "v1")
      (from_node_publish_volume_request request) roots absolute
