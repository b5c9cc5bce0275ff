-- ===== src/Driver/Tests.antt =====
-- Calls of the node server over MemoryFS, on a node that mounts whatever it is asked to.
use csi_driver_trusted_ca.Common.{
  subst, keys, ◌≡◌, refl, Bool, true, false, [], ◌∷◌, none, some, Bytes, codes, lookup, insert,
  erase, contains, list_beq, list_eq, nat_eq, ◌=?◌, =?_refl,
}
use csi_driver_trusted_ca.Storage.{Metadata, Files, Reply, ok, err, not_found}
use csi_driver_trusted_ca.Storage.Memory.{
  Codec, memory, metadata_file, read_metadata, register_metadata, register_in, remove_volume,
  write_files, add_files,
}
use csi_driver_trusted_ca.Manager.{
  empty, is_managed, unmanage_volume, manage_volume_if_not_managed, manage_volume_immediate,
  fetch_and_write, is_volume_ready, close_channel,
}
use csi_driver_trusted_ca.Driver.{
  not_read_only, MountPoint, is_mount, missing, Mounter, PublishRequest, done, failed, Node,
  node_publish_volume, publish_body, is_ephemeral, ephemeral_key, from_node_publish_volume_request,
  ensure_managed, ensure_mounted, bind_mount, clean_up,
}
use csi_driver_trusted_ca.Driver.Publish.{Mounts, publish_done}
use csi_driver_trusted_ca.Driver.Written.{Published, node_publish_volume-Published}
use csi_driver_trusted_ca.Driver.Again.{publish_again}
use csi_driver_trusted_ca.Driver.Cleanup.{publish_failed_memory}

-- keeps the volume's name only
abbrev names_only : Codec
names_only = record {
  marshal = λ meta. meta.volume_id;
  unmarshal = λ json. some (record { volume_id = json; target_path = []; volume_context = [] });
  deep_equal = λ a b. false;
}

abbrev found : Bool → MountPoint
found true = is_mount true
found false = missing

-- the state is the target that was mounted last
abbrev mounts_any : Mounter
mounts_any = record {
  State = Bytes;
  is_mount_point = λ to st. found (st =? to);
  mkdir_all = λ to st. (none, st);
  mount = λ from to options st. (none, to);
  unmount = λ to st. (none, []);
}

mounts_any-Mounts : Mounts (memory names_only) mounts_any
mounts_any-Mounts from to st h = rw (=?_refl to) refl

abbrev start : Node (memory names_only) mounts_any
start = record { manager = empty; store = []; mounts = [] }

abbrev request : PublishRequest
request = record {
  volume_id = codes "v1";
  target_path = codes "/pods/1";
  readonly = true;
  volume_context = (ephemeral_key, codes "true") ∷ [];
}

abbrev writable : PublishRequest
writable = record request { readonly = false }

abbrev roots : Metadata → Reply Files
roots meta = ok ((codes "root.pem", codes "pem") ∷ [])

publishes : (node_publish_volume (memory names_only) mounts_any roots request start).0 ≡ done
unfolding node_publish_volume publish_body is_ephemeral from_node_publish_volume_request
    ensure_managed ensure_mounted bind_mount clean_up read_metadata register_metadata register_in
    remove_volume write_files add_files is_managed unmanage_volume manage_volume_if_not_managed
    manage_volume_immediate fetch_and_write is_volume_ready close_channel lookup insert erase
    contains list_beq
publishes = refl

refuses :
    (node_publish_volume (memory names_only) mounts_any roots writable start).0
    ≡ failed not_read_only
unfolding node_publish_volume publish_body is_ephemeral lookup list_beq
refuses = refl

publish_done_example :
    (is_ephemeral request ≡ true)
    × (request.readonly ≡ true)
    × (is_managed request.volume_id
          (node_publish_volume (memory names_only) mounts_any roots request start).1.manager
        ≡ true)
    × (mounts_any.is_mount_point request.target_path
          (node_publish_volume (memory names_only) mounts_any roots request start).1.mounts
        ≡ is_mount true)
publish_done_example =
    publish_done (memory names_only) mounts_any roots request mounts_any-Mounts start publishes

start_unmanaged : is_managed request.volume_id start.manager ≡ false
unfolding is_managed lookup
start_unmanaged = refl

node_publish_volume-Published_example :
    Published
      (memory names_only)
      mounts_any
      roots
      request
      start
      (node_publish_volume (memory names_only) mounts_any roots request start).1
node_publish_volume-Published_example =
    node_publish_volume-Published (memory names_only) mounts_any roots request start start_unmanaged
      publishes

publish_failed_memory_example :
    (is_managed writable.volume_id
        (node_publish_volume (memory names_only) mounts_any roots writable start).1.manager
      ≡ false)
    × (lookup writable.volume_id
          (node_publish_volume (memory names_only) mounts_any roots writable start).1.store
        ≡ none)
    × (read_metadata names_only writable.volume_id
          (node_publish_volume (memory names_only) mounts_any roots writable start).1.store
        ≡ err not_found)
    × ((node_publish_volume (memory names_only) mounts_any roots writable start).1.mounts
        ≡ (mounts_any.unmount writable.target_path
            (publish_body (memory names_only) mounts_any roots writable start).1.mounts).1)
publish_failed_memory_example =
    publish_failed_memory names_only mounts_any roots writable start not_read_only refuses

-- keeps the volume's name, and has the request's other fields
abbrev remembering : Codec
remembering = record {
  marshal = λ meta. meta.volume_id;
  unmarshal = λ json. some (record {
    volume_id = json;
    target_path = codes "/pods/1";
    volume_context = request.volume_context;
  });
  deep_equal = λ a b. keys a =? keys b;
}

abbrev empty_node : Node (memory remembering) mounts_any
empty_node = record { manager = empty; store = []; mounts = [] }

publishes_once :
    (node_publish_volume (memory remembering) mounts_any roots request empty_node).0 ≡ done
unfolding node_publish_volume publish_body is_ephemeral from_node_publish_volume_request
    ensure_managed ensure_mounted bind_mount clean_up read_metadata register_metadata register_in
    remove_volume write_files add_files is_managed unmanage_volume manage_volume_if_not_managed
    manage_volume_immediate fetch_and_write is_volume_ready close_channel lookup insert erase
    contains list_beq
publishes_once = refl

read_back :
    remembering.unmarshal (remembering.marshal (from_node_publish_volume_request request))
    ≡ some (from_node_publish_volume_request request)
unfolding from_node_publish_volume_request
read_back = refl

abbrev one_root : Files
one_root = (codes "root.pem", codes "pem") ∷ []

roots_plain :
    (meta : Metadata) (files : Files) → roots meta ≡ ok files → lookup metadata_file files ≡ none
unfolding lookup list_beq
roots_plain meta files h =
    let same : one_root ≡ files = cc in subst (λ fs. lookup metadata_file fs ≡ none) same refl

publish_again_example :
    node_publish_volume
      (memory remembering)
      mounts_any
      roots
      request
      (node_publish_volume (memory remembering) mounts_any roots request empty_node).1
    ≡ (done, (node_publish_volume (memory remembering) mounts_any roots request empty_node).1)
publish_again_example =
    publish_again remembering request read_back (=?_refl (keys request.volume_context)) mounts_any
      roots roots_plain (λ from to st h. rw (=?_refl to) refl) empty_node publishes_once
