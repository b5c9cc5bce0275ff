-- ===== src/Command/Tests.antt =====
-- Commands that are run with one stored volume.
use csi_driver_trusted_ca.Common.{
  ◌≡◌, ◌≢◌, refl, true, false, List, [], ◌∷◌, ◌++◌, none, some, Bytes, codes, contains, list_beq,
  list_eq, nat_eq,
}
use csi_driver_trusted_ca.Path.{split, has_prefix, clean, clean_elems, clean_loop, join, is_abs}
use csi_driver_trusted_ca.Storage.{Storage, ok}
use csi_driver_trusted_ca.Source.{
  Source, configmap_source, new, get_source, span, is_alphanumeric, new_configmap_source,
}
use csi_driver_trusted_ca.Source.Names.{IsSource}
use csi_driver_trusted_ca.Manager.{Manager, manage_volume, empty, is_managed, new_manager, resume}
use csi_driver_trusted_ca.Endpoint.{separator, listen_on, parse_endpoint, cut, to_lower}
use csi_driver_trusted_ca.Endpoint.Sound.{IsScheme}
use csi_driver_trusted_ca.Endpoint.Server.{Removed, new_grpc_server}
use csi_driver_trusted_ca.Driver.Wiring.{
  GrpcServer, new_driver, new_with_listener, new_grpc_server_with_listener, build_servers,
}
use csi_driver_trusted_ca.Command.{
  driver_options, CommandOptions, default_options, Outside, missing, serving, run_command,
  run_on_filesystem, new_filesystem,
}
use csi_driver_trusted_ca.Filesystem.{tempfs_path, valid_path, valid_elems}
use csi_driver_trusted_ca.Filesystem.Write.{list_volumes, read_tempfs, open_each}
use csi_driver_trusted_ca.LinuxTls.{read_dir_node, entries_in}
use csi_driver_trusted_ca.Os.{is_dir_at}
use csi_driver_trusted_ca.Storage.Memory.{Codec}
use csi_driver_trusted_ca.Sys.{pure, raise, syscall, ◌>>=◌}
use csi_driver_trusted_ca.Command.Refused.{run_on_filesystem-absolute}
use csi_driver_trusted_ca.Command.Serving.{run_command-serving}

abbrev stored : Storage
stored = record {
  State = Unit;
  path_for_volume = λ id. id;
  remove_volume = λ id st. (ok tt, st);
  read_metadata = λ id st. ok (record { volume_id = id; target_path = []; volume_context = [] });
  list_volumes = λ st. ok (codes "v1" ∷ []);
  write_metadata = λ id meta st. (ok tt, st);
  register_metadata = λ meta st. (ok true, st);
  write_files = λ meta files st. (ok tt, st);
}

-- nothing fails, and the tmpfs is not there yet
abbrev calm : Outside
calm = record {
  rest_config = none;
  is_mount_point = λ path. missing;
  mkdir_all = λ path. none;
  mount_tmpfs = λ path. none;
  parse_normalized_named = λ ref. some ref;
  client_made = true;
  remove = λ path. Removed.not_exist;
  listen = λ network address. none;
}

abbrev given : CommandOptions
given = record default_options { node_id = codes "node"; endpoint = codes "unix://csi.sock" }

abbrev resumed : Manager
resumed = (manage_volume (codes "v1") empty).1

abbrev default_source : Source
default_source = configmap_source (codes "kube-system") (codes "ca-certs")

tmpfs_place : tempfs_path (codes "/csi-data-dir") ≡ codes "/csi-data-dir/inmemfs"
unfolding tempfs_path clean clean_elems clean_loop join is_abs split list_beq
tmpfs_place = refl

-- all services, with the names of the defaults and of the node
abbrev served : GrpcServer
served = record {
  identity = some (record { name = default_options.driver_name; version = codes "v0.3.0" });
  controller = true;
  node = some (record { node_id = codes "node"; continue_on_not_ready = false });
  place = (codes "unix", codes "/csi.sock");
}

serves : run_command calm stored tt given ≡ serving served resumed default_source
unfolding run_command new_filesystem new new_configmap_source get_source span is_alphanumeric split
    contains new_manager resume new_driver new_with_listener new_grpc_server_with_listener
    build_servers new_grpc_server listen_on parse_endpoint cut has_prefix to_lower list_beq
serves = refl

run_command-serving_example :
    (given.node_id ≢ [])
    × ((vols : List Bytes) × (stored.list_volumes tt ≡ ok vols)
        × ((k : Bytes) → is_managed k resumed ≡ contains vols k))
    × IsSource given.trusted_certs_source
        (get_source given.trusted_certs_source).0
        (get_source given.trusted_certs_source).1
    × ((proto : Bytes) × (host : Bytes) × (given.endpoint ≡ proto ++ separator ++ host)
        × IsScheme proto
        × (host ≢ [])
        × (listen_on (proto, host) ≡ (codes "unix", codes "/csi.sock"))
        × (calm.listen (codes "unix") (codes "/csi.sock") ≡ none))
    × (served ≡ new_with_listener (codes "unix", codes "/csi.sock") (driver_options given))
run_command-serving_example =
    run_command-serving calm stored tt given served resumed default_source serves

-- reads back what has the volume's name
abbrev names_only : Codec
names_only = record {
  marshal = λ meta. meta.volume_id;
  unmarshal = λ json. some (record { volume_id = json; target_path = []; volume_context = [] });
  deep_equal = λ a b. false;
}

default_absolute : is_abs given.data_root ≡ true
unfolding is_abs
default_absolute = refl

run_on_filesystem-absolute_example :
    run_on_filesystem calm names_only
      (λ d. codes "2022")
      (λ d. codes "1" ∷ [])
      (λ ts. pure tt)
      (record { nodes = []; faults = [] })
      given
    ≢ serving served resumed default_source
run_on_filesystem-absolute_example =
    run_on_filesystem-absolute calm names_only (λ d. codes "2022") (λ d. codes "1" ∷ [])
      (λ ts. pure tt) (record { nodes = []; faults = [] }) given served resumed default_source
      default_absolute

abbrev relative : CommandOptions
relative = record given { data_root = codes "csi-data-dir" }

-- on an empty tmpfs
serves_below_relative :
    run_on_filesystem calm names_only
      (λ d. codes "2022")
      (λ d. codes "1" ∷ [])
      (λ ts. pure tt)
      (record { nodes = []; faults = [] })
      relative
    ≡ serving served empty default_source
unfolding run_on_filesystem run_command new_filesystem new new_configmap_source get_source span
    is_alphanumeric split contains new_manager resume new_driver new_with_listener
    new_grpc_server_with_listener build_servers new_grpc_server listen_on parse_endpoint cut
    has_prefix to_lower list_beq list_volumes read_tempfs read_dir_node entries_in is_dir_at
    open_each valid_path valid_elems tempfs_path clean clean_elems clean_loop join is_abs syscall
    raise pure ◌>>=◌
serves_below_relative = refl
