-- ===== src/Command.antt =====
-- The command of cmd/app: its options, and the wiring of the storage, the source, the manager and the
-- server of the driver. What the operating system, the cluster and the network answer are parameters.
pub mod Serving
pub mod Refused
pub mod Tests
use csi_driver_trusted_ca.Common.{
  ◌≡◌, Bool, true, false, List, [], ◌∷◌, Option, none, some, Bytes, codes, ◌++◌, ◌=?◌,
  if◌then◌else◌, list_eq, nat_eq,
}
use csi_driver_trusted_ca.Storage.{Storage}
use csi_driver_trusted_ca.Storage.Memory.{Codec}
use csi_driver_trusted_ca.Sys.{Sys}
use csi_driver_trusted_ca.Filesystem.{FilesystemOptions, tempfs_path}
use csi_driver_trusted_ca.Filesystem.Interface.{Disk, filesystem}
use csi_driver_trusted_ca.Source.{Source, SourceError, NewSource, new}
use csi_driver_trusted_ca.Manager.{Manager, Options, ManagerError, NewManager, new_manager}
use csi_driver_trusted_ca.Endpoint.Server.{Removed, ServerError}
use csi_driver_trusted_ca.Driver.Wiring.{DriverOptions, GrpcServer, NewDriver, new_driver}

-- the flags of the command
pub record CommandOptions : Type 0 where
  pub log_level : Bytes
  pub node_id : Bytes
  pub driver_name : Bytes
  pub endpoint : Bytes
  pub data_root : Bytes
  pub trusted_certs_source : Bytes

-- the values of flags that are not given
abbrev pub default_options : CommandOptions
default_options = record {
  log_level = codes "1";
  node_id = [];
  driver_name = codes "trusted-ca.csi.labs.d2iq.com";
  endpoint = [];
  data_root = codes "/csi-data-dir";
  trusted_certs_source = codes "configmap::kube-system/ca-certs";
}

-- what IsMountPoint says of the tmpfs
pub data TmpfsPoint : Type 0 where
  is_mount : Bool → TmpfsPoint
  missing : TmpfsPoint
  unknown : Bytes → TmpfsPoint

-- The answers from outside: the cluster's configuration and client, the tmpfs below the data root, the
-- parser of image references, os.Remove and net.Listen.
pub record Outside : Type 0 where
  pub rest_config : Option Bytes
  pub is_mount_point : Bytes → TmpfsPoint
  pub mkdir_all : Bytes → Option Bytes
  pub mount_tmpfs : Bytes → Option Bytes
  pub parse_normalized_named : Bytes → Option Bytes
  pub client_made : Bool
  pub remove : Bytes → Removed
  pub listen : Bytes → Bytes → Option Bytes

pub data CommandError : Type 0 where
  no_rest_config : Bytes → CommandError
  no_filesystem : Bytes → CommandError
  no_source : SourceError → CommandError
  no_driver : ServerError → CommandError

-- The driver serves, with its manager and its source; or the command returns an error, or it panics.
pub data Command : Type 0 where
  serving : GrpcServer → Manager → Source → Command
  failed : CommandError → Command
  panicked : ManagerError → Command

-- what NewManager is given
abbrev pub manager_options : CommandOptions → Options
manager_options opts = record {
  has_log = true;
  has_metadata_reader = true;
  has_get_certificates = true;
  has_write_certificates = true;
  node_id = opts.node_id;
}

-- what the driver is given
abbrev pub driver_options : CommandOptions → DriverOptions
driver_options opts = record {
  driver_name = opts.driver_name;
  driver_version = codes "v0.3.0";
  node_id = opts.node_id;
  continue_on_not_ready = false;
}

module _ (o : Outside) where
  -- the mount of NewFilesystem; an error, if any
  abbrev pub made_then_mounted : Bytes → Option Bytes → Option Bytes
  made_then_mounted path (some e) = some e
  made_then_mounted path none = o.mount_tmpfs path

  abbrev pub mounted_at : Bytes → TmpfsPoint → Option Bytes
  mounted_at path (is_mount true) = none
  mounted_at path (is_mount false) = o.mount_tmpfs path
  mounted_at path missing = made_then_mounted path (o.mkdir_all path)
  mounted_at path (unknown e) = some e

  unfoldable pub new_filesystem : Bytes → Option Bytes
  new_filesystem base_dir =
      mounted_at (tempfs_path base_dir) (o.is_mount_point (tempfs_path base_dir))

  module _ (s : Storage) (store : s.State) (opts : CommandOptions) where
    abbrev pub with_driver : Manager → Source → NewDriver → Command
    with_driver m src (NewDriver.failed e) = failed (no_driver e)
    with_driver m src (NewDriver.made d) = serving d m src

    -- NewManagerOrDie
    abbrev pub with_manager : Source → NewManager → Command
    with_manager src (NewManager.failed e) = panicked e
    with_manager src (NewManager.started m) =
        with_driver m src (new_driver o.remove o.listen opts.endpoint (driver_options opts))

    abbrev pub with_source : NewSource → Command
    with_source (NewSource.failed e) = failed (no_source e)
    with_source (NewSource.created src) =
        with_manager src (new_manager s (manager_options opts) store)

    abbrev pub with_filesystem : Option Bytes → Command
    with_filesystem (some e) = failed (no_filesystem e)
    with_filesystem none =
        with_source (new o.parse_normalized_named o.client_made opts.trusted_certs_source)

    -- Complete
    abbrev pub completed_options : Option Bytes → Command
    completed_options (some e) = failed (no_rest_config e)
    completed_options none = with_filesystem (new_filesystem opts.data_root)

    unfoldable pub run_command : Command
    run_command = completed_options o.rest_config

-- what NewCommand sets in the storage
abbrev pub filesystem_options : FilesystemOptions
filesystem_options = record {
  fixed_fs_group = none;
  fs_group_volume_attribute_key = codes "trusted-ca.csi.labs.d2iq.com/fs-group";
}

-- The command with its storage, Filesystem below the data root. encoding/json and
-- apiequality.Semantic, the time, the random names and openssl are parameters.
unfoldable pub run_on_filesystem :
    Outside
    → Codec
    → (Disk → Bytes)
    → (Disk → List Bytes)
    → (Bytes → Sys Unit)
    → Disk
    → CommandOptions
    → Command
run_on_filesystem o c stamp randoms openssl d opts =
    run_command o (filesystem c filesystem_options opts.data_root stamp randoms openssl) d opts
