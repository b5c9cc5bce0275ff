-- ===== src/Driver.antt =====
-- nodeServer of pkg/driver/nodeserver.go, over a storage, the manager, and the mounts of the node,
-- which the mount library keeps. Logging is left out.
pub mod Publish
pub mod Cleanup
pub mod Written
pub mod Known
pub mod Servers
pub mod Calm
pub mod Again
pub mod Steps
pub mod Wiring
pub mod Tests
use csi_driver_trusted_ca.Common.{
  ◌≡◌, Bool, true, false, not, List, [], ◌∷◌, Option, none, some, Bytes, codes, Dict, lookup,
  list_eq, nat_eq, ◌=?◌, if◌then◌else◌,
}
use csi_driver_trusted_ca.Storage.{Metadata, Files, StoreError, Reply, ok, err, Storage}
use csi_driver_trusted_ca.Manager.{
  Manager, unmanage_volume, manage_volume_immediate, is_volume_ready,
}

-- The errors that a method returns.
pub data DriverError : Type 0 where
  not_ephemeral not_read_only unimplemented : DriverError
  store_error : StoreError → DriverError
  mount_error : Bytes → DriverError

-- mount.Interface of k8s.io/mount-utils and os.MkdirAll, over the state of the mounts: what
-- IsMountPoint says, and the error of each of the others, if any.
pub data MountPoint : Type 0 where
  is_mount : Bool → MountPoint
  missing : MountPoint
  unknown : Bytes → MountPoint

pub record Mounter : Type 1 where
  pub State : Type 0
  pub is_mount_point : Bytes → State → MountPoint
  pub mkdir_all : Bytes → State → Option Bytes × State
  pub mount : Bytes → Bytes → List Bytes → State → Option Bytes × State
  pub unmount : Bytes → State → Option Bytes × State

-- csi.NodePublishVolumeRequest and csi.NodeUnpublishVolumeRequest, as far as they are read
pub record PublishRequest : Type 0 where
  pub volume_id : Bytes
  pub target_path : Bytes
  pub readonly : Bool
  pub volume_context : Dict Bytes Bytes

pub record UnpublishRequest : Type 0 where
  pub volume_id : Bytes
  pub target_path : Bytes

-- metadata.FromNodePublishVolumeRequest
unfoldable pub from_node_publish_volume_request : PublishRequest → Metadata
from_node_publish_volume_request req = record {
  volume_id = req.volume_id;
  target_path = req.target_path;
  volume_context = req.volume_context;
}

abbrev pub ephemeral_key : Bytes
ephemeral_key = codes "csi.storage.k8s.io/ephemeral"

-- req.GetVolumeContext()[…] != "true", where a missing key reads as ""
unfoldable pub is_ephemeral : PublishRequest → Bool
is_ephemeral req = elim (lookup ephemeral_key req.volume_context) [
  | none ↦ false
  | some v ↦ v =? codes "true"
]

pub data Outcome : Type 0 where
  done : Outcome
  failed : DriverError → Outcome

module _ (s : Storage) (mnt : Mounter) where
  -- what the node server works on
  pub record Node : Type 0 where
    pub manager : Manager
    pub store : s.State
    pub mounts : mnt.State

  -- the deferred function of NodePublishVolume, for a call that did not succeed
  unfoldable pub clean_up : PublishRequest → Node → Node
  clean_up req n = record {
    manager = unmanage_volume req.volume_id n.manager;
    mounts = (mnt.unmount req.target_path n.mounts).1;
    store = (s.remove_volume req.volume_id n.store).1;
  }

  abbrev pub mount_result : Option Bytes → Outcome
  mount_result none = done
  mount_result (some e) = failed (mount_error e)

  -- the bind mount of the data directory
  unfoldable pub bind_mount : PublishRequest → Node → Outcome × Node
  bind_mount req n =
      let (e, mounts) =
        mnt.mount (s.path_for_volume req.volume_id) req.target_path (codes "bind" ∷ codes "ro" ∷ [])
          n.mounts in
      (mount_result e, record n { mounts = mounts })

  abbrev pub mount_made : PublishRequest → Option Bytes → Node → Outcome × Node
  mount_made req none n = bind_mount req n
  mount_made req (some e) n = (failed (mount_error e), n)

  -- IsMountPoint and what follows
  unfoldable pub ensure_mounted : PublishRequest → Node → Outcome × Node
  ensure_mounted req n = elim (mnt.is_mount_point req.target_path n.mounts) [
    | missing ↦
        let (e, mounts) = mnt.mkdir_all req.target_path n.mounts in
        mount_made req e (record n { mounts = mounts })
    | unknown e ↦ (failed (mount_error e), n)
    | is_mount true ↦ (done, n)
    | is_mount false ↦ bind_mount req n
  ]

  module _ (get_certificates : Metadata → Reply Files) where
    unfoldable pub ensure_managed : PublishRequest → Node → Reply Unit × Node
    ensure_managed req n =
        if is_volume_ready s req.volume_id n.manager n.store
        then (ok tt, n)
        else let ((managed, r), (manager, store)) =
            manage_volume_immediate s get_certificates req.volume_id n.manager n.store in
          (r, record n { manager = manager; store = store })

    abbrev pub managed_then_mounted : PublishRequest → Reply Unit × Node → Outcome × Node
    managed_then_mounted req (ok _, n) = ensure_mounted req n
    managed_then_mounted req (err e, n) = (failed (store_error e), n)

    abbrev pub registered_then_managed :
        PublishRequest → Reply Bool × s.State → Node → Outcome × Node
    registered_then_managed req (ok _, store) n =
        managed_then_mounted req (ensure_managed req (record n { store = store }))
    registered_then_managed req (err e, store) n =
        (failed (store_error e), record n { store = store })

    -- NodePublishVolume before its deferred function
    unfoldable pub publish_body : PublishRequest → Node → Outcome × Node
    publish_body req n =
        if is_ephemeral req
        then (if req.readonly
            then registered_then_managed req
                (s.register_metadata (from_node_publish_volume_request req) n.store) n
            else (failed not_read_only, n))
        else (failed not_ephemeral, n)

    abbrev pub finish : PublishRequest → Outcome × Node → Outcome × Node
    finish req (done, n) = (done, n)
    finish req (failed e, n) = (failed e, clean_up req n)

    unfoldable pub node_publish_volume : PublishRequest → Node → Outcome × Node
    node_publish_volume req n = finish req (publish_body req n)

  abbrev pub removed : UnpublishRequest → Node → Outcome × Node
  removed req n =
      let (r, store) = s.remove_volume req.volume_id n.store in
      (elim r [ ok _ ↦ done | err e ↦ failed (store_error e) ], record n { store = store })

  abbrev pub unmounted_then_removed : UnpublishRequest → Option Bytes → Node → Outcome × Node
  unmounted_then_removed req none n = removed req n
  unmounted_then_removed req (some e) n = (failed (mount_error e), n)

  -- NodeUnpublishVolume on the node whose manager has let the volume go
  unfoldable pub unpublish_unmanaged : UnpublishRequest → Node → Outcome × Node
  unpublish_unmanaged req n = elim (mnt.is_mount_point req.target_path n.mounts) [
    | missing ↦ (failed (mount_error (codes "not exist")), n)
    | unknown e ↦ (failed (mount_error e), n)
    | is_mount false ↦ removed req n
    | is_mount true ↦
        let (e, mounts) = mnt.unmount req.target_path n.mounts in
        unmounted_then_removed req e (record n { mounts = mounts })
  ]

  unfoldable pub node_unpublish_volume : UnpublishRequest → Node → Outcome × Node
  node_unpublish_volume req n =
      unpublish_unmanaged req (record n { manager = unmanage_volume req.volume_id n.manager })
