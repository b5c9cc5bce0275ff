-- ===== src/Driver/Servers.antt =====
-- The three gRPC services of the driver together: pkg/driver/identityserver.go, controllerserver.go and
-- nodeserver.go, as driver.go registers them. The context and the requests that are not read are left
-- out.
use csi_driver_trusted_ca.Common.{
  List, [], ◌∷◌, ◌++◌, Bytes, codes, ◌=?◌, list_eq, nat_eq, if◌then◌else◌,
}
use csi_driver_trusted_ca.Storage.{Metadata, Files, Reply, Storage}
use csi_driver_trusted_ca.Driver.{
  DriverError, Mounter, PublishRequest, UnpublishRequest, Outcome, done, failed, Node,
  node_publish_volume, node_unpublish_volume,
}

-- the capabilities that the services report
pub data Capability : Type 0 where
  controller_service unknown_controller_rpc unknown_node_rpc : Capability

pub data RpcError : Type 0 where
  unimplemented unavailable : Bytes → RpcError
  driver_error : DriverError → RpcError

pub data RpcAnswer : Type 0 where
  plugin_info : Bytes → Bytes → RpcAnswer
  capabilities : List Capability → RpcAnswer
  node_info : Bytes → RpcAnswer
  empty_response : RpcAnswer
  refused : RpcError → RpcAnswer

pub record IdentityServer : Type 0 where
  pub name : Bytes
  pub version : Bytes

unfoldable pub get_plugin_info : IdentityServer → RpcAnswer
get_plugin_info ids =
    if ids.name =? []
    then refused (unavailable (codes "driver name not configured"))
    else if ids.version =? []
    then refused (unavailable (codes "driver is missing version"))
    else plugin_info ids.name ids.version

-- The calls of the controller's service, and those of the node's service that are not implemented.
pub data ControllerCall : Type 0 where
  controller_get_volume create_volume delete_volume : ControllerCall
  controller_publish_volume controller_unpublish_volume : ControllerCall
  validate_volume_capabilities list_volumes get_capacity : ControllerCall
  controller_get_capabilities : ControllerCall
  create_snapshot delete_snapshot list_snapshots : ControllerCall
  controller_expand_volume : ControllerCall

abbrev pub not_implemented : Bytes → RpcAnswer
not_implemented method = refused (unimplemented (method ++ codes " not implemented"))

unfoldable pub controller_call : ControllerCall → RpcAnswer
controller_call controller_get_volume = not_implemented (codes "ControllerGetVolume")
controller_call create_volume = not_implemented (codes "CreateVolume")
controller_call delete_volume = not_implemented (codes "DeleteVolume")
controller_call controller_publish_volume = not_implemented (codes "ControllerPublishVolume")
controller_call controller_unpublish_volume = not_implemented (codes "ControllerUnpublishVolume")
controller_call validate_volume_capabilities = not_implemented (codes "ValidateVolumeCapabilities")
controller_call list_volumes = not_implemented (codes "ListVolumes")
controller_call get_capacity = not_implemented (codes "GetCapacity")
controller_call controller_get_capabilities = capabilities (unknown_controller_rpc ∷ [])
controller_call create_snapshot = not_implemented (codes "CreateSnapshot")
controller_call delete_snapshot = not_implemented (codes "DeleteSnapshot")
controller_call list_snapshots = not_implemented (codes "ListSnapshots")
controller_call controller_expand_volume = not_implemented (codes "ControllerExpandVolume")

-- the calls of all three services
pub data Rpc : Type 0 where
  rpc_plugin_info rpc_probe rpc_plugin_capabilities : Rpc
  rpc_controller : ControllerCall → Rpc
  rpc_publish : PublishRequest → Rpc
  rpc_unpublish : UnpublishRequest → Rpc
  rpc_stage rpc_unstage rpc_volume_stats rpc_expand rpc_node_capabilities rpc_node_info : Rpc

abbrev pub of_outcome : Outcome → RpcAnswer
of_outcome done = empty_response
of_outcome (failed e) = refused (driver_error e)

module _ (s : Storage) (mnt : Mounter) (get_certificates : Metadata → Reply Files)
    (ids : IdentityServer) (node_id : Bytes) where
  abbrev pub answered : Outcome × Node s mnt → RpcAnswer × Node s mnt
  answered (r, n) = (of_outcome r, n)

  unfoldable pub serve_rpc : Rpc → Node s mnt → RpcAnswer × Node s mnt
  serve_rpc rpc_plugin_info n = (get_plugin_info ids, n)
  serve_rpc rpc_probe n = (empty_response, n)
  serve_rpc rpc_plugin_capabilities n = (capabilities (controller_service ∷ []), n)
  serve_rpc (rpc_controller c) n = (controller_call c, n)
  serve_rpc (rpc_publish req) n = answered (node_publish_volume s mnt get_certificates req n)
  serve_rpc (rpc_unpublish req) n = answered (node_unpublish_volume s mnt req n)
  serve_rpc rpc_stage n = (not_implemented (codes "NodeStageVolume"), n)
  serve_rpc rpc_unstage n = (not_implemented (codes "NodeUnstageVolume"), n)
  serve_rpc rpc_volume_stats n = (not_implemented (codes "NodeGetVolumeStats"), n)
  serve_rpc rpc_expand n = (not_implemented (codes "NodeExpandVolume"), n)
  serve_rpc rpc_node_capabilities n = (capabilities (unknown_node_rpc ∷ []), n)
  serve_rpc rpc_node_info n = (node_info node_id, n)
