-- ===== src/Driver/Calm.antt =====
-- The manager in each call of the services of the driver.
use csi_driver_trusted_ca.Common.{
  arith, ◌≡◌, refl, sym, subst, Bool, true, false, Bytes, Option, none, some, Bool-cases, inl, inr,
  if◌then◌else◌,
}
use csi_driver_trusted_ca.Storage.{Metadata, Files, Reply, ok, err, Storage}
use csi_driver_trusted_ca.Manager.{
  Manager, manage_volume_if_not_managed, manage_volume_immediate, is_volume_ready,
}
use csi_driver_trusted_ca.Manager.Channels.{
  IsValid, manage_volume_if_not_managed-IsValid, unmanage_volume-IsValid,
}
use csi_driver_trusted_ca.Driver.{
  MountPoint, is_mount, missing, unknown, Mounter, PublishRequest, Outcome, done, failed, Node,
  is_ephemeral, not_read_only, not_ephemeral, from_node_publish_volume_request, bind_mount,
  ensure_mounted, ensure_managed, publish_body, finish, clean_up, node_publish_volume,
  registered_then_managed, managed_then_mounted, mount_made,
}
use csi_driver_trusted_ca.Driver.Publish.{unpublish-manager}
use csi_driver_trusted_ca.Driver.Servers.{
  IdentityServer, Rpc, rpc_plugin_info, rpc_probe, rpc_plugin_capabilities, rpc_controller,
  rpc_publish, rpc_unpublish, rpc_stage, rpc_unstage, rpc_volume_stats, rpc_expand,
  rpc_node_capabilities, rpc_node_info, serve_rpc,
}

module _ (s : Storage) (mnt : Mounter) (get_certificates : Metadata → Reply Files)
    (req : PublishRequest) where
  abbrev IsSound : Node s mnt → Type 0
  IsSound n = IsValid n.manager

  manage_volume_immediate-manager :
      (m : Manager) (store : s.State)
      → (manage_volume_immediate s get_certificates req.volume_id m store).1.0
        ≡ (manage_volume_if_not_managed req.volume_id m).1
  unfolding manage_volume_immediate
  manage_volume_immediate-manager m store = ground arith

  ensure_managed-IsSound :
      (n : Node s mnt) → IsSound n → IsSound (ensure_managed s mnt get_certificates req n).1
  unfolding ensure_managed
  ensure_managed-IsSound n v =
      elim (Bool-cases (is_volume_ready s req.volume_id n.manager n.store)) [
        | inl e ↦ rw (e, ensure_managed) v
        | inr e ↦
            rw (e, ensure_managed)
              (subst IsValid (sym (manage_volume_immediate-manager n.manager n.store))
                (manage_volume_if_not_managed-IsValid req.volume_id n.manager v))
      ]

  mount_made-manager :
      (e : Option Bytes) (n : Node s mnt) → (mount_made s mnt req e n).1.manager ≡ n.manager
  unfolding bind_mount
  mount_made-manager none n = refl
  mount_made-manager (some e) n = refl

  ensure_mounted-manager : (n : Node s mnt) → (ensure_mounted s mnt req n).1.manager ≡ n.manager
  unfolding ensure_mounted bind_mount
  ensure_mounted-manager n = by_point (mnt.is_mount_point req.target_path n.mounts) refl
    where
      by_point :
          (p : MountPoint)
          → mnt.is_mount_point req.target_path n.mounts ≡ p
          → (ensure_mounted s mnt req n).1.manager ≡ n.manager
      by_point missing e =
          rw (e, ensure_mounted) (mount_made-manager (mnt.mkdir_all req.target_path n.mounts).0 _)
      by_point (unknown x) e = rw (e, ensure_mounted) refl
      by_point (is_mount true) e = rw (e, ensure_mounted) refl
      by_point (is_mount false) e = rw (e, ensure_mounted) refl

  managed_then_mounted-IsSound :
      (r : Reply Unit) (n : Node s mnt)
      → IsSound n
      → IsSound (managed_then_mounted s mnt get_certificates req (r, n)).1
  managed_then_mounted-IsSound (ok a) n v = subst IsValid (sym (ensure_mounted-manager n)) v
  managed_then_mounted-IsSound (err e) n v = v

  registered_then_managed-IsSound :
      (r : Reply Bool) (store : s.State) (n : Node s mnt)
      → IsSound n
      → IsSound (registered_then_managed s mnt get_certificates req (r, store) n).1
  registered_then_managed-IsSound (ok b) store n v =
      let n' : Node s mnt = record n { store = store } in
      managed_then_mounted-IsSound (ensure_managed s mnt get_certificates req n').0
        (ensure_managed s mnt get_certificates req n').1 (ensure_managed-IsSound n' v)
  registered_then_managed-IsSound (err e) store n v = v

  publish_body-IsSound :
      (n : Node s mnt) → IsSound n → IsSound (publish_body s mnt get_certificates req n).1
  unfolding publish_body
  publish_body-IsSound n v = by_tests (is_ephemeral req) req.readonly
    where
      reg : Reply Bool × s.State
      reg = s.register_metadata (from_node_publish_volume_request req) n.store

      by_tests :
          (a b : Bool)
          → IsSound
              (if a
                then (if b
                    then registered_then_managed s mnt get_certificates req reg n
                    else (failed not_read_only, n))
                else (failed not_ephemeral, n)).1
      by_tests false b = v
      by_tests true false = v
      by_tests true true = registered_then_managed-IsSound (reg.0) (reg.1) n v

  finish-IsSound :
      (r : Outcome) (n : Node s mnt)
      → IsSound n
      → IsSound (finish s mnt get_certificates req (r, n)).1
  unfolding clean_up
  finish-IsSound done n v = v
  finish-IsSound (failed e) n v = unmanage_volume-IsValid req.volume_id n.manager v

  pub node_publish_volume-IsSound :
      (n : Node s mnt) → IsSound n → IsSound (node_publish_volume s mnt get_certificates req n).1
  unfolding node_publish_volume
  node_publish_volume-IsSound n v =
      finish-IsSound (publish_body s mnt get_certificates req n).0
        (publish_body s mnt get_certificates req n).1 (publish_body-IsSound n v)

module _ (s : Storage) (mnt : Mounter) (get_certificates : Metadata → Reply Files)
    (ids : IdentityServer) (node_id : Bytes) where
  serve_rpc-IsValid :
      (r : Rpc) (n : Node s mnt)
      → IsValid n.manager
      → IsValid (serve_rpc s mnt get_certificates ids node_id r n).1.manager
  unfolding serve_rpc
  serve_rpc-IsValid (rpc_publish req) n v =
      node_publish_volume-IsSound s mnt get_certificates req n v
  serve_rpc-IsValid (rpc_unpublish req) n v =
      subst IsValid (sym (unpublish-manager s mnt req n))
        (unmanage_volume-IsValid req.volume_id n.manager v)
  serve_rpc-IsValid rpc_plugin_info n v = v
  serve_rpc-IsValid rpc_probe n v = v
  serve_rpc-IsValid rpc_plugin_capabilities n v = v
  serve_rpc-IsValid (rpc_controller c) n v = v
  serve_rpc-IsValid rpc_stage n v = v
  serve_rpc-IsValid rpc_unstage n v = v
  serve_rpc-IsValid rpc_volume_stats n v = v
  serve_rpc-IsValid rpc_expand n v = v
  serve_rpc-IsValid rpc_node_capabilities n v = v
  serve_rpc-IsValid rpc_node_info n v = v
