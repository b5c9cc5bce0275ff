-- ===== src/Driver/Written.antt =====
-- What NodePublishVolume has written when it succeeds.
use csi_driver_trusted_ca.Common.{
  ◌≡◌, refl, sym, subst, ap, Bool, true, false, Option, none, some, Bytes, lookup, list_eq, nat_eq,
  if◌then◌else◌,
}
use csi_driver_trusted_ca.Storage.{Metadata, Files, Reply, ok, err, Storage}
use csi_driver_trusted_ca.Manager.{
  Manager, is_managed, manage_volume_immediate, is_volume_ready, fetch_and_write,
}
use csi_driver_trusted_ca.Manager.Channels.{manage_new, unmanaged_lookup}
use csi_driver_trusted_ca.Driver.{
  not_ephemeral, not_read_only, MountPoint, is_mount, missing, unknown, Mounter, PublishRequest,
  Outcome, done, failed, Node, is_ephemeral, from_node_publish_volume_request, bind_mount,
  ensure_mounted, ensure_managed, publish_body, finish, node_publish_volume,
  registered_then_managed, managed_then_mounted, mount_made,
}

module _ (s : Storage) (get_certificates : Metadata → Reply Files) (id : Bytes) where
  -- The files that the source gives for the volume's metadata are written to the store.
  pub record Delivery (store store' : s.State) : Type 0 where
    pub meta : Metadata
    pub files : Files
    pub read : s.read_metadata id store ≡ ok meta
    pub fetched : get_certificates meta ≡ ok files
    pub written : s.write_files meta files store ≡ (ok tt, store')

  module _ (store : s.State) where
    fetched-Delivery :
        (meta : Metadata) (r : Reply Files)
        → s.read_metadata id store ≡ ok meta
        → get_certificates meta ≡ r
        → (fetch_and_write s get_certificates meta store).0 ≡ ok tt
        → Delivery store (fetch_and_write s get_certificates meta store).1
    unfolding fetch_and_write
    fetched-Delivery meta (ok files) read e h =
        let g : (s.write_files meta files store).0 ≡ ok tt = rw (e, fetch_and_write) at h in
        rw (e, fetch_and_write)
          (record {
            meta = meta;
            files = files;
            read = read;
            fetched = e;
            written = ap (λ r. (r, (s.write_files meta files store).1)) g;
          })
    fetched-Delivery meta (err x) read e h = absurd (cc (rw (e, fetch_and_write) at h))

    immediate-Delivery :
        (m : Manager) (r : Reply Metadata)
        → lookup id m.managed_volumes ≡ none
        → s.read_metadata id store ≡ r
        → (manage_volume_immediate s get_certificates id m store).0.1 ≡ ok tt
        → Delivery store (manage_volume_immediate s get_certificates id m store).1.1
    unfolding manage_volume_immediate
    immediate-Delivery m (ok meta) free e h =
        let g = rw (manage_new id m free, manage_volume_immediate) at h in
        rw (manage_new id m free, manage_volume_immediate)
          (rw e (fetched-Delivery meta (get_certificates meta) e refl (rw e at g)))
    immediate-Delivery m (err x) free e h =
        let g = rw (manage_new id m free, manage_volume_immediate) at h in absurd (cc (rw e at g))

module _ (s : Storage) (mnt : Mounter) (get_certificates : Metadata → Reply Files)
    (req : PublishRequest) where
  mount_made-store :
      (e : Option Bytes) (n : Node s mnt) → (mount_made s mnt req e n).1.store ≡ n.store
  unfolding bind_mount
  mount_made-store none n = refl
  mount_made-store (some e) n = refl

  ensure_mounted-store : (n : Node s mnt) → (ensure_mounted s mnt req n).1.store ≡ n.store
  unfolding ensure_mounted bind_mount
  ensure_mounted-store n = by_point (mnt.is_mount_point req.target_path n.mounts) refl
    where
      by_point :
          (p : MountPoint)
          → mnt.is_mount_point req.target_path n.mounts ≡ p
          → (ensure_mounted s mnt req n).1.store ≡ n.store
      by_point missing e =
          rw (e, ensure_mounted) (mount_made-store (mnt.mkdir_all req.target_path n.mounts).0 _)
      by_point (unknown x) e = rw (e, ensure_mounted) refl
      by_point (is_mount true) e = rw (e, ensure_mounted) refl
      by_point (is_mount false) e = rw (e, ensure_mounted) refl

  -- the storage was registered with, and then written to
  pub record Published (n n' : Node s mnt) : Type 0 where
    pub first : Bool
    pub store : s.State
    pub registered :
        s.register_metadata (from_node_publish_volume_request req) n.store ≡ (ok first, store)
    pub delivery : Delivery s get_certificates req.volume_id store n'.store

  mounted-Delivery :
      (store : s.State) (r : Reply Unit) (n : Node s mnt)
      → (r ≡ ok tt → Delivery s get_certificates req.volume_id store n.store)
      → (managed_then_mounted s mnt get_certificates req (r, n)).0 ≡ done
      → Delivery s get_certificates req.volume_id store
          (managed_then_mounted s mnt get_certificates req (r, n)).1.store
  mounted-Delivery store (ok a) n d h =
      subst (Delivery s get_certificates req.volume_id store) (sym (ensure_mounted-store n))
        (d refl)
  mounted-Delivery store (err e) n d h = absurd (cc)

  managed-Delivery :
      (n : Node s mnt)
      → is_managed req.volume_id n.manager ≡ false
      → (managed_then_mounted s mnt get_certificates req
          (ensure_managed s mnt get_certificates req n)).0
        ≡ done
      → Delivery s get_certificates req.volume_id n.store
          (managed_then_mounted s mnt get_certificates req
            (ensure_managed s mnt get_certificates req n)).1.store
  unfolding ensure_managed is_volume_ready
  managed-Delivery n free h =
      rw (free, ensure_managed, is_volume_ready)
        (mounted-Delivery n.store _ _
          (immediate-Delivery s get_certificates req.volume_id n.store n.manager
            (s.read_metadata req.volume_id n.store) (unmanaged_lookup req.volume_id n.manager free)
            refl)
          (rw (free, ensure_managed, is_volume_ready) at h))

  registered-Published :
      (n : Node s mnt) (r : Reply Bool) (store : s.State)
      → s.register_metadata (from_node_publish_volume_request req) n.store ≡ (r, store)
      → is_managed req.volume_id n.manager ≡ false
      → (registered_then_managed s mnt get_certificates req (r, store) n).0 ≡ done
      → Published n (registered_then_managed s mnt get_certificates req (r, store) n).1
  registered-Published n (ok b) store e free h = record {
    first = b;
    store = store;
    registered = e;
    delivery = managed-Delivery (record n { store = store }) free h;
  }
  registered-Published n (err x) store e free h = absurd (cc)

  abbrev tested : Node s mnt → Bool → Bool → Outcome × Node s mnt
  tested n a b =
      if a
      then (if b
          then registered_then_managed s mnt get_certificates req
              (s.register_metadata (from_node_publish_volume_request req) n.store) n
          else (failed not_read_only, n))
      else (failed not_ephemeral, n)

  tested-Published :
      (n : Node s mnt) (a b : Bool)
      → is_managed req.volume_id n.manager ≡ false
      → (tested n a b).0 ≡ done
      → Published n (tested n a b).1
  tested-Published n false b free h = absurd (cc)
  tested-Published n true false free h = absurd (cc)
  tested-Published n true true free h = registered-Published n _ _ refl free h

  finished-Published :
      (r : Outcome) (n n' : Node s mnt)
      → (r ≡ done → Published n n')
      → (finish s mnt get_certificates req (r, n')).0 ≡ done
      → Published n (finish s mnt get_certificates req (r, n')).1
  finished-Published done n n' p h = p refl
  finished-Published (failed e) n n' p h = absurd (cc)

  -- When NodePublishVolume succeeds for a volume that was not managed, the files that the source gives
  -- for the metadata that the storage then has of the volume were written to the storage after the
  -- registration, and the storage reported no error.
  pub node_publish_volume-Published :
      (n : Node s mnt)
      → is_managed req.volume_id n.manager ≡ false
      → (node_publish_volume s mnt get_certificates req n).0 ≡ done
      → Published n (node_publish_volume s mnt get_certificates req n).1
  unfolding node_publish_volume publish_body
  node_publish_volume-Published n free h =
      finished-Published (publish_body s mnt get_certificates req n).0 n
        (publish_body s mnt get_certificates req n).1
        (tested-Published n (is_ephemeral req) req.readonly free) h
