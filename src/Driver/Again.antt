-- ===== src/Driver/Again.antt =====
-- A NodePublishVolume that is repeated, over MemoryFS.
use csi_driver_trusted_ca.Common.{
  ◌≡◌, refl, sym, ◌∙◌, ap, subst, Bool, true, false, Option, none, some, Bytes, lookup, list_eq,
  nat_eq, if◌then◌else◌, arith, inl, inr, Bool-cases,
}
use csi_driver_trusted_ca.Storage.{Metadata, Files, Reply, ok, err, Storage}
use csi_driver_trusted_ca.Storage.Memory.{
  Codec, MemoryFs, memory, metadata_file, register_metadata, write_files,
}
use csi_driver_trusted_ca.Manager.{
  Manager, is_managed, manage_volume_if_not_managed, manage_volume_immediate, is_volume_ready,
  fetch_and_write,
}
use csi_driver_trusted_ca.Driver.{
  not_ephemeral, not_read_only, MountPoint, is_mount, missing, unknown, Mounter, PublishRequest,
  Outcome, done, failed, Node, is_ephemeral, from_node_publish_volume_request, bind_mount,
  ensure_mounted, ensure_managed, publish_body, finish, node_publish_volume,
  registered_then_managed, managed_then_mounted, mount_made,
}
use csi_driver_trusted_ca.Driver.Publish.{Mounts, publish_done}
use csi_driver_trusted_ca.Driver.Known.{
  Knows, registered, write_files-read, register_metadata-Knows, Knows-register_metadata,
}

-- a node on which the volume is published: the same call changes nothing
module _ (s : Storage) (mnt : Mounter) (get_certificates : Metadata → Reply Files)
    (req : PublishRequest) where
  ensure_managed-ready :
      (n : Node s mnt) (meta : Metadata)
      → is_managed req.volume_id n.manager ≡ true
      → s.read_metadata req.volume_id n.store ≡ ok meta
      → ensure_managed s mnt get_certificates req n ≡ (ok tt, n)
  unfolding ensure_managed is_volume_ready
  ensure_managed-ready n meta m read = ground (arith, m, read)

  ensure_mounted-mounted :
      (n : Node s mnt)
      → mnt.is_mount_point req.target_path n.mounts ≡ is_mount true
      → ensure_mounted s mnt req n ≡ (done, n)
  unfolding ensure_mounted
  ensure_mounted-mounted n mounted = rw (mounted, ensure_mounted) refl

  both_tests :
      {A : Type 0} (a b : Bool) (x y z : A)
      → a ≡ true
      → b ≡ true
      → (if a then (if b then x else y) else z) ≡ x
  both_tests a b x y z e r = ground arith

  publish_settled :
      (n : Node s mnt) (b : Bool) (meta : Metadata)
      → is_ephemeral req ≡ true
      → req.readonly ≡ true
      → s.register_metadata (from_node_publish_volume_request req) n.store ≡ (ok b, n.store)
      → is_managed req.volume_id n.manager ≡ true
      → s.read_metadata req.volume_id n.store ≡ ok meta
      → mnt.is_mount_point req.target_path n.mounts ≡ is_mount true
      → node_publish_volume s mnt get_certificates req n ≡ (done, n)
  unfolding node_publish_volume publish_body
  publish_settled n b meta e r reg m read mounted = ap (finish s mnt get_certificates req) (
      both_tests (is_ephemeral req) req.readonly _ _ _ e r
      ∙ ap (λ g. registered_then_managed s mnt get_certificates req g n) reg
      ∙ ap (managed_then_mounted s mnt get_certificates req) (ensure_managed-ready n meta m read)
      ∙ ensure_mounted-mounted n mounted)

module _ (c : Codec) (req : PublishRequest) where
  module _ (again : c.unmarshal (c.marshal (registered c req)) ≡ some (registered c req))
      (equal : c.deep_equal req.volume_context req.volume_context ≡ true) where
    module _ (mnt : Mounter) (get_certificates : Metadata → Reply Files)
        (plain : (meta : Metadata) (files : Files)
          → get_certificates meta ≡ ok files
          → lookup metadata_file files ≡ none) where
      fetch_and_write-Knows :
          (meta : Metadata) (store : MemoryFs)
          → (Knows c req) store
          → (Knows c req) (fetch_and_write (memory c) get_certificates meta store).1
      unfolding fetch_and_write
      fetch_and_write-Knows meta store k = by_reply (get_certificates meta) refl
        where
          by_reply :
              (r : Reply Files)
              → get_certificates meta ≡ r
              → (Knows c req)
                  (elim r as (λ _. Reply Unit × MemoryFs) [
                    | err e ↦ (err e, store)
                    | ok files ↦ write_files meta files store
                  ]).1
          by_reply (err e) q = k
          by_reply (ok files) q = record {
            meta = k.meta;
            read = write_files-read c req meta files store (plain meta files q) ∙ k.read;
            same = k.same;
          }

      manage_volume_immediate-Knows :
          (m : Manager) (store : MemoryFs)
          → (Knows c req) store
          → (Knows c req)
              (manage_volume_immediate (memory c) get_certificates req.volume_id m store).1.1
      unfolding manage_volume_immediate
      manage_volume_immediate-Knows m store k =
          elim (Bool-cases (manage_volume_if_not_managed req.volume_id m).0) [
            | inl e ↦
                rw (e, manage_volume_immediate) (rw k.read (fetch_and_write-Knows k.meta store k))
            | inr e ↦ rw (e, manage_volume_immediate) k
          ]

      ensure_managed-Knows :
          (n : Node (memory c) mnt)
          → (Knows c req) n.store
          → (Knows c req) (ensure_managed (memory c) mnt get_certificates req n).1.store
      unfolding ensure_managed
      ensure_managed-Knows n k =
          elim (Bool-cases (is_volume_ready (memory c) req.volume_id n.manager n.store)) [
            | inl e ↦ rw (e, ensure_managed) k
            | inr e ↦ rw (e, ensure_managed) (manage_volume_immediate-Knows n.manager n.store k)
          ]

      mount_made-store :
          (e : Option Bytes) (n : Node (memory c) mnt)
          → (mount_made (memory c) mnt req e n).1.store ≡ n.store
      unfolding bind_mount
      mount_made-store none n = refl
      mount_made-store (some e) n = refl

      ensure_mounted-store :
          (n : Node (memory c) mnt) → (ensure_mounted (memory c) mnt req n).1.store ≡ n.store
      unfolding ensure_mounted bind_mount
      ensure_mounted-store n = by_point (mnt.is_mount_point req.target_path n.mounts) refl
        where
          by_point :
              (p : MountPoint)
              → mnt.is_mount_point req.target_path n.mounts ≡ p
              → (ensure_mounted (memory c) mnt req n).1.store ≡ n.store
          by_point missing e =
              rw (e, ensure_mounted) (mount_made-store (mnt.mkdir_all req.target_path n.mounts).0 _)
          by_point (unknown x) e = rw (e, ensure_mounted) refl
          by_point (is_mount true) e = rw (e, ensure_mounted) refl
          by_point (is_mount false) e = rw (e, ensure_mounted) refl

      managed_then_mounted-Knows :
          (r : Reply Unit) (n : Node (memory c) mnt)
          → (Knows c req) n.store
          → (Knows c req) (managed_then_mounted (memory c) mnt get_certificates req (r, n)).1.store
      managed_then_mounted-Knows (ok a) n k = subst (Knows c req) (sym (ensure_mounted-store n)) k
      managed_then_mounted-Knows (err e) n k = k

      registered_then_managed-Knows :
          (r : Reply Bool) (store : MemoryFs) (n : Node (memory c) mnt)
          → ((b : Bool) → r ≡ ok b → (Knows c req) store)
          → (registered_then_managed (memory c) mnt get_certificates req (r, store) n).0 ≡ done
          → (Knows c req)
              (registered_then_managed (memory c) mnt get_certificates req (r, store) n).1.store
      registered_then_managed-Knows (ok b) store n k h =
          let n' : Node (memory c) mnt = record n { store = store } in
          managed_then_mounted-Knows (ensure_managed (memory c) mnt get_certificates req n').0
            (ensure_managed (memory c) mnt get_certificates req n').1
            (ensure_managed-Knows n' (k b refl))
      registered_then_managed-Knows (err e) store n k h = absurd (cc)

      publish_body-Knows :
          (n : Node (memory c) mnt)
          → is_ephemeral req ≡ true
          → req.readonly ≡ true
          → (publish_body (memory c) mnt get_certificates req n).0 ≡ done
          → (Knows c req) (publish_body (memory c) mnt get_certificates req n).1.store
      unfolding publish_body
      publish_body-Knows n e r h =
          let reg = register_metadata c (registered c req) n.store in
          let same =
            both_tests (memory c) mnt get_certificates req (is_ephemeral req) req.readonly
              (registered_then_managed (memory c) mnt get_certificates req reg n)
              (failed not_read_only, n) (failed not_ephemeral, n) e r in
          subst (λ x. (Knows c req) (x.1.store)) (sym same)
            (registered_then_managed-Knows (reg.0) (reg.1) n
              (λ b q. register_metadata-Knows c req again equal n.store b q)
              (sym (ap (λ x. x.0) same) ∙ h))

      finish-Knows :
          (r : Outcome) (n : Node (memory c) mnt)
          → (r ≡ done → (Knows c req) n.store)
          → (finish (memory c) mnt get_certificates req (r, n)).0 ≡ done
          → (Knows c req) (finish (memory c) mnt get_certificates req (r, n)).1.store
      finish-Knows done n k h = k refl
      finish-Knows (failed e) n k h = absurd (cc)

      -- NodePublishVolume over MemoryFS is idempotent: where it succeeded, the same call again
      -- succeeds and changes nothing. The metadata is read back from JSON as it was written, its
      -- attributes equal themselves, no certificate's file is named "metadata.json", and a bind mount that reports no error
      -- makes its target a mount point.
      pub publish_again :
          Mounts (memory c) mnt
          → (n : Node (memory c) mnt)
          → (node_publish_volume (memory c) mnt get_certificates req n).0 ≡ done
          → node_publish_volume
              (memory c)
              mnt
              get_certificates
              req
              (node_publish_volume (memory c) mnt get_certificates req n).1
            ≡ (done, (node_publish_volume (memory c) mnt get_certificates req n).1)
      publish_again law n h =
          let n' = (node_publish_volume (memory c) mnt get_certificates req n).1 in
          let (e, r, m, i) = publish_done (memory c) mnt get_certificates req law n h in
          let k : (Knows c req) n'.store =
            unfold node_publish_volume in
            finish-Knows (publish_body (memory c) mnt get_certificates req n).0
              (publish_body (memory c) mnt get_certificates req n).1 (publish_body-Knows n e r) h in
          publish_settled (memory c) mnt get_certificates req n' false k.meta e r
            (Knows-register_metadata c req n'.store k) m k.read i
