-- ===== src/Driver/Publish.antt =====
-- What NodePublishVolume and NodeUnpublishVolume leave behind, on every path.
use csi_driver_trusted_ca.Common.{
  ◌≡◌, refl, ◌∙◌, ap, Bool, true, false, [], ◌∷◌, Option, none, some, Bytes, codes, lookup,
  lookup-insert, lookup-erase, list_eq, nat_eq, =?_refl, if◌then◌else◌, arith, inl, inr,
  Option-cases,
}
use csi_driver_trusted_ca.Storage.{Metadata, Files, Reply, ok, err, Storage}
use csi_driver_trusted_ca.Manager.{
  Manager, is_managed, unmanage_volume, manage_volume_if_not_managed, manage_volume_immediate,
  is_volume_ready,
}
use csi_driver_trusted_ca.Manager.Channels.{
  manage_new, manage_again, unmanage_none, unmanage_some, taken_on, given_up,
}
use csi_driver_trusted_ca.Driver.{
  DriverError, not_ephemeral, not_read_only, MountPoint, is_mount, missing, unknown, Mounter,
  PublishRequest, UnpublishRequest, Outcome, done, failed, Node, is_ephemeral,
  from_node_publish_volume_request, clean_up, bind_mount, ensure_mounted, ensure_managed,
  publish_body, finish, node_publish_volume, node_unpublish_volume, unpublish_unmanaged,
  registered_then_managed, managed_then_mounted, mount_made,
}

pub is_managed-unmanage_volume :
    (k : Bytes) (m : Manager) → is_managed k (unmanage_volume k m) ≡ false
unfolding is_managed
is_managed-unmanage_volume k m = elim (Option-cases (lookup k m.managed_volumes)) [
  | inl e ↦ rw (unmanage_none k m e) (ground arith)
  | inr (ch, e) ↦
      rw (unmanage_some k m e)
        (unfold given_up in ground (arith, lookup-erase k k m.managed_volumes, =?_refl k))
]

pub is_managed-manage :
    (k : Bytes) (m : Manager) → is_managed k (manage_volume_if_not_managed k m).1 ≡ true
unfolding is_managed
is_managed-manage k m = elim (Option-cases (lookup k m.managed_volumes)) [
  | inl e ↦ rw (manage_new k m e) (
      unfold taken_on in
      ground (arith, lookup-insert k k m.next_channel m.managed_volumes, =?_refl k))
  | inr (ch, e) ↦ rw (manage_again k m e) (ground arith)
]

module _ (s : Storage) (mnt : Mounter) where
  -- A bind mount that succeeds makes the target a mount point.
  abbrev pub Mounts : Type 0
  Mounts =
      (from to : Bytes) (st : mnt.State)
      → (mnt.mount from to (codes "bind" ∷ codes "ro" ∷ []) st).0 ≡ none
      → mnt.is_mount_point to (mnt.mount from to (codes "bind" ∷ codes "ro" ∷ []) st).1
        ≡ is_mount true

  module _ (get_certificates : Metadata → Reply Files) (req : PublishRequest) where
    manager_immediate :
        (m : Manager) (store : s.State)
        → is_managed req.volume_id
            (manage_volume_immediate s get_certificates req.volume_id m store).1.0
          ≡ true
    unfolding manage_volume_immediate
    manager_immediate m store = ground (arith, is_managed-manage req.volume_id m)

    ensure_managed-managed :
        (n : Node s mnt)
        → is_managed req.volume_id (ensure_managed s mnt get_certificates req n).1.manager ≡ true
    unfolding ensure_managed is_volume_ready
    ensure_managed-managed n = ground (arith, manager_immediate n.manager n.store)

    abbrev IsMounted : Node s mnt → Type 0
    IsMounted n = mnt.is_mount_point req.target_path n.mounts ≡ is_mount true

    bind_mount-IsMounted :
        Mounts
        → (n : Node s mnt) → (bind_mount s mnt req n).0 ≡ done
        → IsMounted (bind_mount s mnt req n).1 × ((bind_mount s mnt req n).1.manager ≡ n.manager)
    unfolding bind_mount
    bind_mount-IsMounted law n h =
        ground (arith, law (s.path_for_volume req.volume_id) req.target_path n.mounts)

    mount_made-IsMounted :
        Mounts
        → (e : Option Bytes) (n : Node s mnt) → (mount_made s mnt req e n).0 ≡ done
        → IsMounted (mount_made s mnt req e n).1
          × ((mount_made s mnt req e n).1.manager ≡ n.manager)
    mount_made-IsMounted law none n h = bind_mount-IsMounted law n h
    mount_made-IsMounted law (some e) n h = absurd (cc)

    ensure_mounted-IsMounted :
        Mounts
        → (n : Node s mnt) → (p : MountPoint) → mnt.is_mount_point req.target_path n.mounts ≡ p
        → (ensure_mounted s mnt req n).0 ≡ done
        → IsMounted (ensure_mounted s mnt req n).1
          × ((ensure_mounted s mnt req n).1.manager ≡ n.manager)
    unfolding ensure_mounted
    ensure_mounted-IsMounted law n missing e h =
        let made = mnt.mkdir_all req.target_path n.mounts in
        rw (e, ensure_mounted)
          (mount_made-IsMounted law (made.0) (record n { mounts = made.1 })
            (rw (e, ensure_mounted) at h))
    ensure_mounted-IsMounted law n (unknown x) e h = absurd (ground arith)
    ensure_mounted-IsMounted law n (is_mount true) e h = rw (e, ensure_mounted) (e, refl)
    ensure_mounted-IsMounted law n (is_mount false) e h =
        rw (e, ensure_mounted) (bind_mount-IsMounted law n (rw (e, ensure_mounted) at h))

    managed_then_mounted-done :
        Mounts
        → (n : Node s mnt) (r : Reply Unit) → is_managed req.volume_id n.manager ≡ true
        → (managed_then_mounted s mnt get_certificates req (r, n)).0 ≡ done
        → (is_managed req.volume_id
              (managed_then_mounted s mnt get_certificates req (r, n)).1.manager
            ≡ true)
          × IsMounted (managed_then_mounted s mnt get_certificates req (r, n)).1
    managed_then_mounted-done law n (ok _) m h =
        let (mounted, same) =
          ensure_mounted-IsMounted law n (mnt.is_mount_point req.target_path n.mounts) refl h in
        (ap (is_managed req.volume_id) same ∙ m, mounted)
    managed_then_mounted-done law n (err e) m h = absurd (cc)

    registered-done :
        Mounts
        → (n : Node s mnt) (r : Reply Bool) (store : s.State)
        → (registered_then_managed s mnt get_certificates req (r, store) n).0 ≡ done
        → (is_managed req.volume_id
              (registered_then_managed s mnt get_certificates req (r, store) n).1.manager
            ≡ true)
          × IsMounted (registered_then_managed s mnt get_certificates req (r, store) n).1
    registered-done law n (ok b) store h =
        let n' : Node s mnt = record n { store = store } in
        managed_then_mounted-done law (ensure_managed s mnt get_certificates req n').1
          (ensure_managed s mnt get_certificates req n').0 (ensure_managed-managed n') h
    registered-done law n (err e) store h = absurd (cc)

    finish-done :
        (r : Outcome) (n : Node s mnt)
        → (finish s mnt get_certificates req (r, n)).0 ≡ done
        → (r ≡ done) × ((finish s mnt get_certificates req (r, n)).1 ≡ n)
    finish-done done n h = (refl, refl)
    finish-done (failed e) n h = absurd (cc)

    -- the two tests of NodePublishVolume, and what follows them
    abbrev tested : Node s mnt → Bool → Bool → Outcome × Node s mnt
    tested n a b =
        if a
        then (if b
            then registered_then_managed s mnt get_certificates req
                (s.register_metadata (from_node_publish_volume_request req) n.store) n
            else (failed not_read_only, n))
        else (failed not_ephemeral, n)

    tested-done :
        Mounts
        → (n : Node s mnt) (a b : Bool) → (tested n a b).0 ≡ done
        → (a ≡ true)
          × (b ≡ true)
          × (is_managed req.volume_id (tested n a b).1.manager ≡ true)
          × IsMounted (tested n a b).1
    tested-done law n false b h = absurd (cc)
    tested-done law n true false h = absurd (cc)
    tested-done law n true true h =
        let reg = s.register_metadata (from_node_publish_volume_request req) n.store in
        let (m, i) = registered-done law n (reg.0) (reg.1) h in (refl, refl, m, i)

    publish_body-done :
        Mounts
        → (n : Node s mnt) → (publish_body s mnt get_certificates req n).0 ≡ done
        → (is_ephemeral req ≡ true)
          × (req.readonly ≡ true)
          × (is_managed req.volume_id (publish_body s mnt get_certificates req n).1.manager ≡ true)
          × IsMounted (publish_body s mnt get_certificates req n).1
    unfolding publish_body
    publish_body-done law n h = tested-done law n (is_ephemeral req) req.readonly h

    -- NodePublishVolume succeeds only for an ephemeral volume that is mounted read-only, and then the
    -- volume is managed and the target path is a mount point. A bind mount that reports no error is
    -- taken to make its target a mount point.
    pub publish_done :
        Mounts
        → (n : Node s mnt) → (node_publish_volume s mnt get_certificates req n).0 ≡ done
        → (is_ephemeral req ≡ true)
          × (req.readonly ≡ true)
          × (is_managed req.volume_id (node_publish_volume s mnt get_certificates req n).1.manager
              ≡ true)
          × (mnt.is_mount_point req.target_path
                (node_publish_volume s mnt get_certificates req n).1.mounts
              ≡ is_mount true)
    unfolding node_publish_volume
    publish_done law n h =
        let body = publish_body s mnt get_certificates req n in
        let (e, same) = finish-done (body.0) (body.1) h in
        let (a, b, m, i) = publish_body-done law n e in (a, b, rw same m, rw same i)

    -- A call that fails ends with the deferred cleanup.
    pub publish_failed :
        (n : Node s mnt) (e : DriverError)
        → (node_publish_volume s mnt get_certificates req n).0 ≡ failed e
        → (node_publish_volume s mnt get_certificates req n).1
          ≡ clean_up s mnt req (publish_body s mnt get_certificates req n).1
    unfolding node_publish_volume
    publish_failed n e h =
        finish-failed (publish_body s mnt get_certificates req n).0
          (publish_body s mnt get_certificates req n).1 h
      where
        finish-failed :
            (r : Outcome) (n' : Node s mnt)
            → (finish s mnt get_certificates req (r, n')).0 ≡ failed e
            → (finish s mnt get_certificates req (r, n')).1 ≡ clean_up s mnt req n'
        finish-failed done n' h = absurd (cc)
        finish-failed (failed x) n' h = refl

  -- NodeUnpublishVolume lets the volume go whatever else fails.
  pub unpublish-manager :
      (req : UnpublishRequest) (n : Node s mnt)
      → (node_unpublish_volume s mnt req n).1.manager ≡ unmanage_volume req.volume_id n.manager
  unfolding node_unpublish_volume unpublish_unmanaged
  unpublish-manager req n = ground arith
