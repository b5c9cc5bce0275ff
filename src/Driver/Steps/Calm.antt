-- ===== src/Driver/Steps/Calm.antt =====
-- The manager while calls run at the same time.
use csi_driver_trusted_ca.Common.{◌≡◌, refl, Bool, true, false, if◌then◌else◌, List}
use csi_driver_trusted_ca.Storage.{Metadata, Files, Reply, Storage}
use csi_driver_trusted_ca.Manager.{is_volume_ready}
use csi_driver_trusted_ca.Manager.Channels.{
  IsValid, manage_volume_if_not_managed-IsValid, unmanage_volume-IsValid,
}
use csi_driver_trusted_ca.Driver.{
  MountPoint, missing, unknown, is_mount, Mounter, PublishRequest, UnpublishRequest, Node,
  is_ephemeral, not_ephemeral, not_read_only,
}
use csi_driver_trusted_ca.Driver.Steps.{
  Phase, checking, registering, asking, taking, reading, fetching, writing, ready, making_directory,
  mounting, UnpublishPhase, letting_go, looking, Task, publishing, unpublishing, publish_step,
  unpublish_step, step, Turn, Reach,
}

module _ (s : Storage) (mnt : Mounter) (get_certificates : Metadata → Reply Files) where
  by_test :
      (b : Bool) (x y : Phase × Node s mnt)
      → IsValid x.1.manager
      → IsValid y.1.manager
      → IsValid (if b then x else y).1.manager
  by_test true x y v w = v
  by_test false x y v w = w

  publish_step-IsValid :
      (req : PublishRequest) (p : Phase) (n : Node s mnt)
      → IsValid n.manager
      → IsValid (publish_step s mnt get_certificates req p n).1.manager
  unfolding publish_step
  publish_step-IsValid req checking n v =
      by_test (is_ephemeral req)
        (if req.readonly then (registering, n) else (Phase.unmanaging not_read_only, n))
        (Phase.unmanaging not_ephemeral, n) (by_test req.readonly _ _ v v) v
  publish_step-IsValid req registering n v = v
  publish_step-IsValid req asking n v =
      by_test (is_volume_ready s req.volume_id n.manager n.store) (ready, n) (taking, n) v v
  publish_step-IsValid req taking n v =
      manage_volume_if_not_managed-IsValid req.volume_id n.manager v
  publish_step-IsValid req reading n v = v
  publish_step-IsValid req (fetching meta) n v = v
  publish_step-IsValid req (writing meta files) n v = v
  publish_step-IsValid req ready n v = by_point (mnt.is_mount_point req.target_path n.mounts) refl
    where
      by_point :
          (p : MountPoint)
          → mnt.is_mount_point req.target_path n.mounts ≡ p
          → IsValid (publish_step s mnt get_certificates req ready n).1.manager
      by_point missing h = rw (h, publish_step) v
      by_point (unknown e) h = rw (h, publish_step) v
      by_point (is_mount true) h = rw (h, publish_step) v
      by_point (is_mount false) h = rw (h, publish_step) v
  publish_step-IsValid req making_directory n v = v
  publish_step-IsValid req mounting n v = v
  publish_step-IsValid req (Phase.unmanaging e) n v =
      unmanage_volume-IsValid req.volume_id n.manager v
  publish_step-IsValid req (Phase.unmounting e) n v = v
  publish_step-IsValid req (Phase.removing e) n v = v
  publish_step-IsValid req (Phase.returned o) n v = v

  unpublish_step-IsValid :
      (req : UnpublishRequest) (p : UnpublishPhase) (n : Node s mnt)
      → IsValid n.manager
      → IsValid (unpublish_step s mnt get_certificates req p n).1.manager
  unfolding unpublish_step
  unpublish_step-IsValid req letting_go n v = unmanage_volume-IsValid req.volume_id n.manager v
  unpublish_step-IsValid req looking n v =
      by_point (mnt.is_mount_point req.target_path n.mounts) refl
    where
      by_point :
          (p : MountPoint)
          → mnt.is_mount_point req.target_path n.mounts ≡ p
          → IsValid (unpublish_step s mnt get_certificates req looking n).1.manager
      by_point missing h = rw (h, unpublish_step) v
      by_point (unknown e) h = rw (h, unpublish_step) v
      by_point (is_mount true) h = rw (h, unpublish_step) v
      by_point (is_mount false) h = rw (h, unpublish_step) v
  unpublish_step-IsValid req UnpublishPhase.unmounting n v = v
  unpublish_step-IsValid req UnpublishPhase.removing n v = v
  unpublish_step-IsValid req (UnpublishPhase.returned o) n v = v

  step-IsValid :
      (t : Task) (n : Node s mnt)
      → IsValid n.manager
      → IsValid (step s mnt get_certificates t n).1.manager
  unfolding step
  step-IsValid (publishing req p) n v = publish_step-IsValid req p n v
  step-IsValid (unpublishing req p) n v = unpublish_step-IsValid req p n v

  Turn-IsValid :
      {ts ts' : List Task} {n n' : Node s mnt}
      → Turn s mnt get_certificates ts n ts' n'
      → IsValid n.manager
      → IsValid n'.manager
  Turn-IsValid (Turn.here {t = t} {n = n} running) v = step-IsValid t n v
  Turn-IsValid (Turn.there later) v = Turn-IsValid later v

  Reach-IsValid :
      {n0 : Node s mnt} {ts : List Task} {n : Node s mnt}
      → IsValid n0.manager
      → Reach s mnt get_certificates n0 ts n
      → IsValid n.manager
  Reach-IsValid v Reach.start = v
  Reach-IsValid v (Reach.publish req r) = Reach-IsValid v r
  Reach-IsValid v (Reach.unpublish req r) = Reach-IsValid v r
  Reach-IsValid v (Reach.turn r t) = Turn-IsValid t (Reach-IsValid v r)

  -- Whatever calls of NodePublishVolume and NodeUnpublishVolume run at the same time, in whatever order
  -- they take their steps, and however the storage, the mounts and the source answer: from a well-formed
  -- manager no channel is closed twice, so that the driver does not panic.
  pub Reach-calm :
      (ts : List Task) (n0 n : Node s mnt)
      → IsValid n0.manager
      → Reach s mnt get_certificates n0 ts n
      → n.manager.panicked ≡ false
  Reach-calm ts n0 n v r = (Reach-IsValid v r).calm
