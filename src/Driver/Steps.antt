-- ===== src/Driver/Steps.antt =====
-- NodePublishVolume and NodeUnpublishVolume of pkg/driver/nodeserver.go in steps, for calls that run at
-- the same time. A step is one call of the manager, the storage, the source or the mount library. Those
-- of the manager hold its lock; the others are taken to be atomic, as MemoryFS's are.
pub mod Alone
pub mod Calm
pub mod Race
pub mod Tests
use csi_driver_trusted_ca.Common.{
  Bool, true, false, List, [], ◌∷◌, Option, none, some, Bytes, codes, if◌then◌else◌, ◌≡◌,
}
use csi_driver_trusted_ca.Storage.{Metadata, Files, Reply, ok, err, Storage}
use csi_driver_trusted_ca.Manager.{unmanage_volume, manage_volume_if_not_managed, is_volume_ready}
use csi_driver_trusted_ca.Driver.{
  DriverError, not_ephemeral, not_read_only, store_error, mount_error, missing, unknown, is_mount,
  Mounter, PublishRequest, UnpublishRequest, from_node_publish_volume_request, is_ephemeral,
  Outcome, done, failed, Node,
}

-- where NodePublishVolume is: the call that it makes next
pub data Phase : Type 0 where
  checking registering asking taking reading ready making_directory mounting : Phase
  fetching : Metadata → Phase
  writing : Metadata → Files → Phase
  -- the deferred function
  unmanaging unmounting removing : DriverError → Phase
  returned : Outcome → Phase

-- where NodeUnpublishVolume is
pub data UnpublishPhase : Type 0 where
  letting_go looking unmounting removing : UnpublishPhase
  returned : Outcome → UnpublishPhase

-- the calls in flight
pub data Task : Type 0 where
  publishing : PublishRequest → Phase → Task
  unpublishing : UnpublishRequest → UnpublishPhase → Task

abbrev pub after_registration : Reply Bool → Phase
after_registration (ok _) = asking
after_registration (err e) = unmanaging (store_error e)

abbrev pub after_reading : Reply Metadata → Phase
after_reading (ok meta) = fetching meta
after_reading (err e) = unmanaging (store_error e)

abbrev pub after_fetching : Metadata → Reply Files → Phase
after_fetching meta (ok files) = writing meta files
after_fetching meta (err e) = unmanaging (store_error e)

abbrev pub after_writing : Reply Unit → Phase
after_writing (ok _) = ready
after_writing (err e) = unmanaging (store_error e)

abbrev pub after_directory : Option Bytes → Phase
after_directory none = mounting
after_directory (some e) = unmanaging (mount_error e)

abbrev pub after_mount : Option Bytes → Phase
after_mount none = Phase.returned done
after_mount (some e) = unmanaging (mount_error e)

abbrev pub after_unmount : Option Bytes → UnpublishPhase
after_unmount none = UnpublishPhase.removing
after_unmount (some e) = UnpublishPhase.returned (failed (mount_error e))

abbrev pub after_removal : Reply Unit → UnpublishPhase
after_removal (ok _) = UnpublishPhase.returned done
after_removal (err e) = UnpublishPhase.returned (failed (store_error e))

module _ (s : Storage) (mnt : Mounter) (get_certificates : Metadata → Reply Files) where
  unfoldable pub publish_step : PublishRequest → Phase → Node s mnt → Phase × Node s mnt
  publish_step req checking n =
      if is_ephemeral req
      then (if req.readonly then (registering, n) else (unmanaging not_read_only, n))
      else (unmanaging not_ephemeral, n)
  publish_step req registering n =
      let (r, store) = s.register_metadata (from_node_publish_volume_request req) n.store in
      (after_registration r, record n { store = store })
  publish_step req asking n =
      if is_volume_ready s req.volume_id n.manager n.store then (ready, n) else (taking, n)
  publish_step req taking n =
      let (managed, manager) = manage_volume_if_not_managed req.volume_id n.manager in
      (if managed then reading else ready, record n { manager = manager })
  publish_step req reading n = (after_reading (s.read_metadata req.volume_id n.store), n)
  publish_step req (fetching meta) n = (after_fetching meta (get_certificates meta), n)
  publish_step req (writing meta files) n =
      let (r, store) = s.write_files meta files n.store in
      (after_writing r, record n { store = store })
  publish_step req ready n = elim (mnt.is_mount_point req.target_path n.mounts) [
    | missing ↦ (making_directory, n)
    | unknown e ↦ (unmanaging (mount_error e), n)
    | is_mount true ↦ (Phase.returned done, n)
    | is_mount false ↦ (mounting, n)
  ]
  publish_step req making_directory n =
      let (e, mounts) = mnt.mkdir_all req.target_path n.mounts in
      (after_directory e, record n { mounts = mounts })
  publish_step req mounting n =
      let (e, mounts) =
        mnt.mount (s.path_for_volume req.volume_id) req.target_path (codes "bind" ∷ codes "ro" ∷ [])
          n.mounts in
      (after_mount e, record n { mounts = mounts })
  publish_step req (Phase.unmanaging e) n =
      (Phase.unmounting e, record n { manager = unmanage_volume req.volume_id n.manager })
  publish_step req (Phase.unmounting e) n =
      (Phase.removing e, record n { mounts = (mnt.unmount req.target_path n.mounts).1 })
  publish_step req (Phase.removing e) n =
      (Phase.returned (failed e), record n { store = (s.remove_volume req.volume_id n.store).1 })
  publish_step req (Phase.returned o) n = (Phase.returned o, n)

  unfoldable pub unpublish_step :
      UnpublishRequest → UnpublishPhase → Node s mnt → UnpublishPhase × Node s mnt
  unpublish_step req letting_go n =
      (looking, record n { manager = unmanage_volume req.volume_id n.manager })
  unpublish_step req looking n = elim (mnt.is_mount_point req.target_path n.mounts) [
    | missing ↦ (UnpublishPhase.returned (failed (mount_error (codes "not exist"))), n)
    | unknown e ↦ (UnpublishPhase.returned (failed (mount_error e)), n)
    | is_mount true ↦ (UnpublishPhase.unmounting, n)
    | is_mount false ↦ (UnpublishPhase.removing, n)
  ]
  unpublish_step req UnpublishPhase.unmounting n =
      let (e, mounts) = mnt.unmount req.target_path n.mounts in
      (after_unmount e, record n { mounts = mounts })
  unpublish_step req UnpublishPhase.removing n =
      let (r, store) = s.remove_volume req.volume_id n.store in
      (after_removal r, record n { store = store })
  unpublish_step req (UnpublishPhase.returned o) n = (UnpublishPhase.returned o, n)

  unfoldable pub step : Task → Node s mnt → Task × Node s mnt
  step (publishing req p) n = let (p', n') = publish_step req p n in (publishing req p', n')
  step (unpublishing req p) n = let (p', n') = unpublish_step req p n in (unpublishing req p', n')

  abbrev pub is_finished : Task → Bool
  is_finished (publishing req (Phase.returned o)) = true
  is_finished (publishing req p) = false
  is_finished (unpublishing req (UnpublishPhase.returned o)) = true
  is_finished (unpublishing req p) = false

  -- One of the calls that have not returned makes its next step.
  pub data Turn : List Task → Node s mnt → List Task → Node s mnt → Type 0 where
    here :
        {t : Task} {ts : List Task} {n : Node s mnt}
        → is_finished t ≡ false
        → Turn (t ∷ ts) n ((step t n).0 ∷ ts) (step t n).1
    there :
        {t : Task} {ts ts' : List Task} {n n' : Node s mnt}
        → Turn ts n ts' n'
        → Turn (t ∷ ts) n (t ∷ ts') n'

  -- the calls that a driver has got on the way from one node to another
  pub data Reach (n0 : Node s mnt) : List Task → Node s mnt → Type 0 where
    start : Reach n0 [] n0
    publish :
        {ts : List Task} {n : Node s mnt} (req : PublishRequest)
        → Reach n0 ts n
        → Reach n0 (publishing req checking ∷ ts) n
    unpublish :
        {ts : List Task} {n : Node s mnt} (req : UnpublishRequest)
        → Reach n0 ts n
        → Reach n0 (unpublishing req letting_go ∷ ts) n
    turn :
        {ts ts' : List Task} {n n' : Node s mnt}
        → Reach n0 ts n
        → Turn ts n ts' n'
        → Reach n0 ts' n'
