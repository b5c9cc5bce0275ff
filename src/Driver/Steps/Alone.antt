-- ===== src/Driver/Steps/Alone.antt =====
-- A call that runs alone takes the steps of the whole method.
use csi_driver_trusted_ca.Common.{
  ℕ, zero, suc, ◌≡◌, refl, ◌∙◌, ap, Bool, true, false, Bool-cases, inl, inr, Option, none, some,
  Bytes, if◌then◌else◌,
}
use csi_driver_trusted_ca.Storage.{Metadata, Files, Reply, ok, err, Storage}
use csi_driver_trusted_ca.Manager.{
  is_volume_ready, manage_volume_if_not_managed, manage_volume_immediate, fetch_and_write,
}
use csi_driver_trusted_ca.Driver.{
  DriverError, MountPoint, missing, unknown, is_mount, Mounter, PublishRequest, Outcome, done,
  failed, Node, clean_up, bind_mount, mount_result, mount_made, ensure_mounted, ensure_managed,
  managed_then_mounted, registered_then_managed, publish_body, finish, node_publish_volume,
  is_ephemeral, from_node_publish_volume_request, not_ephemeral, not_read_only, store_error,
  mount_error,
}
use csi_driver_trusted_ca.Driver.Steps.{
  Phase, checking, registering, asking, taking, reading, fetching, writing, ready, making_directory,
  mounting, after_registration, after_writing, after_directory, after_mount, publish_step,
}

module _ (s : Storage) (mnt : Mounter) (get_certificates : Metadata → Reply Files)
    (req : PublishRequest) where
  -- a number of the call's steps
  unfoldable pub run_steps : ℕ → Phase × Node s mnt → Phase × Node s mnt
  run_steps zero x = x
  run_steps (suc k) (p, n) = run_steps k (publish_step s mnt get_certificates req p n)

  abbrev pub answered : Outcome × Node s mnt → Phase × Node s mnt
  answered (o, n) = (Phase.returned o, n)

  abbrev finished : Outcome × Node s mnt → Phase × Node s mnt
  finished x = answered (finish s mnt get_certificates req x)

  stays :
      (k : ℕ) (o : Outcome) (n : Node s mnt)
      → run_steps k (Phase.returned o, n) ≡ (Phase.returned o, n)
  unfolding run_steps publish_step
  stays zero o n = refl
  stays (suc k) o n = stays k o n

  went :
      (k : ℕ) (p : Phase) (n : Node s mnt) (x y : Phase × Node s mnt)
      → publish_step s mnt get_certificates req p n ≡ x
      → run_steps k x ≡ y
      → run_steps (suc k) (p, n) ≡ y
  unfolding run_steps
  went k p n x y h rest = ap (run_steps k) h ∙ rest

  -- the deferred function and the return
  cleaned_up :
      (k : ℕ) (e : DriverError) (n : Node s mnt)
      → run_steps (suc (suc (suc k))) (Phase.unmanaging e, n) ≡ finished (failed e, n)
  unfolding run_steps publish_step clean_up
  cleaned_up k e n = stays k (failed e) (clean_up s mnt req n)

  mount_ended :
      (k : ℕ) (e : Option Bytes) (n : Node s mnt)
      → run_steps (suc (suc (suc k))) (after_mount e, n) ≡ finished (mount_result s mnt e, n)
  mount_ended k none n = stays (suc (suc (suc k))) done n
  mount_ended k (some e) n = cleaned_up k (mount_error e) n

  mounted :
      (k : ℕ) (n : Node s mnt)
      → run_steps (suc (suc (suc (suc k)))) (mounting, n) ≡ finished (bind_mount s mnt req n)
  unfolding publish_step bind_mount
  mounted k n = went (suc (suc (suc k))) mounting n _ _ refl (mount_ended k _ _)

  directory_made :
      (k : ℕ) (e : Option Bytes) (n : Node s mnt)
      → run_steps (suc (suc (suc (suc k)))) (after_directory e, n)
        ≡ finished (mount_made s mnt req e n)
  directory_made k none n = mounted k n
  directory_made k (some e) n = cleaned_up (suc k) (mount_error e) n

  -- the steps from IsMountPoint to the return
  abbrev last_steps : ℕ → ℕ
  last_steps k = suc (suc (suc (suc (suc k))))

  ensured :
      (k : ℕ) (n : Node s mnt)
      → run_steps (suc (last_steps k)) (ready, n) ≡ finished (ensure_mounted s mnt req n)
  unfolding publish_step ensure_mounted
  ensured k n = by_point (mnt.is_mount_point req.target_path n.mounts) refl
    where
      by_point :
          (p : MountPoint)
          → mnt.is_mount_point req.target_path n.mounts ≡ p
          → run_steps (suc (last_steps k)) (ready, n) ≡ finished (ensure_mounted s mnt req n)
      by_point missing h =
          rw (h, ensure_mounted)
            (went (last_steps k) ready n _ _ (rw (h, publish_step) refl)
              (went (suc (suc (suc (suc k)))) making_directory n _ _ refl (directory_made k _ _)))
      by_point (unknown e) h =
          rw (h, ensure_mounted)
            (went (last_steps k) ready n _ _ (rw (h, publish_step) refl)
              (cleaned_up (suc (suc k)) (mount_error e) n))
      by_point (is_mount true) h =
          rw (h, ensure_mounted)
            (went (last_steps k) ready n _ _ (rw (h, publish_step) refl)
              (stays (last_steps k) done n))
      by_point (is_mount false) h =
          rw (h, ensure_mounted)
            (went (last_steps k) ready n _ _ (rw (h, publish_step) refl) (mounted (suc k) n))

  written :
      (r : Reply Unit) (n : Node s mnt)
      → run_steps 6 (after_writing r, n)
        ≡ finished (managed_then_mounted s mnt get_certificates req (r, n))
  written (ok a) n = ensured 0 n
  written (err e) n = cleaned_up 3 (store_error e) n

  abbrev fetched_and_written : Metadata → Node s mnt → Reply Unit × Node s mnt
  fetched_and_written meta n =
      let (r, store) = fetch_and_write s get_certificates meta n.store in
      (r, record n { store = store })

  fetched :
      (meta : Metadata) (n : Node s mnt)
      → run_steps 8 (fetching meta, n)
        ≡ finished (managed_then_mounted s mnt get_certificates req (fetched_and_written meta n))
  unfolding publish_step fetch_and_write
  fetched meta n = by_files (get_certificates meta) refl
    where
      by_files :
          (r : Reply Files)
          → get_certificates meta ≡ r
          → run_steps 8 (fetching meta, n)
            ≡ finished
                (managed_then_mounted s mnt get_certificates req (fetched_and_written meta n))
      by_files (ok files) h =
          rw (h, fetch_and_write)
            (went 7 (fetching meta) n _ _ (rw (h, publish_step) refl)
              (went 6 (writing meta files) n _ _ refl (written _ _)))
      by_files (err e) h =
          rw (h, fetch_and_write)
            (went 7 (fetching meta) n _ _ (rw (h, publish_step) refl)
              (cleaned_up 4 (store_error e) n))

  -- ManageVolumeImmediate
  abbrev taken_on : Node s mnt → Reply Unit × Node s mnt
  taken_on n =
      let ((managed, r), (manager, store)) =
        manage_volume_immediate s get_certificates req.volume_id n.manager n.store in
      (r, record n { manager = manager; store = store })

  taken :
      (n : Node s mnt)
      → run_steps 10 (taking, n)
        ≡ finished (managed_then_mounted s mnt get_certificates req (taken_on n))
  unfolding publish_step manage_volume_immediate
  taken n = elim (Bool-cases (manage_volume_if_not_managed req.volume_id n.manager).0) [
    | inr h ↦
        rw (h, manage_volume_immediate)
          (went 9 taking n _ _ (rw (h, publish_step) refl) (ensured 3 _))
    | inl h ↦ by_metadata h (s.read_metadata req.volume_id n.store) refl
  ]
    where
      n' : Node s mnt
      n' = record n { manager = (manage_volume_if_not_managed req.volume_id n.manager).1 }

      by_metadata :
          (manage_volume_if_not_managed req.volume_id n.manager).0 ≡ true
          → (r : Reply Metadata) → s.read_metadata req.volume_id n.store ≡ r
          → run_steps 10 (taking, n)
            ≡ finished (managed_then_mounted s mnt get_certificates req (taken_on n))
      by_metadata h (ok meta) m =
          rw (h, manage_volume_immediate)
            (rw m (
              went 9 taking n _ _ (rw (h, publish_step) refl)
                (went 8 reading n' _ _ (rw (m, publish_step) refl) (fetched meta n'))))
      by_metadata h (err e) m =
          rw (h, manage_volume_immediate)
            (rw m (
              went 9 taking n _ _ (rw (h, publish_step) refl) (
                went 8 reading n' _ _ (rw (m, publish_step) refl)
                  (cleaned_up 5 (store_error e) n'))))

  managed :
      (n : Node s mnt)
      → run_steps 11 (asking, n)
        ≡ finished (
            managed_then_mounted s mnt get_certificates req
              (ensure_managed s mnt get_certificates req n))
  unfolding publish_step ensure_managed
  managed n = elim (Bool-cases (is_volume_ready s req.volume_id n.manager n.store)) [
    | inl h ↦
        rw (h, ensure_managed) (went 10 asking n _ _ (rw (h, publish_step) refl) (ensured 4 n))
    | inr h ↦ rw (h, ensure_managed) (went 10 asking n _ _ (rw (h, publish_step) refl) (taken n))
  ]

  registered :
      (r : Reply Bool) (store : s.State) (n : Node s mnt)
      → run_steps 11 (after_registration r, record n { store = store })
        ≡ finished (registered_then_managed s mnt get_certificates req (r, store) n)
  registered (ok b) store n = managed (record n { store = store })
  registered (err e) store n = cleaned_up 8 (store_error e) (record n { store = store })

  checked :
      (a b : Bool) (n : Node s mnt)
      → run_steps 12 (
          if a
          then (if b then (registering, n) else (Phase.unmanaging not_read_only, n))
          else (Phase.unmanaging not_ephemeral, n))
        ≡ finished (
            if a
            then (if b
                then registered_then_managed s mnt get_certificates req
                    (s.register_metadata (from_node_publish_volume_request req) n.store)
                    n
                else (failed not_read_only, n))
            else (failed not_ephemeral, n))
  unfolding publish_step
  checked false b n = cleaned_up 9 not_ephemeral n
  checked true false n = cleaned_up 9 not_read_only n
  checked true true n = went 11 registering n _ _ refl (registered _ _ n)

  -- NodePublishVolume that runs alone returns within thirteen steps, and its steps do what the method
  -- does.
  run_steps-node_publish_volume :
      (n : Node s mnt)
      → run_steps 13 (checking, n) ≡ answered (node_publish_volume s mnt get_certificates req n)
  unfolding publish_step node_publish_volume publish_body
  run_steps-node_publish_volume n =
      went 12 checking n _ _ refl (checked (is_ephemeral req) req.readonly n)
