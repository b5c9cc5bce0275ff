-- ===== src/Manager.antt =====
-- Manager of pkg/manager/manager.go. Its lock makes each method on the map of volumes one step.
-- Logging is left out, and so is nodeNameHash, which no method reads.
pub mod Channels
pub mod Runs
pub mod Resume
pub mod Tests
use csi_driver_trusted_ca.Common.{
  ℕ, suc, ◌+◌, ◌≡◌, Bool, true, false, List, [], ◌∷◌, Option, none, some, Bytes, Dict, lookup,
  insert, erase, contains, list_eq, nat_eq, if◌then◌else◌, ◌=?◌,
}
use csi_driver_trusted_ca.Storage.{Metadata, Files, StoreError, Reply, ok, err, other, Storage}

-- The channels are numbered in the order in which they are made. `panicked` is set where a channel is
-- closed twice, which ends a Go program.
pub record Manager : Type 0 where
  pub managed_volumes : Dict Bytes ℕ
  pub next_channel : ℕ
  pub closed : List ℕ
  pub panicked : Bool

abbrev pub empty : Manager
empty = record { managed_volumes = []; next_channel = 0; closed = []; panicked = false }

unfoldable pub is_managed : Bytes → Manager → Bool
is_managed volume_id m = elim (lookup volume_id m.managed_volumes) [ none ↦ false | some ch ↦ true ]

-- close(stopCh)
unfoldable pub close_channel : ℕ → Manager → Manager
close_channel ch m =
    if contains m.closed ch
    then record m { panicked = true }
    else record m { closed = ch ∷ m.closed }

unfoldable pub manage_volume_if_not_managed : Bytes → Manager → Bool × Manager
manage_volume_if_not_managed volume_id m = if is_managed volume_id m then (false, m) else (
  true,
  record m {
    managed_volumes = insert volume_id m.next_channel m.managed_volumes;
    next_channel = m.next_channel + 1;
  },
)

unfoldable pub manage_volume : Bytes → Manager → Bool × Manager
manage_volume volume_id m =
    let (managed, m') = manage_volume_if_not_managed volume_id m in
    if managed then (true, m') else (false, m')

unfoldable pub unmanage_volume : Bytes → Manager → Manager
unfolding close_channel
unmanage_volume volume_id m = elim (lookup volume_id m.managed_volumes) [
  | none ↦ m
  | some ch ↦ record (close_channel ch m) { managed_volumes = erase volume_id m.managed_volumes }
]

-- The loop of Stop over the map's entries.
unfoldable pub stop_each : Dict Bytes ℕ → Manager → Manager
unfolding close_channel
stop_each [] m = m
stop_each ((k, ch) ∷ entries) m =
    stop_each entries (record (close_channel ch m) { managed_volumes = erase k m.managed_volumes })

unfoldable pub stop : Manager → Manager
unfolding stop_each
stop m = stop_each m.managed_volumes m

-- The options of NewManager: which of the pointers and functions are set, and the node's name.
pub record Options : Type 0 where
  pub has_log : Bool
  pub has_metadata_reader : Bool
  pub has_get_certificates : Bool
  pub has_write_certificates : Bool
  pub node_id : Bytes

pub data ManagerError : Type 0 where
  no_log no_metadata_reader no_get_certificates no_write_certificates no_node_id : ManagerError
  listing : StoreError → ManagerError
  reading : StoreError → ManagerError

pub data NewManager : Type 0 where
  started : Manager → NewManager
  failed : ManagerError → NewManager

module _ (s : Storage) where
  -- the loop of NewManager over the volumes that are stored
  unfoldable pub resume : List Bytes → s.State → Manager → NewManager
  resume [] store m = started m
  resume (vol ∷ vols) store m =
      let rest = resume vols store (manage_volume vol m).1 in
      elim (s.read_metadata vol store) [ err e ↦ failed (reading e) | ok meta ↦ rest ]

  unfoldable pub new_manager : Options → s.State → NewManager
  new_manager opts store =
      if opts.has_log
      then (if opts.has_metadata_reader
          then (if opts.has_get_certificates
              then (if opts.has_write_certificates
                  then (if opts.node_id =? []
                      then failed no_node_id
                      else elim (s.list_volumes store) [
                        | err e ↦ failed (listing e)
                        | ok vols ↦ resume vols store empty
                      ])
                  else failed no_write_certificates)
              else failed no_get_certificates)
          else failed no_metadata_reader)
      else failed no_log

  -- The certificates come from the source that the driver is configured with, and are written to the
  -- store.
  unfoldable pub fetch_and_write :
      (Metadata → Reply Files) → Metadata → s.State → Reply Unit × s.State
  fetch_and_write get_certificates meta store = elim (get_certificates meta) [
    | err e ↦ (err e, store)
    | ok files ↦ s.write_files meta files store
  ]

  -- ManageVolumeImmediate: whether the volume was taken on, and the error
  unfoldable pub manage_volume_immediate :
      (Metadata → Reply Files)
      → Bytes
      → Manager
      → s.State
      → (Bool × Reply Unit) × (Manager × s.State)
  manage_volume_immediate get_certificates volume_id m store =
      let (managed, m') = manage_volume_if_not_managed volume_id m in
      if managed
      then elim (s.read_metadata volume_id store) [
        | err e ↦ ((true, err e), (m', store))
        | ok meta ↦
            let (r, store') = fetch_and_write get_certificates meta store in
            ((true, r), (m', store'))
      ]
      else ((false, ok tt), (m', store))

  unfoldable pub is_volume_ready : Bytes → Manager → s.State → Bool
  is_volume_ready volume_id m store =
      if is_managed volume_id m
      then elim (s.read_metadata volume_id store) [ err e ↦ false | ok meta ↦ true ]
      else false
