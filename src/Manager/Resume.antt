-- ===== src/Manager/Resume.antt =====
-- Which volumes a new manager takes on.
use csi_driver_trusted_ca.Common.{
  lookup, ◌≡◌, ◌≢◌, ◌↔◌, refl, sym, ◌∙◌, ap, true, ◌||◌, List, [], ◌∷◌, Bytes, All, contains,
  list_eq, nat_eq, if◌then◌else◌, ◌=?◌, ne→=?, arith,
}
use csi_driver_trusted_ca.Storage.{Metadata, Reply, ok, err, Storage}
use csi_driver_trusted_ca.Manager.{
  Manager, empty, is_managed, manage_volume, Options, NewManager, started, failed, ManagerError,
  resume, new_manager,
}
use csi_driver_trusted_ca.Manager.Channels.{IsValid, empty-IsValid, manage_volume-IsValid}
use csi_driver_trusted_ca.Manager.Runs.{manage, call, is_managed-call}

-- what the options must have
pub record IsComplete (opts : Options) : Type 0 where
  pub log : opts.has_log ≡ true
  pub metadata_reader : opts.has_metadata_reader ≡ true
  pub get_certificates : opts.has_get_certificates ≡ true
  pub write_certificates : opts.has_write_certificates ≡ true
  pub node_id : opts.node_id ≢ []

module _ (s : Storage) (store : s.State) where
  -- the metadata of the volume can be read
  abbrev pub IsReadable : Bytes → Type 0
  IsReadable vol = (meta : Metadata) × (s.read_metadata vol store ≡ ok meta)

  -- the manager after the loop
  abbrev manage_all : List Bytes → Manager → Manager
  manage_all [] m = m
  manage_all (vol ∷ vols) m = manage_all vols (manage_volume vol m).1

  resume-started :
      (vols : List Bytes) (m0 m : Manager)
      → resume s vols store m0 ≡ started m
      → All IsReadable vols × (m ≡ manage_all vols m0)
  unfolding resume
  resume-started [] m0 m h = (tt, cc)
  resume-started (vol ∷ vols) m0 m h =
      by_read (s.read_metadata vol store) (resume-started vols (manage_volume vol m0).1 m) refl h
    where
      by_read :
          (r : Reply Metadata)
          → (resume s vols store (manage_volume vol m0).1 ≡ started m
              → All IsReadable vols × (m ≡ manage_all vols (manage_volume vol m0).1))
          → s.read_metadata vol store ≡ r
          → ◌≡◌ {A = NewManager}
              (elim r [
                | err e ↦ failed (ManagerError.reading e)
                | ok meta ↦ resume s vols store (manage_volume vol m0).1
              ])
              (started m)
          → All IsReadable (vol ∷ vols) × (m ≡ manage_all (vol ∷ vols) m0)
      by_read (err e) again q g = absurd (cc)
      by_read (ok meta) again q g = let (all, same) = again g in (((meta, q), all), same)

  readable-resume :
      (vols : List Bytes) (m0 : Manager)
      → All IsReadable vols
      → resume s vols store m0 ≡ started (manage_all vols m0)
  unfolding resume
  readable-resume [] m0 _ = refl
  readable-resume (vol ∷ vols) m0 ((meta, q), all) =
      rw (q, resume) (readable-resume vols (manage_volume vol m0).1 all)

  is_managed-manage_volume :
      (vol : Bytes) (m : Manager) (k : Bytes)
      → IsValid m
      → is_managed k (manage_volume vol m).1 ≡ (if vol =? k then true else is_managed k m)
  unfolding call
  is_managed-manage_volume vol m k v = is_managed-call (manage vol) m v k

  is_managed-manage_all :
      (vols : List Bytes) (m : Manager) (k : Bytes)
      → IsValid m
      → is_managed k (manage_all vols m) ≡ (is_managed k m || contains vols k)
  unfolding contains
  is_managed-manage_all [] m k v = ground arith
  is_managed-manage_all (vol ∷ vols) m k v =
      is_managed-manage_all vols (manage_volume vol m).1 k (manage_volume-IsValid vol m v)
      ∙ ground (arith, is_managed-manage_volume vol m k v)

  new_manager-resume :
      (opts : Options) (vols : List Bytes)
      → IsComplete opts
      → s.list_volumes store ≡ ok vols
      → new_manager s opts store ≡ resume s vols store empty
  unfolding new_manager
  new_manager-resume opts vols c l =
      rw
        (
          c.log,
          c.metadata_reader,
          c.get_certificates,
          c.write_certificates,
          ne→=? opts.node_id [] c.node_id,
          l,
        )
        refl

  -- With its options set, NewManager starts exactly if the metadata of every volume that is listed
  -- can be read: one volume without it keeps the driver from starting.
  pub new_manager_iff :
      (opts : Options) (vols : List Bytes)
      → IsComplete opts
      → s.list_volumes store ≡ ok vols
      → ((m : Manager) × (new_manager s opts store ≡ started m)) ↔ All IsReadable vols
  new_manager_iff opts vols c l = (
    (λ (m, h). (resume-started vols empty m (sym (new_manager-resume opts vols c l) ∙ h)).0),
    (λ all.
        (manage_all vols empty, new_manager-resume opts vols c l ∙ readable-resume vols empty all)),
  )

  -- A manager that NewManager starts manages exactly the volumes that are listed.
  pub new_manager-is_managed :
      (opts : Options) (vols : List Bytes) (m : Manager) (k : Bytes)
      → IsComplete opts
      → s.list_volumes store ≡ ok vols
      → new_manager s opts store ≡ started m
      → is_managed k m ≡ contains vols k
  unfolding contains is_managed lookup
  new_manager-is_managed opts vols m k c l h =
      ap (is_managed k) (resume-started vols empty m (sym (new_manager-resume opts vols c l) ∙ h)).1
      ∙ is_managed-manage_all vols empty k empty-IsValid
