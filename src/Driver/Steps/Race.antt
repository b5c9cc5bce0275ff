-- ===== src/Driver/Steps/Race.antt =====
-- Two calls of NodePublishVolume for one volume at the same time.
use csi_driver_trusted_ca.Common.{
  ◌≡◌, refl, subst, Bool, true, false, List, [], ◌∷◌, none, Bytes, codes, lookup-insert, =?_refl,
  list_eq, nat_eq, arith,
}
use csi_driver_trusted_ca.Storage.{Metadata, Files, StoreError, Reply, ok, err, Storage}
use csi_driver_trusted_ca.Manager.{Manager, is_managed, unmanage_volume, is_volume_ready}
use csi_driver_trusted_ca.Manager.Channels.{taken_on, manage_new, unmanaged_lookup}
use csi_driver_trusted_ca.Driver.{
  is_mount, Mounter, PublishRequest, done, failed, store_error, Node, is_ephemeral,
  from_node_publish_volume_request,
}
use csi_driver_trusted_ca.Driver.Steps.{
  Phase, checking, registering, asking, taking, reading, fetching, ready, mounting, Task,
  publishing, publish_step, step, is_finished, Turn, Reach,
}

taken_on-managed : (id : Bytes) (m : Manager) → is_managed id (taken_on id m) ≡ true
unfolding is_managed taken_on
taken_on-managed id m =
    ground (arith, lookup-insert id id m.next_channel m.managed_volumes, =?_refl id)

module _ (s : Storage) (mnt : Mounter) (get_certificates : Metadata → Reply Files)
    (req : PublishRequest) where
  -- the next step of the first call, and of the second
  stepped :
      (n0 n n' : Node s mnt) (ts : List Task) (p p' : Phase)
      → is_finished s mnt get_certificates (publishing req p) ≡ false
      → publish_step s mnt get_certificates req p n ≡ (p', n')
      → Reach s mnt get_certificates n0 (publishing req p ∷ ts) n
      → Reach s mnt get_certificates n0 (publishing req p' ∷ ts) n'
  unfolding step
  stepped n0 n n' ts p p' running h r =
      subst (λ x. Reach s mnt get_certificates n0 (publishing req (x.0) ∷ ts) (x.1)) h
        (Reach.turn r (Turn.here running))

  stepped_second :
      (n0 n n' : Node s mnt) (t : Task) (p p' : Phase)
      → is_finished s mnt get_certificates (publishing req p) ≡ false
      → publish_step s mnt get_certificates req p n ≡ (p', n')
      → Reach s mnt get_certificates n0 (t ∷ publishing req p ∷ []) n
      → Reach s mnt get_certificates n0 (t ∷ publishing req p' ∷ []) n'
  unfolding step
  stepped_second n0 n n' t p p' running h r =
      subst (λ x. Reach s mnt get_certificates n0 (t ∷ publishing req (x.0) ∷ []) (x.1)) h
        (Reach.turn r (Turn.there (Turn.here running)))

  -- a request, and what the storage and the mounts answer to it
  module _ (n : Node s mnt) (store1 store2 : s.State) (first second : Bool) (meta : Metadata)
      (mounts : mnt.State) (ephemeral : is_ephemeral req ≡ true) (readonly : req.readonly ≡ true)
      (free : is_managed req.volume_id n.manager ≡ false)
      (registered1 : s.register_metadata (from_node_publish_volume_request req) n.store
        ≡ (ok first, store1))
      (registered2 : s.register_metadata (from_node_publish_volume_request req) store1
        ≡ (ok second, store2))
      (read : s.read_metadata req.volume_id store2 ≡ ok meta)
      (unmounted : mnt.is_mount_point req.target_path n.mounts ≡ is_mount false)
      (mounted : mnt.mount
          (s.path_for_volume req.volume_id)
          req.target_path
          (codes "bind" ∷ codes "ro" ∷ [])
          n.mounts
        ≡ (none, mounts)) where
    abbrev managing : Manager
    managing = taken_on req.volume_id n.manager

    checked :
        (n' : Node s mnt) → publish_step s mnt get_certificates req checking n' ≡ (registering, n')
    unfolding publish_step
    checked n' = rw (ephemeral, publish_step) (rw readonly refl)

    -- the first call has taken the volume on
    first_managing :
        Reach s mnt get_certificates n
          (publishing req reading ∷ [])
          (record { manager = managing; store = store1; mounts = n.mounts })
    unfolding publish_step is_volume_ready
    first_managing =
        let n1 : Node s mnt = record n { store = store1 } in
        let r1 =
          stepped n n n [] checking registering refl (checked n) (Reach.publish req Reach.start) in
        let r2 =
          stepped n n n1 [] registering asking refl (rw (registered1, publish_step) refl) r1 in
        let r3 =
          stepped n n1 n1 [] asking taking refl (rw (free, publish_step, is_volume_ready) refl)
            r2 in
        stepped n n1 _ [] taking reading refl
          (rw
            (
              manage_new req.volume_id n.manager (unmanaged_lookup req.volume_id n.manager free),
              publish_step,
            )
            refl)
          r3

    -- the second call asks while the first one has not read the metadata
    second_ready :
        Reach s mnt get_certificates n
          (publishing req ready ∷ publishing req reading ∷ [])
          (record { manager = managing; store = store2; mounts = n.mounts })
    unfolding publish_step is_volume_ready
    second_ready =
        let n1 : Node s mnt = record { manager = managing; store = store1; mounts = n.mounts } in
        let n2 : Node s mnt = record n1 { store = store2 } in
        let ts = publishing req reading ∷ [] in
        let r1 =
          stepped n n1 n1 ts checking registering refl (checked n1)
            (Reach.publish req first_managing) in
        let r2 =
          stepped n n1 n2 ts registering asking refl (rw (registered2, publish_step) refl) r1 in
        stepped n n2 n2 ts asking ready refl
          (rw (taken_on-managed req.volume_id n.manager, publish_step, is_volume_ready)
            (rw read refl))
          r2

    second_done :
        Reach s mnt get_certificates n
          (publishing req (Phase.returned done) ∷ publishing req reading ∷ [])
          (record { manager = managing; store = store2; mounts = mounts })
    unfolding publish_step
    second_done =
        let n2 : Node s mnt = record { manager = managing; store = store2; mounts = n.mounts } in
        let ts = publishing req reading ∷ [] in
        let r1 =
          stepped n n2 n2 ts ready mounting refl (rw (unmounted, publish_step) refl) second_ready in
        stepped n n2 _ ts mounting (Phase.returned done) refl (rw (mounted, publish_step) refl) r1

    first_failed :
        (e : StoreError)
        → get_certificates meta ≡ err e
        → Reach s mnt get_certificates n
            (publishing req (Phase.returned done)
              ∷ publishing req (Phase.returned (failed (store_error e)))
              ∷ [])
            (record {
              manager = unmanage_volume req.volume_id managing;
              store = (s.remove_volume req.volume_id store2).1;
              mounts = (mnt.unmount req.target_path mounts).1;
            })
    unfolding publish_step
    first_failed e refused =
        let n3 : Node s mnt = record { manager = managing; store = store2; mounts = mounts } in
        let n4 : Node s mnt = record n3 { manager = unmanage_volume req.volume_id managing } in
        let n5 : Node s mnt = record n4 { mounts = (mnt.unmount req.target_path mounts).1 } in
        let t = publishing req (Phase.returned done) in
        let r1 =
          stepped_second n n3 n3 t reading (fetching meta) refl (rw (read, publish_step) refl)
            second_done in
        let r2 =
          stepped_second n n3 n3 t (fetching meta) (Phase.unmanaging (store_error e)) refl
            (rw (refused, publish_step) refl) r1 in
        let r3 = stepped_second n n3 n4 t _ (Phase.unmounting (store_error e)) refl refl r2 in
        let r4 = stepped_second n n4 n5 t _ (Phase.removing (store_error e)) refl refl r3 in
        stepped_second n n5 _ t _ (Phase.returned (failed (store_error e))) refl refl r4

    -- While a call of NodePublishVolume has taken a new volume on and fetched nothing yet, a second call
    -- for the volume mounts it and reports success; and if the first call then cannot fetch the
    -- certificates, its cleanup unmounts and removes the volume of which success was reported. The
    -- request is valid, the storage registers it twice and reads its metadata, and its target is not a
    -- mount point and can be mounted.
    pub publish-raced :
        (e : StoreError)
        → get_certificates meta ≡ err e
        → Reach s mnt get_certificates n
            (publishing req (Phase.returned done) ∷ publishing req reading ∷ [])
            (record { manager = managing; store = store2; mounts = mounts })
          × Reach s mnt get_certificates n
              (publishing req (Phase.returned done)
                ∷ publishing req (Phase.returned (failed (store_error e)))
                ∷ [])
              (record {
                manager = unmanage_volume req.volume_id managing;
                store = (s.remove_volume req.volume_id store2).1;
                mounts = (mnt.unmount req.target_path mounts).1;
              })
    publish-raced e refused = (second_done, first_failed e refused)
