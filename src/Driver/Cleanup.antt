-- ===== src/Driver/Cleanup.antt =====
-- A failed NodePublishVolume over MemoryFS.
use csi_driver_trusted_ca.Common.{
  ◌≡◌, refl, false, none, Bytes, lookup, lookup-erase, list_eq, nat_eq, =?_refl, arith,
}
use csi_driver_trusted_ca.Storage.{Metadata, Files, Reply, err, not_found}
use csi_driver_trusted_ca.Storage.Memory.{Codec, MemoryFs, memory, remove_volume, read_metadata}
use csi_driver_trusted_ca.Manager.{is_managed}
use csi_driver_trusted_ca.Driver.{
  DriverError, Mounter, PublishRequest, failed, Node, clean_up, publish_body, node_publish_volume,
}
use csi_driver_trusted_ca.Driver.Publish.{is_managed-unmanage_volume, publish_failed}

lookup-remove_volume : (k : Bytes) (m : MemoryFs) → lookup k (remove_volume k m).1 ≡ none
unfolding remove_volume
lookup-remove_volume k m = ground (arith, lookup-erase k k m, =?_refl k)

read_metadata-remove_volume :
    (c : Codec) (k : Bytes) (m : MemoryFs) → read_metadata c k (remove_volume k m).1 ≡ err not_found
unfolding read_metadata
read_metadata-remove_volume c k m = ground (arith, lookup-remove_volume k m)

module _ (c : Codec) (mnt : Mounter) (get_certificates : Metadata → Reply Files)
    (req : PublishRequest) where
  cleaned :
      (n : Node (memory c) mnt)
      → (is_managed req.volume_id (clean_up (memory c) mnt req n).manager ≡ false)
        × (lookup req.volume_id (clean_up (memory c) mnt req n).store ≡ none)
        × (read_metadata c req.volume_id (clean_up (memory c) mnt req n).store ≡ err not_found)
        × ((clean_up (memory c) mnt req n).mounts ≡ (mnt.unmount req.target_path n.mounts).1)
  unfolding clean_up
  cleaned n = (
    is_managed-unmanage_volume req.volume_id n.manager,
    lookup-remove_volume req.volume_id n.store,
    read_metadata-remove_volume c req.volume_id n.store,
    refl,
  )

  -- Over MemoryFS a NodePublishVolume that fails, at whichever of its steps, leaves the volume
  -- unmanaged, with no file and no metadata in the store, and its target as Unmount leaves it.
  pub publish_failed_memory :
      (n : Node (memory c) mnt) (e : DriverError)
      → (node_publish_volume (memory c) mnt get_certificates req n).0 ≡ failed e
      → (is_managed req.volume_id
            (node_publish_volume (memory c) mnt get_certificates req n).1.manager
          ≡ false)
        × (lookup req.volume_id (node_publish_volume (memory c) mnt get_certificates req n).1.store
            ≡ none)
        × (read_metadata c req.volume_id
              (node_publish_volume (memory c) mnt get_certificates req n).1.store
            ≡ err not_found)
        × ((node_publish_volume (memory c) mnt get_certificates req n).1.mounts
            ≡ (mnt.unmount req.target_path
                (publish_body (memory c) mnt get_certificates req n).1.mounts).1)
  publish_failed_memory n e h =
      rw (publish_failed (memory c) mnt get_certificates req n e h)
        (cleaned (publish_body (memory c) mnt get_certificates req n).1)
