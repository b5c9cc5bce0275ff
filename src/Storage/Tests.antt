-- ===== src/Storage/Tests.antt =====
-- A registration with MemoryFS.
use csi_driver_trusted_ca.Common.{
  ◌≡◌, refl, true, false, [], ◌∷◌, some, codes, lookup, insert, list_beq, list_eq, nat_eq,
}
use csi_driver_trusted_ca.Storage.{Metadata, ok}
use csi_driver_trusted_ca.Storage.Memory.{
  Codec, MemoryFs, metadata_file, read_metadata, register_metadata, register_in,
}
use csi_driver_trusted_ca.Storage.Register.{register_metadata-read}

-- reads back volumes that are not mounted anywhere
abbrev names_only : Codec
names_only = record {
  marshal = λ meta. meta.volume_id;
  unmarshal = λ json. some (record { volume_id = json; target_path = []; volume_context = [] });
  deep_equal = λ a b. false;
}

abbrev unmounted : Metadata
unmounted = record { volume_id = codes "v1"; target_path = []; volume_context = [] }

abbrev registered_before : MemoryFs
registered_before = (codes "v1", (metadata_file, codes "v0") ∷ []) ∷ []

written : (register_metadata names_only unmounted registered_before).0 ≡ ok true
unfolding register_metadata register_in lookup insert list_beq
written = refl

register_metadata-read_example :
    read_metadata names_only
      (codes "v1")
      (register_metadata names_only unmounted registered_before).1
    ≡ ok unmounted
register_metadata-read_example =
    register_metadata-read names_only unmounted refl registered_before written
