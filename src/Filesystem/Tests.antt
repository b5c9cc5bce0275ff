-- ===== src/Filesystem/Tests.antt =====
-- Groups that are read.
use csi_driver_trusted_ca.Common.{
  ◌≡◌, ◌↔◌, ◌≤◌, refl, [], ◌∷◌, none, some, codes, lookup, list_beq, list_eq, nat_eq, All, arith,
}
use csi_driver_trusted_ca.Storage.{Metadata}
use csi_driver_trusted_ca.Filesystem.{
  pos, FilesystemOptions, group, fs_group_for_metadata, parse_int, parse_digits,
}
use csi_driver_trusted_ca.Filesystem.Group.{
  decimal, IsDigit, InRange, fs_group_for_metadata-decimal, fs_group_for_metadata-range,
}

abbrev by_attribute : FilesystemOptions
by_attribute = record { fixed_fs_group = none; fs_group_volume_attribute_key = codes "fs-group" }

abbrev volume : Metadata
volume = record {
  volume_id = codes "v1";
  target_path = codes "/pods/1";
  volume_context = (codes "fs-group", codes "1000") ∷ [];
}

attribute_text : lookup (codes "fs-group") volume.volume_context ≡ some (codes "1000")
unfolding lookup list_beq
attribute_text = refl

All-digits : All IsDigit (codes "1000")
All-digits = (
  record { low = omega arith; high = omega arith },
  (
    record { low = omega arith; high = omega arith },
    (
      record { low = omega arith; high = omega arith },
      (record { low = omega arith; high = omega arith }, tt),
    ),
  ),
)

fs_group_for_metadata-decimal_example :
    (fs_group_for_metadata by_attribute volume ≡ group (some (pos 1000)))
    ↔ ((1000 ≡ decimal (codes "1000")) × (1 ≤ 1000) × (1000 ≤ 4294967295))
fs_group_for_metadata-decimal_example =
    fs_group_for_metadata-decimal by_attribute volume b'1' (codes "000") 1000 refl (cc)
      attribute_text All-digits

reads_group : fs_group_for_metadata by_attribute volume ≡ group (some (pos 1000))
unfolding fs_group_for_metadata parse_int parse_digits lookup list_beq
reads_group = refl

fs_group_for_metadata-range_example : InRange (pos 1000)
fs_group_for_metadata-range_example =
    fs_group_for_metadata-range by_attribute volume (pos 1000) refl reads_group
