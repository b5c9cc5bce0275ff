-- ===== src/Storage/Memory.antt =====
-- MemoryFS of pkg/storage/memory.go. Its lock makes each method one step. encoding/json and
-- apiequality.Semantic are parameters.
use csi_driver_trusted_ca.Common.{
  Bool, true, false, List, [], ◌∷◌, Option, none, some, Bytes, codes, Dict, lookup, insert, erase,
  keys, list_eq, nat_eq, if◌then◌else◌,
}
use csi_driver_trusted_ca.Storage.{
  Metadata, Files, Reply, ok, err, not_found, invalid_json, other, Storage,
}

-- json.Marshal and json.Unmarshal of Metadata, and Semantic.DeepEqual of two volume contexts
pub record Codec : Type 0 where
  pub marshal : Metadata → Bytes
  pub unmarshal : Bytes → Option Metadata
  pub deep_equal : Dict Bytes Bytes → Dict Bytes Bytes → Bool

-- MemoryFS.files: the files of each volume
abbrev pub MemoryFs : Type 0
MemoryFs = Dict Bytes Files

abbrev pub metadata_file : Bytes
metadata_file = codes "metadata.json"

unfoldable pub remove_volume : Bytes → MemoryFs → Reply Unit × MemoryFs
remove_volume volume_id m = (ok tt, erase volume_id m)

unfoldable pub list_volumes : MemoryFs → Reply (List Bytes)
list_volumes m = ok (keys m)

-- `for k, v := range files { vol[k] = v }`
unfoldable pub add_files : Files → Files → Files
add_files [] vol = vol
add_files ((k, v) ∷ files) vol = add_files files (insert k v vol)

unfoldable pub write_files : Metadata → Files → MemoryFs → Reply Unit × MemoryFs
write_files meta files m = elim (lookup meta.volume_id m) [
  | none ↦ (err not_found, m)
  | some vol ↦ (ok tt, insert meta.volume_id (add_files files vol) m)
]

unfoldable pub read_files : Bytes → MemoryFs → Reply Files
read_files volume_id m = elim (lookup volume_id m) [ none ↦ err not_found | some vol ↦ ok vol ]

module _ (c : Codec) where
  abbrev pub decode : Option Bytes → Reply Metadata
  decode none = err not_found
  decode (some json) = elim (c.unmarshal json) [ none ↦ err invalid_json | some meta ↦ ok meta ]

  unfoldable pub read_metadata : Bytes → MemoryFs → Reply Metadata
  read_metadata volume_id m = elim (lookup volume_id m) [
    | none ↦ err not_found
    | some vol ↦ decode (lookup metadata_file vol)
  ]

  unfoldable pub write_metadata : Bytes → Metadata → MemoryFs → Reply Unit × MemoryFs
  write_metadata volume_id meta m = elim (lookup volume_id m) [
    | none ↦ (err not_found, m)
    | some vol ↦ (ok tt, insert volume_id (insert metadata_file (c.marshal meta) vol) m)
  ]

  -- the end of RegisterMetadata, on the volume's files
  abbrev store_metadata : Metadata → Files → MemoryFs → Reply Bool × MemoryFs
  store_metadata meta vol m =
      (ok true, insert meta.volume_id (insert metadata_file (c.marshal meta) vol) m)

  -- RegisterMetadata on the volume's files, which are in the map by now
  unfoldable pub register_in : Metadata → Files → MemoryFs → Reply Bool × MemoryFs
  register_in meta vol m = elim (lookup metadata_file vol) [
    | none ↦ store_metadata meta vol m
    | some json ↦ elim (c.unmarshal json) [
      | none ↦ (err (other (codes "json")), m)
      | some existing ↦
          if c.deep_equal existing.volume_context meta.volume_context
          then (ok false, m)
          else store_metadata meta vol m
    ]
  ]

  unfoldable pub register_metadata : Metadata → MemoryFs → Reply Bool × MemoryFs
  register_metadata meta m = elim (lookup meta.volume_id m) [
    | none ↦ register_in meta [] (insert meta.volume_id [] m)
    | some vol ↦ register_in meta vol m
  ]

  abbrev pub memory : Storage
  memory = record {
    State = MemoryFs;
    path_for_volume = λ volume_id. volume_id;
    remove_volume = remove_volume;
    read_metadata = read_metadata;
    list_volumes = list_volumes;
    write_metadata = write_metadata;
    register_metadata = register_metadata;
    write_files = write_files;
  }
