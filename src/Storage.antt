-- ===== src/Storage.antt =====
-- The storage interface of pkg/storage/interfaces.go, with pkg/metadata/metadata.go.
pub mod Memory
pub mod Register
pub mod Tests
use csi_driver_trusted_ca.Common.{Bool, List, Bytes, Dict, Option}

-- metadata.Metadata
pub record Metadata : Type 0 where
  pub volume_id : Bytes
  pub target_path : Bytes
  pub volume_context : Dict Bytes Bytes

-- The files of a volume, by name.
abbrev pub Files : Type 0
Files = Dict Bytes Bytes

-- The errors of the package; `other` is any other failure.
pub data StoreError : Type 0 where
  not_found invalid_json : StoreError
  other : Bytes → StoreError

pub data Reply (A : Type 0) : Type 0 where
  ok : A → Reply A
  err : StoreError → Reply A

-- storage.Interface over the backend's state
pub record Storage : Type 1 where
  pub State : Type 0
  pub path_for_volume : Bytes → Bytes
  pub remove_volume : Bytes → State → Reply Unit × State
  pub read_metadata : Bytes → State → Reply Metadata
  pub list_volumes : State → Reply (List Bytes)
  pub write_metadata : Bytes → Metadata → State → Reply Unit × State
  pub register_metadata : Metadata → State → Reply Bool × State
  pub write_files : Metadata → Files → State → Reply Unit × State
