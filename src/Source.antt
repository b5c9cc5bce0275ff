-- ===== src/Source.antt =====
-- The sources of certificates: pkg/source/source.go and the sources beside it. The Kubernetes client,
-- the parser of image references and the content of the archive that a registry sends are parameters.
pub mod Names
pub mod Entries
pub mod Oci
pub mod Tests
use csi_driver_trusted_ca.Common.{
  ℕ, ◌≡◌, Bool, true, false, not, ◌&&◌, ◌||◌, List, [], ◌∷◌, Option, none, some, Bytes, codes, Dict,
  insert, contains, leb, ◌==◌, ◌=?◌, list_eq, nat_eq, if◌then◌else◌,
}
use csi_driver_trusted_ca.Path.{slash, split}
use csi_driver_trusted_ca.Storage.{Files}

-- [A-Za-z0-9]
unfoldable pub is_alphanumeric : ℕ → Bool
is_alphanumeric c =
    (leb b'A' c && leb c b'Z') || (leb b'a' c && leb c b'z') || (leb b'0' c && leb c b'9')

abbrev pub add_front : ℕ → Bytes × Bytes → Bytes × Bytes
add_front c (name, rest) = (c ∷ name, rest)

-- the longest part that ([A-Za-z0-9]+) matches, and what follows
unfoldable pub span : Bytes → Bytes × Bytes
span [] = ([], [])
span (c ∷ s) = let later = add_front c (span s) in if is_alphanumeric c then later else ([], c ∷ s)

-- the rest of sourceRegexp, `::(.+)$`, where `.` is no line feed
abbrev pub matched : Bytes → Bytes → Bytes × Bytes
matched [] rest = ([], [])
matched (c ∷ name) (a ∷ b ∷ cfg) =
    if (a == b':') && ((b == b':') && (not (cfg =? []) && not (contains cfg 10)))
    then (c ∷ name, cfg)
    else ([], [])
matched (c ∷ name) _ = ([], [])

unfoldable pub get_source : Bytes → Bytes × Bytes
get_source src = let (name, rest) = span src in matched name rest

-- The values that implement Source.
pub data Source : Type 0 where
  test_source : Source
  configmap_source secret_source : Bytes → Bytes → Source
  oci_source : Bytes → Source

pub data SourceError : Type 0 where
  invalid_config invalid_reference unsupported no_client : SourceError

pub data NewSource : Type 0 where
  created : Source → NewSource
  failed : SourceError → NewSource

-- newConfigmapSource and newSecretSource on the parts of the configuration
abbrev pub two_parts : (Bytes → Bytes → Source) → List Bytes → NewSource
two_parts make (namespace ∷ name ∷ []) = created (make namespace name)
two_parts make _ = failed invalid_config

unfoldable pub new_configmap_source : Bytes → NewSource
new_configmap_source cfg = two_parts configmap_source (split cfg slash)

unfoldable pub new_secret_source : Bytes → NewSource
new_secret_source cfg = two_parts secret_source (split cfg slash)

-- both `for k, v := range` loops of the configmap's GetFiles
unfoldable pub copy_entries : Dict Bytes Bytes → Files → Files
copy_entries [] files = files
copy_entries ((k, v) ∷ entries) files = copy_entries entries (insert k v files)

unfoldable pub configmap_files : Dict Bytes Bytes → Dict Bytes Bytes → Files
configmap_files data_ binary_data = copy_entries binary_data (copy_entries data_ [])

unfoldable pub secret_files : Dict Bytes Bytes → Files
secret_files data_ = copy_entries data_ []

-- what reading the next part of the archive gives
pub data TarItem : Type 0 where
  directory : TarItem
  entry : Bytes → Bytes → TarItem
  broken : TarItem

-- the loop of the registry source's GetFiles; none is its error
unfoldable pub read_archive : List TarItem → Files → Option Files
read_archive [] files = some files
read_archive (directory ∷ items) files = read_archive items files
read_archive (entry name content ∷ items) files = read_archive items (insert name content files)
read_archive (broken ∷ items) files = none

-- the client that sources of the cluster are given
abbrev pub with_client : Bool → NewSource → NewSource
with_client true r = r
with_client false (created s) = failed no_client
with_client false (failed e) = failed e

module _ (parse_normalized_named : Bytes → Option Bytes) (client_made : Bool) where
  unfoldable pub new_oci_source : Bytes → NewSource
  new_oci_source cfg = elim (parse_normalized_named cfg) [
    | none ↦ failed invalid_reference
    | some ref ↦ created (oci_source ref)
  ]

  -- the getter of each name, and what New does for its source
  abbrev pub new_getter : Bytes → Bytes → NewSource
  new_getter name cfg =
      if name =? codes "test"
      then created test_source
      else if name =? codes "configmap"
      then with_client client_made (new_configmap_source cfg)
      else if name =? codes "secret"
      then with_client client_made (new_secret_source cfg)
      else if name =? codes "oci"
      then new_oci_source cfg
      else failed unsupported

  -- New
  unfoldable pub new : Bytes → NewSource
  new src = let (name, cfg) = get_source src in new_getter name cfg
