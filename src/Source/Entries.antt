-- ===== src/Source/Entries.antt =====
-- Which files a configmap's source delivers.
use csi_driver_trusted_ca.Common.{
  ◌≡◌, refl, ◌∙◌, subst, Bool, true, false, [], ◌∷◌, Option, none, some, Bytes, Dict, lookup,
  insert, lookup-insert, Distinct, list_eq, nat_eq, ◌=?◌, =?_iff, if◌then◌else◌,
}
use csi_driver_trusted_ca.Storage.{Files}
use csi_driver_trusted_ca.Source.{copy_entries, configmap_files}

abbrev pub or_else : Option Bytes → Option Bytes → Option Bytes
or_else (some v) other = some v
or_else none other = other

copy_entries-lookup :
    (k : Bytes) (entries : Dict Bytes Bytes) (files : Files)
    → Distinct entries
    → lookup k (copy_entries entries files) ≡ or_else (lookup k entries) (lookup k files)
unfolding copy_entries lookup
copy_entries-lookup k [] files _ = refl
copy_entries-lookup k ((j, v) ∷ entries) files (new, ds) =
    copy_entries-lookup k entries (insert j v files) ds
    ∙ rw (lookup-insert j k v files) (by_test (j =? k) refl)
  where
    by_test :
        (b : Bool)
        → (j =? k) ≡ b
        → or_else (lookup k entries) (if b then some v else lookup k files)
          ≡ or_else (if b then some v else lookup k entries) (lookup k files)
    by_test true e =
        let absent : lookup k entries ≡ none =
          subst (λ x. lookup x entries ≡ none) ((=?_iff j k).0 e) new in
        rw absent refl
    by_test false e = refl

-- A configmap's file is the entry of its binary data where that has the name, else the entry of its
-- data, and there are no others, in whatever order the entries are read. No name stands twice in
-- either.
pub configmap_files-lookup :
    (k : Bytes) (data_ binary_data : Dict Bytes Bytes)
    → Distinct data_
    → Distinct binary_data
    → lookup k (configmap_files data_ binary_data) ≡ or_else (lookup k binary_data) (lookup k data_)
unfolding configmap_files lookup
configmap_files-lookup k data_ binary_data d b =
    copy_entries-lookup k binary_data (copy_entries data_ []) b
    ∙ rw (copy_entries-lookup k data_ [] d) (none_left (lookup k data_))
  where
    none_left :
        (o : Option Bytes)
        → or_else (lookup k binary_data) (or_else o none) ≡ or_else (lookup k binary_data) o
    none_left none = refl
    none_left (some v) = refl
