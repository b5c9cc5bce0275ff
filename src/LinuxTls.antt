-- ===== src/LinuxTls.antt =====
-- The functions of pkg/linuxtls that Write runs on the new directory. Logging is left out. `openssl`
-- is a parameter. The working directory is the root, so that a relative path names the same directory
-- for fs.WalkDir, which walks an os.DirFS of the root.
pub mod Local
pub mod Rehash
pub mod Leaves
pub mod Bundle
pub mod Create
pub mod Tests
use csi_driver_trusted_ca.Common.{
  ℕ, ◌≡◌, Bool, true, false, not, ◌&&◌, ◌||◌, List, [], ◌∷◌, ◌++◌, Option, none, some, Bytes, codes,
  ltb, ◌==◌, ◌=?◌, contains, keys, list_eq, nat_eq, if◌then◌else◌,
}
use csi_driver_trusted_ca.Validate.{FilePath}
use csi_driver_trusted_ca.Sys.{
  Error, Result, ok, err, not_exist, not_dir, invalid, Node, file, dir, link, Nodes, Sys, syscall,
  pure, raise, ◌>>=◌, ◌>>◌, attempt,
}
use csi_driver_trusted_ca.Os.{
  at, follow, under, write_node, open_node, lstat_node, read_file, is_dir_at,
}
use csi_driver_trusted_ca.Writer.{DirFunc, strip}
use csi_driver_trusted_ca.Storage.{Metadata}

-- What os.ReadDir says of an entry: its name, and whether it is a directory.
abbrev pub DirEntry : Type 0
DirEntry = Bytes × Bool

-- the order of file names
unfoldable pub bytes_ltb : Bytes → Bytes → Bool
bytes_ltb [] [] = false
bytes_ltb [] (d ∷ t) = true
bytes_ltb (c ∷ s) [] = false
bytes_ltb (c ∷ s) (d ∷ t) = ltb c d || ((c == d) && bytes_ltb s t)

unfoldable pub insert_entry : DirEntry → List DirEntry → List DirEntry
insert_entry x [] = x ∷ []
insert_entry (a, x) ((b, y) ∷ es) =
    let rest = insert_entry (a, x) es in
    if bytes_ltb b a then (b, y) ∷ rest else (a, x) ∷ (b, y) ∷ es

abbrev pub is_dir_node : Node → Bool
is_dir_node (dir m) = true
is_dir_node _ = false

-- an entry of the directory itself
abbrev pub add_child : FilePath → Node → List DirEntry → List DirEntry
add_child (name ∷ []) x es = insert_entry (name, is_dir_node x) es
add_child _ x es = es

-- the directory's entries in the order of their names
unfoldable pub entries_in : FilePath → Nodes → List DirEntry
entries_in p [] = []
entries_in p ((q, x) ∷ n) =
    let rest = entries_in p n in if under p q then add_child (strip p q) x rest else rest

-- os.ReadDir
unfoldable pub read_dir_node : FilePath → Nodes → Result (List DirEntry × Nodes)
read_dir_node p n = if is_dir_at p n then ok (entries_in p n, n) else err not_exist

-- a write to a file that is open, at its end
unfoldable pub append_node : FilePath → Bytes → Nodes → Result (Unit × Nodes)
append_node p extra n = elim (at (follow p n) n) [
  | some (file c m u) ↦ ok (tt, write_node (follow p n) (file (c ++ extra) m u) n)
  | _ ↦ err invalid
]

abbrev pub bundle_name : Bytes
bundle_name = codes "ca-certificates.crt"

abbrev pub append : Bytes → Bytes → Sys Unit
append ts extra = syscall (append_node (ts ∷ bundle_name ∷ []) extra)

-- io.Copy, whose error is dropped; a file that was not opened gives nothing
abbrev pub copy_opened : Bytes → Result Bytes → Sys Unit
copy_opened ts (err e) = pure tt
copy_opened ts (ok content) = attempt (append ts content) >> pure tt

-- The function that WalkDir calls, on an entry. The errors are in a variable that no test looks at.
unfoldable pub add_entry : Bytes → DirEntry → Sys Unit
add_entry ts (name, is_dir) = if is_dir || (name =? bundle_name) then pure tt else do
  opened ← attempt (read_file (ts ∷ name ∷ []))
  copy_opened ts opened
  attempt (append ts (10 ∷ 10 ∷ []))
  pure tt

unfoldable pub add_entries : Bytes → List DirEntry → Sys Unit
add_entries ts [] = pure tt
add_entries ts (e ∷ es) = add_entry ts e >> add_entries ts es

-- CreateCABundle in a directory whose path fs.WalkDir takes
unfoldable pub create_ca_bundle : DirFunc
create_ca_bundle ts = do
  syscall (open_node (ts ∷ bundle_name ∷ []) 0o666)
  syscall (lstat_node (ts ∷ []))
  entries ← syscall (read_dir_node (ts ∷ []))
  add_entries ts entries
  pure (bundle_name ∷ [])

-- In one whose path fs.WalkDir refuses, the bundle is made and the walk fails.
unfoldable pub create_bundle_only : DirFunc
create_bundle_only ts = syscall (open_node (ts ∷ bundle_name ∷ []) 0o666) >> raise invalid

abbrev pub bundle_func : Bool → DirFunc
bundle_func true = create_ca_bundle
bundle_func false = create_bundle_only

abbrev pub names_of : List DirEntry → List Bytes
names_of [] = []
names_of ((name, is_dir) ∷ es) = name ∷ names_of es

unfoldable pub list_files_in_dir : Bytes → Sys (List Bytes)
list_files_in_dir ts = do entries ← syscall (read_dir_node (ts ∷ [])); pure (names_of entries)

-- files.Difference
unfoldable pub name_difference : List Bytes → List Bytes → List Bytes
name_difference [] bs = []
name_difference (a ∷ as_) bs =
    let rest = name_difference as_ bs in if contains bs a then rest else a ∷ rest

-- OpenSSLRehash, with the command `openssl rehash`
unfoldable pub openssl_rehash : (Bytes → Sys Unit) → DirFunc
openssl_rehash openssl ts = do
  files_before ← list_files_in_dir ts
  openssl ts
  files_after ← list_files_in_dir ts
  pure (name_difference files_after files_before)

-- DirFuncsForVolume, where fs.WalkDir takes the path of the volume's directory or does not
unfoldable pub dir_funcs_for_volume : Bool → (Bytes → Sys Unit) → Metadata → List DirFunc
dir_funcs_for_volume walks openssl meta = bundle_func walks ∷ openssl_rehash openssl ∷ []
