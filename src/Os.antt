-- ===== src/Os.antt =====
-- The functions of Go's `os` and `path/filepath` that the driver calls, on the tree of `Sys`, as on
-- Linux. Permissions are recorded and not enforced, the umask is 0, and of the elements of a path only
-- the last may be a symbolic link.
pub mod Change
pub mod Removal
use csi_driver_trusted_ca.Common.{
  ℕ, ◌≡◌, Bool, true, false, List, [], ◌∷◌, ◌++◌, Option, none, some, Bytes, Dict, Eq, ◌=?◌,
  list_eq, nat_eq, lookup, insert, erase, keys, if◌then◌else◌, not, ◌&&◌,
}
use csi_driver_trusted_ca.Validate.{FilePath}
use csi_driver_trusted_ca.Sys.{
  of_process, Error, Result, ok, err, not_exist, exist, not_dir, is_dir, not_empty, invalid, Node,
  file, dir, link, Nodes, Sys, syscall, pure, raise, ◌>>=◌, ◌>>◌, attempt,
}

-- the directory of a path
unfoldable pub parent : FilePath → FilePath
parent [] = []
parent (e ∷ []) = []
parent (e ∷ f ∷ p) = e ∷ parent (f ∷ p)

-- `q` is `p` or lies below it
unfoldable pub under : FilePath → FilePath → Bool
under [] q = true
under (e ∷ p) [] = false
under (e ∷ p) (f ∷ q) = (e =? f) && under p q

unfoldable pub at : FilePath → Nodes → Option Node
unfolding lookup
at p n = lookup p n

unfoldable pub write_node : FilePath → Node → Nodes → Nodes
unfolding insert
write_node p x n = insert p x n

unfoldable pub erase_node : FilePath → Nodes → Nodes
unfolding erase
erase_node p n = erase p n

-- a directory in which an entry can be made
unfoldable pub is_dir_at : FilePath → Nodes → Bool
is_dir_at [] n = true
is_dir_at (e ∷ p) n = elim (at (e ∷ p) n) [ some (dir m) ↦ true | _ ↦ false ]

-- Where a path leads if its last element is a link; a link to a link is not followed further.
unfoldable pub follow : FilePath → Nodes → FilePath
follow p n = elim (at p n) [ some (link t) ↦ parent p ++ t | _ ↦ p ]

unfoldable pub below : FilePath → List FilePath → List FilePath
below p [] = []
below p (q ∷ qs) = let rest = below p qs in if under p q then q ∷ rest else rest

unfoldable pub has_entries : FilePath → List FilePath → Bool
has_entries p [] = false
has_entries p (q ∷ qs) = if under p q && not (p =? q) then true else has_entries p qs

-- os.Readlink
unfoldable pub readlink_node : FilePath → Nodes → Result (FilePath × Nodes)
readlink_node [] n = err invalid
readlink_node (e ∷ p) n = elim (at (e ∷ p) n) [
  | none ↦ err not_exist
  | some (link t) ↦ ok (t, n)
  | some _ ↦ err invalid
]

abbrev pub readlink : FilePath → Sys FilePath
readlink p = syscall (readlink_node p)

-- os.Mkdir
unfoldable pub mkdir_node : FilePath → ℕ → Nodes → Result (Unit × Nodes)
mkdir_node p mode n = elim (at p n) [
  | some _ ↦ err exist
  | none ↦ if is_dir_at (parent p) n then ok (tt, write_node p (dir mode) n) else err not_exist
]

-- The loop of os.MkdirTemp in the root over the random names that it draws: a name that is taken is
-- passed over.
unfoldable pub mkdir_temp : Bytes → List Bytes → Sys Bytes
mkdir_temp prefix [] = raise exist
mkdir_temp prefix (random ∷ more) =
    let again = mkdir_temp prefix more in
    attempt (syscall (mkdir_node ((prefix ++ random) ∷ []) 0o700)) >>= λ made. elim made [
      | ok _ ↦ pure (prefix ++ random)
      | err exist ↦ again
      | err e ↦ raise e
    ]

-- os.Chmod
unfoldable pub chmod_node : FilePath → ℕ → Nodes → Result (Unit × Nodes)
chmod_node p mode n = elim (at (follow p n) n) [
  | some (file c m u) ↦ ok (tt, write_node (follow p n) (file c mode u) n)
  | some (dir m) ↦ ok (tt, write_node (follow p n) (dir mode) n)
  | some (link t) ↦ err invalid
  | none ↦ err not_exist
]

abbrev pub chmod : FilePath → ℕ → Sys Unit
chmod p mode = syscall (chmod_node p mode)

-- os.Chown with a user and no group
unfoldable pub chown_node : FilePath → ℕ → Nodes → Result (Unit × Nodes)
chown_node p uid n = elim (at (follow p n) n) [
  | some (file c m u) ↦ ok (tt, write_node (follow p n) (file c m (record u { user = some uid })) n)
  | some (dir m) ↦ ok (tt, n)
  | some (link t) ↦ err invalid
  | none ↦ err not_exist
]

abbrev pub chown : FilePath → ℕ → Sys Unit
chown p uid = syscall (chown_node p uid)

-- one directory of os.MkdirAll: nothing is done where it exists
unfoldable pub ensure_dir_node : FilePath → ℕ → Nodes → Result (Unit × Nodes)
ensure_dir_node p mode n = elim (at p n) [
  | none ↦ ok (tt, write_node p (dir mode) n)
  | some (dir m) ↦ ok (tt, n)
  | some _ ↦ err not_dir
]

-- os.MkdirAll(base + rest), where `base` exists
unfoldable pub mkdir_all : FilePath → FilePath → ℕ → Sys Unit
mkdir_all base [] mode = pure tt
mkdir_all base (e ∷ rest) mode =
    syscall (ensure_dir_node (base ++ e ∷ []) mode) >> mkdir_all (base ++ e ∷ []) rest mode

-- os.WriteFile opens the file, which makes it or empties it, and then writes.
unfoldable pub open_node : FilePath → ℕ → Nodes → Result (Unit × Nodes)
open_node p mode n = elim (at (follow p n) n) [
  | some (file c m u) ↦ ok (tt, write_node (follow p n) (file [] m u) n)
  | some (dir m) ↦ err is_dir
  | some (link t) ↦ err invalid
  | none ↦
      if is_dir_at (parent (follow p n)) n
      then ok (tt, write_node (follow p n) (file [] mode of_process) n)
      else err not_exist
]

unfoldable pub write_content_node : FilePath → Bytes → Nodes → Result (Unit × Nodes)
write_content_node p content n = elim (at (follow p n) n) [
  | some (file c m u) ↦ ok (tt, write_node (follow p n) (file content m u) n)
  | _ ↦ err invalid
]

unfoldable pub write_file : FilePath → Bytes → ℕ → Sys Unit
write_file p content mode = syscall (open_node p mode) >> syscall (write_content_node p content)

-- os.Symlink(target, p)
unfoldable pub symlink_node : FilePath → FilePath → Nodes → Result (Unit × Nodes)
symlink_node target p n = elim (at p n) [
  | some _ ↦ err exist
  | none ↦ if is_dir_at (parent p) n then ok (tt, write_node p (link target) n) else err not_exist
]

abbrev pub symlink : FilePath → FilePath → Sys Unit
symlink target p = syscall (symlink_node target p)

-- os.Rename of what is no directory
unfoldable pub rename_node : FilePath → FilePath → Nodes → Result (Unit × Nodes)
rename_node p q n = elim (at p n) [
  | none ↦ err not_exist
  | some (dir m) ↦ err invalid
  | some x ↦ if is_dir_at q n then err exist else ok (tt, write_node q x (erase_node p n))
]

abbrev pub rename : FilePath → FilePath → Sys Unit
rename p q = syscall (rename_node p q)

-- os.Remove
unfoldable pub remove_node : FilePath → Nodes → Result (Unit × Nodes)
remove_node p n = elim (at p n) [
  | none ↦ err not_exist
  | some _ ↦ if has_entries p (keys n) then err not_empty else ok (tt, erase_node p n)
]

abbrev pub remove : FilePath → Sys Unit
remove p = syscall (remove_node p)

-- What os.RemoveAll and filepath.Walk find: the entries at and below a path, in the order in which
-- they were made, so a directory stands before its entries.
unfoldable pub walk_node : FilePath → Nodes → Result (List FilePath × Nodes)
walk_node p n = ok (below p (keys n), n)

abbrev pub walk : FilePath → Sys (List FilePath)
walk p = syscall (walk_node p)

-- Removes the entries, the last one first, goes on when one fails, and returns the first error.
unfoldable pub remove_each : List FilePath → Sys (Result Unit)
remove_each [] = pure (ok tt)
remove_each (p ∷ ps) = do
  later ← remove_each ps
  here ← attempt (remove p)
  elim later [ err e ↦ pure (err e) | ok _ ↦ pure here ]

abbrev pub return_result : {A : Type 0} → Result A → Sys A
return_result (ok a) = pure a
return_result (err e) = raise e

-- os.RemoveAll
unfoldable pub remove_all : FilePath → Sys Unit
remove_all p = do found ← walk p; removed ← remove_each found; return_result removed

-- os.Lstat
unfoldable pub lstat_node : FilePath → Nodes → Result (Node × Nodes)
lstat_node p n = elim (at p n) [ none ↦ err not_exist | some x ↦ ok (x, n) ]

abbrev pub lstat : FilePath → Sys Node
lstat p = syscall (lstat_node p)

-- os.ReadFile
unfoldable pub read_node : FilePath → Nodes → Result (Bytes × Nodes)
read_node p n = elim (at (follow p n) n) [
  | none ↦ err not_exist
  | some (file c m u) ↦ ok (c, n)
  | some (dir m) ↦ err is_dir
  | some (link t) ↦ err invalid
]

abbrev pub read_file : FilePath → Sys Bytes
read_file p = syscall (read_node p)
