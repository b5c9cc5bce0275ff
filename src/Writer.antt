-- ===== src/Writer.antt =====
-- AtomicWriter of pkg/util/atomic_writer.go, on Linux. Paths are relative to the writer's target
-- directory and stand for their filepath.Join with it. A loop over a map follows the order of its
-- list. Logging is left out.
pub mod Frame
pub mod Stage
pub mod View
pub mod Fresh
pub mod Named
pub mod Staged
pub mod Switch
pub mod Old
pub mod Atomic
pub mod Delivers
pub mod Complete
pub mod Spares
pub mod Held
pub mod Visible
pub mod Retire
pub mod Tests
use csi_driver_trusted_ca.Common.{
  ℕ, ◌≡◌, Bool, true, false, not, ◌&&◌, List, [], ◌∷◌, ◌++◌, Option, none, some, Bytes, codes, Dict,
  ◌=?◌, list_eq, nat_eq, insert, keys, contains, if◌then◌else◌,
}
use csi_driver_trusted_ca.Path.{clean_elems}
use csi_driver_trusted_ca.Validate.{
  FilePath, FileProjection, PayloadResult, valid, invalid, validate_path, validate_payload,
}
use csi_driver_trusted_ca.Sys.{
  Error, Result, ok, err, not_exist, bad_path, Node, Sys, pure, raise, ◌>>=◌, ◌>>◌, attempt,
}
use csi_driver_trusted_ca.Os.{
  parent, readlink, mkdir_temp, chmod, chown, mkdir_all, write_file, symlink, rename, remove, walk,
  remove_all, return_result, lstat, read_file,
}

abbrev pub data_dir_name : Bytes
data_dir_name = codes "..data"

abbrev pub new_data_dir_name : Bytes
new_data_dir_name = codes "..data_tmp"

-- A function that is run on the new directory and returns the names of the files that it made there.
abbrev pub DirFunc : Type 0
DirFunc = Bytes → Sys (List Bytes)

-- `stamp` is the time in the format 2006_01_02_15_04_05, `randoms` what os.MkdirTemp draws.
unfoldable pub new_timestamp_dir : Bytes → List Bytes → Sys Bytes
new_timestamp_dir stamp randoms = do
  ts ← mkdir_temp (codes ".." ++ stamp ++ codes ".") randoms
  chmod (ts ∷ []) 0o755
  pure ts

abbrev pub change_owner : FilePath → Option ℕ → Sys Unit
change_owner p none = pure tt
change_owner p (some uid) = chown p uid

-- one round of the loop of writePayloadToDir
unfoldable pub write_entry : Bytes → FilePath → FileProjection → Sys Unit
write_entry ts p f = do
  mkdir_all (ts ∷ []) (parent p) 0o777
  write_file (ts ∷ p) f.content f.mode
  chmod (ts ∷ p) f.mode
  change_owner (ts ∷ p) f.fs_user

unfoldable pub write_payload_to_dir : Dict FilePath FileProjection → Bytes → Sys Unit
write_payload_to_dir [] ts = pure tt
write_payload_to_dir ((p, f) ∷ payload) ts = write_entry ts p f >> write_payload_to_dir payload ts

abbrev pub no_projection : FileProjection
no_projection = record { content = []; mode = 0; fs_user = none }

-- the names of new files go into the payload
unfoldable pub add_new_files :
    List Bytes → Dict FilePath FileProjection → Sys (Dict FilePath FileProjection)
add_new_files [] payload = pure payload
add_new_files (name ∷ names) payload =
    let rest = add_new_files names (insert (clean_elems name) no_projection payload) in
    elim (validate_path name) [ some e ↦ raise (bad_path e) | none ↦ rest ]

unfoldable pub run_dir_funcs :
    List DirFunc → Bytes → Dict FilePath FileProjection → Sys (Dict FilePath FileProjection)
run_dir_funcs [] ts payload = pure payload
run_dir_funcs (f ∷ fs) ts payload = do
  new_files ← f ts
  payload' ← add_new_files new_files payload
  run_dir_funcs fs ts payload'

-- the first element, by which a file is seen in the target directory
abbrev pub link_name : FilePath → FilePath
link_name [] = []
link_name (e ∷ p) = e ∷ []

abbrev pub make_if_missing : FilePath → Result FilePath → Sys Unit
make_if_missing name (ok t) = pure tt
make_if_missing name (err not_exist) = symlink (data_dir_name ∷ name) name
make_if_missing name (err e) = pure tt

unfoldable pub create_user_visible_files : Dict FilePath FileProjection → Sys Unit
create_user_visible_files [] = pure tt
create_user_visible_files ((p, f) ∷ payload) = do
  there ← attempt (readlink (link_name p))
  make_if_missing (link_name p) there
  create_user_visible_files payload

-- What is below a directory, relative to it.
unfoldable pub strip : FilePath → FilePath → FilePath
strip [] q = q
strip (e ∷ p) [] = []
strip (e ∷ p) (f ∷ q) = strip p q

unfoldable pub relative_paths : FilePath → List FilePath → List FilePath
relative_paths old [] = []
relative_paths old (q ∷ qs) =
    let rest = relative_paths old qs in if strip old q =? [] then rest else strip old q ∷ rest

abbrev pub add_head : Bytes → List FilePath → List FilePath
add_head e [] = []
add_head e (q ∷ qs) = (e ∷ q) ∷ add_head e qs

-- the path and the directories that it goes through
unfoldable pub sub_paths : FilePath → List FilePath
sub_paths [] = []
sub_paths (e ∷ p) = (e ∷ []) ∷ add_head e (sub_paths p)

unfoldable pub new_paths : Dict FilePath FileProjection → List FilePath
new_paths [] = []
new_paths ((p, f) ∷ payload) = sub_paths p ++ new_paths payload

unfoldable pub difference : List FilePath → List FilePath → List FilePath
difference [] qs = []
difference (p ∷ ps) qs = let rest = difference ps qs in if contains qs p then rest else p ∷ rest

-- The visitor ignores the errors of filepath.Walk, so a failed walk finds nothing.
abbrev pub visited : Result (List FilePath) → List FilePath
visited (ok ps) = ps
visited (err e) = []

unfoldable pub paths_to_remove : Dict FilePath FileProjection → FilePath → Sys (List FilePath)
paths_to_remove payload old = do
  found ← attempt (walk old)
  pure (difference (relative_paths old (visited found)) (new_paths payload))

-- what shouldWriteFile does after os.Lstat
abbrev pub differs : FilePath → Bytes → Result Node → Sys Bool
differs p content (err not_exist) = pure true
differs p content _ = do content_on_fs ← read_file p; pure (not (content =? content_on_fs))

unfoldable pub should_write_file : FilePath → Bytes → Sys Bool
should_write_file p content = do there ← attempt (lstat p); differs p content there

unfoldable pub should_write_payload : Dict FilePath FileProjection → FilePath → Sys Bool
should_write_payload [] old = pure false
should_write_payload ((p, f) ∷ payload) old = do
  should_write ← should_write_file (old ++ p) f.content
  if should_write then pure true else should_write_payload payload old

-- only the entries of the target directory itself: what holds a slash is passed over
unfoldable pub remove_paths : List FilePath → Result Unit → Sys (Result Unit)
remove_paths [] last_err = pure last_err
remove_paths ((e ∷ []) ∷ ps) last_err = do
  done ← attempt (remove (e ∷ []))
  remove_paths ps (elim done [ ok _ ↦ last_err | err e ↦ err e ])
remove_paths (_ ∷ ps) last_err = remove_paths ps last_err

unfoldable pub remove_user_visible_paths : List FilePath → Sys Unit
remove_user_visible_paths paths = do last_err ← remove_paths paths (ok tt); return_result last_err

-- (2) The directory that the data directory links to, if there is one.
abbrev pub old_dir : Result FilePath → Sys (Option FilePath)
old_dir (ok t) = pure (some t)
old_dir (err not_exist) = pure none
old_dir (err e) = raise e

unfoldable pub read_old_dir : Sys (Option FilePath)
read_old_dir = do there ← attempt (readlink (data_dir_name ∷ [])); old_dir there

-- (4) to (6) The new directory, its content, and the links that users see.
unfoldable pub stage :
    Dict FilePath FileProjection → List DirFunc → Bytes → Sys (Dict FilePath FileProjection)
stage payload dir_funcs ts = do
  write_payload_to_dir payload ts
  payload' ← run_dir_funcs dir_funcs ts payload
  create_user_visible_files payload'
  pure payload'

-- `_ = f()`, and the error that the caller returns
abbrev pub after : {A : Type 0} → Sys Unit → Error → Sys A
after cleanup e = do attempt cleanup; raise e

abbrev pub linked : Bytes → Result Unit → Sys Unit
linked ts (ok _) = pure tt
linked ts (err e) = after (remove_all (ts ∷ [])) e

abbrev pub renamed : Bytes → Result Unit → Sys Unit
renamed ts (ok _) = pure tt
renamed ts (err e) = after (attempt (remove (new_data_dir_name ∷ [])) >> remove_all (ts ∷ [])) e

-- (7), (8) The new link replaces the data directory's.
unfoldable pub make_link : Bytes → Sys Unit
make_link ts = do made ← attempt (symlink (ts ∷ []) (new_data_dir_name ∷ [])); linked ts made

unfoldable pub switch_link : Bytes → Sys Unit
switch_link ts = do
  moved ← attempt (rename (new_data_dir_name ∷ []) (data_dir_name ∷ []))
  renamed ts moved

abbrev pub is_empty : List FilePath → Bool
is_empty [] = true
is_empty (p ∷ ps) = false

-- (9) to (12) What only the old version had goes.
unfoldable pub retire : Dict FilePath FileProjection → Option FilePath → Sys Unit
retire payload none = remove_user_visible_paths []
retire payload (some old) = do
  gone ← paths_to_remove payload old
  should ← should_write_payload payload old
  if not should && is_empty gone
      then pure tt
      else (remove_user_visible_paths gone >> remove_all old)

unfoldable pub write_clean :
    Bytes → List Bytes → Dict FilePath FileProjection → List DirFunc → Sys Unit
write_clean stamp randoms payload dir_funcs = do
  old ← read_old_dir
  ts ← new_timestamp_dir stamp randoms
  payload' ← stage payload dir_funcs ts
  make_link ts
  switch_link ts
  retire payload' old

-- Write
unfoldable pub write : Bytes → List Bytes → Dict Bytes FileProjection → List DirFunc → Sys Unit
write stamp randoms payload dir_funcs = elim (validate_payload payload) [
  | invalid e ↦ raise (bad_path e)
  | valid clean_payload ↦ write_clean stamp randoms clean_payload dir_funcs
]
