-- ===== src/Filesystem.antt =====
-- Filesystem of pkg/storage/filesystem.go. Paths are relative to its tmpfs: a volume's directory has
-- the cleaned volume ID for its path, as filepath.Join makes it. What reads goes through an os.DirFS
-- of the root, what writes does not; a relative base directory names the same tmpfs for both, since the
-- working directory is the root. encoding/json and apiequality.Semantic are parameters, logging is
-- left out.
pub mod Calm
pub mod Register
pub mod Kept
pub mod Listing
pub mod Stray
pub mod Interface
pub mod Published
pub mod Restart
pub mod Refused
pub mod Examples
pub mod Pods
pub mod Within
pub mod Write
pub mod Groups
pub mod Regrouped
pub mod Chowned
pub mod Grouped
pub mod Below
pub mod Atomic
pub mod Visible
pub mod Runs
pub mod GroupRuns
pub mod Group
pub mod Tests
use csi_driver_trusted_ca.Common.{
  ℕ, zero, suc, ◌+◌, ◌-◌, ◌*◌, ◌^◌, ◌≡◌, Bool, true, false, not, ◌&&◌, ◌||◌, List, [], ◌∷◌, ◌++◌,
  Option, none, some, Bytes, codes, Dict, lookup, ltb, leb, ◌==◌, ◌=?◌, list_eq, nat_eq,
  if◌then◌else◌,
}
use csi_driver_trusted_ca.Path.{slash, dot, dot_dot, split, clean_elems, clean}
use csi_driver_trusted_ca.Validate.{FilePath, FileProjection}
use csi_driver_trusted_ca.Sys.{
  Result, ok, err, Error, not_exist, Nodes, Sys, syscall, pure, raise, invalid, ◌>>=◌, ◌>>◌,
  attempt,
}
use csi_driver_trusted_ca.Os.{at, follow, mkdir_all, write_file, read_file, remove_all}
use csi_driver_trusted_ca.Storage.{
  Metadata, Files, StoreError, Reply, not_found, invalid_json, other,
}
use csi_driver_trusted_ca.Storage.Memory.{Codec, metadata_file}

-- int64 values
pub data ℤ : Type 0 where
  pos : ℕ → ℤ
  negsuc : ℕ → ℤ

abbrev pub neg : ℕ → ℤ
neg zero = pos 0
neg (suc n) = negsuc n

-- The loop of strconv.ParseInt in base 10 over the digits, from the value of those before.
unfoldable pub parse_digits : ℕ → Bytes → Option ℕ
parse_digits n [] = some n
parse_digits n (c ∷ s) =
    let rest = parse_digits (n * 10 + (c - b'0')) s in
    if leb b'0' c && leb c b'9' then rest else none

-- a number without its sign, which may not be empty
abbrev pub parse_unsigned : Bytes → Option ℕ
parse_unsigned [] = none
parse_unsigned (c ∷ s) = parse_digits 0 (c ∷ s)

abbrev pub positive : Option ℕ → Option ℤ
positive none = none
positive (some n) = if ltb n (2 ^ 63) then some (pos n) else none

abbrev pub negative : Option ℕ → Option ℤ
negative none = none
negative (some n) = if leb n (2 ^ 63) then some (neg n) else none

-- strconv.ParseInt(s, 10, 64), where it reports no error
unfoldable pub parse_int : Bytes → Option ℤ
parse_int [] = none
parse_int (c ∷ s) =
    if c == b'+'
    then positive (parse_unsigned s)
    else if c == b'-'
    then negative (parse_unsigned s)
    else positive (parse_unsigned (c ∷ s))

-- the options of Filesystem
pub record FilesystemOptions : Type 0 where
  pub fixed_fs_group : Option ℤ
  pub fs_group_volume_attribute_key : Bytes

-- the group, if ownership is to change, or an error
pub data FsGroup : Type 0 where
  group : Option ℤ → FsGroup
  not_an_integer : FsGroup
  out_of_range : ℤ → FsGroup

abbrev pub check_group : Option ℤ → FsGroup
check_group none = not_an_integer
check_group (some (negsuc n)) = out_of_range (negsuc n)
check_group (some (pos n)) =
    if leb n 0 || ltb 4294967295 n then out_of_range (pos n) else group (some (pos n))

abbrev pub group_of_attribute : Option Bytes → FsGroup
group_of_attribute none = group none
group_of_attribute (some fs_group_str) = check_group (parse_int fs_group_str)

unfoldable pub fs_group_for_metadata : FilesystemOptions → Metadata → FsGroup
fs_group_for_metadata f meta = elim f.fixed_fs_group [
  | some g ↦ group (some g)
  | none ↦
      if f.fs_group_volume_attribute_key =? []
      then group none
      else group_of_attribute (lookup f.fs_group_volume_attribute_key meta.volume_context)
]

unfoldable pub make_payload : Files → Dict Bytes FileProjection
make_payload [] = []
make_payload ((name, data_) ∷ files) =
    (name, record { content = data_; mode = 0o440; fs_user = none }) ∷ make_payload files

-- tempfsPath
unfoldable pub tempfs_path : Bytes → Bytes
tempfs_path base_dir =
    if base_dir =? [] then codes "inmemfs" else clean (base_dir ++ codes "/inmemfs")

unfoldable pub valid_elems : List Bytes → Bool
valid_elems [] = true
valid_elems (e ∷ es) = not (e =? []) && not (e =? dot) && not (e =? dot_dot) && valid_elems es

-- fs.ValidPath: a path that begins with a slash has an empty first element.
unfoldable pub valid_path : Bytes → Bool
valid_path p = (p =? dot) || valid_elems (split p slash)

unfoldable pub volume_path : Bytes → FilePath
volume_path id = clean_elems id

unfoldable pub metadata_path_for_volume_id : Bytes → FilePath
metadata_path_for_volume_id id = volume_path id ++ metadata_file ∷ []

unfoldable pub data_path_for_volume_id : Bytes → FilePath
data_path_for_volume_id id = volume_path id ++ codes "data" ∷ []

-- os.MkdirAll makes nothing in what is there already
unfoldable pub ensure_volume_directory : Bytes → Sys Unit
ensure_volume_directory id = do
  mkdir_all [] (volume_path id) 0o644
  mkdir_all [] (data_path_for_volume_id id) 0o550

unfoldable pub remove_volume : Bytes → Sys Unit
remove_volume id = remove_all (volume_path id)

unfoldable pub exists_node : FilePath → Nodes → Result (Unit × Nodes)
exists_node p n = elim (at (follow p n) n) [ none ↦ err not_exist | some x ↦ ok (tt, n) ]

-- Open of os.DirFS("/"), which takes no path that fs.ValidPath refuses. What follows the path of the
-- tmpfs consists of plain names.
unfoldable pub open_fs : Bytes → FilePath → Sys Unit
open_fs base_dir p =
    if valid_path (tempfs_path base_dir) then syscall (exists_node p) else raise invalid

module _ (c : Codec) where
  abbrev pub decode_file : Result Bytes → Reply Metadata
  decode_file (err e) = Reply.err invalid_json
  decode_file (ok json) = elim (c.unmarshal json) [
    | none ↦ Reply.err invalid_json
    | some meta ↦ Reply.ok meta
  ]

  -- os.ErrNotExist itself is no error that Stat returns.
  abbrev pub read_checked : FilePath → Result Unit → Sys (Reply Metadata)
  read_checked p (ok _) = do json ← attempt (read_file p); pure (decode_file json)
  read_checked p (err e) = pure (Reply.err (other (codes "reading metadata file")))

  abbrev pub read_opened : FilePath → Result Unit → Sys (Reply Metadata)
  read_opened p (err e) = pure (Reply.err not_found)
  read_opened p (ok _) = do there ← attempt (syscall (exists_node p)); read_checked p there

  unfoldable pub write_metadata : Bytes → Metadata → Sys Unit
  write_metadata volume_id meta =
      write_file (metadata_path_for_volume_id volume_id) (c.marshal meta) 0o600

  abbrev pub no_metadata : Metadata
  no_metadata = record { volume_id = []; target_path = []; volume_context = [] }

  -- the metadata that RegisterMetadata goes on with, where an error other than ErrNotFound is dropped
  abbrev pub existing_metadata : Reply Metadata → Metadata
  existing_metadata (Reply.ok existing) = existing
  existing_metadata (Reply.err e) = no_metadata

  unfoldable pub update_metadata : Metadata → Metadata → Sys Bool
  update_metadata meta existing =
      if c.deep_equal existing.volume_context meta.volume_context then pure false else do
        ensure_volume_directory meta.volume_id
        write_metadata existing.volume_id (record existing { volume_context = meta.volume_context })
        pure true

  abbrev pub registered : Metadata → Reply Metadata → Sys Bool
  registered meta (Reply.err not_found) = do
    ensure_volume_directory meta.volume_id
    write_metadata meta.volume_id meta
    pure true
  registered meta r = update_metadata meta (existing_metadata r)

  module _ (base_dir : Bytes) where
    unfoldable pub read_metadata : Bytes → Sys (Reply Metadata)
    read_metadata volume_id = do
      opened ← attempt (open_fs base_dir (metadata_path_for_volume_id volume_id))
      read_opened (metadata_path_for_volume_id volume_id) opened

    unfoldable pub register_metadata : Metadata → Sys Bool
    register_metadata meta = do existing ← read_metadata meta.volume_id; registered meta existing
