-- ===== src/Filesystem/Atomic.antt =====
-- WriteFiles is atomic for readers of the volume.
use csi_driver_trusted_ca.Common.{
  refl, sym, ◌∙◌, ap, ◌⊎◌, inl, inr, List, [], ◌∷◌, map, Option, none, some, Bytes, All, All-append,
  All-mono, append-nil, arith, codes,
}
use csi_driver_trusted_ca.Validate.{FilePath, validate_payload}
use csi_driver_trusted_ca.Sys.{Error, Result, ok, err, not_exist, Nodes, World, Sys}
use csi_driver_trusted_ca.Sys.Keeps.{Holds, Keeps-pure, Keeps-raise, Keeps-bind, Keeps-attempt}
use csi_driver_trusted_ca.Sys.Hoare.{Hoare, Ends, Hoare-bind, Hoare-pure}
use csi_driver_trusted_ca.Os.Change.{Reads}
use csi_driver_trusted_ca.Storage.{Metadata, Files}
use csi_driver_trusted_ca.Writer.Stage.{IsLocal}
use csi_driver_trusted_ca.Writer.Fresh.{IsStamp}
use csi_driver_trusted_ca.Writer.View.{view, SameView, IsTarget}
use csi_driver_trusted_ca.Writer.Atomic.{IsAtomic, ValidUnreserved, write-IsAtomic}
use csi_driver_trusted_ca.LinuxTls.{dir_funcs_for_volume}
use csi_driver_trusted_ca.LinuxTls.Local.{bundle_func-IsLocal}
use csi_driver_trusted_ca.LinuxTls.Rehash.{IsRehash, openssl_rehash-IsLocal}
use csi_driver_trusted_ca.Filesystem.{
  valid_path, tempfs_path, ℤ, FilesystemOptions, FsGroup, group, not_an_integer, out_of_range,
  fs_group_for_metadata, make_payload, volume_path, data_path_for_volume_id,
  ensure_volume_directory, exists_node,
}
use csi_driver_trusted_ca.Filesystem.Within.{sub, graft, within, sub-graft}
use csi_driver_trusted_ca.Filesystem.Write.{
  of_fs_group, chown_data_dir, checked_target, new_atomic_writer, chown_each, chown_files,
  write_volume, write_files,
}
use csi_driver_trusted_ca.Filesystem.Below.{
  SameEntries, SameEntries-IsTarget, Below, IsAtomicBelow, mkdir_all-Below, Quiet, Quiet-Reads,
  Quiet-Regroups, then_writes, Regroups-IsAtomicBelow,
}
use csi_driver_trusted_ca.Filesystem.Groups.{
  groupless_entry, SameFiles, entries-SameFiles, chgrp_node-Regroups, chgrp_written_node-Regroups,
}

module _ (d : FilePath) (n0 : Nodes) where
  -- the writer itself
  grafted-SameFiles :
      (whole now n : Nodes)
      → SameEntries (sub d n0) (sub d whole)
      → SameView (sub d whole) n ⊎ SameView now n
      → SameFiles (sub d n0) (sub d (graft d whole n))
        ⊎ SameFiles (sub d (graft d whole now)) (sub d (graft d whole n))
  grafted-SameFiles whole now n same (inl s) = inl λ e p.
      ap groupless_entry (ap (λ t. view t (e ∷ p)) (sub-graft d whole n) ∙ s e p)
      ∙ entries-SameFiles (sub d n0) (sub d whole) same e p
  grafted-SameFiles whole now n same (inr s) = inr λ e p. ap groupless_entry (
      ap (λ t. view t (e ∷ p)) (sub-graft d whole n)
      ∙ s e p
      ∙ sym (ap (λ t. view t (e ∷ p)) (sub-graft d whole now)))

  grafted :
      (whole now : Nodes) (seen : List Nodes)
      → SameEntries (sub d n0) (sub d whole)
      → All (λ n. SameView (sub d whole) n ⊎ SameView now n) seen
      → All
          (λ n. SameFiles (sub d n0) (sub d n) ⊎ SameFiles (sub d (graft d whole now)) (sub d n))
          (map (graft d whole) seen)
  grafted whole now [] same _ = tt
  grafted whole now (n ∷ seen) same (h, hs) =
      (grafted-SameFiles whole now n same h, grafted whole now seen same hs)

  within-IsAtomicBelow :
      (m : Sys Unit)
      → ((n : Nodes) (faults : List (Option Error))
          → SameEntries (sub d n0) n
          → IsAtomic n (m (record { nodes = n; observed = []; faults = faults })).1)
      → Hoare
          (Holds (Below d n0) (Below d n0))
          (λ _ w. (IsAtomicBelow d n0) w)
          (IsAtomicBelow d n0)
          (within d m)
  unfolding within
  within-IsAtomicBelow m atomic = record {
    run = λ w h. both (within d m w).0 (within d m w).1 (seen w h);
  }
    where
      inner : World → World
      inner w = (m record { nodes = sub d w.nodes; observed = []; faults = w.faults }).1

      seen : (w : World) → Holds (Below d n0) (Below d n0) w → (IsAtomicBelow d n0) (within d m w).1
      seen w h =
          All-append _ (map (graft d w.nodes) (inner w).observed) w.observed
            (grafted w.nodes (inner w).nodes (inner w).observed h.now
              (atomic (sub d w.nodes) w.faults h.now))
            (All-mono w.observed (λ n s. inl (entries-SameFiles (sub d n0) (sub d n) s)) h.seen)

      both :
          (r : Result Unit) (w : World)
          → (IsAtomicBelow d n0) w
          → Ends (λ _ w'. (IsAtomicBelow d n0) w') (IsAtomicBelow d n0) r w
      both (ok a) w h = h
      both (err e) w h = h

exists_node-Reads : (p : FilePath) (n : Nodes) → Reads n (exists_node p n)
unfolding exists_node
exists_node-Reads p n = ground arith

module _ (id : Bytes) (n0 : Nodes) where
  abbrev data_path : FilePath
  data_path = data_path_for_volume_id id

  pub ensure_volume_directory-Quiet : Quiet data_path n0 (ensure_volume_directory id)
  unfolding ensure_volume_directory data_path_for_volume_id
  ensure_volume_directory-Quiet =
      Keeps-bind _ _
        (mkdir_all-Below data_path n0 [] (volume_path id) (codes "data" ∷ []) 0o644 refl)
        λ _ _. mkdir_all-Below data_path n0 [] data_path [] 0o550 (append-nil data_path)

  pub of_fs_group-Quiet : (g : FsGroup) → Quiet data_path n0 (of_fs_group g)
  of_fs_group-Quiet (group g) = Keeps-pure g tt
  of_fs_group-Quiet not_an_integer = Keeps-raise _
  of_fs_group-Quiet (out_of_range g) = Keeps-raise _

  pub chown_data_dir-Quiet : (g : Option ℤ) → Quiet data_path n0 (chown_data_dir id g)
  chown_data_dir-Quiet none = Keeps-pure tt tt
  chown_data_dir-Quiet (some gid) =
      Quiet-Regroups data_path n0 _ (chgrp_node-Regroups data_path gid)

  checked_target-Quiet : (r : Result Unit) → Quiet data_path n0 (checked_target r)
  checked_target-Quiet (ok a) = Keeps-pure tt tt
  checked_target-Quiet (err not_exist) = Keeps-raise _
  checked_target-Quiet (err e) = Keeps-pure tt tt

  pub new_atomic_writer-Quiet : Quiet data_path n0 (new_atomic_writer data_path)
  unfolding new_atomic_writer
  new_atomic_writer-Quiet =
      Keeps-bind _ _ (Keeps-attempt _ (Quiet-Reads data_path n0 _ (exists_node-Reads data_path)))
        λ r _. checked_target-Quiet r

  chown_each-IsAtomicBelow :
      (gid : ℤ) (files : Files)
      → Hoare
          (IsAtomicBelow data_path n0)
          (λ _ w. IsAtomicBelow data_path n0 w)
          (IsAtomicBelow data_path n0)
          (chown_each data_path gid files)
  unfolding chown_each
  chown_each-IsAtomicBelow gid [] = Hoare-pure tt λ w h. h
  chown_each-IsAtomicBelow gid ((name, content) ∷ files) =
      Hoare-bind _ _
        (Regroups-IsAtomicBelow data_path n0 _ (chgrp_written_node-Regroups data_path name gid))
        λ _. chown_each-IsAtomicBelow gid files

  chown_files-IsAtomicBelow :
      (files : Files) (g : Option ℤ)
      → Hoare
          (IsAtomicBelow data_path n0)
          (λ _ w. IsAtomicBelow data_path n0 w)
          (IsAtomicBelow data_path n0)
          (chown_files data_path files g)
  chown_files-IsAtomicBelow files none = Hoare-pure tt λ w h. h
  chown_files-IsAtomicBelow files (some gid) = chown_each-IsAtomicBelow gid files

module _ (base_dir stamp : Bytes) (randoms : List Bytes) (openssl : Bytes → Sys Unit)
    (meta : Metadata) (files : Files) (n0 : Nodes)
    (target : IsTarget (sub (data_path_for_volume_id meta.volume_id) n0)) (digit : IsStamp stamp)
    (plain : ValidUnreserved (validate_payload (make_payload files)))
    (rehash : IsRehash openssl) where
  abbrev place : FilePath
  place = data_path_for_volume_id meta.volume_id

  pub dir_funcs-IsLocal :
      All IsLocal (dir_funcs_for_volume (valid_path (tempfs_path base_dir)) openssl meta)
  unfolding dir_funcs_for_volume
  dir_funcs-IsLocal = (
    bundle_func-IsLocal (valid_path (tempfs_path base_dir)),
    (openssl_rehash-IsLocal openssl rehash, tt),
  )

  write_volume-IsAtomicBelow :
      (f : FilesystemOptions)
      → Hoare
          (Holds (Below place n0) (Below place n0))
          (λ _ w. IsAtomicBelow place n0 w)
          (IsAtomicBelow place n0)
          (write_volume f base_dir stamp randoms openssl meta files)
  unfolding write_volume
  write_volume-IsAtomicBelow f = within-IsAtomicBelow place n0 _ λ n faults same.
      write-IsAtomic n faults stamp randoms (make_payload files)
        (dir_funcs_for_volume (valid_path (tempfs_path base_dir)) openssl meta)
        (SameEntries-IsTarget (sub place n0) n same target) digit plain dir_funcs-IsLocal

  write_files-Hoare :
      (f : FilesystemOptions)
      → Hoare
          (Holds (Below place n0) (Below place n0))
          (λ _ w. IsAtomicBelow place n0 w)
          (IsAtomicBelow place n0)
          (write_files f base_dir stamp randoms openssl meta files)
  unfolding write_files
  write_files-Hoare f =
      then_writes place n0 _ _ (ensure_volume_directory-Quiet meta.volume_id n0) λ _.
        then_writes place n0 _ _
          (of_fs_group-Quiet meta.volume_id n0 (fs_group_for_metadata f meta))
          λ g. then_writes place n0 _ _ (chown_data_dir-Quiet meta.volume_id n0 g) λ _.
            then_writes place n0 _ _ (new_atomic_writer-Quiet meta.volume_id n0) λ _.
              Hoare-bind _ _ (write_volume-IsAtomicBelow f)
                λ _. chown_files-IsAtomicBelow meta.volume_id n0 files g

-- Whichever calls fail: at every moment of WriteFiles a reader of the volume's data directory finds
-- what it found before the call, or what it finds after it, but for the groups of files, which are set
-- one after the other once the new version is in sight. The data directory is as a former call
-- leaves it, the time begins with a digit, no cleaned file name begins with the data link's own name,
-- and openssl changes nothing that readers see and adds no reserved name.
pub write_files-IsAtomicBelow :
    (f : FilesystemOptions) (base_dir stamp : Bytes) (randoms : List Bytes)
    (openssl : Bytes → Sys Unit) (meta : Metadata) (files : Files) (n0 : Nodes)
    (faults : List (Option Error))
    → IsTarget (sub (data_path_for_volume_id meta.volume_id) n0)
    → IsStamp stamp
    → ValidUnreserved (validate_payload (make_payload files))
    → IsRehash openssl
    → IsAtomicBelow
        (data_path_for_volume_id meta.volume_id)
        n0
        (write_files f base_dir stamp randoms openssl meta files
          (record { nodes = n0; observed = []; faults = faults })).1
write_files-IsAtomicBelow f base_dir stamp randoms openssl meta files n0 faults target digit plain
      rehash =
    either (write_files f base_dir stamp randoms openssl meta files start).0
      (write_files f base_dir stamp randoms openssl meta files start).1
      ((write_files-Hoare base_dir stamp randoms openssl meta files n0 target digit plain rehash
          f).run
        start (record { now = λ e p. refl; seen = tt }))
  where
    start : World
    start = record { nodes = n0; observed = []; faults = faults }

    either :
        (r : Result Unit) (w : World)
        → Ends
            (λ _ w'. IsAtomicBelow (data_path_for_volume_id meta.volume_id) n0 w')
            (IsAtomicBelow (data_path_for_volume_id meta.volume_id) n0)
            r
            w
        → IsAtomicBelow (data_path_for_volume_id meta.volume_id) n0 w
    either (ok a) w h = h
    either (err e) w h = h
