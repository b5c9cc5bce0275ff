-- ===== src/Filesystem/Visible.antt =====
-- A WriteFiles that succeeds shows its files to the readers of the volume.
use csi_driver_trusted_ca.Common.{
  ℕ, ◌≡◌, ◌≢◌, refl, sym, ap, subst, ◌∙◌, List, [], ◌∷◌, Option, none, some, Bytes, Dict, lookup,
  list_eq, nat_eq,
}
use csi_driver_trusted_ca.Validate.{FilePath, FileProjection, valid, validate_payload}
use csi_driver_trusted_ca.Sys.{
  Owner, Error, Result, ok, err, file, Nodes, World, Sys, syscall, ◌>>=◌,
}
use csi_driver_trusted_ca.Sys.Keeps.{Holds, Post}
use csi_driver_trusted_ca.Sys.Hoare.{
  Hoare, Ends, Hoare-bind, Hoare-pure, Hoare-mono, Hoare-call, Keeps-Hoare, moved,
}
use csi_driver_trusted_ca.Storage.{Metadata, Files}
use csi_driver_trusted_ca.Writer.Stage.{Unreserved}
use csi_driver_trusted_ca.Writer.Fresh.{IsStamp}
use csi_driver_trusted_ca.Writer.View.{view, IsTarget}
use csi_driver_trusted_ca.Writer.Delivers.{OwnedBy}
use csi_driver_trusted_ca.Writer.Atomic.{ValidUnreserved}
use csi_driver_trusted_ca.Writer.Visible.{Showing, write-Showing}
use csi_driver_trusted_ca.LinuxTls.{bundle_name, dir_funcs_for_volume}
use csi_driver_trusted_ca.LinuxTls.Rehash.{IsRehash}
use csi_driver_trusted_ca.LinuxTls.Leaves.{LeavesEntry, dir_funcs-Leaves}
use csi_driver_trusted_ca.Filesystem.{
  valid_path, tempfs_path, ℤ, FilesystemOptions, fs_group_for_metadata, make_payload,
  data_path_for_volume_id,
}
use csi_driver_trusted_ca.Filesystem.Groups.{
  groupless_entry, groupless-file, entries-SameFiles, Regroups, SameButGroups-sub,
  chgrp_written_node-Regroups,
}
use csi_driver_trusted_ca.Filesystem.Within.{sub, graft, within, sub-graft}
use csi_driver_trusted_ca.Filesystem.Write.{chown_each, chown_files, write_volume, write_files}
use csi_driver_trusted_ca.Filesystem.Below.{SameEntries, SameEntries-IsTarget, Below, Quiet}
use csi_driver_trusted_ca.Filesystem.Atomic.{
  ensure_volume_directory-Quiet, of_fs_group-Quiet, chown_data_dir-Quiet, new_atomic_writer-Quiet,
  dir_funcs-IsLocal,
}

module _ (d : FilePath) (e : Bytes) (q : FilePath) (g : FileProjection) where
  -- a reader of the directory finds the file
  abbrev pub ShowingBelow : World → Type 0
  ShowingBelow w =
      (u : Owner) × (view (sub d w.nodes) (e ∷ q) ≡ some (file g.content g.mode u))
      × OwnedBy g.fs_user u

  -- the writer shows the file in its directory, if that is as it was
  within-Showing :
      (n0 : Nodes) (m : Sys Unit)
      → ((n : Nodes) (faults : List (Option Error))
          → SameEntries (sub d n0) n
          → (m record { nodes = n; observed = []; faults = faults }).0 ≡ ok tt
          → Showing e q g (m record { nodes = n; observed = []; faults = faults }).1)
      → Hoare (Holds (Below d n0) (Below d n0)) (λ _ w. ShowingBelow w) (λ _. Unit) (within d m)
  unfolding within
  within-Showing n0 m shows = record {
    run = λ w h.
        ending w.nodes (within d m w).1.observed (m (inner w)).0 (m (inner w)).1
          (shows (sub d w.nodes) w.faults h.now);
  }
    where
      inner : World → World
      inner w = record { nodes = sub d w.nodes; observed = []; faults = w.faults }

      ending :
          (n : Nodes) (seen : List Nodes) (r : Result Unit) (w' : World)
          → (r ≡ ok tt → Showing e q g w')
          → Ends
              (λ _ w. ShowingBelow w)
              (λ _. Unit)
              r
              (record { nodes = graft d n w'.nodes; observed = seen; faults = w'.faults })
      ending n seen (ok a) w' h =
          let (u, shown, owned) = h refl in
          (u, ap (λ t. view t (e ∷ q)) (sub-graft d n w'.nodes) ∙ shown, owned)
      ending n seen (err x) w' h = tt

  -- the calls before the writer
  then_shows :
      {A : Type 0} (n0 : Nodes) (m : Sys A) (k : A → Sys Unit)
      → Quiet d n0 m
      → ((a : A)
          → Hoare (Holds (Below d n0) (Below d n0)) (λ _ w. ShowingBelow w) (λ _. Unit) (k a))
      → Hoare (Holds (Below d n0) (Below d n0)) (λ _ w. ShowingBelow w) (λ _. Unit) (m >>= k)
  then_shows n0 m k quiet rest =
      Hoare-bind {Q = λ _ w. Holds (Below d n0) (Below d n0) w} m k
        (Hoare-mono m (Keeps-Hoare m quiet) (λ w h. h) (λ a w h. h.1) (λ w h. tt)) rest

  -- and those behind it
  -- the user is the same
  owned : (user : Option ℕ) (u v : Owner) → v.user ≡ u.user → OwnedBy user u → OwnedBy user v
  owned none u v h o = tt
  owned (some uid) u v h o = h ∙ o

  Regroups-Showing :
      (f : Nodes → Result (Unit × Nodes))
      → ((n : Nodes) → Regroups n (f n))
      → Hoare ShowingBelow (λ _ w. ShowingBelow w) (λ _. Unit) (syscall f)
  Regroups-Showing f k = Hoare-call f (λ w h. by_result (f w.nodes) w (k w.nodes) h) (λ w h. tt)
    where
      by_result :
          (r : Result (Unit × Nodes)) (w : World)
          → Regroups w.nodes r
          → ShowingBelow w
          → Post (λ an. ShowingBelow (moved w (an.1))) r
      by_result (err x) w same h = tt
      by_result (ok (a, n)) w same (u, shown, o) =
          let seen =
            entries-SameFiles (sub d w.nodes) (sub d n)
              (λ e p. SameButGroups-sub d w.nodes n same (e ∷ p)) e q in
          let (v, there, user) =
            groupless-file (view (sub d n) (e ∷ q)) g.content g.mode u
              (seen ∙ ap groupless_entry shown) in
          (v, there, owned g.fs_user u v user o)

  chown_each-Showing :
      (gid : ℤ) (files : Files)
      → Hoare ShowingBelow (λ _ w. ShowingBelow w) (λ _. Unit) (chown_each d gid files)
  unfolding chown_each
  chown_each-Showing gid [] = Hoare-pure tt λ w h. h
  chown_each-Showing gid ((name, content) ∷ files) =
      Hoare-bind _ _ (Regroups-Showing _ (chgrp_written_node-Regroups d name gid))
        λ _. chown_each-Showing gid files

  chown_files-Showing :
      (files : Files) (g : Option ℤ)
      → Hoare ShowingBelow (λ _ w. ShowingBelow w) (λ _. Unit) (chown_files d files g)
  chown_files-Showing files none = Hoare-pure tt λ w h. h
  chown_files-Showing files (some gid) = chown_each-Showing gid files

module _ (f : FilesystemOptions) (base_dir stamp : Bytes) (randoms : List Bytes)
    (openssl : Bytes → Sys Unit) (meta : Metadata) (files : Files) (n0 : Nodes)
    (c : Dict FilePath FileProjection) (e : Bytes) (q : FilePath) (g : FileProjection)
    (target : IsTarget (sub (data_path_for_volume_id meta.volume_id) n0)) (digit : IsStamp stamp)
    (v : validate_payload (make_payload files) ≡ valid c) (plain : Unreserved c)
    (rehash : IsRehash openssl) (leaves : LeavesEntry (e ∷ q) openssl)
    (apart : bundle_name ∷ [] ≢ e ∷ q) (here : lookup (e ∷ q) c ≡ some g) where
  abbrev place : FilePath
  place = data_path_for_volume_id meta.volume_id

  write_volume-Showing :
      Hoare
        (Holds (Below place n0) (Below place n0))
        (λ _ w. ShowingBelow place e q g w)
        (λ _. Unit)
        (write_volume f base_dir stamp randoms openssl meta files)
  unfolding write_volume
  write_volume-Showing = within-Showing place e q g n0 _ λ n faults same.
      write-Showing n faults stamp randoms (make_payload files)
        (dir_funcs_for_volume (valid_path (tempfs_path base_dir)) openssl meta) c e q g
        (SameEntries-IsTarget (sub place n0) n same target) digit v plain
        (dir_funcs-IsLocal base_dir stamp randoms openssl meta files n0 target digit
          (subst ValidUnreserved (sym v) plain) rehash)
        (dir_funcs-Leaves (valid_path (tempfs_path base_dir)) openssl meta e q apart leaves) here

  write_files-shows :
      Hoare
        (Holds (Below place n0) (Below place n0))
        (λ _ w. ShowingBelow place e q g w)
        (λ _. Unit)
        (write_files f base_dir stamp randoms openssl meta files)
  unfolding write_files
  write_files-shows =
      then_shows place e q g n0 _ _ (ensure_volume_directory-Quiet meta.volume_id n0) λ _.
        then_shows place e q g n0 _ _
          (of_fs_group-Quiet meta.volume_id n0 (fs_group_for_metadata f meta))
          λ gr. then_shows place e q g n0 _ _ (chown_data_dir-Quiet meta.volume_id n0 gr) λ _.
            then_shows place e q g n0 _ _ (new_atomic_writer-Quiet meta.volume_id n0)
              λ _. Hoare-bind _ _ write_volume-Showing λ _. chown_files-Showing place e q g files gr

-- When WriteFiles reports no error, a reader of the volume's data directory finds each file of the
-- checked payload at its path, with its content and its mode, whichever calls failed and were passed
-- over. The data directory is as a former call leaves it, the time begins with a digit, no cleaned file
-- name begins with the data link's own name, openssl changes nothing that readers see, adds no reserved
-- name and leaves the file alone, and the file is not the one into which the bundle is written.
pub write_files-Showing :
    (f : FilesystemOptions) (base_dir stamp : Bytes) (randoms : List Bytes)
    (openssl : Bytes → Sys Unit) (meta : Metadata) (files : Files) (n0 : Nodes)
    (faults : List (Option Error)) (c : Dict FilePath FileProjection) (e : Bytes) (q : FilePath)
    (g : FileProjection)
    → IsTarget (sub (data_path_for_volume_id meta.volume_id) n0)
    → IsStamp stamp
    → validate_payload (make_payload files) ≡ valid c
    → Unreserved c
    → IsRehash openssl
    → LeavesEntry (e ∷ q) openssl
    → bundle_name ∷ [] ≢ e ∷ q
    → lookup (e ∷ q) c ≡ some g
    → (write_files f base_dir stamp randoms openssl meta files
        (record { nodes = n0; observed = []; faults = faults })).0
      ≡ ok tt
    → ShowingBelow
        (data_path_for_volume_id meta.volume_id)
        e
        q
        g
        (write_files f base_dir stamp randoms openssl meta files
          (record { nodes = n0; observed = []; faults = faults })).1
write_files-Showing f base_dir stamp randoms openssl meta files n0 faults c e q g target digit v
      plain rehash leaves apart here =
    on_success (write_files f base_dir stamp randoms openssl meta files start).0
      (write_files f base_dir stamp randoms openssl meta files start).1
      ((write_files-shows f base_dir stamp randoms openssl meta files n0 c e q g target digit v
          plain rehash leaves apart here).run
        start (record { now = λ e p. refl; seen = tt }))
  where
    start : World
    start = record { nodes = n0; observed = []; faults = faults }

    on_success :
        (r : Result Unit) (w : World)
        → Ends
            (λ _ w. ShowingBelow (data_path_for_volume_id meta.volume_id) e q g w)
            (λ _. Unit)
            r
            w
        → r ≡ ok tt
        → ShowingBelow (data_path_for_volume_id meta.volume_id) e q g w
    on_success (ok _) w h _ = h
    on_success (err x) w h k = absurd (cc)
