-- ===== src/Filesystem/Grouped.antt =====
-- A WriteFiles that succeeds leaves its files with the group that the volume asks for.
use csi_driver_trusted_ca.Common.{
  ℕ, ◌≡◌, ◌≢◌, sym, subst, List, Option, some, Bytes, In, keys, list_eq, nat_eq,
}
use csi_driver_trusted_ca.Path.{clean_elems}
use csi_driver_trusted_ca.Validate.{FilePath}
use csi_driver_trusted_ca.Sys.{Owner, Result, ok, err, file, World, Sys, ◌>>◌}
use csi_driver_trusted_ca.Sys.Hoare.{Hoare, Ends, Hoare-bind, Hoare-trivial}
use csi_driver_trusted_ca.Storage.{Metadata, Files}
use csi_driver_trusted_ca.Writer.View.{view}
use csi_driver_trusted_ca.Filesystem.{
  ℤ, FilesystemOptions, group, fs_group_for_metadata, data_path_for_volume_id,
}
use csi_driver_trusted_ca.Filesystem.Within.{sub}
use csi_driver_trusted_ca.Filesystem.Write.{
  gid_number, chown_files, write_files, write_volume, chown_data_dir, new_atomic_writer,
}
use csi_driver_trusted_ca.Filesystem.Regrouped.{view-written}
use csi_driver_trusted_ca.Filesystem.Chowned.{Grouped, chown_each-given, of_fs_group-gid}

module _ (f : FilesystemOptions) (base_dir stamp : Bytes) (randoms : List Bytes)
    (openssl : Bytes → Sys Unit) (meta : Metadata) (files : Files) (gid : ℤ)
    (changes : gid_number gid ≢ 4294967295) (name : Bytes) (listed : In name (keys files))
    (asked : fs_group_for_metadata f meta ≡ group (some gid)) where
  abbrev place : FilePath
  place = data_path_for_volume_id meta.volume_id

  write_files-Hoare :
      Hoare
        (λ _. Unit)
        (λ _ w. Grouped place gid changes name w)
        (λ _. Unit)
        (write_files f base_dir stamp randoms openssl meta files)
  unfolding write_files
  write_files-Hoare = Hoare-bind {Q = λ _ _. Unit} _ _ (Hoare-trivial _) λ _.
      Hoare-bind {Q = λ o _. o ≡ some gid} _ _
        (of_fs_group-gid place gid changes (fs_group_for_metadata f meta) asked)
        λ o. record {
          run = λ w same.
              (subst
                  (λ o.
                    Hoare (λ _. Unit) (λ _ w. Grouped place gid changes name w) (λ _. Unit)
                      (after_group o))
                  (sym same) grouped).run
                w tt;
        }
    where
      after_group : Option ℤ → Sys Unit
      after_group o =
          chown_data_dir meta.volume_id o
          >> (new_atomic_writer place
              >> (write_volume f base_dir stamp randoms openssl meta files
                  >> chown_files place files o))

      grouped :
          Hoare
            (λ _. Unit)
            (λ _ w. Grouped place gid changes name w)
            (λ _. Unit)
            (after_group (some gid))
      grouped = Hoare-bind {Q = λ _ _. Unit} _ _ (Hoare-trivial _) λ _.
          Hoare-bind {Q = λ _ _. Unit} _ _ (Hoare-trivial _) λ _.
            Hoare-bind {Q = λ _ _. Unit} _ _ (Hoare-trivial _)
              λ _. chown_each-given place gid changes name files listed

-- When the volume asks for a group and WriteFiles reports no error, each of its files that a reader of
-- the volume's data directory finds has that group, whichever calls failed and were passed over. The
-- group is not the number that chown takes for no change.
pub write_files-grouped :
    (f : FilesystemOptions) (base_dir stamp : Bytes) (randoms : List Bytes)
    (openssl : Bytes → Sys Unit) (meta : Metadata) (files : Files) (w : World) (gid : ℤ)
    (name : Bytes) (c : Bytes) (m : ℕ) (u : Owner)
    → fs_group_for_metadata f meta ≡ group (some gid)
    → gid_number gid ≢ 4294967295
    → In name (keys files)
    → (write_files f base_dir stamp randoms openssl meta files w).0 ≡ ok tt
    → view
        (sub
          (data_path_for_volume_id meta.volume_id)
          (write_files f base_dir stamp randoms openssl meta files w).1.nodes)
        (clean_elems name)
      ≡ some (file c m u)
    → u.group ≡ some (gid_number gid)
write_files-grouped f base_dir stamp randoms openssl meta files w gid name c m u asked changes
      listed done seen =
    on_success (write_files f base_dir stamp randoms openssl meta files w).0
      (write_files f base_dir stamp randoms openssl meta files w).1
      ((write_files-Hoare f base_dir stamp randoms openssl meta files gid changes name listed
          asked).run
        w tt)
      done c m u
      (view-written (data_path_for_volume_id meta.volume_id) name
        (write_files f base_dir stamp randoms openssl meta files w).1.nodes (file c m u) seen)
  where
    on_success :
        (r : Result Unit) (w : World)
        → Ends
            (λ _ w. Grouped (data_path_for_volume_id meta.volume_id) gid changes name w)
            (λ _. Unit)
            r
            w
        → r ≡ ok tt
        → Grouped (data_path_for_volume_id meta.volume_id) gid changes name w
    on_success (ok _) w h _ = h
    on_success (err x) w h k = absurd (cc)
