-- ===== src/Filesystem/Refused.antt =====
-- Filesystem below an absolute base directory.
use csi_driver_trusted_ca.Common.{
  ◌≡◌, ◌≢◌, refl, ap, true, false, List, [], ◌∷◌, Bytes, codes, list_eq, nat_eq, list_beq, Dict,
}
use csi_driver_trusted_ca.Path.{is_abs, split, clean}
use csi_driver_trusted_ca.Validate.{
  FilePath, FileProjection, PayloadResult, valid, invalid, validate_payload,
}
use csi_driver_trusted_ca.Sys.{Error, Result, ok, err, World, Sys, pure, raise, attempt, ◌>>=◌}
use csi_driver_trusted_ca.Sys.Hoare.{Hoare, Ends, Hoare-bind, Hoare-raise, Hoare-trivial}
use csi_driver_trusted_ca.Storage.{Metadata, Files, Reply, not_found, other}
use csi_driver_trusted_ca.Storage.Memory.{Codec}
use csi_driver_trusted_ca.LinuxTls.{create_bundle_only, dir_funcs_for_volume}
use csi_driver_trusted_ca.Writer.{run_dir_funcs, stage, write_clean, write}
use csi_driver_trusted_ca.Filesystem.{
  FilesystemOptions, tempfs_path, valid_path, valid_elems, open_fs, read_metadata, make_payload,
  data_path_for_volume_id,
}
use csi_driver_trusted_ca.Filesystem.Within.{within}
use csi_driver_trusted_ca.Filesystem.Write.{read_tempfs, list_volumes, write_volume, write_files}
use csi_driver_trusted_ca.Filesystem.Interface.{Disk, at_start, replied, answered, filesystem}

-- the program never returns
abbrev Fails : {A : Type 0} → Sys A → Type 0
Fails m = Hoare (λ _. Unit {0}) (λ _ _. ⊥) (λ _. Unit {0}) m

first-Fails : {A B : Type 0} (m : Sys A) (k : A → Sys B) → Fails m → Fails (m >>= k)
first-Fails m k h = Hoare-bind {Q = λ _ _. ⊥} m k h λ a. record { run = λ w x. absurd x }

then-Fails : {A B : Type 0} (m : Sys A) (k : A → Sys B) → ((a : A) → Fails (k a)) → Fails (m >>= k)
then-Fails m k h = Hoare-bind {Q = λ _ _. Unit {0}} m k (Hoare-trivial m) h

within-Fails : (d : FilePath) (m : Sys Unit) → Fails m → Fails (within d m)
unfolding within
within-Fails d m h = record { run = λ w _. anywhere (m _).0 (m _).1 (within d m w).1 (h.run _ tt) }
  where
    anywhere :
        (r : Result Unit) (w w' : World)
        → Ends (λ (_ : Unit {0}) _. ⊥) (λ _. Unit {0}) r w
        → Ends (λ (_ : Unit {0}) _. ⊥) (λ _. Unit {0}) r w'
    anywhere (ok a) w w' x = x
    anywhere (err e) w w' x = tt

absolute-refused :
    (base_dir : Bytes) → is_abs base_dir ≡ true → valid_path (tempfs_path base_dir) ≡ false
unfolding valid_path valid_elems split tempfs_path clean is_abs list_beq
absolute-refused [] h = absurd (cc)
absolute-refused (c ∷ b) h = rw (h, clean) refl

module _ (base_dir : Bytes) (refused : valid_path (tempfs_path base_dir) ≡ false) where
  dir_funcs-Fails :
      (openssl : Bytes → Sys Unit) (meta : Metadata) (ts : Bytes)
      (payload : Dict FilePath FileProjection)
      → Fails (
          run_dir_funcs
            (dir_funcs_for_volume (valid_path (tempfs_path base_dir)) openssl meta)
            ts
            payload)
  unfolding dir_funcs_for_volume run_dir_funcs create_bundle_only
  dir_funcs-Fails openssl meta ts payload =
      rw (refused) (first-Fails _ _ (then-Fails _ _ λ _. Hoare-raise Error.invalid λ w h. tt))

  write-Fails :
      (stamp : Bytes) (randoms : List Bytes) (payload : Dict Bytes FileProjection)
      (openssl : Bytes → Sys Unit) (meta : Metadata)
      → Fails (
          write stamp randoms payload
            (dir_funcs_for_volume (valid_path (tempfs_path base_dir)) openssl meta))
  unfolding write write_clean stage
  write-Fails stamp randoms payload openssl meta = by_result (validate_payload payload)
    where
      by_result :
          (r : PayloadResult)
          → Fails (elim r [
            | invalid e ↦ raise (Error.bad_path e)
            | valid clean_payload ↦
                write_clean stamp randoms clean_payload
                  (dir_funcs_for_volume (valid_path (tempfs_path base_dir)) openssl meta)
          ])
      by_result (invalid e) = Hoare-raise _ λ w h. tt
      by_result (valid p) = then-Fails _ _ λ _. then-Fails _ _ λ ts.
          first-Fails _ _ (then-Fails _ _ λ _. first-Fails _ _ (dir_funcs-Fails openssl meta ts p))

  write_files-Fails :
      (f : FilesystemOptions) (stamp : Bytes) (randoms : List Bytes) (openssl : Bytes → Sys Unit)
      (meta : Metadata) (files : Files)
      → Fails (write_files f base_dir stamp randoms openssl meta files)
  unfolding write_files write_volume
  write_files-Fails f stamp randoms openssl meta files = then-Fails _ _ λ _. then-Fails _ _ λ g.
      then-Fails _ _ λ _. then-Fails _ _ λ _. first-Fails _ _ (
        within-Fails (data_path_for_volume_id meta.volume_id) _
          (write-Fails stamp randoms (make_payload files) openssl meta))

  read_metadata-refused :
      (c : Codec) (id : Bytes) (w : World)
      → read_metadata c base_dir id w ≡ (ok (Reply.err not_found), w)
  unfolding read_metadata open_fs raise attempt pure ◌>>=◌
  read_metadata-refused c id w = rw (refused, open_fs) refl

  list_volumes-refused : (w : World) → list_volumes base_dir w ≡ (err Error.invalid, w)
  unfolding list_volumes read_tempfs raise ◌>>=◌
  list_volumes-refused w = rw (refused, read_tempfs) refl

-- Below an absolute base directory, whichever calls fail: ReadMetadata finds no volume, ListVolumes
-- returns an error, and so does WriteFiles, whatever the files.
pub filesystem-refused :
    (c : Codec) (f : FilesystemOptions) (base_dir : Bytes) (stamp : Disk → Bytes)
    (randoms : Disk → List Bytes) (openssl : Bytes → Sys Unit) (d : Disk) (id : Bytes)
    (meta : Metadata) (files : Files)
    → is_abs base_dir ≡ true
    → ((filesystem c f base_dir stamp randoms openssl).read_metadata id d ≡ Reply.err not_found)
      × ((filesystem c f base_dir stamp randoms openssl).list_volumes d
          ≡ Reply.err (other (codes "filesystem")))
      × (((filesystem c f base_dir stamp randoms openssl).write_files meta files d).0 ≢ Reply.ok tt)
filesystem-refused c f base_dir stamp randoms openssl d id meta files absolute =
    let refused = absolute-refused base_dir absolute in
    (
      ap (λ x. answered (x.0)) (read_metadata-refused base_dir refused c id (at_start d)),
      ap (λ x. replied (x.0)) (list_volumes-refused base_dir refused (at_start d)),
      by_result (write_files f base_dir (stamp d) (randoms d) openssl meta files (at_start d)).0
          (write_files f base_dir (stamp d) (randoms d) openssl meta files (at_start d)).1
          ((write_files-Fails base_dir refused f (stamp d) (randoms d) openssl meta files).run
            (at_start d) tt),
    )
  where
    by_result :
        (r : Result Unit) (w : World)
        → Ends (λ (_ : Unit {0}) _. ⊥) (λ _. Unit {0}) r w
        → replied r ≢ Reply.ok tt
    by_result (ok a) w x h = x
    by_result (err e) w x h = absurd (cc)
