-- ===== src/Filesystem/Interface.antt =====
-- Filesystem as a backend of the storage interface. Its state is the tmpfs and the failures to come; each
-- method has its own record of what others see meanwhile. A method that only reads leaves the state as it is,
-- the failures to come with it.
use csi_driver_trusted_ca.Common.{[], List, Option, Bytes, codes, ◌++◌}
use csi_driver_trusted_ca.Path.{clean}
use csi_driver_trusted_ca.Sys.{Error, Result, ok, err, Nodes, World, Sys}
use csi_driver_trusted_ca.Storage.{Reply, other, Storage}
use csi_driver_trusted_ca.Storage.Memory.{Codec}
use csi_driver_trusted_ca.Filesystem.{
  FilesystemOptions, remove_volume, read_metadata, write_metadata, register_metadata, tempfs_path,
}
use csi_driver_trusted_ca.Filesystem.Write.{write_files, list_volumes}

pub record Disk : Type 0 where
  pub nodes : Nodes
  pub faults : List (Option Error)

-- the world in which a method starts
abbrev pub at_start : Disk → World
at_start d = record { nodes = d.nodes; observed = []; faults = d.faults }

abbrev pub at_end : World → Disk
at_end w = record { nodes = w.nodes; faults = w.faults }

abbrev pub replied : {A : Type 0} → Result A → Reply A
replied (ok a) = Reply.ok a
replied (err e) = Reply.err (other (codes "filesystem"))

-- a method that answers with the package's own errors
abbrev pub answered : {A : Type 0} → Result (Reply A) → Reply A
answered (ok r) = r
answered (err e) = Reply.err (other (codes "filesystem"))

abbrev pub run_on : {A : Type 0} → Sys A → Disk → Reply A × Disk
run_on m d = let (r, w) = m (at_start d) in (replied r, at_end w)

-- PathForVolume
unfoldable pub path_for_volume : Bytes → Bytes → Bytes
path_for_volume base_dir id =
    clean (clean (tempfs_path base_dir ++ codes "/" ++ id) ++ codes "/data")

-- The time and the random names of a method are parameters that may depend on where it starts.
module _ (c : Codec) (f : FilesystemOptions) (base_dir : Bytes) (stamp : Disk → Bytes)
    (randoms : Disk → List Bytes) (openssl : Bytes → Sys Unit) where
  abbrev pub filesystem : Storage
  filesystem = record {
    State = Disk;
    path_for_volume = path_for_volume base_dir;
    remove_volume = λ id. run_on (remove_volume id);
    read_metadata = λ id d. answered (read_metadata c base_dir id (at_start d)).0;
    list_volumes = λ d. replied (list_volumes base_dir (at_start d)).0;
    write_metadata = λ id meta. run_on (write_metadata c id meta);
    register_metadata = λ meta. run_on (register_metadata c base_dir meta);
    write_files =
        λ meta files d. run_on (write_files f base_dir (stamp d) (randoms d) openssl meta files) d;
  }
