-- ===== src/Command/Refused.antt =====
-- The command with an absolute data root.
use csi_driver_trusted_ca.Common.{◌≡◌, ◌≢◌, true, List, [], Bytes, codes, list_eq, nat_eq}
use csi_driver_trusted_ca.Path.{is_abs}
use csi_driver_trusted_ca.Storage.{Reply, other}
use csi_driver_trusted_ca.Storage.Memory.{Codec}
use csi_driver_trusted_ca.Sys.{Sys}
use csi_driver_trusted_ca.Source.{Source}
use csi_driver_trusted_ca.Manager.{Manager}
use csi_driver_trusted_ca.Driver.Wiring.{GrpcServer}
use csi_driver_trusted_ca.Filesystem.Interface.{Disk, filesystem}
use csi_driver_trusted_ca.Filesystem.Refused.{filesystem-refused}
use csi_driver_trusted_ca.Command.{
  CommandOptions, Outside, serving, filesystem_options, run_on_filesystem,
}
use csi_driver_trusted_ca.Command.Serving.{run_command-serving}

different_replies :
    {A : Type 0} (r : Reply A) (a : A) → r ≡ Reply.err (other (codes "filesystem")) → r ≢ Reply.ok a
different_replies r a h k = absurd (cc)

-- With an absolute data root, such as the default one, the command does not serve, whatever is on the
-- tmpfs, in the other options and in the answers from outside.
pub run_on_filesystem-absolute :
    (o : Outside) (c : Codec) (stamp : Disk → Bytes) (randoms : Disk → List Bytes)
    (openssl : Bytes → Sys Unit) (d : Disk) (opts : CommandOptions) (served : GrpcServer)
    (m : Manager) (src : Source)
    → is_abs opts.data_root ≡ true
    → run_on_filesystem o c stamp randoms openssl d opts ≢ serving served m src
unfolding run_on_filesystem
run_on_filesystem-absolute o c stamp randoms openssl d opts served m src absolute h =
    let fs = filesystem c filesystem_options opts.data_root stamp randoms openssl in
    let (named, (vols, listed, same), a, b, e) = run_command-serving o fs d opts served m src h in
    let (unread, refused, unwritten) =
      filesystem-refused c filesystem_options opts.data_root stamp randoms openssl d []
        (record { volume_id = []; target_path = []; volume_context = [] }) [] absolute in
    different_replies (fs.list_volumes d) vols refused listed
