-- ===== src/Source/Oci.antt =====
-- GetFiles of pkg/source/oci_source.go, with the client of pkg/registry. The insecure resolver and what
-- the archive's reader returns are parameters.
use csi_driver_trusted_ca.Common.{List, [], ◌∷◌, Option, none, some, Bytes}
use csi_driver_trusted_ca.Storage.{Files}
use csi_driver_trusted_ca.Source.{TarItem, read_archive}
use csi_driver_trusted_ca.Registry.Client.{
  Answer, answer, refused, Client, Docker, client_opt_resolver, new_client,
}
use csi_driver_trusted_ca.Registry.Pull.{Remote, Pulled, opened, PullError, pull}

pub data OciError : Type 0 where
  no_client : Bytes → OciError
  not_pulled : PullError → OciError
  broken_archive no_resolver : OciError

pub data OciFiles : Type 0 where
  got : Files → OciFiles
  failed : OciError → OciFiles

module _ {D R W V S : Type 0} (lib : Docker D R W) (remote : Remote R V S)
    (tar_items : S → List TarItem) (resolver : R) where
  abbrev pub of_archive : Option Files → OciFiles
  of_archive none = failed broken_archive
  of_archive (some files) = got files

  abbrev pub of_pull : Pulled S → OciFiles
  of_pull (Pulled.failed e) = failed (not_pulled e)
  of_pull (opened stream) = of_archive (read_archive (tar_items stream) [])

  -- the client's resolver; a nil pointer where there is none
  abbrev pub with_client_resolver : Bytes → Option R → OciFiles
  with_client_resolver ref none = failed no_resolver
  with_client_resolver ref (some r) = of_pull (pull remote r ref)

  abbrev pub with_oci_client : Bytes → Answer (Client D R W) → OciFiles
  with_oci_client ref (refused e) = failed (no_client e)
  with_oci_client ref (answer client) = with_client_resolver ref client.resolver

  unfoldable pub oci_files : Bytes → OciFiles
  oci_files ref = with_oci_client ref (new_client lib (client_opt_resolver resolver ∷ []))
