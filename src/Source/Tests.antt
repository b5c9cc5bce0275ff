-- ===== src/Source/Tests.antt =====
-- Sources that are read.
use csi_driver_trusted_ca.Common.{
  true, List, insert, ◌≡◌, ◌≢◌, ◌↔◌, refl, [], ◌∷◌, none, Bytes, Dict, Distinct, lookup, codes,
  list_beq, contains, list_eq, nat_eq,
}
use csi_driver_trusted_ca.Path.{split}
use csi_driver_trusted_ca.Source.Entries.{or_else, configmap_files-lookup}
use csi_driver_trusted_ca.Source.{
  configmap_files, get_source, span, is_alphanumeric, configmap_source, created, invalid_config,
  failed, new, new_configmap_source,
}
use csi_driver_trusted_ca.Source.{TarItem, entry, directory, read_archive}
use csi_driver_trusted_ca.Source.Oci.{oci_files, got}
use csi_driver_trusted_ca.Registry.Samples.{sample_remote, sample_docker}
use csi_driver_trusted_ca.Registry.Client.{
  new_client, completed, with_authorizer, with_resolver, with_options,
}
use csi_driver_trusted_ca.Registry.Pull.{pull, tarball_descriptor, is_layer, open_tar}
use csi_driver_trusted_ca.Source.Names.{IsSource, get_source_iff}

from_configmap :
    new (λ ref. none) true (codes "configmap::kube-system/roots")
    ≡ created (configmap_source (codes "kube-system") (codes "roots"))
unfolding new new_configmap_source get_source span is_alphanumeric split list_beq contains
from_configmap = refl

no_namespace : new (λ ref. none) true (codes "configmap::roots") ≡ failed invalid_config
unfolding new new_configmap_source get_source span is_alphanumeric split list_beq contains
no_namespace = refl

get_source_iff_example :
    ((get_source (codes "oci::a::b") ≡ (codes "oci", codes "a::b")) × (codes "oci" ≢ []))
    ↔ IsSource (codes "oci::a::b") (codes "oci") (codes "a::b")
get_source_iff_example = get_source_iff (codes "oci::a::b") (codes "oci") (codes "a::b")

abbrev texts : Dict Bytes Bytes
texts = (codes "a.pem", codes "1") ∷ (codes "b.pem", codes "2") ∷ []

abbrev binaries : Dict Bytes Bytes
binaries = (codes "b.pem", codes "3") ∷ []

texts-Distinct : Distinct texts
unfolding lookup list_beq
texts-Distinct = (refl, (refl, tt))

binaries-Distinct : Distinct binaries
unfolding lookup list_beq
binaries-Distinct = (refl, tt)

configmap_files-lookup_example :
    lookup (codes "b.pem") (configmap_files texts binaries)
    ≡ or_else (lookup (codes "b.pem") binaries) (lookup (codes "b.pem") texts)
configmap_files-lookup_example =
    configmap_files-lookup (codes "b.pem") texts binaries texts-Distinct binaries-Distinct

-- the archive has a directory, and a file named like the stream
abbrev items : Bytes → List TarItem
items stream = directory ∷ entry stream (codes "PEM") ∷ []

image_files :
    oci_files sample_docker sample_remote items tt (codes "r.io/ca:1")
    ≡ got ((codes "uz", codes "PEM") ∷ [])
unfolding oci_files new_client completed with_authorizer with_resolver with_options read_archive
    insert pull tarball_descriptor is_layer open_tar list_beq
image_files = refl
