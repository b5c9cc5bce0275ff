-- ===== src/Registry/Samples.antt =====
-- A registry with one image, for the tests: a manifest, a layer that is compressed and one that is not.
use csi_driver_trusted_ca.Common.{[], ◌∷◌, none, Bytes, codes}
use csi_driver_trusted_ca.Registry.Client.{answer, refused, Docker}
use csi_driver_trusted_ca.Registry.Pull.{
  Descriptor, media_type_image_layer, media_type_image_layer_gzip, Remote,
}

abbrev pub manifest : Descriptor
manifest = record {
  media_type = codes "application/vnd.oci.image.manifest.v1+json";
  digest = codes "m";
}

abbrev pub gzip_layer : Descriptor
gzip_layer = record { media_type = media_type_image_layer_gzip; digest = codes "z" }

abbrev pub tar_layer : Descriptor
tar_layer = record { media_type = media_type_image_layer; digest = codes "t" }

-- A stream is a text, and unzipping marks it.
abbrev pub sample_remote : Remote Unit Bytes Bytes
sample_remote = record {
  parse_reference = λ ref. answer ref;
  copy = λ r v. answer (manifest, gzip_layer ∷ tar_layer ∷ []);
  fetch = λ d. answer d.digest;
  gzip_reader = λ s. answer (b'u' ∷ s);
  close = λ s. none;
}

abbrev pub sample_docker : Docker Unit Unit Unit
sample_docker = record {
  new_docker = answer tt;
  resolver_with_opts = λ a. refused (codes "unused");
  docker_credential = λ d reg. answer ([], []);
  discard = tt;
}
