-- ===== src/Registry/Tests.antt =====
-- References that are cleaned.
use csi_driver_trusted_ca.Common.{◌↔◌, ◌≡◌, refl, codes, list_beq, contains}
use csi_driver_trusted_ca.Path.{split, has_prefix}
use csi_driver_trusted_ca.Registry.Pull.{
  pull, opened, Opens, pull_iff, is_layer, tarball_descriptor, open_tar,
}
use csi_driver_trusted_ca.Registry.Samples.{sample_remote}
use csi_driver_trusted_ca.Registry.Reference.{clean_reference-underscored}
use csi_driver_trusted_ca.Registry.{clean_reference, replace_from}

tag_only : clean_reference (codes "r.io:5000/ca:1.0+x+y") ≡ codes "r.io:5000/ca:1.0_x_y"
unfolding clean_reference replace_from split has_prefix list_beq contains
tag_only = refl

port_only : clean_reference (codes "r.io:5000/c+a") ≡ codes "r.io:5000/c+a"
unfolding clean_reference replace_from split has_prefix list_beq contains
port_only = refl

repeated : clean_reference (codes "r.io/1+1:1+1") ≡ codes "r.io/1_1:1_1"
unfolding clean_reference replace_from split has_prefix list_beq contains
repeated = refl

clean_reference-underscored_example : clean_reference (codes "r.io/ca:1+2") ≡ codes "r.io/ca:1_2"
unfolding contains
clean_reference-underscored_example =
    clean_reference-underscored (codes "r.io/ca") (codes "1+2") refl refl refl

first_layer : pull sample_remote tt (codes "r.io/ca:1") ≡ opened (codes "uz")
unfolding pull tarball_descriptor is_layer open_tar list_beq
first_layer = refl

pull_iff_example :
    (pull sample_remote tt (codes "r.io/ca:1") ≡ opened (codes "uz"))
    ↔ Opens sample_remote tt (codes "r.io/ca:1") (codes "uz")
pull_iff_example = pull_iff sample_remote tt (codes "r.io/ca:1") (codes "uz")
