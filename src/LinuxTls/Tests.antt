-- ===== src/LinuxTls/Tests.antt =====
-- A bundle of two certificates.
use csi_driver_trusted_ca.Common.{
  ◌≡◌, ◌≢◌, refl, [], ◌∷◌, some, none, Bytes, codes, list_beq, list_eq, nat_eq, arith, lookup,
}
use csi_driver_trusted_ca.Validate.{FilePath}
use csi_driver_trusted_ca.Sys.{of_process, ok, file, dir, link, Nodes}
use csi_driver_trusted_ca.Os.{at}
use csi_driver_trusted_ca.LinuxTls.{create_ca_bundle, bundle_name, entries_in}
use csi_driver_trusted_ca.LinuxTls.Bundle.{bundle_text}
use csi_driver_trusted_ca.LinuxTls.Create.{create_ca_bundle-Bundled, created, start}

abbrev ts : Bytes
ts = codes "..2022.1"

abbrev two_certificates : Nodes
two_certificates =
    (ts ∷ [], dir 0o755)
    ∷ (ts ∷ codes "b.pem" ∷ [], file (codes "B") 0o440 of_process)
    ∷ (ts ∷ codes "a.pem" ∷ [], file (codes "A") 0o440 of_process)
    ∷ []

certificates_flat :
    (name : Bytes) (t : FilePath) → at (ts ∷ name ∷ []) two_certificates ≢ some (link t)
unfolding at lookup list_beq
certificates_flat name t h = absurd (ground arith)

dir_there : at (ts ∷ []) two_certificates ≡ some (dir 0o755)
unfolding at lookup list_beq
dir_there = refl

no_bundle : at (ts ∷ bundle_name ∷ []) two_certificates ≡ none
unfolding at lookup list_beq
no_bundle = refl

create_ca_bundle-Bundled_example :
    ((create_ca_bundle ts (start ts two_certificates 0o755 dir_there certificates_flat no_bundle)).0
      ≡ ok (bundle_name ∷ []))
    × (at
          (ts ∷ bundle_name ∷ [])
          (create_ca_bundle ts
            (start ts two_certificates 0o755 dir_there certificates_flat no_bundle)).1.nodes
        ≡ some (
            file
              (bundle_text two_certificates ts (
                entries_in
                  (ts ∷ [])
                  (created ts two_certificates 0o755 dir_there certificates_flat no_bundle)))
              0o666
              of_process))
    × (at []
          (create_ca_bundle ts
            (start ts two_certificates 0o755 dir_there certificates_flat no_bundle)).1.nodes
        ≡ at [] two_certificates)
create_ca_bundle-Bundled_example =
    create_ca_bundle-Bundled ts two_certificates 0o755 dir_there certificates_flat no_bundle []
      (λ e. cc)
