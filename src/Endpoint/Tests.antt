-- ===== src/Endpoint/Tests.antt =====
-- An endpoint that is taken apart.
use csi_driver_trusted_ca.Common.{◌≡◌, ◌≢◌, ◌↔◌, refl, some, codes, ◌++◌, [], list_beq}
use csi_driver_trusted_ca.Endpoint.{listen_on, separator, parse_endpoint, cut, to_lower}
use csi_driver_trusted_ca.Endpoint.Server.{
  new_grpc_server, new_grpc_server-refused, not_exist, failed, not_listening, listening,
}
use csi_driver_trusted_ca.Common.{
  if◌then◌else◌, ◌=?◌, ◌||◌, Option, none, Bytes, inl, nat_eq, list_eq, =?_ne,
}
use csi_driver_trusted_ca.Endpoint.Sound.{IsScheme, parse_endpoint_iff}
use csi_driver_trusted_ca.Path.{has_prefix}

unix_socket :
    parse_endpoint (codes "unix://csi/csi.sock") ≡ some (codes "unix", codes "csi/csi.sock")
unfolding parse_endpoint cut has_prefix to_lower list_beq
unix_socket = refl

parse_endpoint_iff_example :
    (parse_endpoint (codes "UNIX://csi.sock") ≡ some (codes "UNIX", codes "csi.sock")) ↔ (
      (codes "UNIX://csi.sock" ≡ codes "UNIX" ++ separator ++ codes "csi.sock")
      × IsScheme (codes "UNIX")
      × (codes "csi.sock" ≢ []))
parse_endpoint_iff_example =
    parse_endpoint_iff (codes "UNIX://csi.sock") (codes "UNIX") (codes "csi.sock")

-- net.Listen, for the networks "unix" and "tcp"
abbrev listen_known : Bytes → Bytes → Option Bytes
listen_known network address =
    if (network =? codes "unix") || (network =? codes "tcp")
    then none
    else some (codes "unknown network")

upper_unix : codes "UNIX" ≢ codes "unix"
unfolding list_beq
upper_unix = =?_ne (codes "UNIX") (codes "unix") refl

new_grpc_server-refused_example :
    new_grpc_server (λ addr. not_exist) listen_known (codes "UNIX" ++ separator ++ codes "csi.sock")
    ≡ failed (not_listening (codes "unknown network"))
unfolding to_lower list_beq
new_grpc_server-refused_example =
    new_grpc_server-refused (λ addr. not_exist) listen_known (codes "UNIX") (codes "csi.sock")
      (codes "unknown network") (inl refl) (cc) upper_unix refl

starts :
    new_grpc_server (λ addr. not_exist) listen_known (codes "unix://csi.sock")
    ≡ listening (codes "unix", codes "/csi.sock")
unfolding new_grpc_server listen_on parse_endpoint cut has_prefix to_lower list_beq
starts = refl
