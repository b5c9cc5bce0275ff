-- ===== src/Driver/Wiring.antt =====
-- The driver of pkg/driver/driver.go: the servers that are built of its options, and the gRPC server of
-- server.go with which they are registered. The storage, the manager and the mounts are the node's state;
-- the gRPC library is left out.
use csi_driver_trusted_ca.Common.{◌≡◌, refl, sym, ◌∙◌, ap, Bool, true, Option, none, some, Bytes}
use csi_driver_trusted_ca.Driver.Servers.{IdentityServer}
use csi_driver_trusted_ca.Endpoint.Server.{Removed, ServerError, NewServer, new_grpc_server}

-- the options that are not state
pub record DriverOptions : Type 0 where
  pub driver_name : Bytes
  pub driver_version : Bytes
  pub node_id : Bytes
  pub continue_on_not_ready : Bool

pub record NodeServer : Type 0 where
  pub node_id : Bytes
  pub continue_on_not_ready : Bool

-- the services that are registered, and where the server listens
pub record GrpcServer : Type 0 where
  pub identity : Option IdentityServer
  pub controller : Bool
  pub node : Option NodeServer
  pub place : Bytes × Bytes

-- the mounter of the options, or that of the operating system
unfoldable pub built_mounter : {M : Type 1} → M → Option M → M
built_mounter new none = new
built_mounter new (some given) = given

-- buildServers
unfoldable pub build_servers : DriverOptions → IdentityServer × NodeServer
build_servers opts = (
  record { name = opts.driver_name; version = opts.driver_version },
  record { node_id = opts.node_id; continue_on_not_ready = opts.continue_on_not_ready },
)

-- NewGRPCServerWithListener, which registers the services that it is given
unfoldable pub new_grpc_server_with_listener :
    Bytes × Bytes → Option IdentityServer → Bool → Option NodeServer → GrpcServer
new_grpc_server_with_listener place ids cs ns = record {
  identity = ids;
  controller = cs;
  node = ns;
  place = place;
}

-- NewWithListener
unfoldable pub new_with_listener : Bytes × Bytes → DriverOptions → GrpcServer
new_with_listener place opts =
    let (ids, ns) = build_servers opts in
    new_grpc_server_with_listener place (some ids) true (some ns)

pub data NewDriver : Type 0 where
  made : GrpcServer → NewDriver
  failed : ServerError → NewDriver

module _ (remove : Bytes → Removed) (listen : Bytes → Bytes → Option Bytes) where
  -- New
  unfoldable pub new_driver : Bytes → DriverOptions → NewDriver
  new_driver endpoint opts = elim (new_grpc_server remove listen endpoint) [
    | NewServer.failed e ↦ failed e
    | NewServer.listening place ↦ made (new_with_listener place opts)
  ]

  pub new_driver-made :
      (endpoint : Bytes) (opts : DriverOptions) (d : GrpcServer)
      → new_driver endpoint opts ≡ made d
      → (new_grpc_server remove listen endpoint ≡ NewServer.listening d.place)
        × (d ≡ new_with_listener d.place opts)
  unfolding new_driver new_with_listener new_grpc_server_with_listener
  new_driver-made endpoint opts d h = by_server (new_grpc_server remove listen endpoint) refl h
    where
      by_server :
          (r : NewServer)
          → new_grpc_server remove listen endpoint ≡ r
          → ◌≡◌ {A = NewDriver}
              (elim r [
                | NewServer.failed e ↦ failed e
                | NewServer.listening place ↦ made (new_with_listener place opts)
              ])
              (made d)
          → (new_grpc_server remove listen endpoint ≡ NewServer.listening d.place)
            × (d ≡ new_with_listener d.place opts)
      by_server (NewServer.failed e) q g = absurd (cc)
      by_server (NewServer.listening place) q g =
          let same : new_with_listener place opts ≡ d = cc in
          (
            q ∙ ap (λ x. NewServer.listening x.place) same,
            sym same ∙ ap (λ x. new_with_listener x.place opts) same,
          )
