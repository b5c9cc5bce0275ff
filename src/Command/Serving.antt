-- ===== src/Command/Serving.antt =====
-- What holds when the command serves.
use csi_driver_trusted_ca.Common.{
  ◌≡◌, ◌≢◌, refl, subst, Bool, List, [], ◌++◌, Option, none, some, Bytes, contains, list_beq,
  list_eq, nat_eq, ◌=?◌, =?_ne, Bool-cases, inl, inr,
}
use csi_driver_trusted_ca.Storage.{Storage, Reply, ok, err}
use csi_driver_trusted_ca.Source.{Source, NewSource, new, new_getter, get_source}
use csi_driver_trusted_ca.Source.Names.{IsSource, get_source_iff}
use csi_driver_trusted_ca.Manager.{
  Manager, listing, NewManager, new_manager, is_managed, resume, empty,
}
use csi_driver_trusted_ca.Manager.Resume.{IsComplete, new_manager-is_managed}
use csi_driver_trusted_ca.Endpoint.{separator, listen_on}
use csi_driver_trusted_ca.Endpoint.Sound.{IsScheme}
use csi_driver_trusted_ca.Endpoint.Server.{new_grpc_server-listening}
use csi_driver_trusted_ca.Driver.Wiring.{
  GrpcServer, NewDriver, new_driver, new_driver-made, new_with_listener,
}
use csi_driver_trusted_ca.Command.{
  CommandOptions, Outside, serving, manager_options, driver_options, new_filesystem,
  completed_options, with_filesystem, with_source, with_manager, with_driver, run_command,
}

-- a source that New makes has a name and a configuration
created-IsSource :
    (parse : Bytes → Option Bytes) (client_made : Bool) (text : Bytes) (src : Source)
    → new parse client_made text ≡ NewSource.created src
    → IsSource text (get_source text).0 (get_source text).1
unfolding new list_beq
created-IsSource parse client_made text src h =
    (get_source_iff text (get_source text).0 (get_source text).1).0 (refl, named)
  where
    named : (get_source text).0 ≢ []
    named e =
        let g : new_getter parse client_made [] (get_source text).1 ≡ NewSource.created src =
          subst (λ n. new_getter parse client_made n (get_source text).1 ≡ NewSource.created src) e
            h in
        absurd (cc)

module _ (s : Storage) (store : s.State) where
  -- a manager that is started has a node's name and a list of volumes
  started-IsComplete :
      (opts : CommandOptions) (m : Manager)
      → new_manager s (manager_options opts) store ≡ NewManager.started m
      → IsComplete (manager_options opts) × ((vols : List Bytes) × (s.list_volumes store ≡ ok vols))
  unfolding new_manager
  started-IsComplete opts m h = elim (Bool-cases (opts.node_id =? [])) [
    | inl e ↦ absurd (cc (rw (e, new_manager) at h))
    | inr e ↦ (
      record {
        log = refl;
        metadata_reader = refl;
        get_certificates = refl;
        write_certificates = refl;
        node_id = =?_ne opts.node_id [] e;
      },
      by_list (s.list_volumes store) refl (rw (e, new_manager) at h),
    )
  ]
    where
      by_list :
          (r : Reply (List Bytes))
          → s.list_volumes store ≡ r
          → ◌≡◌ {A = NewManager}
              (elim r [
                | err e ↦ NewManager.failed (listing e)
                | ok vols ↦ resume s vols store empty
              ])
              (NewManager.started m)
          → (vols : List Bytes) × (s.list_volumes store ≡ ok vols)
      by_list (err e) q g = absurd (cc)
      by_list (ok vols) q g = (vols, q)

module _ (o : Outside) (s : Storage) (store : s.State) (opts : CommandOptions) where
  -- what a command that serves was started with
  pub record Started (d : GrpcServer) (m : Manager) (src : Source) : Type 0 where
    pub configured : o.rest_config ≡ none
    pub filesystem : new_filesystem o opts.data_root ≡ none
    pub source :
        new o.parse_normalized_named o.client_made opts.trusted_certs_source ≡ NewSource.created src
    pub manager : new_manager s (manager_options opts) store ≡ NewManager.started m
    pub driver : new_driver o.remove o.listen opts.endpoint (driver_options opts) ≡ NewDriver.made d

  run_command-Started :
      (d : GrpcServer) (m : Manager) (src : Source)
      → run_command o s store opts ≡ serving d m src
      → Started d m src
  unfolding run_command
  run_command-Started d m src h = by_config o.rest_config refl h
    where
      by_driver :
          (m' : Manager) (src' : Source) (r : NewDriver)
          → o.rest_config ≡ none
          → new_filesystem o opts.data_root ≡ none
          → new o.parse_normalized_named o.client_made opts.trusted_certs_source
            ≡ NewSource.created src'
          → new_manager s (manager_options opts) store ≡ NewManager.started m'
          → new_driver o.remove o.listen opts.endpoint (driver_options opts) ≡ r
          → with_driver o s store opts m' src' r ≡ serving d m src
          → Started d m src
      by_driver m' src' (NewDriver.failed e) c f q g n k = absurd (cc)
      by_driver m' src' (NewDriver.made p) c f q g n k = record {
        configured = c;
        filesystem = f;
        source = cc;
        manager = cc;
        driver = cc;
      }

      by_manager :
          (src' : Source) (r : NewManager)
          → o.rest_config ≡ none
          → new_filesystem o opts.data_root ≡ none
          → new o.parse_normalized_named o.client_made opts.trusted_certs_source
            ≡ NewSource.created src'
          → new_manager s (manager_options opts) store ≡ r
          → with_manager o s store opts src' r ≡ serving d m src
          → Started d m src
      by_manager src' (NewManager.failed e) c f q g k = absurd (cc)
      by_manager src' (NewManager.started m') c f q g k =
          by_driver m' src' (new_driver o.remove o.listen opts.endpoint (driver_options opts)) c f q
            g refl k

      by_source :
          (r : NewSource)
          → o.rest_config ≡ none
          → new_filesystem o opts.data_root ≡ none
          → new o.parse_normalized_named o.client_made opts.trusted_certs_source ≡ r
          → with_source o s store opts r ≡ serving d m src
          → Started d m src
      by_source (NewSource.failed e) c f q k = absurd (cc)
      by_source (NewSource.created src') c f q k =
          by_manager src' (new_manager s (manager_options opts) store) c f q refl k

      by_filesystem :
          (r : Option Bytes)
          → o.rest_config ≡ none
          → new_filesystem o opts.data_root ≡ r
          → with_filesystem o s store opts r ≡ serving d m src
          → Started d m src
      by_filesystem (some e) c f k = absurd (cc)
      by_filesystem none c f k =
          by_source (new o.parse_normalized_named o.client_made opts.trusted_certs_source) c f refl
            k

      by_config :
          (r : Option Bytes)
          → o.rest_config ≡ r
          → completed_options o s store opts r ≡ serving d m src
          → Started d m src
      by_config (some e) c k = absurd (cc)
      by_config none c k = by_filesystem (new_filesystem o opts.data_root) c refl k

  -- A command that serves has a node's name; its manager manages exactly the volumes that the storage
  -- lists; its source's text is a name, "::" and a configuration on one line; and it listens, where
  -- net.Listen accepts, at an endpoint that is a scheme, "://" and a host that is not empty. All three
  -- services are registered there, with the driver's name, its version and the node's name.
  pub run_command-serving :
      (d : GrpcServer) (m : Manager) (src : Source)
      → run_command o s store opts ≡ serving d m src
      → (opts.node_id ≢ [])
        × ((vols : List Bytes) × (s.list_volumes store ≡ ok vols)
            × ((k : Bytes) → is_managed k m ≡ contains vols k))
        × IsSource opts.trusted_certs_source
            (get_source opts.trusted_certs_source).0
            (get_source opts.trusted_certs_source).1
        × ((proto : Bytes) × (host : Bytes) × (opts.endpoint ≡ proto ++ separator ++ host)
            × IsScheme proto
            × (host ≢ [])
            × (listen_on (proto, host) ≡ d.place)
            × (o.listen (d.place.0) (d.place.1) ≡ none))
        × (d ≡ new_with_listener d.place (driver_options opts))
  run_command-serving d m src h =
      let r = run_command-Started d m src h in
      let (listens, wired) =
        new_driver-made o.remove o.listen opts.endpoint (driver_options opts) d r.driver in
      let (complete, (vols, listed)) = started-IsComplete s store opts m r.manager in
      (
        complete.node_id,
        (
          vols,
          listed,
          λ k.
              new_manager-is_managed s store (manager_options opts) vols m k complete listed
                r.manager,
        ),
        created-IsSource o.parse_normalized_named o.client_made opts.trusted_certs_source src
            r.source,
        new_grpc_server-listening o.remove o.listen opts.endpoint d.place listens,
        wired,
      )
