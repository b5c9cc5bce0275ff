-- ===== src/Endpoint/Server.antt =====
-- NewGRPCServer of pkg/driver/server.go: the socket that is removed and the address that is listened
-- on. os.Remove and net.Listen are parameters, and so are the server and its registrations.
use csi_driver_trusted_ca.Common.{
  subst, ◌≡◌, ◌≢◌, refl, Bool, true, false, ◌∷◌, [], ◌++◌, Option, none, some, Bytes, codes, ◌=?◌,
  ne→=?, if◌then◌else◌, list_eq, nat_eq,
}
use csi_driver_trusted_ca.Endpoint.{parse_endpoint, listen_on, separator}
use csi_driver_trusted_ca.Endpoint.Sound.{IsScheme, parse_endpoint_iff}

-- what os.Remove may return
pub data Removed : Type 0 where
  gone not_exist : Removed
  broken : Bytes → Removed

pub data ServerError : Type 0 where
  invalid_endpoint : ServerError
  not_removed : Bytes → ServerError
  not_listening : Bytes → ServerError

-- a server that listens on a network and an address, or an error
pub data NewServer : Type 0 where
  listening : Bytes × Bytes → NewServer
  failed : ServerError → NewServer

-- net.Listen: an error, if any
module _ (remove : Bytes → Removed) (listen : Bytes → Bytes → Option Bytes) where
  abbrev pub listened : Bytes × Bytes → Option Bytes → NewServer
  listened place none = listening place
  listened place (some e) = failed (not_listening e)

  abbrev pub listen_there : Bytes × Bytes → NewServer
  listen_there (network, address) = listened (network, address) (listen network address)

  abbrev pub cleared : Bytes × Bytes → Removed → NewServer
  cleared place (broken e) = failed (not_removed e)
  cleared place gone = listen_there place
  cleared place not_exist = listen_there place

  -- a socket that is left over is removed first
  abbrev pub serve_at : Bytes × Bytes → NewServer
  serve_at (proto, addr) =
      if proto =? codes "unix"
      then cleared (listen_on (proto, addr)) (remove (b'/' ∷ addr))
      else listen_there (listen_on (proto, addr))

  unfoldable pub new_grpc_server : Bytes → NewServer
  new_grpc_server endpoint = elim (parse_endpoint endpoint) [
    | none ↦ failed invalid_endpoint
    | some place ↦ serve_at place
  ]

  -- An endpoint that passes parseEndpoint with a scheme other than "unix" as it is written, "UNIX"
  -- among them, removes no socket, and net.Listen is asked for a network of that name: where that is
  -- refused, the server is not started.
  pub new_grpc_server-refused :
      (proto host : Bytes) (e : Bytes)
      → IsScheme proto
      → host ≢ []
      → proto ≢ codes "unix"
      → listen proto host ≡ some e
      → new_grpc_server (proto ++ separator ++ host) ≡ failed (not_listening e)
  unfolding new_grpc_server listen_on
  new_grpc_server-refused proto host e s ne other refused =
      rw
        (
          (parse_endpoint_iff (proto ++ separator ++ host) proto host).1 (refl, s, ne),
          new_grpc_server,
        )
        (rw (ne→=? proto (codes "unix") other) (rw refused refl))

  listened-listening :
      (place there : Bytes × Bytes) (r : Option Bytes)
      → listened place r ≡ listening there
      → (place ≡ there) × (r ≡ none)
  listened-listening place there none h = (cc, refl)
  listened-listening place there (some e) h = absurd (cc)

  cleared-listening :
      (place there : Bytes × Bytes) (r : Removed)
      → cleared place r ≡ listening there
      → (place ≡ there) × (listen (place.0) (place.1) ≡ none)
  cleared-listening place there (broken e) h = absurd (cc)
  cleared-listening place there gone h =
      listened-listening place there (listen (place.0) (place.1)) h
  cleared-listening place there not_exist h =
      listened-listening place there (listen (place.0) (place.1)) h

  serve_at-listening :
      (proto addr : Bytes) (there : Bytes × Bytes)
      → serve_at (proto, addr) ≡ listening there
      → (listen_on (proto, addr) ≡ there)
        × (listen (listen_on (proto, addr)).0 (listen_on (proto, addr)).1 ≡ none)
  serve_at-listening proto addr there h = by_test (proto =? codes "unix") h
    where
      by_test :
          (b : Bool)
          → (if b
              then cleared (listen_on (proto, addr)) (remove (b'/' ∷ addr))
              else listen_there (listen_on (proto, addr)))
            ≡ listening there
          → (listen_on (proto, addr) ≡ there)
            × (listen (listen_on (proto, addr)).0 (listen_on (proto, addr)).1 ≡ none)
      by_test true g = cleared-listening (listen_on (proto, addr)) there (remove (b'/' ∷ addr)) g
      by_test false g =
          listened-listening (listen_on (proto, addr)) there
            (listen (listen_on (proto, addr)).0 (listen_on (proto, addr)).1) g

  -- A server is started only on an endpoint that is a scheme, "://" and a host that is not empty, and
  -- then it listens where net.Listen accepts: on the host, below the root for "unix".
  pub new_grpc_server-listening :
      (endpoint : Bytes) (there : Bytes × Bytes)
      → new_grpc_server endpoint ≡ listening there
      → (proto : Bytes) × (host : Bytes) × (endpoint ≡ proto ++ separator ++ host)
        × IsScheme proto
        × (host ≢ [])
        × (listen_on (proto, host) ≡ there)
        × (listen (there.0) (there.1) ≡ none)
  unfolding new_grpc_server
  new_grpc_server-listening endpoint there h = by_parse (parse_endpoint endpoint) refl h
    where
      by_parse :
          (r : Option (Bytes × Bytes))
          → parse_endpoint endpoint ≡ r
          → ◌≡◌ {A = NewServer}
              (elim r [ none ↦ failed invalid_endpoint | some place ↦ serve_at place ])
              (listening there)
          → (proto : Bytes) × (host : Bytes) × (endpoint ≡ proto ++ separator ++ host)
            × IsScheme proto
            × (host ≢ [])
            × (listen_on (proto, host) ≡ there)
            × (listen (there.0) (there.1) ≡ none)
      by_parse none q g = absurd (cc)
      by_parse (some (proto, host)) q g =
          let (parts, scheme, ne) = (parse_endpoint_iff endpoint proto host).0 q in
          let (same, accepted) = serve_at-listening proto host there g in
          (
            proto,
            host,
            parts,
            scheme,
            ne,
            same,
            subst (λ t. listen (t.0) (t.1) ≡ none) same accepted,
          )
