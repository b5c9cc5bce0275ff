-- ===== src/Registry/Client.antt =====
-- pkg/registry/client.go. Docker's client, the resolver, the registry that images are copied from and
-- the readers of compressed data are parameters; user agents are left out.
use csi_driver_trusted_ca.Common.{
  Bool, false, ◌&&◌, not, List, [], ◌∷◌, ◌++◌, Option, none, some, Bytes, codes, ◌=?◌, list_eq,
  nat_eq, if◌then◌else◌,
}

-- what a library's call returns
pub data Answer (A : Type 0) : Type 0 where
  answer : A → Answer A
  refused : Bytes → Answer A

-- auth.Client: the Docker client or another
pub data Authorizer (D : Type 0) : Type 0 where
  docker : D → Authorizer D
  foreign : Authorizer D

pub record Credential : Type 0 where
  pub username : Bytes
  pub password : Bytes
  pub refresh_token : Bytes

pub record RegistryAuthorizer : Type 0 where
  pub cached : Bool
  pub credential : Bytes → Answer Credential

-- D is Docker's client, R a resolver and W a writer.
pub record Client (D R W : Type 0) : Type 0 where
  pub debug : Bool
  pub enable_cache : Bool
  pub credentials_file : Bytes
  pub out : W
  pub authorizer : Option (Authorizer D)
  pub registry_authorizer : Option RegistryAuthorizer
  pub resolver : Option R

abbrev pub ClientOption : Type 0 → Type 0 → Type 0 → Type 0
ClientOption D R W = Client D R W → Client D R W

module _ {D R W : Type 0} where
  abbrev pub client_opt_debug : Bool → ClientOption D R W
  client_opt_debug debug client = record client { debug = debug }

  abbrev pub client_opt_enable_cache : Bool → ClientOption D R W
  client_opt_enable_cache enable_cache client = record client { enable_cache = enable_cache }

  abbrev pub client_opt_writer : W → ClientOption D R W
  client_opt_writer out client = record client { out = out }

  abbrev pub client_opt_credentials_file : Bytes → ClientOption D R W
  client_opt_credentials_file file client = record client { credentials_file = file }

  abbrev pub client_opt_resolver : R → ClientOption D R W
  client_opt_resolver resolver client = record client { resolver = some resolver }

  unfoldable pub with_options : List (ClientOption D R W) → Client D R W → Client D R W
  with_options [] client = client
  with_options (option ∷ options) client = with_options options (option client)

-- the calls of the libraries
pub record Docker (D R W : Type 0) : Type 0 where
  pub new_docker : Answer D
  pub resolver_with_opts : Authorizer D → Answer R
  pub docker_credential : D → Bytes → Answer (Bytes × Bytes)
  pub discard : W

-- A user's name that is blank stands for a bearer token.
abbrev pub to_credential : Answer (Bytes × Bytes) → Answer Credential
to_credential (refused e) = refused (codes "unable to retrieve credentials")
to_credential (answer (username, password)) =
    if (username =? []) && not (password =? [])
    then answer record { username = []; password = []; refresh_token = password }
    else answer record { username = username; password = password; refresh_token = [] }

module _ {D R W : Type 0} (lib : Docker D R W) where
  abbrev pub credential_of : Authorizer D → Bytes → Answer Credential
  credential_of foreign reg = refused (codes "unable to obtain docker client")
  credential_of (docker d) reg = to_credential (lib.docker_credential d reg)

  unfoldable pub with_authorizer : Client D R W → Answer (Authorizer D)
  with_authorizer client = elim client.authorizer [
    | some a ↦ answer a
    | none ↦ elim lib.new_docker [ answer d ↦ answer (docker d) | refused e ↦ refused e ]
  ]

  unfoldable pub with_resolver : Client D R W → Authorizer D → Answer R
  with_resolver client a = elim client.resolver [
    | some r ↦ answer r
    | none ↦ lib.resolver_with_opts a
  ]

  unfoldable pub with_registry_authorizer : Client D R W → Authorizer D → RegistryAuthorizer
  with_registry_authorizer client a = elim client.registry_authorizer [
    | some r ↦ r
    | none ↦ record { cached = client.enable_cache; credential = credential_of a }
  ]

  abbrev pub initial : Client D R W
  initial = record {
    debug = false;
    enable_cache = false;
    credentials_file = [];
    out = lib.discard;
    authorizer = none;
    registry_authorizer = none;
    resolver = none;
  }

  -- NewClient behind its options
  unfoldable pub completed : Client D R W → Answer (Client D R W)
  completed client = elim (with_authorizer client) [
    | refused e ↦ refused e
    | answer a ↦ elim (with_resolver client a) [
      | refused e ↦ refused e
      | answer r ↦ answer (record client {
        authorizer = some a;
        registry_authorizer = some (with_registry_authorizer client a);
        resolver = some r;
      })
    ]
  ]

  unfoldable pub new_client : List (ClientOption D R W) → Answer (Client D R W)
  new_client options = completed (with_options options initial)

pub record LoginOperation : Type 0 where
  pub username : Bytes
  pub password : Bytes
  pub insecure : Bool

abbrev pub LoginOption : Type 0
LoginOption = LoginOperation → LoginOperation

abbrev pub login_opt_basic_auth : Bytes → Bytes → LoginOption
login_opt_basic_auth username password operation = record operation {
  username = username;
  password = password;
}

abbrev pub login_opt_insecure : Bool → LoginOption
login_opt_insecure insecure operation = record operation { insecure = insecure }

unfoldable pub with_login_options : List LoginOption → LoginOperation → LoginOperation
with_login_options [] operation = operation
with_login_options (option ∷ options) operation = with_login_options options (option operation)

-- The error, and what is printed. LoginWithOpts is given the host and the operation.
abbrev pub logged_in : Option Bytes → Option Bytes × Bytes
logged_in (some e) = (some e, [])
logged_in none = (none, codes "Login Succeeded" ++ 10 ∷ [])

unfoldable pub login :
    (Bytes → LoginOperation → Option Bytes) → Bytes → List LoginOption → Option Bytes × Bytes
login login_with_opts host options = logged_in (
    login_with_opts host
      (with_login_options options record { username = []; password = []; insecure = false }))

abbrev pub logged_out : Bytes → Option Bytes → Option Bytes × Bytes
logged_out host (some e) = (some e, [])
logged_out host none = (none, codes "Removing login credentials for " ++ host ++ 10 ∷ [])

unfoldable pub logout : (Bytes → Option Bytes) → Bytes → Option Bytes × Bytes
logout remove_login host = logged_out host (remove_login host)
