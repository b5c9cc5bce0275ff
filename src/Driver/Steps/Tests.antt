-- ===== src/Driver/Steps/Tests.antt =====
-- Calls of the node server over MemoryFS that run at the same time.
use csi_driver_trusted_ca.Common.{
  ◌≡◌, refl, true, false, [], ◌∷◌, none, some, Bytes, codes, lookup, insert, list_beq, list_eq,
  nat_eq,
}
use csi_driver_trusted_ca.Storage.{Metadata, Files, Reply, ok, err, not_found}
use csi_driver_trusted_ca.Storage.Memory.{
  Codec, MemoryFs, memory, metadata_file, read_metadata, register_metadata, register_in,
  remove_volume,
}
use csi_driver_trusted_ca.Manager.{empty, is_managed, unmanage_volume}
use csi_driver_trusted_ca.Manager.Channels.{empty-IsValid, taken_on}
use csi_driver_trusted_ca.Driver.{
  is_mount, Mounter, PublishRequest, UnpublishRequest, done, failed, store_error, Node,
  is_ephemeral, ephemeral_key, from_node_publish_volume_request,
}
use csi_driver_trusted_ca.Driver.Steps.{Phase, reading, letting_go, publishing, unpublishing, Reach}
use csi_driver_trusted_ca.Driver.Steps.Calm.{Reach-calm}
use csi_driver_trusted_ca.Driver.Steps.Race.{publish-raced}

-- keeps the volume's name only
abbrev names_only : Codec
names_only = record {
  marshal = λ meta. meta.volume_id;
  unmarshal = λ json. some (record { volume_id = json; target_path = []; volume_context = [] });
  deep_equal = λ a b. false;
}

-- the state is the target that is mounted
abbrev one_target : Mounter
one_target = record {
  State = Bytes;
  is_mount_point = λ to st. is_mount false;
  mkdir_all = λ to st. (none, st);
  mount = λ from to options st. (none, to);
  unmount = λ to st. (none, []);
}

abbrev node : Node (memory names_only) one_target
node = record { manager = empty; store = []; mounts = [] }

abbrev request : PublishRequest
request = record {
  volume_id = codes "v1";
  target_path = codes "/pods/1";
  readonly = true;
  volume_context = (ephemeral_key, codes "true") ∷ [];
}

abbrev unrequest : UnpublishRequest
unrequest = record { volume_id = codes "v1"; target_path = codes "/pods/1" }

abbrev no_roots : Metadata → Reply Files
no_roots meta = err not_found

abbrev meta : Metadata
meta = record { volume_id = codes "v1"; target_path = []; volume_context = [] }

-- the volume, with its metadata and no other file
abbrev stored : MemoryFs
stored = (codes "v1", (metadata_file, codes "v1") ∷ []) ∷ []

is_valid : is_ephemeral request ≡ true
unfolding is_ephemeral lookup list_beq
is_valid = refl

not_managed : is_managed (codes "v1") empty ≡ false
unfolding is_managed lookup
not_managed = refl

registered :
    register_metadata names_only (from_node_publish_volume_request request) [] ≡ (ok true, stored)
unfolding register_metadata register_in from_node_publish_volume_request lookup insert list_beq
registered = refl

registered_again :
    register_metadata names_only (from_node_publish_volume_request request) stored
    ≡ (ok true, stored)
unfolding register_metadata register_in from_node_publish_volume_request lookup insert list_beq
registered_again = refl

reads : read_metadata names_only (codes "v1") stored ≡ ok meta
unfolding read_metadata lookup list_beq
reads = refl

publish-raced_example :
    Reach
      (memory names_only)
      one_target
      no_roots
      node
      (publishing request (Phase.returned done) ∷ publishing request reading ∷ [])
      (record { manager = taken_on (codes "v1") empty; store = stored; mounts = codes "/pods/1" })
    × Reach
        (memory names_only)
        one_target
        no_roots
        node
        (publishing request (Phase.returned done)
          ∷ publishing request (Phase.returned (failed (store_error not_found)))
          ∷ [])
        (record {
          manager = unmanage_volume (codes "v1") (taken_on (codes "v1") empty);
          store = (remove_volume (codes "v1") stored).1;
          mounts = [];
        })
publish-raced_example =
    publish-raced (memory names_only) one_target no_roots request node stored stored true true meta
      (codes "/pods/1") is_valid refl not_managed registered registered_again reads refl refl
      not_found refl

abbrev after_race : Node (memory names_only) one_target
after_race = record {
  manager = unmanage_volume (codes "v1") (taken_on (codes "v1") empty);
  store = (remove_volume (codes "v1") stored).1;
  mounts = [];
}

-- a third call begins
raced :
    Reach
      (memory names_only)
      one_target
      no_roots
      node
      (unpublishing unrequest letting_go
        ∷ publishing request (Phase.returned done)
        ∷ publishing request (Phase.returned (failed (store_error not_found)))
        ∷ [])
      after_race
raced =
    Reach.unpublish unrequest
      (publish-raced (memory names_only) one_target no_roots request node stored stored true true
        meta (codes "/pods/1") is_valid refl not_managed registered registered_again reads refl refl
        not_found refl).1

Reach-calm_example : after_race.manager.panicked ≡ false
Reach-calm_example =
    Reach-calm (memory names_only) one_target no_roots
      (unpublishing unrequest letting_go
        ∷ publishing request (Phase.returned done)
        ∷ publishing request (Phase.returned (failed (store_error not_found)))
        ∷ [])
      node after_race empty-IsValid raced
