-- ===== src/Filesystem/Examples.antt =====
-- Registrations of a volume: the first one, and one over metadata that cannot be read.
use csi_driver_trusted_ca.Common.{
  Bytes, ◌≡◌, ◌≢◌, refl, true, false, inl, inr, none, some, [], ◌∷◌, codes, list_eq, nat_eq, =?_ne,
  list_beq, lookup,
}
use csi_driver_trusted_ca.Path.{clean, join, clean_elems, clean_loop, split, is_abs}
use csi_driver_trusted_ca.Sys.{of_process, ok, err, not_exist, file, dir, Nodes}
use csi_driver_trusted_ca.Sys.Returns.{Returns}
use csi_driver_trusted_ca.Os.{at}
use csi_driver_trusted_ca.Storage.{Metadata, Reply, invalid_json}
use csi_driver_trusted_ca.Storage.Memory.{Codec, metadata_file}
use csi_driver_trusted_ca.Filesystem.{
  valid_path, valid_elems, tempfs_path, read_metadata, register_metadata,
}
use csi_driver_trusted_ca.Filesystem.Write.{list_volumes}
use csi_driver_trusted_ca.Filesystem.Register.{Room, IsReadableRoot}
use csi_driver_trusted_ca.Filesystem.Kept.{register_metadata-Returns}
use csi_driver_trusted_ca.Filesystem.Stray.{register_metadata-Stray}

abbrev volume : Metadata
volume = record {
  volume_id = codes "v1";
  target_path = codes "/pods/1";
  volume_context = (codes "k", codes "v") ∷ [];
}

-- reads the one volume, and nothing in an empty file
abbrev one_volume : Codec
one_volume = record {
  marshal = λ meta. meta.volume_id;
  unmarshal = λ json. elim json [ [] ↦ none | _ ∷ _ ↦ some volume ];
  deep_equal = λ a b. false;
}

plain_id : clean_elems (codes "v1") ≡ codes "v1" ∷ []
unfolding clean_elems clean_loop split is_abs list_beq
plain_id = refl

-- the data root of the Helm chart
abbrev data_root : Bytes
data_root = codes "csi-data-dir"

root_readable : IsReadableRoot data_root
unfolding valid_path valid_elems tempfs_path clean clean_elems clean_loop join is_abs split list_beq
root_readable = refl

v1_metadata : codes "v1" ≢ metadata_file
unfolding list_beq
v1_metadata = =?_ne _ _ refl

v1_v2 : codes "v1" ∷ [] ≢ codes "v2" ∷ []
unfolding list_beq
v1_v2 = =?_ne _ _ refl

empty_Room : Room (codes "v1") []
unfolding at lookup
empty_Room = record { vol = inl refl; data_ = inl refl }

empty_none : at (codes "v1" ∷ metadata_file ∷ []) [] ≡ none
unfolding at lookup
empty_none = refl

register_metadata-Returns_example :
    (n' : Nodes) × Returns (register_metadata one_volume data_root volume) [] (ok true) n'
    × Returns (read_metadata one_volume data_root (codes "v1")) n' (ok (Reply.ok volume)) n'
    × (at (codes "v2" ∷ []) n' ≡ at (codes "v2" ∷ []) [])
register_metadata-Returns_example =
    register_metadata-Returns one_volume data_root volume [] none (codes "v2" ∷ []) root_readable
      plain_id empty_Room (v1_v2, cc, cc) empty_none tt refl

-- the volume's metadata was cut off
abbrev cut_off : Nodes
cut_off =
    (codes "v1" ∷ [], dir 0o644)
    ∷ (codes "v1" ∷ codes "data" ∷ [], dir 0o550)
    ∷ (codes "v1" ∷ metadata_file ∷ [], file [] 0o600 of_process)
    ∷ []

cut_off-Room : Room (codes "v1") cut_off
unfolding at lookup list_beq
cut_off-Room = record { vol = inr (0o644, refl); data_ = inr (0o550, refl) }

cut_off-file : at (codes "v1" ∷ metadata_file ∷ []) cut_off ≡ some (file [] 0o600 of_process)
unfolding at lookup list_beq
cut_off-file = refl

cut_off-root : at (metadata_file ∷ []) cut_off ≡ none
unfolding at lookup list_beq
cut_off-root = refl

cut_off-below : at (metadata_file ∷ metadata_file ∷ []) cut_off ≡ none
unfolding at lookup list_beq
cut_off-below = refl

register_metadata-Stray_example :
    (n' : Nodes) × Returns (register_metadata one_volume data_root volume) cut_off (ok true) n'
    × Returns (read_metadata one_volume data_root (codes "v1")) n' (ok (Reply.err invalid_json)) n'
    × Returns (list_volumes data_root) n' (err not_exist) n'
register_metadata-Stray_example =
    register_metadata-Stray one_volume data_root root_readable volume cut_off [] 0o600 of_process
      plain_id cut_off-Room cut_off-file refl refl v1_metadata cut_off-root cut_off-below
