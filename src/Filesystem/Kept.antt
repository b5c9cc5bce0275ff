-- ===== src/Filesystem/Kept.antt =====
-- RegisterMetadata of Filesystem as an update of one volume's metadata.
use csi_driver_trusted_ca.Common.{
  ℕ, refl, sym, ap, subst, ◌≡◌, ◌≢◌, inl, inr, Bool, true, false, Bool-cases, Option, none, some,
  [], ◌∷◌, Bytes, codes, if◌then◌else◌,
}
use csi_driver_trusted_ca.Path.{clean_elems}
use csi_driver_trusted_ca.Validate.{FilePath}
use csi_driver_trusted_ca.Sys.{Owner, ok, file, Nodes, pure, ◌>>◌}
use csi_driver_trusted_ca.Sys.Returns.{Returns, Returns-bind, Returns-pure}
use csi_driver_trusted_ca.Os.{at}
use csi_driver_trusted_ca.Storage.{Metadata, Reply, invalid_json}
use csi_driver_trusted_ca.Storage.Memory.{Codec, metadata_file}
use csi_driver_trusted_ca.Filesystem.{
  read_metadata, ensure_volume_directory, write_metadata, register_metadata, update_metadata,
}
use csi_driver_trusted_ca.Filesystem.Register.{
  Registered, Room, read_metadata-missing, read_metadata-file, stored-Returns, IsReadableRoot,
}

-- the metadata that a volume has: none, or what encoding/json reads in its file
abbrev pub KeepsMetadata : Codec → Bytes → Nodes → Option Metadata → Type 0
KeepsMetadata c id n none = at (id ∷ metadata_file ∷ []) n ≡ none
KeepsMetadata c id n (some old) =
    (t : Bytes) × (m : ℕ) × (u : Owner) × (at (id ∷ metadata_file ∷ []) n ≡ some (file t m u))
    × (c.unmarshal t ≡ some old)

-- the metadata has the volume's ID
abbrev pub IsNamed : Bytes → Option Metadata → Type 0
IsNamed id none = Unit
IsNamed id (some old) = old.volume_id ≡ id

module _ (c : Codec) (meta : Metadata) where
  -- what RegisterMetadata makes of a volume's metadata, and whether it writes
  abbrev pub registration : Option Metadata → Bool × Metadata
  registration none = (true, meta)
  registration (some old) =
      if c.deep_equal old.volume_context meta.volume_context
      then (false, old)
      else (true, record old { volume_context = meta.volume_context })

  -- no path but the volume's metadata and its directories changed
  abbrev pub IsUnrelated : FilePath → Type 0
  IsUnrelated q =
      (meta.volume_id ∷ [] ≢ q)
      × (meta.volume_id ∷ codes "data" ∷ [] ≢ q)
      × (meta.volume_id ∷ metadata_file ∷ [] ≢ q)

  module _ (base_dir : Bytes) (root : IsReadableRoot base_dir)
      (plain : clean_elems meta.volume_id ≡ meta.volume_id ∷ []) (n : Nodes)
      (room : Room meta.volume_id n) (q : FilePath) (apart : IsUnrelated q) where
    -- the registration is made, and the metadata is read again
    abbrev Outcome : Bool × Metadata → Type 0
    Outcome (wrote, kept) =
        (n' : Nodes) × Returns (register_metadata c base_dir meta) n (ok wrote) n'
        × Returns (read_metadata c base_dir meta.volume_id) n' (ok (Reply.ok kept)) n'
        × (at q n' ≡ at q n)

    stored :
        (kept : Metadata) (n' : Nodes)
        → c.unmarshal (c.marshal kept) ≡ some kept
        → Returns (register_metadata c base_dir meta) n (ok true) n'
        → Registered meta.volume_id (c.marshal kept) n n'
        → Outcome (true, kept)
    stored kept n' again r h = (
      n',
      r,
      subst (λ x. Returns (read_metadata c base_dir meta.volume_id) n' (ok x) n')
          (ap (λ o. elim o [ none ↦ Reply.err invalid_json | some m ↦ Reply.ok m ]) again)
          (read_metadata-file c base_dir root meta.volume_id plain n' (c.marshal kept) h.mode
            h.owner h.there),
      let (a, b, d) = apart in h.other q a b d,
    )

    -- the volume's metadata is changed, or it is not
    updated :
        (old : Metadata)
        → KeepsMetadata c meta.volume_id n (some old)
        → old.volume_id ≡ meta.volume_id
        → c.unmarshal (c.marshal (registration (some old)).1) ≡ some (registration (some old)).1
        → Outcome (registration (some old))
    unfolding register_metadata update_metadata
    updated old (t, m, u, h, e) same again =
        let read : Returns (read_metadata c base_dir meta.volume_id) n (ok (Reply.ok old)) n =
          subst (λ x. Returns (read_metadata c base_dir meta.volume_id) n (ok x) n)
            (ap (λ o. elim o [ none ↦ Reply.err invalid_json | some m ↦ Reply.ok m ]) e)
            (read_metadata-file c base_dir root meta.volume_id plain n t m u h) in
        elim (Bool-cases (c.deep_equal old.volume_context meta.volume_context)) [
          | inl q ↦ rw q (
            n,
            Returns-bind _ _ read (rw (update_metadata, q) (Returns-pure false n)),
            read,
            refl,
          )
          | inr q ↦
              let (n', r, g) =
                stored-Returns c meta.volume_id plain n room
                  (record old { volume_context = meta.volume_context }) (inr (t, m, u, h)) in
              rw q (
                stored (record old { volume_context = meta.volume_context }) n' (rw q at again)
                  (Returns-bind _ _ read (
                    rw (update_metadata, q)
                      (subst
                        (λ k.
                          Returns
                            (do
                              ensure_volume_directory meta.volume_id
                              write_metadata c k
                                  (record old { volume_context = meta.volume_context })
                              pure true)
                            n (ok true) n')
                        (sym same) r)))
                  g)
        ]

    first :
        KeepsMetadata c meta.volume_id n none
        → c.unmarshal (c.marshal meta) ≡ some meta
        → Outcome (true, meta)
    unfolding register_metadata
    first h again =
        let (n', r, g) = stored-Returns c meta.volume_id plain n room meta (inl h) in
        stored meta n' again
          (Returns-bind _ _ (read_metadata-missing c base_dir root meta.volume_id plain n h) r) g

-- RegisterMetadata writes the metadata of a new volume, writes the volume context where it changed and
-- else changes nothing, and ReadMetadata reads what it left. Nothing but the volume's metadata and
-- directories changes. io/fs takes the path of the tmpfs, as it does below a relative data root, no
-- call fails by chance, the volume ID is one plain name whose directories can
-- be made, the metadata in the tree has that ID, and encoding/json reads the new metadata back.
pub register_metadata-Returns :
    (c : Codec) (base_dir : Bytes) (meta : Metadata) (n : Nodes) (o : Option Metadata)
    (q : FilePath)
    → IsReadableRoot base_dir
    → clean_elems meta.volume_id ≡ meta.volume_id ∷ []
    → Room meta.volume_id n
    → IsUnrelated c meta q
    → KeepsMetadata c meta.volume_id n o
    → IsNamed meta.volume_id o
    → c.unmarshal (c.marshal (registration c meta o).1) ≡ some (registration c meta o).1
    → (n' : Nodes) × Returns (register_metadata c base_dir meta) n (ok (registration c meta o).0) n'
      × Returns
          (read_metadata c base_dir meta.volume_id)
          n'
          (ok (Reply.ok (registration c meta o).1))
          n'
      × (at q n' ≡ at q n)
register_metadata-Returns c base_dir meta n none q root plain room apart h named again =
    first c meta base_dir root plain n room q apart h again
register_metadata-Returns c base_dir meta n (some old) q root plain room apart h named again =
    updated c meta base_dir root plain n room q apart old h named again
