-- ===== src/Filesystem/Published.antt =====
-- NodePublishVolume over Filesystem: from the request to the files that a pod reads.
use csi_driver_trusted_ca.Common.{
  ◌≡◌, ◌≢◌, refl, sym, ap, subst, ◌∙◌, inl, true, false, List, [], ◌∷◌, none, some, Bytes, Dict,
  lookup, list_eq, nat_eq,
}
use csi_driver_trusted_ca.Path.{clean_elems}
use csi_driver_trusted_ca.Validate.{FilePath, FileProjection, valid, validate_payload}
use csi_driver_trusted_ca.Sys.{Result, ok, err, Nodes, Sys}
use csi_driver_trusted_ca.Sys.Returns.{Returns, Returns-bind}
use csi_driver_trusted_ca.Os.{at}
use csi_driver_trusted_ca.Storage.{Metadata, Files, Reply, invalid_json, Storage}
use csi_driver_trusted_ca.Storage.Memory.{Codec, metadata_file}
use csi_driver_trusted_ca.Writer.Stage.{Unreserved}
use csi_driver_trusted_ca.Writer.Fresh.{IsStamp}
use csi_driver_trusted_ca.Writer.View.{IsTarget}
use csi_driver_trusted_ca.LinuxTls.{bundle_name}
use csi_driver_trusted_ca.LinuxTls.Rehash.{IsRehash}
use csi_driver_trusted_ca.LinuxTls.Leaves.{LeavesEntry}
use csi_driver_trusted_ca.Filesystem.{
  FilesystemOptions, make_payload, data_path_for_volume_id, read_metadata, register_metadata,
}
use csi_driver_trusted_ca.Filesystem.Groups.{groupless_entry}
use csi_driver_trusted_ca.Filesystem.Within.{sub, at-sub}
use csi_driver_trusted_ca.Filesystem.Write.{write_files}
use csi_driver_trusted_ca.Filesystem.Below.{SameEntries, SameEntries-IsTarget}
use csi_driver_trusted_ca.Filesystem.Visible.{ShowingBelow, write_files-Showing}
use csi_driver_trusted_ca.Filesystem.Calm.{data_path-plain}
use csi_driver_trusted_ca.Filesystem.Register.{
  Room, read_metadata-missing, read_metadata-file, stored-Returns, IsReadableRoot,
}
use csi_driver_trusted_ca.Filesystem.Interface.{
  Disk, at_start, at_end, replied, answered, run_on, filesystem,
}
use csi_driver_trusted_ca.Manager.{is_managed}
use csi_driver_trusted_ca.Driver.{
  Mounter, PublishRequest, done, Node, from_node_publish_volume_request, node_publish_volume,
}
use csi_driver_trusted_ca.Driver.Written.{node_publish_volume-Published}

abbrev calm_disk : Nodes → Disk
calm_disk n = record { nodes = n; faults = [] }

-- what a method answers in a run that is known
run_on-Returns :
    {A : Type 0} (m : Sys A) (a : A) (n n' : Nodes)
    → Returns m n (ok a) n'
    → run_on m (calm_disk n) ≡ (Reply.ok a, calm_disk n')
run_on-Returns m a n n' r = let (seen, e) = r.run [] in ap (λ x. (replied (x.0), at_end (x.1))) e

replied-ok : (r : Result Unit) → replied r ≡ Reply.ok tt → r ≡ ok tt
replied-ok (ok a) h = refl
replied-ok (err e) h = absurd (cc)

module _ (c : Codec) (base_dir : Bytes) (root : IsReadableRoot base_dir) (meta : Metadata)
    (n : Nodes) (plain : clean_elems meta.volume_id ≡ meta.volume_id ∷ [])
    (room : Room meta.volume_id n) (free : at (meta.volume_id ∷ metadata_file ∷ []) n ≡ none)
    (again : c.unmarshal (c.marshal meta) ≡ some meta) where
  -- the tree after the first registration
  record First (n' : Nodes) : Type 0 where
    registers : Returns (register_metadata c base_dir meta) n (ok true) n'
    reads : Returns (read_metadata c base_dir meta.volume_id) n' (ok (Reply.ok meta)) n'
    kept :
        SameEntries
          (sub (data_path_for_volume_id meta.volume_id) n)
          (sub (data_path_for_volume_id meta.volume_id) n')

  first : (n' : Nodes) × First n'
  unfolding register_metadata
  first =
      let d = data_path_for_volume_id meta.volume_id in
      let (n', r, g) = stored-Returns c meta.volume_id plain n room meta (inl free) in
      (
        n',
        record {
          registers =
              Returns-bind _ _ (read_metadata-missing c base_dir root meta.volume_id plain n free)
                r;
          reads =
              subst (λ x. Returns (read_metadata c base_dir meta.volume_id) n' (ok x) n')
                (ap (λ o. elim o [ none ↦ Reply.err invalid_json | some m ↦ Reply.ok m ]) again)
                (read_metadata-file c base_dir root meta.volume_id plain n' (c.marshal meta) g.mode
                  g.owner g.there);
          kept = λ e p. ap groupless_entry (
              at-sub d (e ∷ p) n'
              ∙ rw (data_path-plain meta.volume_id plain) (g.other _ (cc) (cc) (cc))
              ∙ sym (at-sub d (e ∷ p) n));
        },
      )

-- Readers find the file in the volume's data directory.
abbrev pub ShowsOn : Bytes → Bytes → FilePath → FileProjection → Disk → Type 0
ShowsOn id e q g d = ShowingBelow (data_path_for_volume_id id) e q g (at_start d)

module _ (c : Codec) (f : FilesystemOptions) (base_dir : Bytes) (stamp : Disk → Bytes)
    (randoms : Disk → List Bytes) (openssl : Bytes → Sys Unit) (mnt : Mounter)
    (source : Metadata → Reply Files) (req : PublishRequest) where
  abbrev fs : Storage
  fs = filesystem c f base_dir stamp randoms openssl

  abbrev meta : Metadata
  meta = from_node_publish_volume_request req

  -- When NodePublishVolume over Filesystem succeeds for a new volume, readers of the volume's data
  -- directory find each file of the source at its path, with its content and its mode. The volume is not
  -- managed and has no metadata, its ID is one plain name whose directories can be made, io/fs takes the
  -- path of the tmpfs, as it does below a relative data root, no call fails by chance, encoding/json reads the metadata back, the data directory is as a former
  -- call leaves it, times begin with a digit, the source's files are checked, none begins with the data
  -- link's own name, and openssl changes nothing that readers see, adds no reserved name and leaves the
  -- file alone, which is not the one into which the bundle is written.
  pub publish-ShowsOn :
      (n : Node fs mnt) (n0 : Nodes) (files : Files) (checked : Dict FilePath FileProjection)
      (e : Bytes) (q : FilePath) (g : FileProjection)
      → IsReadableRoot base_dir
      → n.store ≡ calm_disk n0
      → is_managed req.volume_id n.manager ≡ false
      → clean_elems req.volume_id ≡ req.volume_id ∷ []
      → Room req.volume_id n0
      → at (req.volume_id ∷ metadata_file ∷ []) n0 ≡ none
      → c.unmarshal (c.marshal meta) ≡ some meta
      → IsTarget (sub (data_path_for_volume_id req.volume_id) n0)
      → ((d : Disk) → IsStamp (stamp d))
      → source meta ≡ Reply.ok files
      → validate_payload (make_payload files) ≡ valid checked
      → Unreserved checked
      → IsRehash openssl
      → LeavesEntry (e ∷ q) openssl
      → bundle_name ∷ [] ≢ e ∷ q
      → lookup (e ∷ q) checked ≡ some g
      → (node_publish_volume fs mnt source req n).0 ≡ done
      → ShowsOn req.volume_id e q g (node_publish_volume fs mnt source req n).1.store
  unfolding from_node_publish_volume_request
  publish-ShowsOn n n0 files checked e q g root disk free plain room new again target digit sourced
        v reserved rehash leaves apart here h =
      let p = node_publish_volume-Published fs mnt source req n free h in
      let (n1, t) = first c base_dir root meta n0 plain room new again in
      let d1 = calm_disk n1 in
      let same : p.store ≡ d1 =
        ap (λ x. x.1)
          (sym p.registered
            ∙ ap (run_on (register_metadata c base_dir meta)) disk
            ∙ run_on-Returns (register_metadata c base_dir meta) true n0 n1 t.registers) in
      let (seen, read) = t.reads.run [] in
      let same_reply : Reply.ok p.delivery.meta ≡ Reply.ok meta =
        sym p.delivery.read
        ∙ ap (fs.read_metadata req.volume_id) same
        ∙ ap (λ x. answered (x.0)) read in
      let same_meta : p.delivery.meta ≡ meta = cc in
      let same_source : Reply.ok p.delivery.files ≡ Reply.ok files =
        sym p.delivery.fetched ∙ ap source same_meta ∙ sourced in
      let same_files : p.delivery.files ≡ files = cc in
      let written : fs.write_files meta files d1
          ≡ (Reply.ok tt, (node_publish_volume fs mnt source req n).1.store) =
        ap (λ m. fs.write_files m files d1) (sym same_meta)
        ∙ ap (λ x. fs.write_files p.delivery.meta x d1) (sym same_files)
        ∙ ap (fs.write_files p.delivery.meta p.delivery.files) (sym same)
        ∙ p.delivery.written in
      subst (ShowsOn req.volume_id e q g) (ap (λ x. x.1) written) (
        write_files-Showing f base_dir (stamp d1) (randoms d1) openssl meta files n1 [] checked e q
          g
          (SameEntries-IsTarget (sub (data_path_for_volume_id req.volume_id) n0)
            (sub (data_path_for_volume_id req.volume_id) n1) t.kept target)
          (digit d1) v reserved rehash leaves apart here
          (replied-ok
            (write_files f base_dir (stamp d1) (randoms d1) openssl meta files (at_start d1)).0
            (ap (λ x. x.0) written)))
