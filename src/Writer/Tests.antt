-- ===== src/Writer/Tests.antt =====
-- Runs of AtomicWriter.Write.
use csi_driver_trusted_ca.Common.{
  ◌++◌, All, All, erase, contains, keys, ◌≡◌, ◌≢◌, refl, [], ◌∷◌, none, some, codes, Bytes, Dict,
  lookup, insert, Distinct, list_beq, list_eq, nat_eq, ◌=?◌, arith, inl, inr, Bool-cases,
}
use csi_driver_trusted_ca.Path.{has_prefix, split, is_abs, clean_elems, clean_loop}
use csi_driver_trusted_ca.Validate.{
  valid, FilePath, FileProjection, validate_payload, validate_entries, validate_path, check_items,
  check_first,
}
use csi_driver_trusted_ca.Sys.{
  of_process, raise, attempt, Error, ok, World, Nodes, file, dir, link, pure, syscall, ◌>>=◌, ◌>>◌,
}
use csi_driver_trusted_ca.Sys.Keeps.{Keeps-bind, Keeps-pure}
use csi_driver_trusted_ca.Os.{
  below, under, has_entries, erase_node, remove_each, remove_all, remove_node, read_node,
  lstat_node, walk_node, rename_node, symlink_node, readlink_node, mkdir_node, mkdir_temp, at,
  symlink, mkdir_all, write_file, parent, follow, is_dir_at, write_node, ensure_dir_node, open_node,
  write_content_node, chmod_node,
}
use csi_driver_trusted_ca.Writer.{
  remove_paths, remove_user_visible_paths, should_write_file, should_write_payload, difference,
  sub_paths, new_paths, strip, relative_paths, paths_to_remove, retire, switch_link, make_link,
  create_user_visible_files, add_new_files, run_dir_funcs, stage, new_timestamp_dir, read_old_dir,
  write_clean, DirFunc, write, write_payload_to_dir, write_entry, link_name,
}
use csi_driver_trusted_ca.Writer.Frame.{ts-unprotected}
use csi_driver_trusted_ca.Writer.Stage.{IsLocal, Keeps-symlink}
use csi_driver_trusted_ca.Writer.Spares.{Has, Spares, Spares-Leaves, call-KeepsEntry}
use csi_driver_trusted_ca.Writer.Visible.{Showing, write-Showing}
use csi_driver_trusted_ca.Sys.Hoare.{Hoare-bind, Hoare-pure}
use csi_driver_trusted_ca.Os.Change.{symlink_node-Only}
use csi_driver_trusted_ca.Sys.Returns.{calm_world}
use csi_driver_trusted_ca.Writer.Named.{IsTaken, new_timestamp_dir-found}
use csi_driver_trusted_ca.Writer.View.{IsTarget}
use csi_driver_trusted_ca.Writer.Atomic.{IsAtomic, ValidUnreserved, write-IsAtomic}
use csi_driver_trusted_ca.Writer.Delivers.{NoLinks, Delivered}
use csi_driver_trusted_ca.Writer.Complete.{writes_payload}

abbrev cert : FileProjection
cert = record { content = codes "pem"; mode = 0o440; fs_user = none }

abbrev payload : Dict Bytes FileProjection
payload = (codes "ca/root.pem", cert) ∷ []

abbrev version_1 : Bytes
version_1 = codes "..2021.1"

-- a target directory with one version of one file
abbrev target : Nodes
target =
    (codes "..data" ∷ [], link (version_1 ∷ []))
    ∷ (version_1 ∷ [], dir 0o755)
    ∷ (version_1 ∷ codes "a" ∷ [], file (codes "old") 0o440 of_process)
    ∷ (codes "a" ∷ [], link (codes "..data" ∷ codes "a" ∷ []))
    ∷ []

target-rooted : (e : Bytes) (p : FilePath) → at (e ∷ []) target ≡ none → at (e ∷ p) target ≡ none
unfolding at lookup list_beq
target-rooted e [] h = h
target-rooted e (f ∷ p) h = elim (Bool-cases (version_1 =? e)) [
  | inl q ↦ ground arith
  | inr q ↦ ground arith
]

target-IsTarget : IsTarget target
unfolding at lookup list_beq
target-IsTarget = record {
  version =
      inr (version_1, record { links = refl; there = λ e. absurd (cc); other = cc; clear = refl });
  rooted = target-rooted;
}

-- a function on the new directory that links one name to another, as c_rehash does
abbrev rehash : DirFunc
rehash ts = do symlink (codes "root.pem" ∷ []) (ts ∷ codes "42.0" ∷ []); pure (codes "42.0" ∷ [])

rehash_name : link_name (clean_elems (codes "42.0")) ≢ codes "..data" ∷ []
unfolding clean_elems clean_loop split is_abs has_prefix list_beq
rehash_name = cc

rehash-IsLocal : IsLocal rehash
rehash-IsLocal = record {
  keeps = λ ts n0 O fresh sub.
      Keeps-bind _ _
        (Keeps-symlink ts n0 O sub (codes "root.pem" ∷ []) (ts ∷ codes "42.0" ∷ [])
          (ts-unprotected ts n0 fresh (codes "42.0" ∷ [])))
        λ _ _. Keeps-pure (codes "42.0" ∷ []) (rehash_name, tt);
}

payload-ValidUnreserved : ValidUnreserved (validate_payload payload)
unfolding validate_payload validate_entries validate_path check_items check_first split is_abs
    has_prefix list_beq clean_elems clean_loop insert
payload-ValidUnreserved = (cc, tt)

write-IsAtomic_example :
    IsAtomic target
      (write
        (codes "2022")
        (codes "1" ∷ [])
        payload
        (rehash ∷ [])
        (record { nodes = target; observed = []; faults = none ∷ some Error.exist ∷ [] })).1
write-IsAtomic_example =
    write-IsAtomic target (none ∷ some Error.exist ∷ []) (codes "2022") (codes "1" ∷ []) payload
      (rehash ∷ []) target-IsTarget (omega arith) payload-ValidUnreserved (rehash-IsLocal, tt)

abbrev two_files : Dict FilePath FileProjection
two_files = (codes "ca" ∷ codes "root.pem" ∷ [], cert) ∷ (codes "b" ∷ [], cert) ∷ []

abbrev fresh_dir : World
fresh_dir = record { nodes = (codes "..2022.1" ∷ [], dir 0o755) ∷ []; observed = []; faults = [] }

two_files-Distinct : Distinct two_files
unfolding lookup list_beq
two_files-Distinct = (refl, (refl, tt))

fresh_dir-NoLinks : NoLinks (codes "..2022.1") fresh_dir.nodes
unfolding at lookup list_beq
fresh_dir-NoLinks [] t h = absurd (cc)
fresh_dir-NoLinks (e ∷ p) t h = absurd (ground arith)

two_files-written : (write_payload_to_dir two_files (codes "..2022.1") fresh_dir).0 ≡ ok tt
unfolding write_payload_to_dir write_entry mkdir_all write_file parent ensure_dir_node open_node
    write_content_node chmod_node syscall pure ◌>>=◌ at lookup insert write_node follow is_dir_at
    list_beq
two_files-written = refl

second_file : lookup (codes "b" ∷ []) two_files ≡ some cert
unfolding lookup list_beq
second_file = refl

writes_payload_example :
    Delivered
      (codes "..2022.1")
      (codes "b" ∷ [])
      cert
      (write_payload_to_dir two_files (codes "..2022.1") fresh_dir).1.nodes
writes_payload_example =
    writes_payload (codes "..2022.1") two_files (codes "b" ∷ []) cert fresh_dir two_files-Distinct
      fresh_dir-NoLinks second_file two_files-written

rehash-Spares : Spares (codes "ca" ∷ codes "root.pem" ∷ []) rehash
rehash-Spares = record {
  keeps = λ ts x.
      Hoare-bind {Q = λ _ w. Has (ts ∷ codes "ca" ∷ codes "root.pem" ∷ []) x w} _ _
        (call-KeepsEntry (ts ∷ codes "ca" ∷ codes "root.pem" ∷ []) x (ts ∷ codes "42.0" ∷ []) _
          (λ h. cc) (λ n. symlink_node-Only n (ts ∷ codes "42.0" ∷ []) (codes "root.pem" ∷ [])))
        λ _. Hoare-pure (codes "42.0" ∷ []) λ w h. h;
}

abbrev cleaned_payload : Dict FilePath FileProjection
cleaned_payload = (codes "ca" ∷ codes "root.pem" ∷ [], cert) ∷ []

payload_cleans : validate_payload payload ≡ valid cleaned_payload
unfolding validate_payload validate_entries validate_path check_items check_first split is_abs
    has_prefix list_beq clean_elems clean_loop insert
payload_cleans = refl

writes :
    (write
      (codes "2022")
      (codes "1" ∷ [])
      payload
      (rehash ∷ [])
      (record { nodes = target; observed = []; faults = [] })).0
    ≡ ok tt
unfolding write write_clean read_old_dir new_timestamp_dir mkdir_temp mkdir_node chmod_node stage
    run_dir_funcs add_new_files create_user_visible_files readlink_node symlink_node make_link
    switch_link rename_node retire paths_to_remove walk_node relative_paths strip new_paths
    sub_paths difference should_write_payload should_write_file lstat_node read_node
    remove_user_visible_paths remove_paths remove_node remove_all remove_each erase_node has_entries
    under below keys contains erase attempt raise validate_payload validate_entries validate_path
    check_items check_first split is_abs has_prefix clean_elems clean_loop write_payload_to_dir
    write_entry mkdir_all write_file parent ensure_dir_node open_node write_content_node syscall
    pure ◌>>=◌ at lookup insert write_node follow is_dir_at list_beq
writes = refl

cert_found : lookup (codes "ca" ∷ codes "root.pem" ∷ []) cleaned_payload ≡ some cert
unfolding lookup list_beq
cert_found = refl

write-Showing_example :
    Showing
      (codes "ca")
      (codes "root.pem" ∷ [])
      cert
      (write
        (codes "2022")
        (codes "1" ∷ [])
        payload
        (rehash ∷ [])
        (record { nodes = target; observed = []; faults = [] })).1
write-Showing_example =
    write-Showing target [] (codes "2022") (codes "1" ∷ []) payload (rehash ∷ []) cleaned_payload
      (codes "ca") (codes "root.pem" ∷ []) cert target-IsTarget (omega arith) payload_cleans
      (cc, tt) (rehash-IsLocal, tt)
      (Spares-Leaves (codes "ca") (codes "root.pem" ∷ []) (rehash ∷ []) (rehash-Spares, tt))
      cert_found writes

-- The first name that is drawn is taken.
name-IsTaken : All (IsTaken (codes ".." ++ codes "2021" ++ codes ".") target) (codes "1" ∷ [])
unfolding at lookup list_beq
name-IsTaken = ((dir 0o755, refl), tt)

free_name : at ((codes "..2021." ++ codes "2") ∷ []) target ≡ none
unfolding at lookup list_beq
free_name = refl

new_timestamp_dir-found_example :
    ((new_timestamp_dir (codes "2021") (codes "1" ∷ codes "2" ∷ []) (calm_world target [])).0
      ≡ ok (codes "..2021.2"))
    × (at
          (codes "..2021.2" ∷ [])
          (new_timestamp_dir
            (codes "2021")
            (codes "1" ∷ codes "2" ∷ [])
            (calm_world target [])).1.nodes
        ≡ some (dir 0o755))
    × (at
          (codes "a" ∷ [])
          (new_timestamp_dir
            (codes "2021")
            (codes "1" ∷ codes "2" ∷ [])
            (calm_world target [])).1.nodes
        ≡ at (codes "a" ∷ []) target)
new_timestamp_dir-found_example =
    new_timestamp_dir-found (codes "2021") (codes "1" ∷ []) [] (codes "2") target (codes "a" ∷ [])
      name-IsTaken free_name (cc)
