-- ===== src/LinuxTls/Leaves.antt =====
-- CreateCABundle and OpenSSLRehash leave the payload's files alone.
use csi_driver_trusted_ca.Common.{
  ◌≢◌, sym, ap, ◌∙◌, subst, Bool, true, false, ◌||◌, if◌then◌else◌, List, [], ◌∷◌, Bytes, ◌=?◌,
  list_eq, nat_eq, arith,
}
use csi_driver_trusted_ca.Validate.{FilePath}
use csi_driver_trusted_ca.Sys.{Result, ok, err, invalid, Node, Nodes, World, Sys, syscall, attempt}
use csi_driver_trusted_ca.Sys.Hoare.{
  Hoare, Ends, Hoare-bind, Hoare-attempt, Hoare-pure, Hoare-raise, Hoare-mono, Hoare-call,
}
use csi_driver_trusted_ca.Os.{at, follow, read_node}
use csi_driver_trusted_ca.Os.Change.{
  OnlyAt, Reads, LinksNothing, write_file-NoNewLinks, open_node-Only, open_node-LinksNothing,
  read_node-Reads, lstat_node-Reads,
}
use csi_driver_trusted_ca.Writer.{run_dir_funcs}
use csi_driver_trusted_ca.Writer.Frame.{Post-both}
use csi_driver_trusted_ca.Writer.Delivers.{NoLinks, links_kept, follow_new}
use csi_driver_trusted_ca.Writer.Spares.{
  Has, KeepsEntry, Spares, Leaves, read-KeepsEntry, add_new_files-KeepsEntry,
  run_dir_funcs-KeepsEntry,
}
use csi_driver_trusted_ca.Storage.{Metadata}
use csi_driver_trusted_ca.LinuxTls.{
  DirEntry, bundle_name, append_node, append, copy_opened, add_entry, add_entries, create_ca_bundle,
  create_bundle_only, bundle_func, names_of, list_files_in_dir, name_difference, openssl_rehash,
  dir_funcs_for_volume,
}
use csi_driver_trusted_ca.LinuxTls.Local.{append_node-Only, read_dir_node-Reads}

append_node-LinksNothing :
    (n : Nodes) (p : FilePath) (extra : Bytes) → LinksNothing n (append_node p extra n)
unfolding append_node
append_node-LinksNothing n p extra = grind (arith, write_file-NoNewLinks)

module _ (ts : Bytes) (p : FilePath) (x : Node) (apart : bundle_name ∷ [] ≢ p) where
  -- the entry is there, and there are no links
  abbrev Kept : World → Type 0
  Kept w = NoLinks ts w.nodes × Has (ts ∷ p) x w

  abbrev Keeping : {A : Type 0} → Sys A → Type 0
  Keeping m = Hoare Kept (λ _ w. Kept w) Kept m

  bundle_apart : ts ∷ bundle_name ∷ [] ≢ ts ∷ p
  bundle_apart e = apart (cc)

  -- a call on the bundle
  bundle-Keeping :
      (f : Nodes → Result (Unit × Nodes))
      → ((n : Nodes) → OnlyAt (follow (ts ∷ bundle_name ∷ []) n) n (f n))
      → ((n : Nodes) → LinksNothing n (f n))
      → Keeping (syscall f)
  bundle-Keeping f only links =
      Hoare-call f
        (λ w (h, k).
          Post-both (f w.nodes) (links w.nodes)
            (subst (λ q. OnlyAt q w.nodes (f w.nodes)) (follow_new ts (bundle_name ∷ []) w.nodes h)
              (only w.nodes))
            λ an l o. (links_kept ts w.nodes (an.1) h l, o (ts ∷ p) bundle_apart ∙ k))
        (λ w h. h)

  reading-Keeping :
      {A : Type 0} (f : Nodes → Result (A × Nodes))
      → ((n : Nodes) → Reads n (f n))
      → Keeping (syscall f)
  reading-Keeping f reads =
      Hoare-call f
        (λ w (h, k). Post-both (f w.nodes) (reads w.nodes) (reads w.nodes) λ an same _.
          (λ q t l. h q t (sym (ap (at (ts ∷ q)) (same.0)) ∙ l), ap (at (ts ∷ p)) (same.0) ∙ k))
        (λ w h. h)

  attempt-Keeping : {A : Type 0} (m : Sys A) → Keeping m → Keeping (attempt m)
  attempt-Keeping m k =
      Hoare-mono _ (Hoare-attempt {D = Kept} m k) (λ w h. h) (λ r w h. either r w h) (λ w h. h)
    where
      either : {A : Type 0} (r : Result A) (w : World) → Ends (λ _ w. Kept w) Kept r w → Kept w
      either (ok a) w h = h
      either (err e) w h = h

  append-Keeping : (extra : Bytes) → Keeping (append ts extra)
  append-Keeping extra =
      bundle-Keeping _ (λ n. append_node-Only n (ts ∷ bundle_name ∷ []) extra)
        (λ n. append_node-LinksNothing n (ts ∷ bundle_name ∷ []) extra)

  copy_opened-Keeping : (opened : Result Bytes) → Keeping (copy_opened ts opened)
  copy_opened-Keeping (err e) = Hoare-pure tt λ w h. h
  copy_opened-Keeping (ok content) =
      Hoare-bind _ _ (attempt-Keeping _ (append-Keeping content)) λ _. Hoare-pure tt λ w h. h

  if-Keeping :
      {A : Type 0} (b : Bool) (m m' : Sys A)
      → Keeping m
      → Keeping m'
      → Keeping (if b then m else m')
  if-Keeping true m m' k k' = k
  if-Keeping false m m' k k' = k'

  add_entry-Keeping : (entry : DirEntry) → Keeping (add_entry ts entry)
  unfolding add_entry
  add_entry-Keeping (name, is_dir) =
      if-Keeping (is_dir || (name =? bundle_name)) _ _ (Hoare-pure tt λ w h. h) (
        Hoare-bind _ _
          (attempt-Keeping _
            (reading-Keeping (read_node (ts ∷ name ∷ [])) λ n. read_node-Reads n (ts ∷ name ∷ [])))
          λ opened. Hoare-bind _ _ (copy_opened-Keeping opened) λ _.
            Hoare-bind _ _ (attempt-Keeping _ (append-Keeping (10 ∷ 10 ∷ [])))
              λ _. Hoare-pure tt λ w h. h)

  add_entries-Keeping : (es : List DirEntry) → Keeping (add_entries ts es)
  unfolding add_entries
  add_entries-Keeping [] = Hoare-pure tt λ w h. h
  add_entries-Keeping (e ∷ es) = Hoare-bind _ _ (add_entry-Keeping e) λ _. add_entries-Keeping es

  create_ca_bundle-Keeping : Keeping (create_ca_bundle ts)
  unfolding create_ca_bundle
  create_ca_bundle-Keeping =
      Hoare-bind _ _
        (bundle-Keeping _ (λ n. open_node-Only n (ts ∷ bundle_name ∷ []) 0o666)
          (λ n. open_node-LinksNothing n (ts ∷ bundle_name ∷ []) 0o666))
        λ _. Hoare-bind _ _ (reading-Keeping _ λ n. lstat_node-Reads n (ts ∷ [])) λ _.
          Hoare-bind _ _ (reading-Keeping _ λ n. read_dir_node-Reads n (ts ∷ [])) λ es.
            Hoare-bind _ _ (add_entries-Keeping es) λ _. Hoare-pure (bundle_name ∷ []) λ w h. h

  create_bundle_only-Keeping : Keeping (create_bundle_only ts)
  unfolding create_bundle_only
  create_bundle_only-Keeping =
      Hoare-bind _ _
        (bundle-Keeping _ (λ n. open_node-Only n (ts ∷ bundle_name ∷ []) 0o666)
          (λ n. open_node-LinksNothing n (ts ∷ bundle_name ∷ []) 0o666))
        λ _. Hoare-raise invalid λ w h. h

  bundle_func-Keeping : (walks : Bool) → Keeping (bundle_func walks ts)
  bundle_func-Keeping true = create_ca_bundle-Keeping
  bundle_func-Keeping false = create_bundle_only-Keeping

-- the command leaves the entry alone
pub record LeavesEntry (p : FilePath) (openssl : Bytes → Sys Unit) : Type 0 where
  pub keeps : (ts : Bytes) (x : Node) → KeepsEntry (ts ∷ p) x (openssl ts)

list_files-KeepsEntry :
    (ts : Bytes) (p : FilePath) (x : Node) → KeepsEntry p x (list_files_in_dir ts)
unfolding list_files_in_dir
list_files-KeepsEntry ts p x =
    Hoare-bind _ _ (read-KeepsEntry p x _ λ n. read_dir_node-Reads n (ts ∷ []))
      λ es. Hoare-pure (names_of es) λ w h. h

openssl_rehash-Spares :
    (p : FilePath) (openssl : Bytes → Sys Unit)
    → LeavesEntry p openssl
    → Spares p (openssl_rehash openssl)
unfolding openssl_rehash
openssl_rehash-Spares p openssl leaves = record {
  keeps = λ ts x. Hoare-bind _ _ (list_files-KeepsEntry ts (ts ∷ p) x) λ before.
      Hoare-bind _ _ (leaves.keeps ts x) λ _.
        Hoare-bind _ _ (list_files-KeepsEntry ts (ts ∷ p) x)
          λ after. Hoare-pure (name_difference after before) λ w h. h;
}

-- The functions that WriteFiles runs leave every file alone but the bundle.
pub dir_funcs-Leaves :
    (walks : Bool) (openssl : Bytes → Sys Unit) (meta : Metadata) (e : Bytes) (p : FilePath)
    → bundle_name ∷ [] ≢ e ∷ p
    → LeavesEntry (e ∷ p) openssl
    → Leaves (e ∷ p) (dir_funcs_for_volume walks openssl meta)
unfolding dir_funcs_for_volume run_dir_funcs
dir_funcs-Leaves walks openssl meta e p apart leaves = record {
  keeps = λ ts x payload.
      Hoare-bind {Q = λ _ w. Has (ts ∷ e ∷ p) x w} _ _
        (Hoare-mono _ (bundle_func-Keeping ts (e ∷ p) x apart walks) (λ w h. h) (λ _ w h. h.1)
          (λ w h. tt))
        λ names.
          Hoare-mono _
            (Hoare-bind {Q = λ _ w. Has (ts ∷ e ∷ p) x w} _ _
              (add_new_files-KeepsEntry (ts ∷ e ∷ p) x names payload)
              λ payload'.
                run_dir_funcs-KeepsEntry ts e p x (openssl_rehash openssl ∷ []) payload'
                  (openssl_rehash-Spares (e ∷ p) openssl leaves, tt))
            (λ w h. h) (λ _ w h. h) (λ w h. tt);
}
