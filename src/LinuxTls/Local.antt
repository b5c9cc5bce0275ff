-- ===== src/LinuxTls/Local.antt =====
-- CreateCABundle keeps out of what readers of the data directory see.
use csi_driver_trusted_ca.Common.{
  Bool, true, false, Bool, ◌≡◌, ◌≢◌, refl, subst, List, [], ◌∷◌, ◌++◌, ◌||◌, ◌=?◌, Option, none,
  some, Bytes, list_eq, nat_eq, arith, list_beq,
}
use csi_driver_trusted_ca.Path.{clean_elems, clean_loop, split, is_abs, has_prefix}
use csi_driver_trusted_ca.Validate.{FilePath}
use csi_driver_trusted_ca.Sys.{Result, ok, err, Node, file, dir, link, Nodes, syscall}
use csi_driver_trusted_ca.Sys.Keeps.{
  Keeps-raise, Keeps, Keeps-syscall, Keeps-reads, Keeps-bind, Keeps-pure, Keeps-attempt, Keeps-if,
  Any,
}
use csi_driver_trusted_ca.Os.{at, follow, parent, read_node, lstat_node}
use csi_driver_trusted_ca.Os.Change.{
  OnlyAt, Reads, open_node-Only, read_node-Reads, lstat_node-Reads, write_node-Only,
}
use csi_driver_trusted_ca.Writer.{data_dir_name}
use csi_driver_trusted_ca.Writer.Frame.{Protected, Same, Same-Only, Post-both, ts-unprotected}
use csi_driver_trusted_ca.Writer.Stage.{IsLocal, UnreservedNames}
use csi_driver_trusted_ca.LinuxTls.{
  bundle_func, create_bundle_only, DirEntry, bundle_name, append_node, append, copy_opened,
  add_entry, add_entries, read_dir_node, create_ca_bundle,
}

-- a path below a directory leads below it, links included
follow_below :
    (ts e : Bytes) (p : FilePath) (n : Nodes) → (r : FilePath) × (follow (ts ∷ e ∷ p) n ≡ ts ∷ r)
unfolding follow
follow_below ts e p n = by_entry (at (ts ∷ e ∷ p) n) refl
  where
    by_entry :
        (x : Option Node)
        → at (ts ∷ e ∷ p) n ≡ x
        → (r : FilePath) × (follow (ts ∷ e ∷ p) n ≡ ts ∷ r)
    by_entry none h = (e ∷ p, rw (h, follow) refl)
    by_entry (some (file c m u)) h = (e ∷ p, rw (h, follow) refl)
    by_entry (some (dir m)) h = (e ∷ p, rw (h, follow) refl)
    by_entry (some (link t)) h = (parent (e ∷ p) ++ t, rw (h, follow) (unfold parent in refl))

pub append_node-Only :
    (n : Nodes) (p : FilePath) (extra : Bytes) → OnlyAt (follow p n) n (append_node p extra n)
unfolding append_node
append_node-Only n p extra = grind (arith, write_node-Only)

pub read_dir_node-Reads : (n : Nodes) (p : FilePath) → Reads n (read_dir_node p n)
unfolding read_dir_node
read_dir_node-Reads n p = ground arith

module _ (ts : Bytes) (n0 : Nodes) (O : Nodes → Type 0) (fresh : ts ≢ data_dir_name)
    (sub : (n : Nodes) → Same (Protected ts) n0 n → O n) where
  below-Keeps :
      (e : Bytes) (p : FilePath) (f : Nodes → Result (Unit × Nodes))
      → ((n : Nodes) → OnlyAt (follow (ts ∷ e ∷ p) n) n (f n))
      → Keeps (Same (Protected ts) n0) O Any (syscall f)
  below-Keeps e p f only = Keeps-syscall sub f λ n h.
      let (r, q) = follow_below ts e p n in
      let at_r = subst (λ x. OnlyAt x n (f n)) q (only n) in
      Post-both (f n) at_r at_r
        λ an o _. (Same-Only n0 n (an.1) (ts ∷ r) (ts-unprotected ts n0 fresh r) o h, tt)

  append-Keeps : (extra : Bytes) → Keeps (Same (Protected ts) n0) O Any (append ts extra)
  append-Keeps extra =
      below-Keeps bundle_name [] _ λ n. append_node-Only n (ts ∷ bundle_name ∷ []) extra

  copy_opened-Keeps :
      (opened : Result Bytes) → Keeps (Same (Protected ts) n0) O Any (copy_opened ts opened)
  copy_opened-Keeps (err e) = Keeps-pure tt tt
  copy_opened-Keeps (ok content) =
      Keeps-bind _ _ (Keeps-attempt _ (append-Keeps content)) λ _ _. Keeps-pure tt tt

  add_entry-Keeps : (entry : DirEntry) → Keeps (Same (Protected ts) n0) O Any (add_entry ts entry)
  unfolding add_entry
  add_entry-Keeps (name, is_dir) =
      Keeps-if (is_dir || (name =? bundle_name)) _ _ (Keeps-pure tt tt) (
        Keeps-bind _ _
          (Keeps-attempt _ (
            Keeps-reads sub {R = Any} (read_node (ts ∷ name ∷ []))
              (λ n _. read_node-Reads n (ts ∷ name ∷ []))))
          λ opened _. Keeps-bind _ _ (copy_opened-Keeps opened) λ _ _.
            Keeps-bind _ _ (Keeps-attempt _ (append-Keeps (10 ∷ 10 ∷ []))) λ _ _. Keeps-pure tt tt)

  add_entries-Keeps :
      (es : List DirEntry) → Keeps (Same (Protected ts) n0) O Any (add_entries ts es)
  unfolding add_entries
  add_entries-Keeps [] = Keeps-pure tt tt
  add_entries-Keeps (e ∷ es) = Keeps-bind _ _ (add_entry-Keeps e) λ _ _. add_entries-Keeps es

bundle-UnreservedNames : UnreservedNames (bundle_name ∷ [])
unfolding clean_elems clean_loop split is_abs has_prefix list_beq
bundle-UnreservedNames = (cc, tt)

create_ca_bundle-IsLocal : IsLocal create_ca_bundle
unfolding create_ca_bundle
create_ca_bundle-IsLocal = record {
  keeps = λ ts n0 O fresh sub.
      Keeps-bind _ _
        (below-Keeps ts n0 O fresh sub bundle_name [] _
          λ n. open_node-Only n (ts ∷ bundle_name ∷ []) 0o666)
        λ _ _.
          Keeps-bind _ _
            (Keeps-reads sub {R = Any} (lstat_node (ts ∷ [])) (λ n _. lstat_node-Reads n (ts ∷ [])))
            λ _ _.
              Keeps-bind _ _
                (Keeps-reads sub {R = Any} (read_dir_node (ts ∷ []))
                  (λ n _. read_dir_node-Reads n (ts ∷ [])))
                λ es _.
                  Keeps-bind _ _ (add_entries-Keeps ts n0 O fresh sub es)
                    λ _ _. Keeps-pure (bundle_name ∷ []) bundle-UnreservedNames;
}

create_bundle_only-IsLocal : IsLocal create_bundle_only
unfolding create_bundle_only
create_bundle_only-IsLocal = record {
  keeps = λ ts n0 O fresh sub.
      Keeps-bind _ _
        (below-Keeps ts n0 O fresh sub bundle_name [] _
          λ n. open_node-Only n (ts ∷ bundle_name ∷ []) 0o666)
        λ _ _. Keeps-raise _;
}

pub bundle_func-IsLocal : (walks : Bool) → IsLocal (bundle_func walks)
bundle_func-IsLocal true = create_ca_bundle-IsLocal
bundle_func-IsLocal false = create_bundle_only-IsLocal
