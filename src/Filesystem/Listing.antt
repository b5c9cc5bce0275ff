-- ===== src/Filesystem/Listing.antt =====
-- ListVolumes of Filesystem on a tree where no call fails by chance.
use csi_driver_trusted_ca.Common.{
  refl, sym, subst, ◌≡◌, ◌⊎◌, inl, inr, Bool, Bool-cases, Option-cases, some, [], ◌∷◌, List, Bytes,
  In, lookup, list_eq, nat_eq, ◌=?◌, =?_iff,
}
use csi_driver_trusted_ca.Validate.{FilePath}
use csi_driver_trusted_ca.Sys.{ok, err, not_exist, Node, Nodes, syscall}
use csi_driver_trusted_ca.Sys.Returns.{
  Returns, Returns-bind, Returns-stop, Returns-call, Returns-refused,
}
use csi_driver_trusted_ca.Os.{at, under, is_dir_at, follow}
use csi_driver_trusted_ca.Writer.{strip}
use csi_driver_trusted_ca.LinuxTls.{
  DirEntry, bytes_ltb, insert_entry, add_child, is_dir_node, entries_in, names_of, read_dir_node,
}
use csi_driver_trusted_ca.Filesystem.{exists_node, metadata_path_for_volume_id}
use csi_driver_trusted_ca.Filesystem.Write.{open_each, list_volumes, read_tempfs}
use csi_driver_trusted_ca.Filesystem.Register.{IsReadableRoot, open_fs-Returns}

-- an entry that is put among the others is there
insert_entry-In :
    (name : Bytes) (x : Bool) (es : List DirEntry) → In name (names_of (insert_entry (name, x) es))
unfolding insert_entry
insert_entry-In name x [] = inl refl
insert_entry-In name x ((b, y) ∷ es) = elim (Bool-cases (bytes_ltb b name)) [
  | inl q ↦ rw (insert_entry, q) (inr (insert_entry-In name x es))
  | inr q ↦ rw (insert_entry, q) (inl refl)
]

-- and so are the others
insert_entry-others :
    (name b : Bytes) (x : Bool) (es : List DirEntry)
    → In name (names_of es)
    → In name (names_of (insert_entry (b, x) es))
unfolding insert_entry
insert_entry-others name b x [] h = absurd h
insert_entry-others name b x ((a, y) ∷ es) h = elim (Bool-cases (bytes_ltb a b)) [
  | inl q ↦
      rw (insert_entry, q)
        (elim h [ inl e ↦ inl e | inr i ↦ inr (insert_entry-others name b x es i) ])
  | inr q ↦ rw (insert_entry, q) (inr h)
]

add_child-others :
    (name : Bytes) (p : FilePath) (x : Node) (es : List DirEntry)
    → In name (names_of es)
    → In name (names_of (add_child p x es))
add_child-others name [] x es h = h
add_child-others name (e ∷ []) x es h = insert_entry-others name e (is_dir_node x) es h
add_child-others name (e ∷ f ∷ p) x es h = h

-- the root's directory lists every entry of the root
pub entries_in-In :
    (name : Bytes) (x : Node) (n : Nodes)
    → at (name ∷ []) n ≡ some x
    → In name (names_of (entries_in [] n))
unfolding entries_in under strip at lookup
entries_in-In name x [] h = absurd (cc)
entries_in-In name x ((q, y) ∷ n) h = elim (Bool-cases (q =? name ∷ [])) [
  | inl e ↦ rw ((=?_iff q (name ∷ [])).0 e) (insert_entry-In name (is_dir_node y) (entries_in [] n))
  | inr e ↦ add_child-others name q y (entries_in [] n) (entries_in-In name x n (rw e at h))
]

either_way :
    (p : FilePath) (n : Nodes)
    → Returns (syscall (exists_node p)) n (ok tt) n
      ⊎ Returns (syscall (exists_node p)) n (err not_exist) n
unfolding exists_node
either_way p n = elim (Option-cases (at (follow p n) n)) [
  | inl h ↦ inr (Returns-refused (exists_node p) (rw (exists_node, h) refl))
  | inr (x, h) ↦ inl (Returns-call (exists_node p) (rw (exists_node, h) refl))
]

-- the loop stops at a volume without metadata, wherever it stands
open_each-stops :
    (base_dir : Bytes) (root : IsReadableRoot base_dir) (name : Bytes) (n : Nodes)
    (es : List DirEntry)
    → In name (names_of es)
    → Returns (syscall (exists_node (metadata_path_for_volume_id name))) n (err not_exist) n
    → Returns (open_each base_dir es) n (err not_exist) n
unfolding open_each
open_each-stops base_dir root name n [] i missing = absurd i
open_each-stops base_dir root name n ((b, y) ∷ es) (inl e) missing = Returns-stop _ _ (
    open_fs-Returns base_dir (metadata_path_for_volume_id b) n (err not_exist) root (
      subst
        (λ k. Returns (syscall (exists_node (metadata_path_for_volume_id k))) n (err not_exist) n)
        (sym e) missing))
open_each-stops base_dir root name n ((b, y) ∷ es) (inr i) missing =
    elim (either_way (metadata_path_for_volume_id b) n) [
      | inr h ↦
          Returns-stop _ _
            (open_fs-Returns base_dir (metadata_path_for_volume_id b) n (err not_exist) root h)
      | inl h ↦
          Returns-bind _ _
            (open_fs-Returns base_dir (metadata_path_for_volume_id b) n (ok tt) root h)
            (Returns-stop _ _ (open_each-stops base_dir root name n es i missing))
    ]

pub read_tempfs-Returns :
    (base_dir : Bytes) (n : Nodes)
    → IsReadableRoot base_dir
    → Returns (read_tempfs base_dir) n (ok (entries_in [] n)) n
unfolding read_tempfs read_dir_node is_dir_at
read_tempfs-Returns base_dir n root = rw (root, read_tempfs) (Returns-call (read_dir_node []) refl)

pub list_volumes-stops :
    (base_dir : Bytes) (root : IsReadableRoot base_dir) (name : Bytes) (x : Node) (n : Nodes)
    → at (name ∷ []) n ≡ some x
    → Returns (syscall (exists_node (metadata_path_for_volume_id name))) n (err not_exist) n
    → Returns (list_volumes base_dir) n (err not_exist) n
unfolding list_volumes
list_volumes-stops base_dir root name x n h missing =
    Returns-bind _ _ (read_tempfs-Returns base_dir n root)
      (open_each-stops base_dir root name n (entries_in [] n) (entries_in-In name x n h) missing)
