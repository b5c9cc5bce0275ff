-- ===== src/Writer/Stage.antt =====
-- The calls before the switch keep what readers see, whatever fails among them.
use csi_driver_trusted_ca.Common.{
  ℕ, ◌≢◌, List, [], ◌∷◌, ◌++◌, Option, none, some, Bytes, Dict, ◌=?◌, list_eq, nat_eq, All, insert,
  Bool-cases, inl, inr, ap,
}
use csi_driver_trusted_ca.Path.{clean_elems}
use csi_driver_trusted_ca.Validate.{FilePath, FileProjection, PathError, validate_path}
use csi_driver_trusted_ca.Sys.{Error, Result, ok, err, bad_path, Nodes, Sys, raise}
use csi_driver_trusted_ca.Sys.Keeps.{
  Keeps, Keeps-syscall, Keeps-reads, Keeps-bind, Keeps-pure, Keeps-raise, Keeps-attempt, Any,
}
use csi_driver_trusted_ca.Os.{parent, readlink_node, symlink, symlink_node, mkdir_all, write_file}
use csi_driver_trusted_ca.Os.Change.{readlink_node-Reads, symlink_node-Only}
use csi_driver_trusted_ca.Writer.{
  DirFunc, data_dir_name, write_entry, write_payload_to_dir, change_owner, link_name,
  make_if_missing, create_user_visible_files, add_new_files, run_dir_funcs, no_projection,
}
use csi_driver_trusted_ca.Writer.Frame.{
  Protected, Same, Same-Only, IsStaging, Post-both, Keeps-ensure_dir, Keeps-chmod, Keeps-chown,
  Keeps-open, Keeps-write_content,
}

-- no entry of the payload is seen under the name of the data directory
abbrev pub Unreserved : Dict FilePath FileProjection → Type 0
Unreserved = All (λ entry. link_name (entry.0) ≢ data_dir_name ∷ [])

abbrev pub UnreservedNames : List Bytes → Type 0
UnreservedNames = All (λ name. link_name (clean_elems name) ≢ data_dir_name ∷ [])

-- A function that leaves alone all that readers see, and whose files have names of their own.
pub record IsLocal (f : DirFunc) : Type 1 where
  pub keeps :
      (ts : Bytes) (n0 : Nodes) (O : Nodes → Type 0)
      → ts ≢ data_dir_name
      → ((n : Nodes) → Same (Protected ts) n0 n → O n)
      → Keeps (Same (Protected ts) n0) O UnreservedNames (f ts)

module _ (ts : Bytes) (n0 : Nodes) (O : Nodes → Type 0) (fresh : ts ≢ data_dir_name) where
  module _ (sub : (n : Nodes) → IsStaging ts n0 n → O n) where
    mkdir_all-Keeps :
        (p rest : FilePath) (mode : ℕ)
        → Keeps (IsStaging ts n0) O Any (mkdir_all (ts ∷ p) rest mode)
    unfolding mkdir_all
    mkdir_all-Keeps p [] mode = Keeps-pure tt tt
    mkdir_all-Keeps p (e ∷ rest) mode =
        Keeps-bind _ _ (Keeps-ensure_dir ts n0 fresh sub (p ++ e ∷ []) mode)
          λ _ _. mkdir_all-Keeps (p ++ e ∷ []) rest mode

    change_owner-Keeps :
        (p : FilePath) (u : Option ℕ) → Keeps (IsStaging ts n0) O Any (change_owner (ts ∷ p) u)
    change_owner-Keeps p none = Keeps-pure tt tt
    change_owner-Keeps p (some uid) = Keeps-chown ts n0 fresh sub p uid

    write_entry-Keeps :
        (p : FilePath) (f : FileProjection) → Keeps (IsStaging ts n0) O Any (write_entry ts p f)
    unfolding write_entry write_file
    write_entry-Keeps p f = Keeps-bind _ _ (mkdir_all-Keeps [] (parent p) _) λ _ _.
        Keeps-bind _ _
          (Keeps-bind _ _ (Keeps-open ts n0 fresh sub p f.mode)
            (λ _ _. Keeps-write_content ts n0 fresh sub p f.content))
          λ _ _.
            Keeps-bind _ _ (Keeps-chmod ts n0 fresh sub p f.mode)
              λ _ _. change_owner-Keeps p f.fs_user

    pub write_payload_to_dir-Keeps :
        (payload : Dict FilePath FileProjection)
        → Keeps (IsStaging ts n0) O Any (write_payload_to_dir payload ts)
    unfolding write_payload_to_dir
    write_payload_to_dir-Keeps [] = Keeps-pure tt tt
    write_payload_to_dir-Keeps ((p, f) ∷ payload) =
        Keeps-bind _ _ (write_entry-Keeps p f) λ _ _. write_payload_to_dir-Keeps payload

Unreserved-insert :
    (p : FilePath) (content : FileProjection) (m : Dict FilePath FileProjection)
    → link_name p ≢ data_dir_name ∷ []
    → Unreserved m
    → Unreserved (insert p content m)
unfolding insert
Unreserved-insert p content [] hp h = (hp, tt)
Unreserved-insert p content ((q, old) ∷ m) hp (hq, h) = elim (Bool-cases (q =? p)) [
  | inl e ↦ rw e (hp, h)
  | inr e ↦ rw e (hq, Unreserved-insert p content m hp h)
]

module _ (ts : Bytes) (n0 : Nodes) (O : Nodes → Type 0)
    (sub : (n : Nodes) → Same (Protected ts) n0 n → O n) where
  add_new_files-Keeps :
      (names : List Bytes) (payload : Dict FilePath FileProjection)
      → UnreservedNames names
      → Unreserved payload
      → Keeps (Same (Protected ts) n0) O Unreserved (add_new_files names payload)
  unfolding add_new_files
  add_new_files-Keeps [] payload _ h = Keeps-pure payload h
  add_new_files-Keeps (name ∷ names) payload (hn, hns) h = by_check (validate_path name) (
      add_new_files-Keeps names _ hns
        (Unreserved-insert (clean_elems name) no_projection payload hn h))
    where
      by_check :
          {m : Sys (Dict FilePath FileProjection)} (r : Option PathError)
          → Keeps (Same (Protected ts) n0) O Unreserved m
          → Keeps
              (Same (Protected ts) n0)
              O
              Unreserved
              (elim r as (λ _. Sys (Dict FilePath FileProjection)) [
                | some e ↦ raise (bad_path e)
                | none ↦ m
              ])
      by_check none k = k
      by_check (some e) k = Keeps-raise (bad_path e)

  pub run_dir_funcs-Keeps :
      (fs : List DirFunc) (payload : Dict FilePath FileProjection)
      → ts ≢ data_dir_name
      → All IsLocal fs
      → Unreserved payload
      → Keeps (Same (Protected ts) n0) O Unreserved (run_dir_funcs fs ts payload)
  unfolding run_dir_funcs
  run_dir_funcs-Keeps [] payload fresh _ h = Keeps-pure payload h
  run_dir_funcs-Keeps (f ∷ fs) payload fresh (hf, hfs) h =
      Keeps-bind _ _ (hf.keeps ts n0 O fresh sub) λ names hn.
        Keeps-bind _ _ (add_new_files-Keeps names payload hn h)
          λ payload' h'. run_dir_funcs-Keeps fs payload' fresh hfs h'

  pub Keeps-symlink :
      (target name : FilePath)
      → ¬ (Protected ts name)
      → Keeps (Same (Protected ts) n0) O Any (symlink target name)
  Keeps-symlink target name out = Keeps-syscall sub (symlink_node target name) λ n h.
      Post-both (symlink_node target name n) (symlink_node-Only n name target)
        (symlink_node-Only n name target) λ an o _. (Same-Only n0 n (an.1) name out o h, tt)

  link_name-unprotected :
      (p : FilePath) → link_name p ≢ data_dir_name ∷ [] → ¬ (Protected ts (link_name p))
  link_name-unprotected [] h e = e
  link_name-unprotected (x ∷ p) h e = h (ap (λ y. y ∷ []) e)

  pub create_user_visible_files-Keeps :
      (payload : Dict FilePath FileProjection)
      → Unreserved payload
      → Keeps (Same (Protected ts) n0) O Any (create_user_visible_files payload)
  unfolding create_user_visible_files
  create_user_visible_files-Keeps [] _ = Keeps-pure tt tt
  create_user_visible_files-Keeps ((p, f) ∷ payload) (h, hs) =
      Keeps-bind _ _
        (Keeps-attempt _ (
          Keeps-reads sub (readlink_node (link_name p))
            (λ n _. readlink_node-Reads n (link_name p))))
        λ there _.
          Keeps-bind _ _ (make_if_missing-Keeps there)
            λ _ _. create_user_visible_files-Keeps payload hs
    where
      make_if_missing-Keeps :
          (there : Result FilePath)
          → Keeps (Same (Protected ts) n0) O Any (make_if_missing (link_name p) there)
      make_if_missing-Keeps (ok t) = Keeps-pure tt tt
      make_if_missing-Keeps (err Error.not_exist) =
          Keeps-symlink _ (link_name p) (link_name-unprotected p h)
      make_if_missing-Keeps (err _) = Keeps-pure tt tt
