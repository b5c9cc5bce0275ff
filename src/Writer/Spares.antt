-- ===== src/Writer/Spares.antt =====
-- The steps after writePayloadToDir leave a file of the new directory alone, or fail.
use csi_driver_trusted_ca.Common.{
  ◌≡◌, ◌≢◌, ◌∙◌, ap, List, [], ◌∷◌, Option, none, some, Bytes, Dict, All, list_eq, nat_eq,
}
use csi_driver_trusted_ca.Validate.{FilePath, FileProjection, PathError, validate_path}
use csi_driver_trusted_ca.Sys.{
  Error, Result, ok, err, bad_path, Node, Nodes, World, Sys, syscall, raise, attempt,
}
use csi_driver_trusted_ca.Sys.Hoare.{
  Hoare, Ends, Hoare-bind, Hoare-attempt, Hoare-pure, Hoare-raise, Hoare-mono, Hoare-call,
}
use csi_driver_trusted_ca.Os.{at, readlink_node}
use csi_driver_trusted_ca.Os.Change.{OnlyAt, Reads, readlink_node-Reads, symlink_node-Only}
use csi_driver_trusted_ca.Writer.{
  DirFunc, link_name, make_if_missing, create_user_visible_files, add_new_files, run_dir_funcs,
}
use csi_driver_trusted_ca.Writer.Frame.{Post-both}
use csi_driver_trusted_ca.Writer.Delivers.{NoLinks}

abbrev pub Has : FilePath → Node → World → Type 0
Has p x w = at p w.nodes ≡ some x

-- The program leaves the entry as it is, also where it fails.
abbrev pub KeepsEntry : {A : Type 0} → FilePath → Node → Sys A → Type 0
KeepsEntry p x m = Hoare (Has p x) (λ _ w. Has p x w) (Has p x) m

-- A function that leaves alone what the new directory has at `p`.
pub record Spares (p : FilePath) (f : DirFunc) : Type 0 where
  pub keeps : (ts : Bytes) (x : Node) → KeepsEntry (ts ∷ p) x (f ts)

module _ (p : FilePath) (x : Node) where
  pub call-KeepsEntry :
      {A : Type 0} (q : FilePath) (f : Nodes → Result (A × Nodes))
      → q ≢ p
      → ((n : Nodes) → OnlyAt q n (f n))
      → KeepsEntry p x (syscall f)
  call-KeepsEntry q f apart only =
      Hoare-call f
        (λ w h. Post-both (f w.nodes) (only w.nodes) (only w.nodes) λ an o _. o p apart ∙ h)
        (λ w h. h)

  pub read-KeepsEntry :
      {A : Type 0} (f : Nodes → Result (A × Nodes))
      → ((n : Nodes) → Reads n (f n))
      → KeepsEntry p x (syscall f)
  read-KeepsEntry f reads =
      Hoare-call f
        (λ w h.
          Post-both (f w.nodes) (reads w.nodes) (reads w.nodes) λ an same _. ap (at p) (same.0) ∙ h)
        (λ w h. h)

  pub add_new_files-KeepsEntry :
      (names : List Bytes) (payload : Dict FilePath FileProjection)
      → KeepsEntry p x (add_new_files names payload)
  unfolding add_new_files
  add_new_files-KeepsEntry [] payload = Hoare-pure payload λ w h. h
  add_new_files-KeepsEntry (name ∷ names) payload =
      by_check (validate_path name) (add_new_files-KeepsEntry names _)
    where
      by_check :
          {m : Sys (Dict FilePath FileProjection)} (r : Option PathError)
          → KeepsEntry p x m
          → KeepsEntry p x (elim r as (λ _. Sys (Dict FilePath FileProjection)) [
            | some e ↦ raise (bad_path e)
            | none ↦ m
          ])
      by_check none k = k
      by_check (some e) k = Hoare-raise (bad_path e) λ w h. h

module _ (ts : Bytes) (e : Bytes) (p : FilePath) (x : Node) where
  pub run_dir_funcs-KeepsEntry :
      (fs : List DirFunc) (payload : Dict FilePath FileProjection)
      → All (Spares (e ∷ p)) fs
      → KeepsEntry (ts ∷ e ∷ p) x (run_dir_funcs fs ts payload)
  unfolding run_dir_funcs
  run_dir_funcs-KeepsEntry [] payload _ = Hoare-pure payload λ w h. h
  run_dir_funcs-KeepsEntry (f ∷ fs) payload (s, ss) =
      Hoare-bind {Q = λ _ w. Has (ts ∷ e ∷ p) x w} _ _ (s.keeps ts x) λ names.
        Hoare-bind {Q = λ _ w. Has (ts ∷ e ∷ p) x w} _ _
          (add_new_files-KeepsEntry (ts ∷ e ∷ p) x names payload)
          λ payload'. run_dir_funcs-KeepsEntry fs payload' ss

  link_name-apart : (q : FilePath) → link_name q ≢ ts ∷ e ∷ p
  link_name-apart [] h = cc
  link_name-apart (f ∷ q) h = cc

  pub create_user_visible_files-KeepsEntry :
      (payload : Dict FilePath FileProjection)
      → KeepsEntry (ts ∷ e ∷ p) x (create_user_visible_files payload)
  unfolding create_user_visible_files
  create_user_visible_files-KeepsEntry [] = Hoare-pure tt λ w h. h
  create_user_visible_files-KeepsEntry ((q, f) ∷ payload) =
      Hoare-bind {Q = λ _ w. Has (ts ∷ e ∷ p) x w} _ _
        (seen (readlink_node (link_name q)) (λ n. readlink_node-Reads n (link_name q)))
        λ there.
          Hoare-bind {Q = λ _ w. Has (ts ∷ e ∷ p) x w} _ _ (made there)
            λ _. create_user_visible_files-KeepsEntry payload
    where
      seen :
          {A : Type 0} (f : Nodes → Result (A × Nodes))
          → ((n : Nodes) → Reads n (f n))
          → KeepsEntry (ts ∷ e ∷ p) x (attempt (syscall f))
      seen f reads =
          Hoare-mono _
            (Hoare-attempt {D = Has (ts ∷ e ∷ p) x} _ (read-KeepsEntry (ts ∷ e ∷ p) x f reads))
            (λ w h. h) (λ r w h. either r w h) (λ w h. h)
        where
          either :
              {A : Type 0} (r : Result A) (w : World)
              → Ends (λ _ w. Has (ts ∷ e ∷ p) x w) (Has (ts ∷ e ∷ p) x) r w
              → Has (ts ∷ e ∷ p) x w
          either (ok a) w h = h
          either (err e) w h = h

      made :
          (there : Result FilePath)
          → KeepsEntry (ts ∷ e ∷ p) x (make_if_missing (link_name q) there)
      made (ok t) = Hoare-pure tt λ w h. h
      made (err Error.not_exist) =
          call-KeepsEntry (ts ∷ e ∷ p) x (link_name q) _ (link_name-apart q)
            (λ n. symlink_node-Only n (link_name q) _)
      made (err _) = Hoare-pure tt λ w h. h

-- Functions that, run one after the other on a new directory without links below it, leave alone what
-- it has at `p`, or fail.
pub record Leaves (p : FilePath) (fs : List DirFunc) : Type 0 where
  pub keeps :
      (ts : Bytes) (x : Node) (payload : Dict FilePath FileProjection)
      → Hoare
          (λ w. NoLinks ts w.nodes × Has (ts ∷ p) x w)
          (λ _ w. Has (ts ∷ p) x w)
          (λ _. Unit)
          (run_dir_funcs fs ts payload)

pub Spares-Leaves :
    (e : Bytes) (p : FilePath) (fs : List DirFunc) → All (Spares (e ∷ p)) fs → Leaves (e ∷ p) fs
Spares-Leaves e p fs spare = record {
  keeps = λ ts x payload.
      Hoare-mono _ (run_dir_funcs-KeepsEntry ts e p x fs payload spare) (λ w h. h.1) (λ _ w h. h)
        (λ w h. tt);
}
