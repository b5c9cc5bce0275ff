-- ===== src/Writer/Held.antt =====
-- Each step of Write keeps the files that were written, or fails.
use csi_driver_trusted_ca.Common.{
  ◌≡◌, ◌∙◌, List, [], ◌∷◌, some, Bytes, Dict, lookup, Distinct, list_eq, nat_eq,
}
use csi_driver_trusted_ca.Validate.{FilePath, FileProjection}
use csi_driver_trusted_ca.Sys.{Error, Result, ok, err, Node, file, link, World, Sys, attempt}
use csi_driver_trusted_ca.Sys.Hoare.{
  Hoare, Ends, Hoare-bind, Hoare-attempt, Hoare-pure, Hoare-raise, Hoare-mono, Hoare-call,
  Hoare-trivial,
}
use csi_driver_trusted_ca.Os.{at, rename_node}
use csi_driver_trusted_ca.Os.Change.{symlink_node-Only}
use csi_driver_trusted_ca.Writer.{
  DirFunc, data_dir_name, new_data_dir_name, stage, make_link, switch_link, linked, renamed, after,
}
use csi_driver_trusted_ca.Writer.Frame.{Post-both}
use csi_driver_trusted_ca.Writer.Switch.{rename_node-IsRenamed}
use csi_driver_trusted_ca.Writer.Delivers.{Delivered, NoLinks}
use csi_driver_trusted_ca.Writer.Complete.{write_payload_to_dir-delivers}
use csi_driver_trusted_ca.Writer.Spares.{
  Has, KeepsEntry, Leaves, call-KeepsEntry, create_user_visible_files-KeepsEntry,
}

raises :
    {A : Type 0} {P : World → Type 0} {Q : A → World → Type 0} (cleanup : Sys Unit) (e : Error)
    → Hoare P Q (λ _. Unit {0}) (after cleanup e)
raises cleanup e = Hoare-bind _ _ (Hoare-trivial (attempt cleanup)) λ _. Hoare-raise e λ w h. tt

-- a step that keeps the entry, where what a failure leaves does not matter
loosely :
    {A : Type 0} (p : FilePath) (x : Node) (m : Sys A)
    → KeepsEntry p x m
    → Hoare (Has p x) (λ _ w. Has p x w) (λ _. Unit {0}) m
loosely p x m k = Hoare-mono m k (λ w h. h) (λ _ w h. h) (λ w h. tt)

module _ (e : Bytes) (q : FilePath) (g : FileProjection) where
  -- The file is below the new directory, with its content, its mode and its owner.
  abbrev pub Holding : Bytes → World → Type 0
  Holding ts w = Delivered ts (e ∷ q) g w.nodes

  -- a step that keeps the file whoever owns it
  pub by_owner :
      {A : Type 0} {P : World → Type 0} (ts : Bytes) (m : Sys A)
      → ((x : Node)
          → Hoare (λ w. P w × Has (ts ∷ e ∷ q) x w) (λ _ w. Has (ts ∷ e ∷ q) x w) (λ _. Unit {0}) m)
      → Hoare (λ w. P w × Holding ts w) (λ _ w. Holding ts w) (λ _. Unit {0}) m
  by_owner {P = P} ts m k = record {
    run = λ w (p, d).
        (Hoare-mono {P' = λ w. P w × Has (ts ∷ e ∷ q) (file g.content g.mode d.owner) w}
            {Q' = λ _ w. Holding ts w} m (k (file g.content g.mode d.owner)) (λ w h. h)
            (λ _ w h. record { owner = d.owner; there = h; owned = d.owned }) (λ w h. tt)).run
          w (p, d.there);
  }

  pub stage-Holding :
      (ts : Bytes) (payload : Dict FilePath FileProjection) (fs : List DirFunc)
      → Distinct payload
      → lookup (e ∷ q) payload ≡ some g
      → Leaves (e ∷ q) fs
      → Hoare (λ w. NoLinks ts w.nodes) (λ _ w. Holding ts w) (λ _. Unit {0}) (stage payload fs ts)
  unfolding stage
  stage-Holding ts payload fs ds h leaves =
      Hoare-bind {Q = λ _ w. NoLinks ts w.nodes × Holding ts w} _ _
        (Hoare-mono _ (write_payload_to_dir-delivers ts (e ∷ q) g payload ds h) (λ w x. x)
          (λ _ w x. x) (λ w x. x))
        λ _. by_owner ts _ λ x.
          Hoare-bind {Q = λ _ w. Has (ts ∷ e ∷ q) x w} _ _ (leaves.keeps ts x payload) λ payload'.
            Hoare-bind {Q = λ _ w. Has (ts ∷ e ∷ q) x w} _ _
              (loosely (ts ∷ e ∷ q) x _ (create_user_visible_files-KeepsEntry ts e q x payload'))
              λ _. Hoare-pure payload' λ w h. h

  pub make_link-Has :
      (ts : Bytes) (x : Node)
      → Hoare (Has (ts ∷ e ∷ q) x) (λ _ w. Has (ts ∷ e ∷ q) x w) (λ _. Unit {0}) (make_link ts)
  unfolding make_link
  make_link-Has ts x =
      Hoare-bind _ _
        (Hoare-attempt {D = λ _. Unit {0}} _ (
          loosely (ts ∷ e ∷ q) x _ (
            call-KeepsEntry (ts ∷ e ∷ q) x (new_data_dir_name ∷ []) _ (λ h. cc)
              (λ n. symlink_node-Only n (new_data_dir_name ∷ []) (ts ∷ [])))))
        by_result
    where
      by_result :
          (made : Result Unit)
          → Hoare
              (Ends (λ _ w. Has (ts ∷ e ∷ q) x w) (λ _. Unit {0}) made)
              (λ _ w. Has (ts ∷ e ∷ q) x w)
              (λ _. Unit {0})
              (linked ts made)
      by_result (ok _) = Hoare-pure tt λ w h. h
      by_result (err y) = raises _ y

  pub switch_link-Has :
      (ts : Bytes) (x : Node)
      → Hoare
          (λ w.
            (at (new_data_dir_name ∷ []) w.nodes ≡ some (link (ts ∷ []))) × Has (ts ∷ e ∷ q) x w)
          (λ _ w. Has (ts ∷ e ∷ q) x w)
          (λ _. Unit {0})
          (switch_link ts)
  unfolding switch_link
  switch_link-Has ts x =
      Hoare-bind _ _
        (Hoare-attempt {D = λ _. Unit {0}} _ (
          Hoare-call {Q = λ _ w. Has (ts ∷ e ∷ q) x w} _
            (λ w (l, h).
              let r = rename_node (new_data_dir_name ∷ []) (data_dir_name ∷ []) w.nodes in
              let p = rename_node-IsRenamed ts w.nodes l in
              Post-both r p p λ an y _. y.deep ts e q ∙ h)
            (λ w h. tt)))
        by_result
    where
      by_result :
          (made : Result Unit)
          → Hoare
              (Ends (λ _ w. Has (ts ∷ e ∷ q) x w) (λ _. Unit {0}) made)
              (λ _ w. Has (ts ∷ e ∷ q) x w)
              (λ _. Unit {0})
              (renamed ts made)
      by_result (ok _) = Hoare-pure tt λ w h. h
      by_result (err y) = raises _ y
