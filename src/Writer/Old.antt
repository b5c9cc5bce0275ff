-- ===== src/Writer/Old.antt =====
-- The version that Write finds, and its end after the switch.
use csi_driver_trusted_ca.Common.{
  ◌≡◌, ◌≢◌, sym, subst, ◌∙◌, ap, [], ◌∷◌, Option, none, some, Bytes, Dict, inl, inr, ◌⊎◌, arith,
}
use csi_driver_trusted_ca.Validate.{FilePath, FileProjection}
use csi_driver_trusted_ca.Sys.{Error, Result, ok, err, Node, link, Nodes, World, pure, ◌>>=◌}
use csi_driver_trusted_ca.Sys.Keeps.{
  Holds, Post, Keeps, Keeps-reads, Keeps-bind, Keeps-attempt, Keeps-pure, Keeps-raise,
}
use csi_driver_trusted_ca.Os.{at, readlink_node}
use csi_driver_trusted_ca.Writer.{
  data_dir_name, old_dir, read_old_dir, retire, remove_user_visible_paths, remove_paths,
}
use csi_driver_trusted_ca.Writer.View.{SameView, IsTarget, LinksTo, IsSwitched, IsSwitched-SameView}
use csi_driver_trusted_ca.Writer.Fresh.{Seen, Seen-self}
use csi_driver_trusted_ca.Writer.Switch.{Switched}
use csi_driver_trusted_ca.Writer.Retire.{retire-Keeps}

readlink_node-at :
    (p : FilePath) (n : Nodes)
    → Post (λ an. ((an.1) ≡ n) × (at p n ≡ some (link (an.0)))) (readlink_node p n)
unfolding readlink_node
readlink_node-at [] n = tt
readlink_node-at (e ∷ p) n = ground arith

module _ (n0 : Nodes) (target : IsTarget n0) where
  -- what the data directory links to
  abbrev pub IsOld : Option FilePath → Type 0
  IsOld none = Unit
  IsOld (some t) = at (data_dir_name ∷ []) n0 ≡ some (link t)

  pub read_old_dir-Keeps : Keeps (λ n. n ≡ n0) (Seen n0 target) IsOld read_old_dir
  unfolding read_old_dir
  read_old_dir-Keeps =
      Keeps-bind _ _
        (Keeps-attempt _ (
          Keeps-reads (Seen-self n0 target) {R = λ t. at (data_dir_name ∷ []) n0 ≡ some (link t)}
            (readlink_node (data_dir_name ∷ []))
            (λ n e.
              subst
                (λ m.
                  Post (λ an. ((an.1) ≡ n) × (at (data_dir_name ∷ []) m ≡ some (link (an.0))))
                    (readlink_node (data_dir_name ∷ []) n))
                e (readlink_node-at (data_dir_name ∷ []) n))))
        by_result
    where
      by_result :
          (there : Result FilePath)
          → Post (λ t. at (data_dir_name ∷ []) n0 ≡ some (link t)) there
          → Keeps (λ n. n ≡ n0) (Seen n0 target) IsOld (old_dir there)
      by_result (ok t) h = Keeps-pure (some t) h
      by_result (err Error.not_exist) h = Keeps-pure none tt
      by_result (err e) h = Keeps-raise e

  -- what the trees may show once the link is switched in `n1`
  abbrev pub Shown : Nodes → Nodes → Type 0
  Shown n1 n = SameView n0 n ⊎ SameView n1 n

  IsSwitched-Shown :
      (ts : Bytes) (n1 n : Nodes) → IsSwitched ts n1 n1 → IsSwitched ts n1 n → Shown n1 n
  IsSwitched-Shown ts n1 n h1 h = inr (IsSwitched-SameView ts n1 n1 n h1 h)

  -- Retiring the old version keeps what readers see from the switch on, also where it fails.
  pub retired-Holds :
      (ts : Bytes) (payload : Dict FilePath FileProjection) (old : Option FilePath) (w : World)
      → IsOld old
      → Switched n0 target ts w
      → Holds (IsSwitched ts w.nodes) (Shown w.nodes) (retire payload old w).1
  retired-Holds ts payload none w _ (fresh, s, deep, seen) =
      unfold retire remove_user_visible_paths remove_paths ◌>>=◌ pure in
      record { now = s; seen = seen }
  retired-Holds ts payload (some t) w links (fresh, s, deep, seen) = elim target.version [
    | inl missing ↦ absurd (cc)
    | inr (d, v) ↦
        let e : t ≡ d ∷ [] = same_target t d (sym links ∙ v.links) in
        subst (λ u. Holds (IsSwitched ts w.nodes) (Shown w.nodes) (retire payload (some u) w).1)
          (sym e) (retired d v)
  ]
    where
      same_target :
          (t : FilePath) (d : Bytes)
          → ◌≡◌ {A = Option Node} (some (link t)) (some (link (d ∷ [])))
          → t ≡ d ∷ []
      same_target t d h = cc

      retired :
          (d : Bytes)
          → LinksTo d n0
          → Holds (IsSwitched ts w.nodes) (Shown w.nodes) (retire payload (some (d ∷ [])) w).1
      retired d v =
          let apart : d ≢ ts = λ h. v.there (ap (λ x. at (x ∷ []) n0) h ∙ fresh.0) in
          let kept =
            (retire-Keeps ts d w.nodes (Shown w.nodes)
                (λ n h. IsSwitched-Shown ts w.nodes n s h.switched) payload v.other apart).holds
              w
              (record {
                now = record { switched = s; clear = deep d data_dir_name [] apart ∙ v.clear };
                seen = seen;
              }) in
          record { now = kept.now.switched; seen = kept.seen }
