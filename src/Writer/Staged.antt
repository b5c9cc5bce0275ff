-- ===== src/Writer/Staged.antt =====
-- The new directory is filled, and cleared away after a failure, beside what readers see.
use csi_driver_trusted_ca.Common.{
  ◌≡◌, subst, true, List, [], ◌∷◌, Bytes, Dict, All, list_eq, nat_eq,
}
use csi_driver_trusted_ca.Validate.{FilePath, FileProjection}
use csi_driver_trusted_ca.Sys.{Error, Nodes, World, Sys, pure, ◌>>=◌, attempt}
use csi_driver_trusted_ca.Sys.Keeps.{Holds, Post, Keeps, Keeps-syscall, Keeps-attempt, Any}
use csi_driver_trusted_ca.Sys.Hoare.{
  Hoare, Hoare-bind, Hoare-pure, Hoare-raise, Hoare-mono, Keeps-Hoare,
}
use csi_driver_trusted_ca.Os.{under, remove_node, remove, remove_all}
use csi_driver_trusted_ca.Os.Change.{remove_node-Only}
use csi_driver_trusted_ca.Os.Removal.{remove_all-Keeps}
use csi_driver_trusted_ca.Writer.{
  DirFunc, stage, write_payload_to_dir, create_user_visible_files, after,
}
use csi_driver_trusted_ca.Writer.Frame.{
  Protected, Same, Same-Only, IsStaging, Post-both, ts-unprotected,
}
use csi_driver_trusted_ca.Writer.Stage.{
  Unreserved, IsLocal, write_payload_to_dir-Keeps, run_dir_funcs-Keeps,
  create_user_visible_files-Keeps,
}
use csi_driver_trusted_ca.Writer.View.{IsTarget}
use csi_driver_trusted_ca.Writer.Fresh.{
  Seen, Seen-staging, IsStaging-Seen, IsFresh, Filling, Unseen,
}
use csi_driver_trusted_ca.Writer.Retire.{under_head}

module _ (n0 : Nodes) (target : IsTarget n0) where
  -- the new directory is complete
  abbrev pub Staged : Bytes → World → Type 0
  Staged ts w = IsFresh n0 target ts × Holds (Same (Protected ts) n0) (Seen n0 target) w

  pub Staged-Unseen : (ts : Bytes) (w : World) → Staged ts w → Unseen n0 target w
  Staged-Unseen ts w (fresh, h) = record {
    now = Seen-staging n0 target ts (fresh.0) w.nodes h.now;
    seen = h.seen;
  }

  -- A program that keeps what readers see.
  pub Staged-by :
      {A : Type 0} {R : A → Type 0} (ts : Bytes) (m : Sys A)
      → (IsFresh n0 target ts → Keeps (Same (Protected ts) n0) (Seen n0 target) R m)
      → Hoare (Staged ts) (λ a w. R a × Staged ts w) (Staged ts) m
  Staged-by {R = R} ts m k = record {
    run = λ w (fresh, h).
        (Hoare-mono {P' = Holds (Same (Protected ts) n0) (Seen n0 target)}
            {Q' = λ a w'. R a × Staged ts w'} {E' = Staged ts} m (Keeps-Hoare m (k fresh))
            (λ w' x. x) (λ a w' p. (p.0, (fresh, p.1))) (λ w' x. (fresh, x))).run
          w h;
  }

  filled_by :
      (ts : Bytes) (payload : Dict FilePath FileProjection)
      → Hoare
          (Filling n0 target ts)
          (λ _ w. Staged ts w)
          (Staged ts)
          (write_payload_to_dir payload ts)
  filled_by ts payload = record {
    run = λ w (fresh, h).
        (Hoare-mono {P' = Holds (IsStaging ts n0) (Seen n0 target)} {Q' = λ _ w'. Staged ts w'}
            {E' = Staged ts} _
            (Keeps-Hoare _ (
              write_payload_to_dir-Keeps ts n0 _ (fresh.1) (IsStaging-Seen n0 target ts fresh)
                payload))
            (λ w' x. x) (λ _ w' p. (fresh, same_only w' (p.1)))
            (λ w' x. (fresh, same_only w' x))).run
          w h;
  }
    where
      same_only :
          (w' : World)
          → Holds (IsStaging ts n0) (Seen n0 target) w'
          → Holds (Same (Protected ts) n0) (Seen n0 target) w'
      same_only w' x = record { now = x.now.same; seen = x.seen }

  pub stage-Hoare :
      (ts : Bytes) (payload : Dict FilePath FileProjection) (fs : List DirFunc)
      → Unreserved payload
      → All IsLocal fs
      → Hoare (Filling n0 target ts) (λ _ w. Staged ts w) (Unseen n0 target) (stage payload fs ts)
  unfolding stage
  stage-Hoare ts payload fs plain local =
      Hoare-mono _
        (Hoare-bind _ _ (filled_by ts payload) λ _.
          Hoare-bind {Q = λ p w. Unreserved p × Staged ts w} _ _
            (Staged-by ts _ λ fresh.
              run_dir_funcs-Keeps ts n0 _ (Seen-staging n0 target ts (fresh.0)) fs payload (fresh.1)
                local plain)
            λ payload'. by_names payload')
        (λ w h. h) (λ _ w h. h) (Staged-Unseen ts)
    where
      by_names :
          (payload' : Dict FilePath FileProjection)
          → Hoare
              (λ w. Unreserved payload' × Staged ts w)
              (λ _ w. Staged ts w)
              (Staged ts)
              (create_user_visible_files payload' >>= λ _. pure payload')
      by_names payload' = record {
        run = λ w (plain', h).
            (Hoare-bind {Q = λ _ w'. Unit × Staged ts w'} _ _
                (Staged-by {R = Any} ts _ λ fresh.
                  create_user_visible_files-Keeps ts n0 _ (Seen-staging n0 target ts (fresh.0))
                    payload' plain')
                λ _. Hoare-pure payload' λ w' x. x.1).run
              w h;
      }

  -- Removals below the new directory and of the new link.
  pub remove-Keeps :
      (ts : Bytes) (q : FilePath)
      → IsFresh n0 target ts
      → ¬ (Protected ts q)
      → Keeps (Same (Protected ts) n0) (Seen n0 target) Any (remove q)
  remove-Keeps ts q fresh out =
      Keeps-syscall (Seen-staging n0 target ts (fresh.0)) (remove_node q) λ n h.
        Post-both (remove_node q n) (remove_node-Only n q) (remove_node-Only n q)
          λ an o _. (Same-Only n0 n (an.1) q out o h, tt)

  pub remove_new-Keeps :
      (ts : Bytes)
      → IsFresh n0 target ts
      → Keeps (Same (Protected ts) n0) (Seen n0 target) Any (remove_all (ts ∷ []))
  remove_new-Keeps ts fresh =
      remove_all-Keeps (Seen-staging n0 target ts (fresh.0)) (ts ∷ []) below_new
    where
      below_new :
          (q : FilePath)
          → under (ts ∷ []) q ≡ true
          → Keeps (Same (Protected ts) n0) (Seen n0 target) Any (remove q)
      below_new [] u = absurd (unfold under in cc)
      below_new (f ∷ q) u = remove-Keeps ts (f ∷ q) fresh (
          subst (λ g. ¬ (Protected ts (g ∷ q))) (under_head ts f q u)
            (ts-unprotected ts n0 (fresh.1) q))

  -- cleaning up after a failure
  pub after-Hoare :
      {Q : Unit → World → Type 0} (ts : Bytes) (cleanup : Sys Unit) (e : Error)
      → (IsFresh n0 target ts → Keeps (Same (Protected ts) n0) (Seen n0 target) Any cleanup)
      → Hoare (Staged ts) Q (Unseen n0 target) (after cleanup e)
  after-Hoare ts cleanup e k =
      Hoare-bind {Q = λ _ w. Staged ts w} _ _
        (Hoare-mono {E' = Unseen n0 target} _
          (Staged-by {R = Post Any} ts (attempt cleanup) λ fresh. Keeps-attempt cleanup (k fresh))
          (λ w h. h) (λ _ w h. h.1) (Staged-Unseen ts))
        λ _. Hoare-raise e (Staged-Unseen ts)
