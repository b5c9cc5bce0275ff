-- ===== src/Writer/Atomic.antt =====
-- Write is atomic for readers of the data directory, at every moment and whatever call fails.
use csi_driver_trusted_ca.Common.{
  refl, ◌∙◌, List, [], Option, Bytes, All, Dict, All-mono, inl, inr, ◌⊎◌,
}
use csi_driver_trusted_ca.Validate.{
  FilePath, FileProjection, PayloadResult, valid, invalid, validate_payload,
}
use csi_driver_trusted_ca.Sys.{Error, Result, ok, err, bad_path, Nodes, World, Sys, raise, ◌>>=◌}
use csi_driver_trusted_ca.Sys.Hoare.{Hoare, Ends, Hoare-bind, Hoare-mono, Keeps-Hoare}
use csi_driver_trusted_ca.Writer.{
  DirFunc, new_timestamp_dir, stage, make_link, switch_link, retire, write_clean, write,
}
use csi_driver_trusted_ca.Writer.Stage.{Unreserved, IsLocal}
use csi_driver_trusted_ca.Writer.View.{SameView, IsTarget, IsSwitched, IsSwitched-SameView}
use csi_driver_trusted_ca.Writer.Fresh.{
  IsStamp, Seen-self, Untouched, Filling, Unseen, new_timestamp_dir-Hoare,
}
use csi_driver_trusted_ca.Writer.Old.{IsOld, read_old_dir-Keeps, Shown, retired-Holds}
use csi_driver_trusted_ca.Writer.Staged.{stage-Hoare}
use csi_driver_trusted_ca.Writer.Switch.{Switched, make_link-Hoare, switch_link-Hoare}

-- Every tree that was seen shows what `n0` shows, or what the last tree shows.
abbrev pub IsAtomic : Nodes → World → Type 0
IsAtomic n0 w = All (λ n. SameView n0 n ⊎ SameView w.nodes n) w.observed

module _ (n0 : Nodes) (target : IsTarget n0) where
  Unseen-IsAtomic : (w : World) → Unseen n0 target w → IsAtomic n0 w
  Unseen-IsAtomic w h = All-mono w.observed (λ n s. inl s) h.seen

  Shown-IsAtomic :
      (ts : Bytes) (n1 : Nodes) (w : World)
      → IsSwitched ts n1 n1
      → IsSwitched ts n1 w.nodes
      → All (Shown n0 target n1) w.observed
      → IsAtomic n0 w
  Shown-IsAtomic ts n1 w h1 h seen = All-mono w.observed by_side seen
    where
      by_side : (n : Nodes) → Shown n0 target n1 n → SameView n0 n ⊎ SameView w.nodes n
      by_side n (inl s) = inl s
      by_side n (inr s) = inr (λ e p. s e p ∙ IsSwitched-SameView ts n1 w.nodes n1 h h1 e p)

  retire-IsAtomic :
      (ts : Bytes) (payload : Dict FilePath FileProjection) (old : Option FilePath) (w : World)
      → IsOld n0 target old
      → Switched n0 target ts w
      → IsAtomic n0 (retire payload old w).1
  retire-IsAtomic ts payload old w links h =
      let kept = retired-Holds n0 target ts payload old w links h in
      Shown-IsAtomic ts w.nodes (retire payload old w).1 (h.1) kept.now kept.seen

  either :
      (r : Result Unit) (w : World)
      → Ends (λ _ w'. IsAtomic n0 w') (IsAtomic n0) r w
      → IsAtomic n0 w
  either (ok a) w h = h
  either (err e) w h = h

  retire-Hoare :
      (ts : Bytes) (payload : Dict FilePath FileProjection) (old : Option FilePath)
      → IsOld n0 target old
      → Hoare (Switched n0 target ts) (λ _ w. IsAtomic n0 w) (IsAtomic n0) (retire payload old)
  retire-Hoare ts payload old links = record {
    run = λ w h.
        both (retire payload old w).0 (retire payload old w).1
          (retire-IsAtomic ts payload old w links h);
  }
    where
      both :
          (r : Result Unit) (w : World)
          → IsAtomic n0 w
          → Ends (λ _ w'. IsAtomic n0 w') (IsAtomic n0) r w
      both (ok a) w h = h
      both (err e) w h = h

  -- a step whose failure leaves nothing to see
  unseen :
      {A : Type 0} {P : World → Type 0} {Q : A → World → Type 0} (m : Sys A)
      → Hoare P Q (Unseen n0 target) m
      → Hoare P Q (IsAtomic n0) m
  unseen m h = Hoare-mono m h (λ w x. x) (λ a w x. x) Unseen-IsAtomic

  write_clean-Hoare :
      (stamp : Bytes) (randoms : List Bytes) (payload : Dict FilePath FileProjection)
      (fs : List DirFunc)
      → IsStamp stamp
      → Unreserved payload
      → All IsLocal fs
      → Hoare
          (Untouched n0 target)
          (λ _ w. IsAtomic n0 w)
          (IsAtomic n0)
          (write_clean stamp randoms payload fs)
  unfolding write_clean
  write_clean-Hoare stamp randoms payload fs digit plain local =
      Hoare-bind {Q = λ old w. IsOld n0 target old × Untouched n0 target w} _ _
        (Hoare-mono _ (Keeps-Hoare _ (read_old_dir-Keeps n0 target)) (λ w h. h) (λ a w h. h)
          (λ w h.
            Unseen-IsAtomic w (record { now = Seen-self n0 target w.nodes h.now; seen = h.seen })))
        λ old. from_old old
    where
      after_link :
          (old : Option FilePath)
          → IsOld n0 target old
          → (ts : Bytes)
          → Hoare
              (Filling n0 target ts)
              (λ _ w. IsAtomic n0 w)
              (IsAtomic n0)
              (stage payload fs ts >>= λ payload'.
                make_link ts >>= λ _. switch_link ts >>= λ _. retire payload' old)
      after_link old links ts =
          Hoare-bind _ _ (unseen _ (stage-Hoare n0 target ts payload fs plain local)) λ payload'.
            Hoare-bind _ _ (unseen _ (make_link-Hoare n0 target ts)) λ _.
              Hoare-bind _ _ (unseen _ (switch_link-Hoare n0 target ts))
                λ _. retire-Hoare ts payload' old links

      from_old :
          (old : Option FilePath)
          → Hoare
              (λ w. IsOld n0 target old × Untouched n0 target w)
              (λ _ w. IsAtomic n0 w)
              (IsAtomic n0)
              (new_timestamp_dir stamp randoms >>= λ ts. stage payload fs ts >>= λ payload'.
                make_link ts >>= λ _. switch_link ts >>= λ _. retire payload' old)
      from_old old = record {
        run = λ w (links, h).
            (Hoare-bind _ _ (unseen _ (new_timestamp_dir-Hoare n0 target stamp randoms digit))
                λ ts. after_link old links ts).run
              w h;
      }

-- the payload that validatePayload returns has no entry seen under the data directory's name
abbrev pub ValidUnreserved : PayloadResult → Type 0
ValidUnreserved (valid payload) = Unreserved payload
ValidUnreserved (invalid e) = Unit

-- Whichever calls fail, and whatever functions are run on the new directory that keep out of what
-- readers see: at every moment of Write a reader of the data directory finds what it found before
-- the call, or what it finds after it, never a mixture. The target directory is as a former Write
-- leaves it, the time begins with a digit, and no cleaned path of the payload begins with the data
-- directory's own name.
pub write-IsAtomic :
    (n0 : Nodes) (faults : List (Option Error)) (stamp : Bytes) (randoms : List Bytes)
    (payload : Dict Bytes FileProjection) (fs : List DirFunc)
    → IsTarget n0
    → IsStamp stamp
    → ValidUnreserved (validate_payload payload)
    → All IsLocal fs
    → IsAtomic n0
        (write stamp randoms payload fs (record { nodes = n0; observed = []; faults = faults })).1
unfolding write
write-IsAtomic n0 faults stamp randoms payload fs target digit plain local =
    by_payload (validate_payload payload) plain
  where
    start : World
    start = record { nodes = n0; observed = []; faults = faults }

    by_payload :
        (r : PayloadResult)
        → ValidUnreserved r
        → IsAtomic n0
            ((elim r as (λ _. Sys Unit) [
              | invalid e ↦ raise (bad_path e)
              | valid clean_payload ↦ write_clean stamp randoms clean_payload fs
            ])
              start).1
    by_payload (invalid e) _ = unfold raise in tt
    by_payload (valid c) u =
        either n0 target (write_clean stamp randoms c fs start).0
          (write_clean stamp randoms c fs start).1
          ((write_clean-Hoare n0 target stamp randoms c fs digit u local).run start
            (record { now = refl; seen = tt }))
