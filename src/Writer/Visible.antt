-- ===== src/Writer/Visible.antt =====
-- A Write that succeeds shows its payload to the readers of the data directory.
use csi_driver_trusted_ca.Common.{
  ◌≡◌, refl, sym, ◌∙◌, List, [], ◌∷◌, Option, some, Bytes, Dict, All, lookup, insert, Distinct,
  Distinct-insert, list_eq, nat_eq, arith, subst,
}
use csi_driver_trusted_ca.Path.{clean_elems}
use csi_driver_trusted_ca.Validate.{
  FilePath, FileProjection, PayloadResult, valid, invalid, validate_entries, validate_payload,
}
use csi_driver_trusted_ca.Sys.{
  Owner, Error, Result, ok, err, bad_path, file, Nodes, World, Sys, raise, ◌>>=◌,
}
use csi_driver_trusted_ca.Sys.Hoare.{Hoare, Ends, Hoare-bind, Hoare-mono, Hoare-both, Keeps-Hoare}
use csi_driver_trusted_ca.Writer.{
  DirFunc, new_timestamp_dir, stage, make_link, switch_link, retire, write_clean, write,
}
use csi_driver_trusted_ca.Writer.Stage.{Unreserved, IsLocal}
use csi_driver_trusted_ca.Writer.View.{view, IsTarget, view_links}
use csi_driver_trusted_ca.Writer.Fresh.{
  IsStamp, Untouched, Filling, Unseen, new_timestamp_dir-Hoare,
}
use csi_driver_trusted_ca.Writer.Staged.{Staged, stage-Hoare}
use csi_driver_trusted_ca.Writer.Switch.{Linked, Switched, make_link-Hoare, switch_link-Hoare}
use csi_driver_trusted_ca.Writer.Old.{IsOld, read_old_dir-Keeps, retired-Holds}
use csi_driver_trusted_ca.Writer.Delivers.{OwnedBy}
use csi_driver_trusted_ca.Writer.Held.{
  Holding, by_owner, stage-Holding, make_link-Has, switch_link-Has,
}
use csi_driver_trusted_ca.Writer.Spares.{Leaves}

module _ (e : Bytes) (q : FilePath) (g : FileProjection) where
  -- Readers find the file at its path below the data directory.
  abbrev pub Showing : World → Type 0
  Showing w =
      (u : Owner) × (view w.nodes (e ∷ q) ≡ some (file g.content g.mode u)) × OwnedBy g.fs_user u

  module _ (n0 : Nodes) (target : IsTarget n0) where
    both_steps :
        {A : Type 0} {P : World → Type 0} {Q R : A → World → Type 0} (m : Sys A)
        → Hoare P Q (Unseen n0 target) m
        → Hoare P R (λ _. Unit {0}) m
        → Hoare P (λ a w. Q a w × R a w) (λ _. Unit {0}) m
    both_steps m h k = Hoare-mono m (Hoare-both m h k) (λ w p. (p, p)) (λ a w p. p) (λ w p. tt)

    retire-Showing :
        (ts : Bytes) (payload : Dict FilePath FileProjection) (old : Option FilePath)
        → IsOld n0 target old
        → Hoare
            (λ w. Switched n0 target ts w × Holding e q g ts w)
            (λ _ w. Showing w)
            (λ _. Unit {0})
            (retire payload old)
    retire-Showing ts payload old links = record {
      run = λ w (s, d). ending (retire payload old w).0 (retire payload old w).1 (shown w s d);
    }
      where
        shown :
            (w : World)
            → Switched n0 target ts w
            → Holding e q g ts w
            → Showing (retire payload old w).1
        shown w s d =
            let kept = (retired-Holds n0 target ts payload old w links s).now in
            (
              d.owner,
              view_links (retire payload old w).1.nodes (e ∷ q) kept.links
                  ∙ kept.same e q
                  ∙ d.there,
              d.owned,
            )

        ending :
            (r : Result Unit) (w : World) → Showing w → Ends (λ _ w. Showing w) (λ _. Unit {0}) r w
        ending (ok a) w h = h
        ending (err x) w h = tt

    write_clean-Showing :
        (stamp : Bytes) (randoms : List Bytes) (payload : Dict FilePath FileProjection)
        (fs : List DirFunc)
        → IsStamp stamp
        → Unreserved payload
        → All IsLocal fs
        → Leaves (e ∷ q) fs
        → Distinct payload
        → lookup (e ∷ q) payload ≡ some g
        → Hoare
            (Untouched n0 target)
            (λ _ w. Showing w)
            (λ _. Unit {0})
            (write_clean stamp randoms payload fs)
    unfolding write_clean
    write_clean-Showing stamp randoms payload fs digit plain local leaves ds here =
        Hoare-bind {Q = λ old w. IsOld n0 target old × Untouched n0 target w} _ _
          (Hoare-mono _ (Keeps-Hoare _ (read_old_dir-Keeps n0 target)) (λ w h. h) (λ a w h. h)
            (λ w h. tt))
          λ old. from_old old
      where
        filled :
            (ts : Bytes)
            → Hoare
                (Filling n0 target ts)
                (λ _ w. Staged n0 target ts w × Holding e q g ts w)
                (λ _. Unit {0})
                (stage payload fs ts)
        filled ts = both_steps _ (stage-Hoare n0 target ts payload fs plain local) (
            Hoare-mono _ (stage-Holding e q g ts payload fs ds here leaves)
              (λ w h. h.1.now.no_links) (λ _ w h. h) (λ w h. h))

        with_link :
            (ts : Bytes)
            → Hoare
                (λ w. Staged n0 target ts w × Holding e q g ts w)
                (λ _ w. Linked n0 target ts w × Holding e q g ts w)
                (λ _. Unit {0})
                (make_link ts)
        with_link ts =
            both_steps _
              (Hoare-mono _ (make_link-Hoare n0 target ts) (λ w h. h.0) (λ _ w h. h) (λ w h. h))
              (by_owner e q g ts _
                λ x. Hoare-mono _ (make_link-Has e q g ts x) (λ w h. h.1) (λ _ w h. h) (λ w h. h))

        with_switch :
            (ts : Bytes)
            → Hoare
                (λ w. Linked n0 target ts w × Holding e q g ts w)
                (λ _ w. Switched n0 target ts w × Holding e q g ts w)
                (λ _. Unit {0})
                (switch_link ts)
        with_switch ts =
            both_steps _
              (Hoare-mono _ (switch_link-Hoare n0 target ts) (λ w h. h.0) (λ _ w h. h) (λ w h. h))
              (by_owner e q g ts _ λ x.
                Hoare-mono _ (switch_link-Has e q g ts x) (λ w h. (h.0.1, h.1)) (λ _ w h. h)
                  (λ w h. h))

        from_old :
            (old : Option FilePath)
            → Hoare
                (λ w. IsOld n0 target old × Untouched n0 target w)
                (λ _ w. Showing w)
                (λ _. Unit {0})
                (new_timestamp_dir stamp randoms >>= λ ts. stage payload fs ts >>= λ payload'.
                  make_link ts >>= λ _. switch_link ts >>= λ _. retire payload' old)
        from_old old = record {
          run = λ w (links, h).
              (Hoare-bind _ _
                  (Hoare-mono _ (new_timestamp_dir-Hoare n0 target stamp randoms digit) (λ w h. h)
                    (λ _ w h. h) (λ w h. tt))
                  λ ts. Hoare-bind _ _ (filled ts) λ payload'. Hoare-bind _ _ (with_link ts) λ _.
                    Hoare-bind _ _ (with_switch ts) λ _. retire-Showing ts payload' old links).run
                w h;
        }

validate_entries-Distinct :
    (payload : Dict Bytes FileProjection) (m c : Dict FilePath FileProjection)
    → Distinct m
    → validate_entries payload m ≡ valid c
    → Distinct c
unfolding validate_entries
validate_entries-Distinct [] m c h e = subst Distinct (ground arith) h
validate_entries-Distinct ((k, content) ∷ payload) m c h e =
    validate_entries-Distinct payload (insert (clean_elems k) content m) c
      (Distinct-insert (clean_elems k) content m h) (ground arith)

-- A Write that reports no error shows its payload: readers of the data directory find each file of
-- the cleaned payload at its path, with its content, its mode and the owner that it was to have, in
-- whatever order the files were written. The target directory is as a former Write leaves it, the
-- time begins with a digit, no cleaned path begins with the data directory's own name, and the
-- functions that are run on the new directory keep out of what readers see and leave the file alone
-- where the directory has no links below it.
pub write-Showing :
    (n0 : Nodes) (faults : List (Option Error)) (stamp : Bytes) (randoms : List Bytes)
    (payload : Dict Bytes FileProjection) (fs : List DirFunc) (c : Dict FilePath FileProjection)
    (e : Bytes) (q : FilePath) (g : FileProjection)
    → IsTarget n0
    → IsStamp stamp
    → validate_payload payload ≡ valid c
    → Unreserved c
    → All IsLocal fs
    → Leaves (e ∷ q) fs
    → lookup (e ∷ q) c ≡ some g
    → (write stamp randoms payload fs (record { nodes = n0; observed = []; faults = faults })).0
      ≡ ok tt
    → Showing e q g
        (write stamp randoms payload fs (record { nodes = n0; observed = []; faults = faults })).1
unfolding write validate_payload
write-Showing n0 faults stamp randoms payload fs c e q g target digit v plain local leaves here =
    subst (λ r. (run r start).0 ≡ ok tt → Showing e q g (run r start).1) (sym v)
      (on_success (write_clean stamp randoms c fs start).0 (write_clean stamp randoms c fs start).1
        ((write_clean-Showing e q g n0 target stamp randoms c fs digit plain local leaves
            (validate_entries-Distinct payload [] c tt v) here).run
          start (record { now = refl; seen = tt })))
  where
    start : World
    start = record { nodes = n0; observed = []; faults = faults }

    run : PayloadResult → Sys Unit
    run r = elim r as (λ _. Sys Unit) [
      | invalid e ↦ raise (bad_path e)
      | valid clean_payload ↦ write_clean stamp randoms clean_payload fs
    ]

    on_success :
        (r : Result Unit) (w : World)
        → Ends (λ _ w. Showing e q g w) (λ _. Unit {0}) r w
        → r ≡ ok tt
        → Showing e q g w
    on_success (ok _) w h _ = h
    on_success (err x) w h f = absurd (cc)
