-- ===== src/Writer/Fresh.antt =====
-- The new directory is made beside what readers see, under a name that nothing had.
use csi_driver_trusted_ca.Common.{
  ◌≡◌, ◌≢◌, ◌≤◌, refl, sym, subst, ap, List, [], ◌∷◌, ◌++◌, Option, none, some, Bytes, codes, arith,
  list_eq, nat_eq,
}
use csi_driver_trusted_ca.Sys.{
  Error, Result, ok, err, Node, dir, Nodes, World, Sys, syscall, pure, raise,
}
use csi_driver_trusted_ca.Sys.Keeps.{Holds, Post}
use csi_driver_trusted_ca.Sys.Hoare.{
  Hoare, Ends, Hoare-bind, Hoare-attempt, Hoare-pure, Hoare-raise, Hoare-mono, Hoare-call,
  Keeps-Hoare, moved,
}
use csi_driver_trusted_ca.Os.{at, mkdir_node, chmod_node, mkdir_temp, write_node, parent, is_dir_at}
use csi_driver_trusted_ca.Os.Change.{write_node-Only, at-write_node}
use csi_driver_trusted_ca.Writer.{data_dir_name, new_timestamp_dir}
use csi_driver_trusted_ca.Writer.Frame.{
  Protected, Same, Same-Only, IsStaging, ts-unprotected, Keeps-chmod,
}
use csi_driver_trusted_ca.Writer.View.{view, SameView, IsTarget, Same-SameView}

-- the first byte of the time is a digit
abbrev pub IsStamp : Bytes → Type 0
IsStamp [] = ⊥
IsStamp (c ∷ s) = c ≤ b'9'

stamp-data_dir :
    (stamp random : Bytes)
    → IsStamp stamp
    → (codes ".." ++ stamp ++ codes ".") ++ random ≢ data_dir_name
stamp-data_dir [] random h e = h
stamp-data_dir (c ∷ s) random h e = ground arith

module _ (n0 : Nodes) (target : IsTarget n0) where
  abbrev pub Seen : Nodes → Type 0
  Seen = SameView n0

  -- before the new directory is made
  abbrev pub Untouched : World → Type 0
  Untouched = Holds (λ n. n ≡ n0) Seen

  pub Seen-self : (n : Nodes) → n ≡ n0 → Seen n
  Seen-self n e f p = ap (λ m. view m (f ∷ p)) e

  abbrev pub IsFresh : Bytes → Type 0
  IsFresh ts = (at (ts ∷ []) n0 ≡ none) × (ts ≢ data_dir_name)

  made_dir :
      (ts : Bytes) (n : Nodes)
      → ts ≢ data_dir_name
      → n ≡ n0
      → Post
          (λ an. (at (ts ∷ []) n0 ≡ none) × IsStaging ts n0 (an.1))
          (mkdir_node (ts ∷ []) 0o700 n)
  unfolding mkdir_node
  made_dir ts n other e =
      subst
        (λ m.
          Post (λ an. (at (ts ∷ []) n0 ≡ none) × IsStaging ts n0 (an.1))
            (mkdir_node (ts ∷ []) 0o700 m))
        (sym e) (by_entry (at (ts ∷ []) n0) refl)
    where
      new_dir : at (ts ∷ []) n0 ≡ none → IsStaging ts n0 (write_node (ts ∷ []) (dir 0o700) n0)
      new_dir h = record {
        same =
            Same-Only n0 n0 _ (ts ∷ []) (ts-unprotected ts n0 other [])
              (write_node-Only (ts ∷ []) (dir 0o700) n0) (λ q _. refl);
        no_links = λ p t l.
            ground (arith, at-write_node (ts ∷ []) (ts ∷ p) (dir 0o700) n0, target.rooted ts p h);
      }

      by_entry :
          (x : Option Node)
          → at (ts ∷ []) n0 ≡ x
          → Post
              (λ an. (at (ts ∷ []) n0 ≡ none) × IsStaging ts n0 (an.1))
              (mkdir_node (ts ∷ []) 0o700 n0)
      by_entry none h = rw (h, mkdir_node) (unfold parent is_dir_at in (refl, new_dir h))
      by_entry (some x) h = rw (h, mkdir_node) tt

  pub Seen-staging :
      (ts : Bytes) → at (ts ∷ []) n0 ≡ none → (n : Nodes) → Same (Protected ts) n0 n → Seen n
  Seen-staging ts fresh n same = Same-SameView ts n0 n target fresh same

  -- the new directory has been made, and is being filled
  abbrev pub Filling : Bytes → World → Type 0
  Filling ts w = IsFresh ts × Holds (IsStaging ts n0) Seen w

  filled :
      {ts : Bytes} (w : World)
      → Untouched w
      → (r : Result (Unit × Nodes)) → ts ≢ data_dir_name
      → Post (λ an. (at (ts ∷ []) n0 ≡ none) × IsStaging ts n0 (an.1)) r
      → Post (λ an. Filling ts (moved w (an.1))) r
  filled {ts} w h (ok (a, n)) other (fresh, s) =
      ((fresh, other), record { now = s; seen = (Seen-staging ts fresh n s.same, h.seen) })
  filled w h (err e) other p = tt

  mkdir_temp-Hoare :
      (prefix : Bytes) (randoms : List Bytes)
      → ((random : Bytes) → prefix ++ random ≢ data_dir_name)
      → Hoare Untouched Filling Untouched (mkdir_temp prefix randoms)
  unfolding mkdir_temp
  mkdir_temp-Hoare prefix [] other = Hoare-raise Error.exist λ w h. h
  mkdir_temp-Hoare prefix (random ∷ more) other =
      Hoare-bind _ _ (Hoare-attempt {D = Untouched} _ call)
        (by_result (mkdir_temp-Hoare prefix more other))
    where
      call :
          Hoare Untouched
            (λ _ w. Filling (prefix ++ random) w)
            Untouched
            (syscall (mkdir_node ((prefix ++ random) ∷ []) 0o700))
      call =
          Hoare-call (mkdir_node ((prefix ++ random) ∷ []) 0o700)
            (λ w h.
              filled w h (mkdir_node ((prefix ++ random) ∷ []) 0o700 w.nodes) (other random)
                (made_dir (prefix ++ random) w.nodes (other random) h.now))
            (λ w h. record { now = h.now; seen = h.seen })

      by_result :
          Hoare Untouched Filling Untouched (mkdir_temp prefix more)
          → (made : Result Unit)
          → Hoare
              (Ends (λ _ w. Filling (prefix ++ random) w) Untouched made)
              Filling
              Untouched
              (elim made as (λ _. Sys Bytes) [
                | ok _ ↦ pure (prefix ++ random)
                | err Error.exist ↦ mkdir_temp prefix more
                | err e ↦ raise e
              ])
      by_result again (ok _) = Hoare-pure (prefix ++ random) λ w h. h
      by_result again (err Error.exist) = again
      by_result again (err e) = Hoare-raise e λ w h. h

  -- every tree seen so far, and the one that is there, shows what the first one showed
  abbrev pub Unseen : World → Type 0
  Unseen = Holds Seen Seen

  pub IsStaging-Seen : (ts : Bytes) → IsFresh ts → (n : Nodes) → IsStaging ts n0 n → Seen n
  IsStaging-Seen ts fresh n h = Seen-staging ts (fresh.0) n h.same

  pub new_timestamp_dir-Hoare :
      (stamp : Bytes) (randoms : List Bytes)
      → IsStamp stamp
      → Hoare Untouched Filling Unseen (new_timestamp_dir stamp randoms)
  unfolding new_timestamp_dir
  new_timestamp_dir-Hoare stamp randoms digit =
      Hoare-bind _ _
        (Hoare-mono _ (mkdir_temp-Hoare _ randoms (λ r. stamp-data_dir stamp r digit)) (λ w h. h)
          (λ ts w h. h) (λ w h. record { now = Seen-self w.nodes h.now; seen = h.seen }))
        λ ts. Hoare-bind {Q = λ _ w. Filling ts w} _ _ (chmod_new ts) λ _. Hoare-pure ts λ w h. h
    where
      chmod_new :
          (ts : Bytes)
          → Hoare (Filling ts) (λ _ w. Filling ts w) Unseen (syscall (chmod_node (ts ∷ []) 0o755))
      chmod_new ts = record {
        run = λ w (fresh, h).
            (Hoare-mono {P' = Holds (IsStaging ts n0) Seen} {Q' = λ _ w. Filling ts w} {E' = Unseen}
                _ (Keeps-Hoare _ (Keeps-chmod ts n0 (fresh.1) (IsStaging-Seen ts fresh) [] 0o755))
                (λ w h. h) (λ _ w p. (fresh, p.1))
                (λ w h. record { now = IsStaging-Seen ts fresh w.nodes h.now; seen = h.seen })).run
              w h;
      }
