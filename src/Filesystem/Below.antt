-- ===== src/Filesystem/Below.antt =====
-- What readers of a volume's data directory see while the calls around the atomic writer are made.
use csi_driver_trusted_ca.Common.{
  ◌≡◌, ◌≢◌, refl, sym, ◌∙◌, ap, ◌⊎◌, inl, inr, [], ◌∷◌, ◌++◌, none, Bytes, All, All-mono, length,
  length-append, append_assoc, arith,
}
use csi_driver_trusted_ca.Validate.{FilePath}
use csi_driver_trusted_ca.Sys.{Result, ok, err, Nodes, World, Sys, syscall, ◌>>=◌}
use csi_driver_trusted_ca.Sys.Keeps.{
  Post, Holds, Keeps, Any, Keeps-syscall, Keeps-reads, Keeps-pure, Keeps-bind,
}
use csi_driver_trusted_ca.Sys.Hoare.{Hoare, Hoare-bind, Hoare-mono, Keeps-Hoare, Hoare-call, moved}
use csi_driver_trusted_ca.Os.{at, mkdir_all, ensure_dir_node}
use csi_driver_trusted_ca.Os.Change.{OnlyAt, Reads, ensure_dir_node-Only}
use csi_driver_trusted_ca.Writer.{data_dir_name}
use csi_driver_trusted_ca.Writer.View.{IsTarget}
use csi_driver_trusted_ca.Filesystem.Within.{sub, at-sub}
use csi_driver_trusted_ca.Filesystem.Groups.{
  groupless_entry, groupless-none, groupless-link, SameFiles, entries-SameFiles, Regroups,
  SameButGroups-sub,
}

-- the entries below the root are the same, but for the groups of files
abbrev pub SameEntries : Nodes → Nodes → Type 0
SameEntries n n' =
    (e : Bytes) (p : FilePath) → groupless_entry (at (e ∷ p) n') ≡ groupless_entry (at (e ∷ p) n)

pub SameEntries-IsTarget : (n n' : Nodes) → SameEntries n n' → IsTarget n → IsTarget n'
SameEntries-IsTarget n n' h target = record {
  version = elim target.version [
    | inl missing ↦ inl (nothing data_dir_name [] missing)
    | inr (d, v) ↦ inr (
      d,
      record {
        links =
            groupless-link (at (data_dir_name ∷ []) n') (d ∷ [])
              (h data_dir_name [] ∙ ap groupless_entry v.links);
        there = λ e. v.there (groupless-none (at (d ∷ []) n) (sym (h d []) ∙ ap groupless_entry e));
        other = v.other;
        clear = nothing d (data_dir_name ∷ []) v.clear;
      },
    )
  ];
  rooted = λ e p missing. nothing e p (
      target.rooted e p
        (groupless-none (at (e ∷ []) n) (sym (h e []) ∙ ap groupless_entry missing)));
}
  where
    nothing : (e : Bytes) (p : FilePath) → at (e ∷ p) n ≡ none → at (e ∷ p) n' ≡ none
    nothing e p missing = groupless-none (at (e ∷ p) n') (h e p ∙ ap groupless_entry missing)

module _ (d : FilePath) (n0 : Nodes) where
  -- the entries below the data directory are still those of `n0`
  abbrev pub Below : Nodes → Type 0
  Below n = SameEntries (sub d n0) (sub d n)

  -- every tree that was seen shows in the data directory what `n0` shows there, or the last tree, but
  -- for the groups of files
  abbrev pub IsAtomicBelow : World → Type 0
  IsAtomicBelow w =
      All (λ n. SameFiles (sub d n0) (sub d n) ⊎ SameFiles (sub d w.nodes) (sub d n)) w.observed

  Only-Below :
      {A : Type 0} (p : FilePath) (n : Nodes) (r : Result (A × Nodes))
      → ((e : Bytes) (q : FilePath) → p ≢ d ++ e ∷ q)
      → OnlyAt p n r
      → Below n
      → Post (λ an. Below (an.1) × Any (an.0)) r
  Only-Below p n (err x) apart only h = tt
  Only-Below p n (ok (a, n')) apart only h = (
    λ e q.
        ap groupless_entry
          (at-sub d (e ∷ q) n' ∙ only (d ++ e ∷ q) (apart e q) ∙ sym (at-sub d (e ∷ q) n))
        ∙ h e q,
    tt,
  )

  -- a directory on the way to the data directory is no entry below it
  no_entry :
      (f : Bytes) (base rest tail : FilePath)
      → (base ++ f ∷ rest) ++ tail ≡ d
      → (e : Bytes) (q : FilePath) → base ++ f ∷ [] ≢ d ++ e ∷ q
  no_entry f base rest tail h e q same = omega (
    arith,
    ap length same,
    ap length h,
    length-append base (f ∷ []),
    length-append (base ++ f ∷ rest) tail,
    length-append base (f ∷ rest),
    length-append d (e ∷ q),
  )

  pub mkdir_all-Below :
      (base rest tail : FilePath) (mode : _)
      → (base ++ rest) ++ tail ≡ d
      → Keeps Below Below Any (mkdir_all base rest mode)
  unfolding mkdir_all
  mkdir_all-Below base [] tail mode h = Keeps-pure tt tt
  mkdir_all-Below base (f ∷ rest) tail mode h =
      Keeps-bind _ _
        (Keeps-syscall (λ n b. b) _
          λ n b.
            Only-Below (base ++ f ∷ []) n (ensure_dir_node (base ++ f ∷ []) mode n)
              (no_entry f base rest tail h) (ensure_dir_node-Only n (base ++ f ∷ []) mode) b)
        λ _ _.
          mkdir_all-Below (base ++ f ∷ []) rest tail mode
            (ap (λ x. x ++ tail) (append_assoc base (f ∷ []) rest) ∙ h)

  start-Below : Below n0
  start-Below e p = refl

  Holds-IsAtomicBelow : (w : World) → Holds Below Below w → IsAtomicBelow w
  Holds-IsAtomicBelow w h =
      All-mono w.observed (λ n s. inl (entries-SameFiles (sub d n0) (sub d n) s)) h.seen

  -- the calls before the writer
  abbrev pub Quiet : {A : Type 0} → Sys A → Type 0
  Quiet m = Keeps Below Below Any m

  pub Quiet-Reads :
      {A : Type 0} (f : Nodes → Result (A × Nodes))
      → ((n : Nodes) → Reads n (f n))
      → Quiet (syscall f)
  Quiet-Reads f k = Keeps-reads (λ n h. h) f λ n _. k n

  pub Quiet-Regroups :
      (f : Nodes → Result (Unit × Nodes)) → ((n : Nodes) → Regroups n (f n)) → Quiet (syscall f)
  Quiet-Regroups f k = Keeps-syscall (λ n h. h) f λ n h. by_result n (f n) (k n) h
    where
      by_result :
          (n : Nodes) (r : Result (Unit × Nodes))
          → Regroups n r
          → Below n
          → Post (λ an. Below (an.1) × Any (an.0)) r
      by_result n (err x) g h = tt
      by_result n (ok (a, n')) g h = (λ e p. SameButGroups-sub d n n' g (e ∷ p) ∙ h e p, tt)

  pub then_writes :
      {A : Type 0} (m : Sys A) (k : A → Sys Unit)
      → Quiet m
      → ((a : A) → Hoare (Holds Below Below) (λ _ w. IsAtomicBelow w) IsAtomicBelow (k a))
      → Hoare (Holds Below Below) (λ _ w. IsAtomicBelow w) IsAtomicBelow (m >>= k)
  then_writes m k quiet rest =
      Hoare-bind {Q = λ _ w. Holds Below Below w} m k
        (Hoare-mono m (Keeps-Hoare m quiet) (λ w h. h) (λ a w (_, h). h) Holds-IsAtomicBelow) rest

  -- the calls behind it
  pub Regroups-IsAtomicBelow :
      (f : Nodes → Result (Unit × Nodes))
      → ((n : Nodes) → Regroups n (f n))
      → Hoare IsAtomicBelow (λ _ w. IsAtomicBelow w) IsAtomicBelow (syscall f)
  Regroups-IsAtomicBelow f k =
      Hoare-call f (λ w h. by_result (f w.nodes) w (k w.nodes) h) (λ w h. h)
    where
      by_result :
          (r : Result (Unit × Nodes)) (w : World)
          → Regroups w.nodes r
          → IsAtomicBelow w
          → Post (λ an. IsAtomicBelow (moved w (an.1))) r
      by_result (err x) w g h = tt
      by_result (ok (a, n')) w g h =
          let now : SameFiles (sub d w.nodes) (sub d n') =
            entries-SameFiles (sub d w.nodes) (sub d n')
              (λ e p. SameButGroups-sub d w.nodes n' g (e ∷ p)) in
          (
            inr (λ e p. refl),
            All-mono w.observed
                (λ n s. elim s [ inl s ↦ inl s | inr s ↦ inr (λ e p. s e p ∙ sym (now e p)) ]) h,
          )
