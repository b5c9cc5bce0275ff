-- ===== src/LinuxTls/Create.antt =====
-- CreateCABundle as a whole, where no call fails by chance.
use csi_driver_trusted_ca.Common.{
  ℕ, ◌≡◌, ◌≢◌, refl, ◌∙◌, ap, subst, List, [], ◌∷◌, ◌++◌, ◌||◌, ◌=?◌, Bool, none, some, Bytes, true,
  false, list_eq, nat_eq, arith, =?_ne, =?_refl, Bool-cases, inl, inr, if◌then◌else◌,
}
use csi_driver_trusted_ca.Validate.{FilePath}
use csi_driver_trusted_ca.Sys.{of_process, Result, ok, err, file, dir, link, Nodes, World}
use csi_driver_trusted_ca.Sys.Hoare.{Ends, Hoare-bind, Hoare-pure, Hoare-mono, moved}
use csi_driver_trusted_ca.Sys.Sure.{Calm, Sure, Succeeds, Sure-call}
use csi_driver_trusted_ca.Os.{at, parent, open_node, lstat_node, write_node, is_dir_at}
use csi_driver_trusted_ca.Os.Change.{at-write_node, write_node-Only, follow_self}
use csi_driver_trusted_ca.LinuxTls.{
  FilePath, dir, some, ◌≡◌, [], ◌∷◌, at, ℕ, Nodes, Bytes, DirEntry, bundle_name, entries_in,
  read_dir_node, create_ca_bundle,
}
use csi_driver_trusted_ca.LinuxTls.Bundle.{
  entry_text, bundle_text, content_of, Bundled, add_entries-Bundled,
}

module _ (ts : Bytes) (n : Nodes) (m0 : ℕ) (is_dir : at (ts ∷ []) n ≡ some (dir m0))
    (flat : (name : Bytes) (t : FilePath) → at (ts ∷ name ∷ []) n ≢ some (link t))
    (missing : at (ts ∷ bundle_name ∷ []) n ≡ none) where
  abbrev pub target : FilePath
  target = ts ∷ bundle_name ∷ []

  -- the tree with the empty bundle
  abbrev pub created : Nodes
  created = write_node target (file [] 0o666 of_process) n

  created-flat : (name : Bytes) (t : FilePath) → at (ts ∷ name ∷ []) created ≢ some (link t)
  created-flat name t l =
      flat name t
        (ground (arith, at-write_node target (ts ∷ name ∷ []) (file [] 0o666 of_process) n))

  created-dir : at (ts ∷ []) created ≡ some (dir m0)
  created-dir = write_node-Only target (file [] 0o666 of_process) n (ts ∷ []) (λ e. cc) ∙ is_dir

  entry_text-created : (e : DirEntry) → entry_text created ts e ≡ entry_text n ts e
  entry_text-created (name, d) = elim (Bool-cases (name =? bundle_name)) [
    | inl e ↦ rw e (by_kind d)
    | inr e ↦
        rw
          (write_node-Only target (file [] 0o666 of_process) n (ts ∷ name ∷ [])
            (λ same. =?_ne name bundle_name e (cc)))
          refl
  ]
    where
      by_kind :
          (b : Bool)
          → (if b || true then [] else content_of (at (ts ∷ name ∷ []) created) ++ (10 ∷ 10 ∷ []))
            ≡ (if b || true then [] else content_of (at (ts ∷ name ∷ []) n) ++ (10 ∷ 10 ∷ []))
      by_kind true = refl
      by_kind false = refl

  bundle_text-created : (es : List DirEntry) → bundle_text created ts es ≡ bundle_text n ts es
  unfolding bundle_text
  bundle_text-created [] = refl
  bundle_text-created (e ∷ es) = rw (entry_text-created e, bundle_text-created es) refl

  abbrev Opened : World → Type 0
  Opened w = Calm w × (w.nodes ≡ created)

  open_node-created : open_node target 0o666 n ≡ ok (tt, created)
  unfolding open_node parent is_dir_at
  open_node-created =
      let self = follow_self n target (λ t l. cc) in
      rw (self, open_node) (rw missing (rw self (rw (is_dir, is_dir_at) refl)))

  create_ca_bundle-Sure :
      Sure
        (λ w. Calm w × (w.nodes ≡ n))
        (λ names w.
          (names ≡ bundle_name ∷ [])
          × Bundled ts created created-flat 0o666 of_process
              (bundle_text created ts (entries_in (ts ∷ []) created))
              w)
        (create_ca_bundle ts)
  unfolding create_ca_bundle lstat_node read_dir_node is_dir_at
  create_ca_bundle-Sure =
      Hoare-bind {Q = λ _ w. Opened w} _ _ (Sure-call _ λ w (c, e). (c, opened w c e)) λ _.
        Hoare-bind {Q = λ _ w. Opened w} _ _ (Sure-call _ λ w (c, e). (c, seen w c e)) λ _.
          Hoare-bind {Q = λ es w. (es ≡ entries_in (ts ∷ []) created) × Opened w} _ _
            (Sure-call _ λ w (c, e). (c, listed w c e))
            λ es. record {
              run = λ w (same, h).
                  (Hoare-bind
                      {Q = λ _ w.
                        Bundled ts created created-flat 0o666 of_process (bundle_text created ts es)
                          w}
                      _ _
                      (Hoare-mono _
                        (add_entries-Bundled ts created created-flat 0o666 of_process [] es)
                        (λ w h. fresh w h) (λ _ w h. h) (λ w h. h))
                      λ _. Hoare-pure (bundle_name ∷ []) λ w b. (
                        refl,
                        subst
                            (λ x.
                              Bundled ts created created-flat 0o666 of_process
                                (bundle_text created ts x) w)
                            same b,
                      )).run
                    w h;
            }
    where
      opened :
          (w : World)
          → Calm w
          → w.nodes ≡ n
          → Succeeds (λ an. Opened (moved w (an.1))) (open_node target 0o666 w.nodes)
      opened w c e = rw e (rw open_node-created (rw c, refl))

      seen :
          (w : World)
          → Calm w
          → w.nodes ≡ created
          → Succeeds (λ an. Opened (moved w (an.1))) (lstat_node (ts ∷ []) w.nodes)
      seen w c e = rw (e, lstat_node) (rw created-dir (rw c, e))

      listed :
          (w : World)
          → Calm w
          → w.nodes ≡ created
          → Succeeds
              (λ an. ((an.0) ≡ entries_in (ts ∷ []) created) × Opened (moved w (an.1)))
              (read_dir_node (ts ∷ []) w.nodes)
      listed w c e = rw (e, read_dir_node) (rw (created-dir, is_dir_at) (refl, (rw c, refl)))

      fresh : (w : World) → Opened w → Bundled ts created created-flat 0o666 of_process [] w
      fresh w (c, e) = record {
        calm = c;
        there =
            ap (at target) e
            ∙ ground (
              arith,
              at-write_node target target (file [] 0o666 of_process) n,
              =?_refl {A = FilePath} target,
            );
        other = λ q _. ap (at q) e;
      }

  abbrev pub start : World
  start = record { nodes = n; observed = []; faults = [] }

  -- Where no call fails by chance, CreateCABundle returns the bundle's name; the bundle holds the
  -- content of each entry of the directory that is no directory, in the order of the names and each
  -- with an empty line behind it, and nothing else is changed. An entry that is no file gives the
  -- empty line alone. The directory is there, holds no link and no bundle.
  pub create_ca_bundle-Bundled :
      (q : FilePath)
      → target ≢ q
      → ((create_ca_bundle ts start).0 ≡ ok (bundle_name ∷ []))
        × (at target (create_ca_bundle ts start).1.nodes
            ≡ some (file (bundle_text n ts (entries_in (ts ∷ []) created)) 0o666 of_process))
        × (at q (create_ca_bundle ts start).1.nodes ≡ at q n)
  create_ca_bundle-Bundled q apart =
      by_end (create_ca_bundle ts start).0 (create_ca_bundle ts start).1
        (create_ca_bundle-Sure.run start (refl, refl))
    where
      by_end :
          (r : Result (List Bytes)) (w : World)
          → Ends
              (λ names w.
                (names ≡ bundle_name ∷ [])
                × Bundled ts created created-flat 0o666 of_process
                    (bundle_text created ts (entries_in (ts ∷ []) created))
                    w)
              (λ _. ⊥)
              r
              w
          → (r ≡ ok (bundle_name ∷ []))
            × (at target w.nodes
                ≡ some (file (bundle_text n ts (entries_in (ts ∷ []) created)) 0o666 of_process))
            × (at q w.nodes ≡ at q n)
      by_end (ok names) w (e, b) = (
        ap ok e,
        b.there
            ∙ ap (λ x. some (file x 0o666 of_process))
                (bundle_text-created (entries_in (ts ∷ []) created)),
        b.other q apart ∙ write_node-Only target (file [] 0o666 of_process) n q apart,
      )
      by_end (err x) w h = absurd h
