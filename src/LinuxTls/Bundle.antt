-- ===== src/LinuxTls/Bundle.antt =====
-- What CreateCABundle puts into the bundle.
use csi_driver_trusted_ca.Common.{
  ℕ, ◌≡◌, ◌≢◌, refl, sym, ◌∙◌, ap, subst, List, [], ◌∷◌, ◌++◌, ◌||◌, ◌=?◌, Bool, Option, none, some,
  Bytes, true, false, list_eq, nat_eq, arith, append_assoc, =?_refl, if◌then◌else◌,
}
use mathlib.Core.List.{append-nil}
use csi_driver_trusted_ca.Validate.{FilePath}
use csi_driver_trusted_ca.Sys.{
  Owner, Result, ok, err, Node, file, dir, link, Nodes, World, syscall, pure, ◌>>=◌, attempt,
}
use csi_driver_trusted_ca.Sys.Hoare.{Hoare-bind, Hoare-pure, Hoare-mono, moved, stayed}
use csi_driver_trusted_ca.Sys.Sure.{Calm, Sure, Succeeds, Tried, Sure-attempt}
use csi_driver_trusted_ca.Os.{at, follow, read_node}
use csi_driver_trusted_ca.Os.Change.{at-write_node, write_node-Only, follow_self}
use csi_driver_trusted_ca.LinuxTls.{
  DirEntry, bundle_name, append_node, append, copy_opened, add_entry, add_entries,
}

-- the content of a file, where there is one
abbrev pub content_of : Option Node → Bytes
content_of (some (file c m u)) = c
content_of _ = []

-- what an entry of the directory gives to the bundle: nothing for a directory and for the bundle
-- itself, else its content and an empty line
abbrev pub entry_text : Nodes → Bytes → DirEntry → Bytes
entry_text n ts (name, is_dir) =
    if is_dir || (name =? bundle_name)
    then []
    else content_of (at (ts ∷ name ∷ []) n) ++ (10 ∷ 10 ∷ [])

unfoldable pub bundle_text : Nodes → Bytes → List DirEntry → Bytes
bundle_text n ts [] = []
bundle_text n ts (e ∷ es) = entry_text n ts e ++ bundle_text n ts es

module _ (ts : Bytes) (n : Nodes)
    (flat : (name : Bytes) (t : FilePath) → at (ts ∷ name ∷ []) n ≢ some (link t)) (mode : ℕ)
    (owner : Owner) where
  abbrev pub bundle : FilePath
  bundle = ts ∷ bundle_name ∷ []

  -- the bundle holds `b`, and all else is as in `n`
  pub record Bundled (b : Bytes) (w : World) : Type 0 where
    pub calm : Calm w
    pub there : at bundle w.nodes ≡ some (file b mode owner)
    pub other : (q : FilePath) → bundle ≢ q → at q w.nodes ≡ at q n

  append_node-Bundled :
      (b extra : Bytes) (w : World)
      → Bundled b w
      → Succeeds (λ an. Bundled (b ++ extra) (moved w (an.1))) (append_node bundle extra w.nodes)
  unfolding append_node
  append_node-Bundled b extra w h =
      let self = follow_self w.nodes bundle (λ t l. cc) in
      rw (self, append_node)
        (rw h.there (
          rw self (record {
            calm = rw h.calm;
            there = ground (
              arith,
              at-write_node bundle bundle (file (b ++ extra) mode owner) w.nodes,
              =?_refl {A = FilePath} bundle,
            );
            other = λ q apart.
                write_node-Only bundle (file (b ++ extra) mode owner) w.nodes q apart
                ∙ h.other q apart;
          })))

  pub tried_append :
      (b extra : Bytes)
      → Sure (Bundled b) (λ _ w. Bundled (b ++ extra) w) (attempt (append ts extra))
  tried_append b extra =
      Sure-attempt _ λ w h.
        (h.calm, tried w (append_node bundle extra w.nodes) (append_node-Bundled b extra w h))
    where
      tried :
          (w : World) (r : Result (Unit × Nodes))
          → Succeeds (λ an. Bundled (b ++ extra) (moved w (an.1))) r
          → Tried (λ _ w. Bundled (b ++ extra) w) w r
      tried w (ok a) h = h
      tried w (err e) h = absurd h

  -- what reading an entry gives
  abbrev Gives : Bytes → Result Bytes → Type 0
  Gives c (ok d) = d ≡ c
  Gives c (err e) = c ≡ []

  read_node-Gives :
      (b : Bytes) (name : Bytes) (w : World)
      → name ≢ bundle_name
      → Bundled b w
      → Tried
          (λ r w. Gives (content_of (at (ts ∷ name ∷ []) n)) r × Bundled b w)
          w
          (read_node (ts ∷ name ∷ []) w.nodes)
  unfolding read_node
  read_node-Gives b name w ne h = by_entry (at q n) refl
    where
      q : FilePath
      q = ts ∷ name ∷ []

      same : at q w.nodes ≡ at q n
      same = h.other q (λ e. ne (cc))

      self : follow q w.nodes ≡ q
      self = follow_self w.nodes q (λ t l. flat name t (sym same ∙ l))

      later : (w' : World) → w'.nodes ≡ w.nodes → Calm w' → Bundled b w'
      later w' e c = record {
        calm = c;
        there = ap (at bundle) e ∙ h.there;
        other = λ q apart. ap (at q) e ∙ h.other q apart;
      }

      by_entry :
          (x : Option Node)
          → at q n ≡ x
          → Tried (λ r w. Gives (content_of (at q n)) r × Bundled b w) w (read_node q w.nodes)
      by_entry none e =
          rw (self, read_node) (rw (same ∙ e) (rw e (refl, later (stayed w) refl (rw h.calm))))
      by_entry (some (file c m u)) e =
          rw (self, read_node)
            (rw (same ∙ e) (rw e (refl, later (moved w w.nodes) refl (rw h.calm))))
      by_entry (some (dir m)) e =
          rw (self, read_node) (rw (same ∙ e) (rw e (refl, later (stayed w) refl (rw h.calm))))
      by_entry (some (link t)) e = absurd (flat name t e)

  copied :
      (b c : Bytes) (r : Result Bytes)
      → Gives c r
      → Sure (Bundled b) (λ _ w. Bundled (b ++ c) w) (copy_opened ts r)
  copied b c (ok d) g =
      Hoare-bind _ _ (tried_append b d)
        λ _. Hoare-pure tt λ w h. subst (λ x. Bundled (b ++ x) w) g h
  copied b c (err e) g =
      Hoare-pure tt λ w h. subst (λ x. Bundled x w) (sym (ap (λ x. b ++ x) g ∙ append-nil b)) h

  add_entry-Bundled :
      (b : Bytes) (entry : DirEntry)
      → Sure (Bundled b) (λ _ w. Bundled (b ++ entry_text n ts entry) w) (add_entry ts entry)
  unfolding add_entry
  add_entry-Bundled b (name, is_dir) = by_test (is_dir || (name =? bundle_name)) refl
    where
      content : Bytes
      content = content_of (at (ts ∷ name ∷ []) n)

      by_test :
          (t : Bool)
          → (is_dir || (name =? bundle_name)) ≡ t
          → Sure
              (Bundled b)
              (λ _ w. Bundled (b ++ (if t then [] else content ++ (10 ∷ 10 ∷ []))) w)
              (if t
                then pure tt
                else (attempt (syscall (read_node (ts ∷ name ∷ []))) >>= λ opened.
                    copy_opened ts opened >>= λ _.
                    attempt (append ts (10 ∷ 10 ∷ [])) >>= λ _. pure tt))
      by_test true e = Hoare-pure tt λ w h. subst (λ x. Bundled x w) (sym (append-nil b)) h
      by_test false e =
          Hoare-bind {Q = λ r w. Gives content r × Bundled b w} _ _
            (Sure-attempt _ λ w h. (
              h.calm,
              read_node-Gives b name w (λ same. absurd (ground (arith, =?_refl bundle_name))) h,
            ))
            λ opened. record {
              run = λ w (g, h).
                  (Hoare-bind {Q = λ _ w. Bundled (b ++ content) w} _ _ (copied b content opened g)
                      λ _. Hoare-bind _ _ (tried_append (b ++ content) (10 ∷ 10 ∷ [])) λ _.
                        Hoare-pure tt λ w h.
                          subst (λ x. Bundled x w) (append_assoc b content (10 ∷ 10 ∷ [])) h).run
                    w h;
            }

  pub add_entries-Bundled :
      (b : Bytes) (es : List DirEntry)
      → Sure (Bundled b) (λ _ w. Bundled (b ++ bundle_text n ts es) w) (add_entries ts es)
  unfolding add_entries bundle_text
  add_entries-Bundled b [] = Hoare-pure tt λ w h. subst (λ x. Bundled x w) (sym (append-nil b)) h
  add_entries-Bundled b (e ∷ es) =
      Hoare-bind {Q = λ _ w. Bundled (b ++ entry_text n ts e) w} _ _ (add_entry-Bundled b e) λ _.
        Hoare-mono _ (add_entries-Bundled (b ++ entry_text n ts e) es) (λ w h. h)
          (λ _ w h.
            subst (λ x. Bundled x w) (append_assoc b (entry_text n ts e) (bundle_text n ts es)) h)
          (λ w h. h)
