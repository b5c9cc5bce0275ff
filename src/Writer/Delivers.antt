-- ===== src/Writer/Delivers.antt =====
-- A payload that was written without an error is there in full, whatever the order of its files.
use csi_driver_trusted_ca.Common.{
  ℕ, ◌≡◌, ◌≢◌, refl, Bool, true, false, [], ◌∷◌, ◌++◌, Option, none, some, Bytes, list_eq, nat_eq,
  =?_iff, =?_refl, if◌then◌else◌, arith,
}
use csi_driver_trusted_ca.Validate.{FilePath, FileProjection}
use csi_driver_trusted_ca.Sys.{
  Owner, of_process, of_process, Error, Result, ok, err, Node, file, dir, link, Nodes, World,
  syscall,
}
use csi_driver_trusted_ca.Sys.Keeps.{Post}
use csi_driver_trusted_ca.Sys.Hoare.{Hoare, Hoare-bind, Hoare-pure, Hoare-call}
use csi_driver_trusted_ca.Os.{
  at, parent, follow, mkdir_all, write_file, ensure_dir_node, open_node, write_content_node,
  chmod_node, chown_node, write_node, is_dir_at,
}
use csi_driver_trusted_ca.Os.Change.{
  NoNewLinks, follow_self, at-write_node, ensure_dir_node-LinksNothing, chmod_node-LinksNothing,
  chown_node-LinksNothing, open_node-LinksNothing, write_content_node-LinksNothing,
}
use csi_driver_trusted_ca.Writer.{write_entry, change_owner}
use csi_driver_trusted_ca.Writer.Frame.{Post-both}

-- nothing below the directory is a link
abbrev pub NoLinks : Bytes → Nodes → Type 0
NoLinks ts n = (p t : FilePath) → at (ts ∷ p) n ≢ some (link t)

abbrev pub OwnedBy : Option ℕ → Owner → Type 0
OwnedBy none u = Unit
OwnedBy (some uid) u = u.user ≡ some uid

-- the file is there, with its content and mode, and with its owner if it is to have one
pub record Delivered (ts : Bytes) (p : FilePath) (f : FileProjection) (n : Nodes) : Type 0 where
  pub owner : Owner
  pub there : at (ts ∷ p) n ≡ some (file f.content f.mode owner)
  pub owned : OwnedBy f.fs_user owner

-- What the four calls make of the entry.
module _ (n : Nodes) (p : FilePath) where
  open_node-at :
      (mode : ℕ)
      → follow p n ≡ p
      → Post (λ an. (m : ℕ) × (u : Owner) × (at p (an.1) ≡ some (file [] m u))) (open_node p mode n)
  unfolding open_node
  open_node-at mode s = by_entry (at p n) refl
    where
      wrote : (m : ℕ) (u : Owner) → at p (write_node p (file [] m u) n) ≡ some (file [] m u)
      wrote m u = ground (arith, at-write_node p p (file [] m u) n, =?_refl p)

      by_test :
          (b : Bool)
          → Post {A = Unit × Nodes}
              (λ an. (m : ℕ) × (u : Owner) × (at p (an.1) ≡ some (file [] m u)))
              (if b then ok (tt, write_node p (file [] mode of_process) n) else err Error.not_exist)
      by_test true = (mode, of_process, wrote mode of_process)
      by_test false = tt

      by_entry :
          (x : Option Node)
          → at p n ≡ x
          → Post
              (λ an. (m : ℕ) × (u : Owner) × (at p (an.1) ≡ some (file [] m u)))
              (open_node p mode n)
      by_entry none e = rw (s, e, open_node) (rw s (by_test (is_dir_at (parent p) n)))
      by_entry (some (file c m u)) e = rw (s, e, open_node) (rw s (m, u, wrote m u))
      by_entry (some (dir m)) e = rw (s, e, open_node) tt
      by_entry (some (link t)) e = rw (s, e, open_node) tt

  write_content_node-at :
      (content : Bytes) {c : Bytes} {m : ℕ} {u : Owner}
      → follow p n ≡ p
      → at p n ≡ some (file c m u)
      → Post (λ an. at p (an.1) ≡ some (file content m u)) (write_content_node p content n)
  unfolding write_content_node
  write_content_node-at content {c} {m} {u} s h =
      rw (s, h, write_content_node)
        (ground (arith, at-write_node p p (file content m u) n, =?_refl p))

  chmod_node-at :
      (mode : ℕ) {c : Bytes} {m : ℕ} {u : Owner}
      → follow p n ≡ p
      → at p n ≡ some (file c m u)
      → Post (λ an. at p (an.1) ≡ some (file c mode u)) (chmod_node p mode n)
  unfolding chmod_node
  chmod_node-at mode {c} {m} {u} s h =
      rw (s, h, chmod_node) (ground (arith, at-write_node p p (file c mode u) n, =?_refl p))

  chown_node-at :
      (uid : ℕ) {c : Bytes} {m : ℕ} {u : Owner}
      → follow p n ≡ p
      → at p n ≡ some (file c m u)
      → Post
          (λ an. at p (an.1) ≡ some (file c m (record u { user = some uid })))
          (chown_node p uid n)
  unfolding chown_node
  chown_node-at uid {c} {m} {u} s h =
      rw (s, h, chown_node)
        (ground (arith, at-write_node p p (file c m (record u { user = some uid })) n, =?_refl p))

  -- a directory is made only where nothing was
  pub ensure_dir_node-keeps :
      (mode : ℕ) (q : FilePath) {x : Node}
      → at q n ≡ some x
      → Post (λ an. at q (an.1) ≡ some x) (ensure_dir_node p mode n)
  unfolding ensure_dir_node
  ensure_dir_node-keeps mode q h = ground (arith, at-write_node p q (dir mode) n, =?_iff p q)

abbrev pub Now : (Nodes → Type 0) → World → Type 0
Now G w = G w.nodes

-- A call, by what it makes of the tree.
pub by_tree :
    (G G' : Nodes → Type 0) (f : Nodes → Result (Unit × Nodes))
    → ((n : Nodes) → G n → Post (λ an. G' (an.1)) (f n))
    → Hoare (Now G) (λ _ w. Now G' w) (λ _. Unit) (syscall f)
by_tree G G' f k = Hoare-call f (λ w h. k w.nodes h) (λ w h. tt)

module _ (ts : Bytes) where
  pub links_kept : (n n' : Nodes) → NoLinks ts n → NoNewLinks n n' → NoLinks ts n'
  links_kept n n' h k p t e = h p t (k (ts ∷ p) t e)

  pub NoLinks-mkdir_all :
      (base rest : FilePath) (mode : ℕ)
      → Hoare (Now (NoLinks ts)) (λ _ w. Now (NoLinks ts) w) (λ _. Unit) (mkdir_all base rest mode)
  unfolding mkdir_all
  NoLinks-mkdir_all base [] mode = Hoare-pure tt λ w h. h
  NoLinks-mkdir_all base (e ∷ rest) mode =
      Hoare-bind {Q = λ _ w. Now (NoLinks ts) w} _ _
        (by_tree (NoLinks ts) (NoLinks ts) _ λ n h.
          Post-both (ensure_dir_node (base ++ e ∷ []) mode n)
            (ensure_dir_node-LinksNothing n (base ++ e ∷ []) mode)
            (ensure_dir_node-LinksNothing n (base ++ e ∷ []) mode)
            λ an k _. links_kept n (an.1) h k)
        λ _. NoLinks-mkdir_all (base ++ e ∷ []) rest mode

  -- The file with content `c`, mode `m` and owner `u`, and no links.
  abbrev HasFile : FilePath → Bytes → ℕ → Owner → Nodes → Type 0
  HasFile p c m u n = NoLinks ts n × (at (ts ∷ p) n ≡ some (file c m u))

  module _ (p : FilePath) where
    pub follow_new : (n : Nodes) → NoLinks ts n → follow (ts ∷ p) n ≡ ts ∷ p
    follow_new n h = follow_self n (ts ∷ p) (h p)

    opened :
        (mode : ℕ)
        → Hoare
            (Now (NoLinks ts))
            (λ _ w. (m : ℕ) × (u : Owner) × HasFile p [] m u w.nodes)
            (λ _. Unit)
            (syscall (open_node (ts ∷ p) mode))
    opened mode =
        by_tree (NoLinks ts) (λ n. (m : ℕ) × (u : Owner) × HasFile p [] m u n) _
          λ n h.
            Post-both (open_node (ts ∷ p) mode n) (open_node-LinksNothing n (ts ∷ p) mode)
              (open_node-at n (ts ∷ p) mode (follow_new n h))
              λ an k (m, u, e). (m, u, (links_kept n (an.1) h k, e))

    filled :
        (content : Bytes)
        → Hoare
            (λ w. (m : ℕ) × (u : Owner) × HasFile p [] m u w.nodes)
            (λ _ w. (m : ℕ) × (u : Owner) × HasFile p content m u w.nodes)
            (λ _. Unit)
            (syscall (write_content_node (ts ∷ p) content))
    filled content =
        by_tree (λ n. (m : ℕ) × (u : Owner) × HasFile p [] m u n)
          (λ n. (m : ℕ) × (u : Owner) × HasFile p content m u n) _
          λ n (m, u, (h, e)).
            Post-both (write_content_node (ts ∷ p) content n)
              (write_content_node-LinksNothing n (ts ∷ p) content)
              (write_content_node-at n (ts ∷ p) content (follow_new n h) e)
              λ an k e'. (m, u, (links_kept n (an.1) h k, e'))

    moded :
        (content : Bytes) (mode : ℕ)
        → Hoare
            (λ w. (m : ℕ) × (u : Owner) × HasFile p content m u w.nodes)
            (λ _ w. (u : Owner) × HasFile p content mode u w.nodes)
            (λ _. Unit)
            (syscall (chmod_node (ts ∷ p) mode))
    moded content mode =
        by_tree (λ n. (m : ℕ) × (u : Owner) × HasFile p content m u n)
          (λ n. (u : Owner) × HasFile p content mode u n) _
          λ n (m, u, (h, e)).
            Post-both (chmod_node (ts ∷ p) mode n) (chmod_node-LinksNothing n (ts ∷ p) mode)
              (chmod_node-at n (ts ∷ p) mode (follow_new n h) e)
              λ an k e'. (u, (links_kept n (an.1) h k, e'))

    -- the file as it is delivered, and no links
    abbrev pub Ready : FileProjection → Nodes → Type 0
    Ready f n = NoLinks ts n × Delivered ts p f n

    owned_by :
        (content : Bytes) (mode : ℕ) (user : Option ℕ)
        → Hoare
            (λ w. (u : Owner) × HasFile p content mode u w.nodes)
            (λ _ w. Ready (record { content = content; mode = mode; fs_user = user }) w.nodes)
            (λ _. Unit)
            (change_owner (ts ∷ p) user)
    owned_by content mode none =
        Hoare-pure tt λ w (u, (h, e)). (h, record { owner = u; there = e; owned = tt })
    owned_by content mode (some uid) =
        by_tree (λ n. (u : Owner) × HasFile p content mode u n)
          (Ready (record { content = content; mode = mode; fs_user = some uid })) _
          λ n (u, (h, e)).
            Post-both (chown_node (ts ∷ p) uid n) (chown_node-LinksNothing n (ts ∷ p) uid)
              (chown_node-at n (ts ∷ p) uid (follow_new n h) e)
              λ an k e'. (
                links_kept n (an.1) h k,
                record { owner = record u { user = some uid }; there = e'; owned = refl },
              )

    pub write_entry-Ready :
        (f : FileProjection)
        → Hoare (Now (NoLinks ts)) (λ _ w. Ready f w.nodes) (λ _. Unit) (write_entry ts p f)
    unfolding write_entry write_file
    write_entry-Ready f =
        Hoare-bind {Q = λ _ w. Now (NoLinks ts) w} _ _ (NoLinks-mkdir_all (ts ∷ []) (parent p) _)
          λ _.
            Hoare-bind {Q = λ _ w. (m : ℕ) × (u : Owner) × HasFile p f.content m u w.nodes} _ _
              (Hoare-bind {Q = λ _ w. (m : ℕ) × (u : Owner) × HasFile p [] m u w.nodes} _ _
                (opened f.mode) (λ _. filled f.content))
              λ _.
                Hoare-bind {Q = λ _ w. (u : Owner) × HasFile p f.content f.mode u w.nodes} _ _
                  (moded f.content f.mode) λ _. owned_by f.content f.mode f.fs_user
