-- ===== src/Os/Change.antt =====
-- Which entries of the tree each call changes.
use csi_driver_trusted_ca.Common.{
  ℕ, ◌≡◌, ◌≢◌, refl, Option, none, some, Bytes, ◌=?◌, ne→=?, list_eq, nat_eq, lookup-insert,
  lookup-erase, if◌then◌else◌, arith,
}
use csi_driver_trusted_ca.Validate.{FilePath}
use csi_driver_trusted_ca.Sys.{Owner, Result, Node, file, dir, link, Nodes}
use csi_driver_trusted_ca.Sys.Keeps.{Post}
use csi_driver_trusted_ca.Os.{
  at, write_node, erase_node, follow, readlink_node, mkdir_node, chmod_node, chown_node,
  ensure_dir_node, open_node, write_content_node, symlink_node, remove_node, walk_node, lstat_node,
  read_node,
}

pub at-write_node :
    (p q : FilePath) (x : Node) (n : Nodes)
    → at q (write_node p x n) ≡ (if p =? q then some x else at q n)
unfolding at write_node
at-write_node p q x n = lookup-insert p q x n

pub at-erase_node :
    (p q : FilePath) (n : Nodes) → at q (erase_node p n) ≡ (if p =? q then none else at q n)
unfolding at erase_node
at-erase_node p q n = lookup-erase p q n

-- only the entry `p` differs
abbrev pub Only : FilePath → Nodes → Nodes → Type 0
Only p n n' = (q : FilePath) → p ≢ q → at q n' ≡ at q n

pub write_node-Only : (p : FilePath) (x : Node) (n : Nodes) → Only p n (write_node p x n)
write_node-Only p x n q h = rw (at-write_node p q x n, ne→=? p q h)

pub erase_node-Only : (p : FilePath) (n : Nodes) → Only p n (erase_node p n)
erase_node-Only p n q h = rw (at-erase_node p q n, ne→=? p q h)

-- a call that fails, changes nothing, or changes the entry `p`
abbrev pub OnlyAt : {A : Type 0} → FilePath → Nodes → Result (A × Nodes) → Type 0
OnlyAt p n r = Post (λ an. Only p n (an.1)) r

-- a call that only reads
abbrev pub Reads : {A : Type 0} → Nodes → Result (A × Nodes) → Type 0
Reads n r = Post (λ an. ((an.1) ≡ n) × Unit {0}) r

module _ (n : Nodes) (p : FilePath) where
  pub readlink_node-Reads : Reads n (readlink_node p n)
  unfolding readlink_node
  readlink_node-Reads = ground arith

  pub lstat_node-Reads : Reads n (lstat_node p n)
  unfolding lstat_node
  lstat_node-Reads = ground arith

  pub read_node-Reads : Reads n (read_node p n)
  unfolding read_node
  read_node-Reads = ground arith

  pub walk_node-Reads : Reads n (walk_node p n)
  unfolding walk_node
  walk_node-Reads = (refl, tt)

  pub mkdir_node-Only : (mode : ℕ) → OnlyAt p n (mkdir_node p mode n)
  unfolding mkdir_node
  mkdir_node-Only mode = ground (arith, write_node-Only p (dir mode) n)

  pub ensure_dir_node-Only : (mode : ℕ) → OnlyAt p n (ensure_dir_node p mode n)
  unfolding ensure_dir_node
  ensure_dir_node-Only mode = ground (arith, write_node-Only p (dir mode) n)

  pub symlink_node-Only : (target : FilePath) → OnlyAt p n (symlink_node target p n)
  unfolding symlink_node
  symlink_node-Only target = ground (arith, write_node-Only p (link target) n)

  pub remove_node-Only : OnlyAt p n (remove_node p n)
  unfolding remove_node
  remove_node-Only = ground (arith, erase_node-Only p n)

  follow_by :
      (x : Option Node) → at p n ≡ x → ((t : FilePath) → at p n ≢ some (link t)) → follow p n ≡ p
  unfolding follow
  follow_by none e h = rw (e, follow)
  follow_by (some (file c m u)) e h = rw (e, follow)
  follow_by (some (dir m)) e h = rw (e, follow)
  follow_by (some (link t)) e h = absurd (h t e)

  pub follow_self : ((t : FilePath) → at p n ≢ some (link t)) → follow p n ≡ p
  follow_self = follow_by (at p n) refl

  -- The calls that follow a link change the entry that it leads to.
  pub chmod_node-Only : (mode : ℕ) → OnlyAt (follow p n) n (chmod_node p mode n)
  unfolding chmod_node
  chmod_node-Only mode = grind (arith, write_node-Only)

  pub chown_node-Only : (uid : ℕ) → OnlyAt (follow p n) n (chown_node p uid n)
  unfolding chown_node
  chown_node-Only uid = grind (arith, write_node-Only)

  pub open_node-Only : (mode : ℕ) → OnlyAt (follow p n) n (open_node p mode n)
  unfolding open_node
  open_node-Only mode = grind (arith, write_node-Only)

  pub write_content_node-Only :
      (content : Bytes) → OnlyAt (follow p n) n (write_content_node p content n)
  unfolding write_content_node
  write_content_node-Only content = grind (arith, write_node-Only)

-- no entry becomes a link
abbrev pub NoNewLinks : Nodes → Nodes → Type 0
NoNewLinks n n' = (q t : FilePath) → at q n' ≡ some (link t) → at q n ≡ some (link t)

abbrev pub LinksNothing : {A : Type 0} → Nodes → Result (A × Nodes) → Type 0
LinksNothing n r = Post (λ an. NoNewLinks n (an.1)) r

module _ (n : Nodes) (p : FilePath) where
  pub write_file-NoNewLinks :
      (c : Bytes) (m : ℕ) (u : Owner) → NoNewLinks n (write_node p (file c m u) n)
  write_file-NoNewLinks c m u q t h = ground (arith, at-write_node p q (file c m u) n)

  write_dir-NoNewLinks : (m : ℕ) → NoNewLinks n (write_node p (dir m) n)
  write_dir-NoNewLinks m q t h = ground (arith, at-write_node p q (dir m) n)

module _ (n : Nodes) (p : FilePath) where
  pub ensure_dir_node-LinksNothing : (mode : ℕ) → LinksNothing n (ensure_dir_node p mode n)
  unfolding ensure_dir_node
  ensure_dir_node-LinksNothing mode = ground (arith, write_dir-NoNewLinks n p mode)

  pub chmod_node-LinksNothing : (mode : ℕ) → LinksNothing n (chmod_node p mode n)
  unfolding chmod_node
  chmod_node-LinksNothing mode = grind (arith, write_file-NoNewLinks, write_dir-NoNewLinks)

  pub chown_node-LinksNothing : (uid : ℕ) → LinksNothing n (chown_node p uid n)
  unfolding chown_node
  chown_node-LinksNothing uid = grind (arith, write_file-NoNewLinks)

  pub open_node-LinksNothing : (mode : ℕ) → LinksNothing n (open_node p mode n)
  unfolding open_node
  open_node-LinksNothing mode = grind (arith, write_file-NoNewLinks)

  pub write_content_node-LinksNothing :
      (content : Bytes) → LinksNothing n (write_content_node p content n)
  unfolding write_content_node
  write_content_node-LinksNothing content = grind (arith, write_file-NoNewLinks)
