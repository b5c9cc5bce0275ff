-- ===== src/Writer/Frame.antt =====
-- What the calls before the switch leave alone: every entry that readers can reach through the data
-- directory, and the data directory's link itself.
use csi_driver_trusted_ca.Common.{
  ℕ, ◌≡◌, ◌≢◌, refl, [], ◌∷◌, some, Bytes, list_eq, nat_eq, subst, sym, ◌∙◌,
}
use csi_driver_trusted_ca.Validate.{FilePath}
use csi_driver_trusted_ca.Sys.{Result, ok, err, link, Nodes, syscall}
use csi_driver_trusted_ca.Sys.Keeps.{Post, Keeps, Keeps-syscall, Any}
use csi_driver_trusted_ca.Os.{
  at, follow, ensure_dir_node, chmod_node, chown_node, open_node, write_content_node,
}
use csi_driver_trusted_ca.Os.Change.{
  Only, OnlyAt, NoNewLinks, LinksNothing, follow_self, ensure_dir_node-Only,
  ensure_dir_node-LinksNothing, chmod_node-Only, chmod_node-LinksNothing, chown_node-Only,
  chown_node-LinksNothing, open_node-Only, open_node-LinksNothing, write_content_node-Only,
  write_content_node-LinksNothing,
}
use csi_driver_trusted_ca.Writer.{data_dir_name}

-- the data directory's link, and what is below any directory but the new one
abbrev pub Protected : Bytes → FilePath → Type 0
Protected ts [] = ⊥
Protected ts (e ∷ []) = e ≡ data_dir_name
Protected ts (e ∷ f ∷ p) = e ≢ ts

-- the entries of `P` are as in `n`
abbrev pub Same : (FilePath → Type 0) → Nodes → Nodes → Type 0
Same P n n' = (q : FilePath) → P q → at q n' ≡ at q n

pub Same-Only :
    {P : FilePath → Type 0} (n0 n n' : Nodes) (p : FilePath)
    → ¬ (P p)
    → Only p n n'
    → Same P n0 n
    → Same P n0 n'
Same-Only {P} n0 n n' p out only same q h = only q (λ e. out (subst P (sym e) h)) ∙ same q h

module _ {A : Type 0} {P R S : A → Type 0} where
  pub Post-both : (r : Result A) → Post P r → Post R r → ((a : A) → P a → R a → S a) → Post S r
  Post-both (ok a) p q k = k a p q
  Post-both (err e) p q k = tt

-- The tree while the payload is written: nothing below the new directory is a link.
pub record IsStaging (ts : Bytes) (n0 n : Nodes) : Type 0 where
  pub same : Same (Protected ts) n0 n
  pub no_links : (p t : FilePath) → at (ts ∷ p) n ≢ some (link t)

module _ (ts : Bytes) (n0 : Nodes) (fresh : ts ≢ data_dir_name) where
  pub ts-unprotected : (p : FilePath) → ¬ (Protected ts (ts ∷ p))
  ts-unprotected [] h = fresh h
  ts-unprotected (e ∷ p) h = h refl

  IsStaging-Only :
      (p : FilePath) (n n' : Nodes)
      → IsStaging ts n0 n
      → Only (ts ∷ p) n n'
      → NoNewLinks n n'
      → IsStaging ts n0 n'
  IsStaging-Only p n n' h only links = record {
    same = Same-Only n0 n n' (ts ∷ p) (ts-unprotected p) only h.same;
    no_links = λ q t e. h.no_links q t (links (ts ∷ q) t e);
  }

  module _ {O : Nodes → Type 0} (sub : (n : Nodes) → IsStaging ts n0 n → O n) (p : FilePath) where
    by_change :
        (f : Nodes → Result (Unit × Nodes))
        → ((n : Nodes) → IsStaging ts n0 n → OnlyAt (ts ∷ p) n (f n))
        → ((n : Nodes) → LinksNothing n (f n))
        → Keeps (IsStaging ts n0) O Any (syscall f)
    by_change f only links =
        Keeps-syscall sub f λ n h.
          Post-both (f n) (only n h) (links n) λ an o l. (IsStaging-Only p n (an.1) h o l, tt)

    by_follow :
        (f : Nodes → Result (Unit × Nodes))
        → ((n : Nodes) → OnlyAt (follow (ts ∷ p) n) n (f n))
        → ((n : Nodes) → LinksNothing n (f n))
        → Keeps (IsStaging ts n0) O Any (syscall f)
    by_follow f only links =
        by_change f
          (λ n h. subst (λ q. OnlyAt q n (f n)) (follow_self n (ts ∷ p) (h.no_links p)) (only n))
          links

    pub Keeps-ensure_dir :
        (mode : ℕ) → Keeps (IsStaging ts n0) O Any (syscall (ensure_dir_node (ts ∷ p) mode))
    Keeps-ensure_dir mode =
        by_change (ensure_dir_node (ts ∷ p) mode) (λ n h. ensure_dir_node-Only n (ts ∷ p) mode)
          λ n. ensure_dir_node-LinksNothing n (ts ∷ p) mode

    pub Keeps-chmod :
        (mode : ℕ) → Keeps (IsStaging ts n0) O Any (syscall (chmod_node (ts ∷ p) mode))
    Keeps-chmod mode =
        by_follow (chmod_node (ts ∷ p) mode) (λ n. chmod_node-Only n (ts ∷ p) mode)
          λ n. chmod_node-LinksNothing n (ts ∷ p) mode

    pub Keeps-chown : (uid : ℕ) → Keeps (IsStaging ts n0) O Any (syscall (chown_node (ts ∷ p) uid))
    Keeps-chown uid =
        by_follow (chown_node (ts ∷ p) uid) (λ n. chown_node-Only n (ts ∷ p) uid)
          λ n. chown_node-LinksNothing n (ts ∷ p) uid

    pub Keeps-open : (mode : ℕ) → Keeps (IsStaging ts n0) O Any (syscall (open_node (ts ∷ p) mode))
    Keeps-open mode =
        by_follow (open_node (ts ∷ p) mode) (λ n. open_node-Only n (ts ∷ p) mode)
          λ n. open_node-LinksNothing n (ts ∷ p) mode

    pub Keeps-write_content :
        (content : Bytes)
        → Keeps (IsStaging ts n0) O Any (syscall (write_content_node (ts ∷ p) content))
    Keeps-write_content content =
        by_follow (write_content_node (ts ∷ p) content)
          (λ n. write_content_node-Only n (ts ∷ p) content)
          λ n. write_content_node-LinksNothing n (ts ∷ p) content
