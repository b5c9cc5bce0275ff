-- ===== src/LinuxTls/Rehash.antt =====
-- OpenSSLRehash keeps out of what readers see, as long as the command does.
use csi_driver_trusted_ca.Common.{
  ◌≡◌, ◌≢◌, refl, sym, subst, ap, Bool, true, false, List, [], ◌∷◌, Bytes, contains, All, arith,
  =?_refl, ◌=?◌, ◌||◌, All-mono, list_eq, nat_eq,
}
use csi_driver_trusted_ca.Sys.{Result, ok, err, Nodes, World, Sys}
use csi_driver_trusted_ca.Sys.Keeps.{Keeps, Post, Any, Keeps-reads, Keeps-bind, Keeps-pure}
use csi_driver_trusted_ca.Sys.Hoare.{Hoare, Ends, Hoare-bind, Hoare-pure, Hoare-call, moved}
use csi_driver_trusted_ca.Writer.{data_dir_name}
use csi_driver_trusted_ca.Writer.Frame.{Protected, Same}
use csi_driver_trusted_ca.Writer.Stage.{IsLocal, UnreservedNames}
use csi_driver_trusted_ca.LinuxTls.{
  entries_in, names_of, read_dir_node, list_files_in_dir, name_difference, openssl_rehash,
}
use csi_driver_trusted_ca.LinuxTls.Local.{read_dir_node-Reads}

abbrev pub listing : Bytes → Nodes → List Bytes
listing ts n = names_of (entries_in (ts ∷ []) n)

-- the command changes nothing that readers see, and the names that it adds are no reserved names
pub record IsRehash (openssl : Bytes → Sys Unit) : Type 1 where
  pub keeps :
      (ts : Bytes) (n0 : Nodes) (O : Nodes → Type 0)
      → ts ≢ data_dir_name
      → ((n : Nodes) → Same (Protected ts) n0 n → O n)
      → Keeps (Same (Protected ts) n0) O Any (openssl ts)
  pub names :
      (ts : Bytes) (w : World)
      → UnreservedNames (name_difference (listing ts (openssl ts w).1.nodes) (listing ts w.nodes))

module _ (openssl : Bytes → Sys Unit) (rehash : IsRehash openssl) (ts : Bytes) where
  -- what a listing returns
  list_files_in_dir-Hoare :
      (P : Nodes → Type 0)
      → Hoare
          (λ w. P w.nodes)
          (λ names w. (names ≡ listing ts w.nodes) × P w.nodes)
          (λ _. Unit {0})
          (list_files_in_dir ts)
  unfolding list_files_in_dir read_dir_node
  list_files_in_dir-Hoare P =
      Hoare-bind {Q = λ es w. (es ≡ entries_in (ts ∷ []) w.nodes) × P w.nodes} _ _
        (Hoare-call _ (λ w h. read w h) (λ w h. tt))
        λ es. Hoare-pure (names_of es) λ w (e, h). (ap names_of e, h)
    where
      read :
          (w : World)
          → P w.nodes
          → Post
              (λ an.
                ((an.0) ≡ entries_in (ts ∷ []) (moved w (an.1)).nodes) × P (moved w (an.1)).nodes)
              (read_dir_node (ts ∷ []) w.nodes)
      read w h = ground arith

  openssl-Hoare :
      (before : List Bytes)
      → Hoare
          (λ w. (before ≡ listing ts w.nodes) × Unit {0})
          (λ _ w. UnreservedNames (name_difference (listing ts w.nodes) before))
          (λ _. Unit {0})
          (openssl ts)
  openssl-Hoare before = record {
    run = λ w (e, _). by_end (openssl ts w).0 (openssl ts w).1 (
        subst (λ b. UnreservedNames (name_difference (listing ts (openssl ts w).1.nodes) b)) (sym e)
          (rehash.names ts w));
  }
    where
      by_end :
          (r : Result Unit) (w : World)
          → UnreservedNames (name_difference (listing ts w.nodes) before)
          → Ends
              (λ _ w. UnreservedNames (name_difference (listing ts w.nodes) before))
              (λ _. Unit {0})
              r
              w
      by_end (ok a) w h = h
      by_end (err e) w h = tt

  openssl_rehash-Hoare :
      Hoare
        (λ _. Unit {0})
        (λ names w. UnreservedNames names)
        (λ _. Unit {0})
        (openssl_rehash openssl ts)
  unfolding openssl_rehash
  openssl_rehash-Hoare = Hoare-bind _ _ (list_files_in_dir-Hoare (λ _. Unit {0})) λ before.
      Hoare-bind _ _ (openssl-Hoare before) λ _.
        Hoare-bind _ _
          (list_files_in_dir-Hoare (λ n. UnreservedNames (name_difference (listing ts n) before)))
          λ after.
            Hoare-pure (name_difference after before)
              λ w (e, h). subst (λ a. UnreservedNames (name_difference a before)) (sym e) h

  list_files_in_dir-Keeps :
      (Q O : Nodes → Type 0) → ((n : Nodes) → Q n → O n) → Keeps Q O Any (list_files_in_dir ts)
  unfolding list_files_in_dir
  list_files_in_dir-Keeps Q O sub =
      Keeps-bind _ _
        (Keeps-reads sub {R = Any} (read_dir_node (ts ∷ []))
          (λ n _. read_dir_node-Reads n (ts ∷ [])))
        λ es _. Keeps-pure (names_of es) tt

  openssl_rehash-Keeps :
      (n0 : Nodes) (O : Nodes → Type 0)
      → ts ≢ data_dir_name
      → ((n : Nodes) → Same (Protected ts) n0 n → O n)
      → Keeps (Same (Protected ts) n0) O Any (openssl_rehash openssl ts)
  unfolding openssl_rehash
  openssl_rehash-Keeps n0 O fresh sub = Keeps-bind _ _ (list_files_in_dir-Keeps _ O sub) λ before _.
      Keeps-bind _ _ (rehash.keeps ts n0 O fresh sub) λ _ _.
        Keeps-bind _ _ (list_files_in_dir-Keeps _ O sub)
          λ after _. Keeps-pure (name_difference after before) tt

Ends-Post :
    (r : Result (List Bytes)) (w : World)
    → Ends (λ names w. UnreservedNames names) (λ _. Unit {0}) r w
    → Post UnreservedNames r
Ends-Post (ok names) w h = h
Ends-Post (err e) w h = tt

pub openssl_rehash-IsLocal :
    (openssl : Bytes → Sys Unit) → IsRehash openssl → IsLocal (openssl_rehash openssl)
openssl_rehash-IsLocal openssl rehash = record {
  keeps = λ ts n0 O fresh sub. record {
    holds = (openssl_rehash-Keeps openssl rehash ts n0 O fresh sub).holds;
    post = λ w h.
        Ends-Post (openssl_rehash openssl ts w).0 (openssl_rehash openssl ts w).1
          ((openssl_rehash-Hoare openssl rehash ts).run w tt);
  };
}

name_difference-within :
    (as_ bs : List Bytes) → All (λ a. contains bs a ≡ true) as_ → name_difference as_ bs ≡ []
unfolding name_difference
name_difference-within [] bs h = refl
name_difference-within (a ∷ as_) bs (h, hs) = rw (h, name_difference-within as_ bs hs) refl

contains_self : (xs : List Bytes) → All (λ a. contains xs a ≡ true) xs
unfolding contains
contains_self [] = tt
contains_self (x ∷ xs) =
    (rw (=?_refl x) refl, All-mono xs (λ a h. rw (h) (by_head (x =? a))) (contains_self xs))
  where
    by_head : (b : Bool) → (b || true) ≡ true
    by_head true = refl
    by_head false = refl

-- where nothing was added
pub name_difference_self : (xs : List Bytes) → name_difference xs xs ≡ []
name_difference_self xs = name_difference-within xs xs (contains_self xs)
