-- ===== src/Os/Removal.antt =====
-- os.Remove and os.RemoveAll keep what none of the removals touches.
use csi_driver_trusted_ca.Common.{
  ◌≡◌, ◌≢◌, refl, true, List, [], ◌∷◌, none, All, Bool-cases, inl, inr, =?_iff, keys, lookup,
  list_eq, nat_eq, arith,
}
use csi_driver_trusted_ca.Validate.{FilePath}
use csi_driver_trusted_ca.Sys.{Result, ok, err, Nodes, Sys, pure}
use csi_driver_trusted_ca.Sys.Keeps.{
  Post, Keeps, Keeps-reads, Keeps-bind, Keeps-pure, Keeps-raise, Keeps-attempt, Any,
}
use csi_driver_trusted_ca.Os.{
  at, under, below, walk_node, remove_node, remove, remove_each, remove_all, return_result,
}
use csi_driver_trusted_ca.Os.Change.{at-erase_node}

-- what a removal finds gone stays gone
pub remove_node-none :
    (p q : FilePath) (n : Nodes) → at q n ≡ none → Post (λ an. at q (an.1) ≡ none) (remove_node p n)
unfolding remove_node
remove_node-none p q n h = ground (arith, at-erase_node p q n)

All-below :
    (P : FilePath → Type 0) (p : FilePath) (qs : List FilePath)
    → All P qs
    → All (λ q. (under p q ≡ true) × P q) (below p qs)
unfolding below
All-below P p [] _ = tt
All-below P p (q ∷ qs) (h, hs) = elim (Bool-cases (under p q)) [
  | inl e ↦ rw e ((e, h), All-below P p qs hs)
  | inr e ↦ rw e (All-below P p qs hs)
]

-- no key names an entry that is not there
keys-ne : (q : FilePath) (n : Nodes) → at q n ≡ none → All (λ k. k ≢ q) (keys n)
unfolding at keys lookup
keys-ne q [] h = tt
keys-ne q ((k, x) ∷ n) h = ((λ e. ground (arith, =?_iff k q)), keys-ne q n (ground arith))

All-any : (P : FilePath → Type 0) → ((q : FilePath) → P q) → (qs : List FilePath) → All P qs
All-any P h [] = tt
All-any P h (q ∷ qs) = (h q, All-any P h qs)

-- A walk finds entries below its root, and none that is not there.
pub walk_node-finds :
    (p q : FilePath) (n : Nodes)
    → at q n ≡ none
    → Post (λ an. ((an.1) ≡ n) × All (λ k. (under p k ≡ true) × (k ≢ q)) (an.0)) (walk_node p n)
unfolding walk_node
walk_node-finds p q n h = (refl, All-below (λ k. k ≢ q) p (keys n) (keys-ne q n h))

walk_node-under :
    (p : FilePath) (n : Nodes)
    → Post (λ an. ((an.1) ≡ n) × All (λ k. (under p k ≡ true) × Any k) (an.0)) (walk_node p n)
unfolding walk_node
walk_node-under p n = (refl, All-below Any p (keys n) (All-any Any (λ _. tt) (keys n)))

module _ {Q O : Nodes → Type 0} (sub : (n : Nodes) → Q n → O n) where
  remove_each-Keeps :
      (ps : List FilePath) → All (λ p. Keeps Q O Any (remove p)) ps → Keeps Q O Any (remove_each ps)
  unfolding remove_each
  remove_each-Keeps [] _ = Keeps-pure (ok tt) tt
  remove_each-Keeps (p ∷ ps) (h, hs) =
      Keeps-bind _ _ (remove_each-Keeps ps hs)
        λ later _. Keeps-bind _ _ (Keeps-attempt (remove p) h) λ here _. first_error later here
    where
      first_error :
          (later here : Result Unit)
          → Keeps Q O Any
              (elim later as (λ _. Sys (Result Unit)) [ err e ↦ pure (err e) | ok _ ↦ pure here ])
      first_error (ok _) here = Keeps-pure here tt
      first_error (err e) here = Keeps-pure (err e) tt

  pub return_result-Keeps : (r : Result Unit) → Keeps Q O Any (return_result r)
  return_result-Keeps (ok a) = Keeps-pure a tt
  return_result-Keeps (err e) = Keeps-raise e

  All-Keeps :
      (base : FilePath) (ps : List FilePath)
      → ((p : FilePath) → under base p ≡ true → Keeps Q O Any (remove p))
      → All (λ k. (under base k ≡ true) × Any k) ps
      → All (λ p. Keeps Q O Any (remove p)) ps
  All-Keeps base [] k _ = tt
  All-Keeps base (p ∷ ps) k ((h, _), hs) = (k p h, All-Keeps base ps k hs)

  pub remove_all-Keeps :
      (base : FilePath)
      → ((p : FilePath) → under base p ≡ true → Keeps Q O Any (remove p))
      → Keeps Q O Any (remove_all base)
  unfolding remove_all
  remove_all-Keeps base k =
      Keeps-bind _ _ (Keeps-reads sub (walk_node base) (λ n _. walk_node-under base n)) λ found h.
        Keeps-bind _ _ (remove_each-Keeps found (All-Keeps base found k h))
          λ removed _. return_result-Keeps removed
