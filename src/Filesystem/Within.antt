-- ===== src/Filesystem/Within.antt =====
-- A program on the tree below one directory, run as part of the whole tree.
use csi_driver_trusted_ca.Common.{
  ◌≡◌, refl, sym, ◌∙◌, ap, true, false, [], ◌∷◌, ◌++◌, map, lookup, ◌=?◌, =?_iff, =?_refl, =?_ne,
  ne→=?, Bool-cases, inl, inr, if◌then◌else◌, list_eq, nat_eq, arith,
}
use csi_driver_trusted_ca.Validate.{FilePath}
use csi_driver_trusted_ca.Sys.{Nodes, Sys}
use csi_driver_trusted_ca.Os.{at, under}
use csi_driver_trusted_ca.Writer.{strip}

-- the directory and what is below it, by the paths relative to it
unfoldable pub sub : FilePath → Nodes → Nodes
sub d [] = []
sub d ((q, x) ∷ n) = let rest = sub d n in if under d q then (strip d q, x) ∷ rest else rest

unfoldable pub outside : FilePath → Nodes → Nodes
outside d [] = []
outside d ((q, x) ∷ n) = let rest = outside d n in if under d q then rest else (q, x) ∷ rest

unfoldable pub lifted : FilePath → Nodes → Nodes
lifted d [] = []
lifted d ((p, x) ∷ s) = (d ++ p, x) ∷ lifted d s

-- the tree with another one in the directory's place
unfoldable pub graft : FilePath → Nodes → Nodes → Nodes
graft d n s = outside d n ++ lifted d s

unfoldable pub within : {A : Type 0} → FilePath → Sys A → Sys A
within d m w =
    let (r, inner) = m record { nodes = sub d w.nodes; observed = []; faults = w.faults } in
    (
      r,
      record {
        nodes = graft d w.nodes inner.nodes;
        observed = map (graft d w.nodes) inner.observed ++ w.observed;
        faults = inner.faults;
      },
    )

pub strip-append : (d p : FilePath) → strip d (d ++ p) ≡ p
unfolding strip
strip-append [] p = refl
strip-append (e ∷ d) p = strip-append d p

pub under-append : (d p : FilePath) → under d (d ++ p) ≡ true
unfolding under
under-append [] p = refl
under-append (e ∷ d) p = rw (=?_refl e) (under-append d p)

under-strip : (d q : FilePath) → under d q ≡ true → d ++ strip d q ≡ q
unfolding under strip
under-strip [] q h = refl
under-strip (e ∷ d) [] h = absurd (cc)
under-strip (e ∷ d) (f ∷ q) h = elim (Bool-cases (e =? f)) [
  | inl t ↦ let same : e ≡ f = (=?_iff e f).0 t in let rest = under-strip d q (rw t at h) in cc
  | inr t ↦ absurd (cc (rw t at h))
]

pub at-sub : (d p : FilePath) (n : Nodes) → at p (sub d n) ≡ at (d ++ p) n
unfolding at sub lookup
at-sub d p [] = refl
at-sub d p ((q, x) ∷ n) = elim (Bool-cases (under d q)) [
  | inl u ↦ elim (Bool-cases (strip d q =? p)) [
    | inl t ↦
        let here : q ≡ d ++ p =
          sym (under-strip d q u) ∙ ap (λ r. d ++ r) ((=?_iff (strip d q) p).0 t) in
        let found : (q =? d ++ p) ≡ true = (=?_iff q (d ++ p)).1 here in rw u (rw (t, found) refl)
    | inr t ↦
        let apart : (q =? d ++ p) ≡ false =
          ne→=? q (d ++ p) (λ e. =?_ne (strip d q) p t (ap (strip d) e ∙ strip-append d p)) in
        rw u (rw (t, apart) (at-sub d p n))
  ]
  | inr u ↦
      let apart : (q =? d ++ p) ≡ false = ne→=? q (d ++ p) (λ e. cc (under-append d p, e, u)) in
      rw u (rw apart (at-sub d p n))
]

sub-append : (d : FilePath) (a b : Nodes) → sub d (a ++ b) ≡ sub d a ++ sub d b
unfolding sub
sub-append d [] b = refl
sub-append d ((q, x) ∷ a) b = rw (sub-append d a b) (ground arith)

sub-outside : (d : FilePath) (n : Nodes) → sub d (outside d n) ≡ []
unfolding sub outside
sub-outside d [] = refl
sub-outside d ((q, x) ∷ n) = ground (arith, sub-outside d n)

sub-lifted : (d : FilePath) (s : Nodes) → sub d (lifted d s) ≡ s
unfolding sub lifted
sub-lifted d [] = refl
sub-lifted d ((p, x) ∷ s) = rw (under-append d p, strip-append d p, sub-lifted d s) refl

pub sub-graft : (d : FilePath) (n s : Nodes) → sub d (graft d n s) ≡ s
unfolding graft
sub-graft d n s =
    sub-append d (outside d n) (lifted d s) ∙ rw (sub-outside d n, sub-lifted d s) refl
