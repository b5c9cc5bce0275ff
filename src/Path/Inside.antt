-- ===== src/Path/Inside.antt =====
-- Where a cleaned path leads: the elements of filepath.Clean on a relative path without "..".
use csi_driver_trusted_ca.Common.{
  ℕ, ◌≡◌, ◌≢◌, false, List, [], ◌∷◌, ◌==◌, Bytes, ◌=?◌, =?_iff, =?_ne, nat_eq, list_eq, arith, All,
  Bool-cases, inl, inr,
}
use csi_driver_trusted_ca.Path.{
  slash, dot, dot_dot, split, cons_head, clean_loop, clean_elems, reverse_onto, is_abs,
}

-- an element that names an entry of its directory
pub record IsName (e : Bytes) : Type 0 where
  pub ne_empty : e ≢ []
  pub ne_dot : e ≢ dot
  pub ne_dot_dot : e ≢ dot_dot
  pub no_slash : All (λ c. c ≢ slash) e

All-reverse_onto :
    (P : Bytes → Type 0) (es done : List Bytes)
    → All P es
    → All P done
    → All P (reverse_onto es done)
All-reverse_onto P [] done _ h = h
All-reverse_onto P (e ∷ es) done (he, hes) h = All-reverse_onto P es (e ∷ done) hes (he, h)

-- the elements of a split hold no separator
All-cons_head :
    (c : ℕ) (ps : List Bytes)
    → c ≢ slash
    → All (All (λ d. d ≢ slash)) ps
    → All (All (λ d. d ≢ slash)) (cons_head c ps)
All-cons_head c [] h _ = ((h, tt), tt)
All-cons_head c (p ∷ ps) h (hp, hps) = ((h, hp), hps)

All-split : (s : Bytes) → All (All (λ c. c ≢ slash)) (split s slash)
unfolding split
All-split [] = (tt, tt)
All-split (c ∷ s) = elim (Bool-cases (c == slash)) [
  | inl e ↦ rw e (tt, All-split s)
  | inr e ↦ rw e (All-cons_head c (split s slash) (ground arith) (All-split s))
]

clean_loop-IsName :
    (es kept : List Bytes)
    → All (λ e. e ≢ dot_dot) es
    → All (All (λ c. c ≢ slash)) es
    → All IsName kept
    → All IsName (clean_loop false es kept)
unfolding clean_loop
clean_loop-IsName [] kept _ _ h = h
clean_loop-IsName (e ∷ es) kept (he, hes) (se, ses) h =
    clean_loop-IsName es _ hes ses (elim (Bool-cases (e =? [])) [
      | inl p ↦ rw p h
      | inr p ↦ elim (Bool-cases (e =? dot)) [
        | inl q ↦ rw (p, q) h
        | inr q ↦ elim (Bool-cases (e =? dot_dot)) [
          | inl r ↦ absurd (he ((=?_iff e dot_dot).0 r))
          | inr r ↦
              rw (p, q, r)
                (
                  record {
                    ne_empty = =?_ne e [] p;
                    ne_dot = =?_ne e dot q;
                    ne_dot_dot = he;
                    no_slash = se;
                  },
                  h,
                )
        ]
      ]
    ])

-- A relative path with no element ".." is cleaned to names below its start.
pub clean_elems-IsName :
    (s : Bytes)
    → is_abs s ≡ false
    → All (λ e. e ≢ dot_dot) (split s slash)
    → All IsName (clean_elems s)
unfolding clean_elems
clean_elems-IsName s rel h = rw rel (
    All-reverse_onto IsName (clean_loop false (split s slash) []) []
      (clean_loop-IsName (split s slash) [] h (All-split s) tt) tt)
