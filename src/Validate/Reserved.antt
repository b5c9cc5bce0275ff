-- ===== src/Validate/Reserved.antt =====
-- The names that begin with "..", which AtomicWriter reserves, and what validatePath does about them.
use csi_driver_trusted_ca.Common.{
  ◌≡◌, ◌≢◌, ◌≤◌, refl, true, false, ◌&&◌, List, [], ◌∷◌, none, arith, ltb, if◌then◌else◌, Bytes,
  ◌=?◌, ne→=?, nat_eq, list_eq, list_beq, length, All, Bool-cases, inl, inr, ◌∙◌,
}
use csi_driver_trusted_ca.Path.{
  slash, dot, dot_dot, has_prefix, split, first, is_abs, clean_loop, clean_elems, reverse_onto,
}
use csi_driver_trusted_ca.Validate.{validate_path, max_file_name_length}
use csi_driver_trusted_ca.Validate.Sound.{IsValidPath, validate_path_iff, IsItem}

-- the elements that filepath.Clean keeps of a path without ".."
abbrev kept_names : List Bytes → List Bytes
kept_names [] = []
kept_names (e ∷ es) =
    if e =? [] then kept_names es else if e =? dot then kept_names es else e ∷ kept_names es

clean_loop-kept_names :
    (es kept : List Bytes)
    → All IsItem es
    → reverse_onto (clean_loop false es kept) [] ≡ reverse_onto kept (kept_names es)
unfolding clean_loop
clean_loop-kept_names [] kept _ = refl
clean_loop-kept_names (e ∷ es) kept (h, hs) =
    rw (ne→=? e dot_dot h.ne_dot_dot) (elim (Bool-cases (e =? [])) [
      | inl p ↦ rw p (clean_loop-kept_names es kept hs)
      | inr p ↦ elim (Bool-cases (e =? dot)) [
        | inl q ↦ rw (p, q) (clean_loop-kept_names es kept hs)
        | inr q ↦ rw (p, q) (clean_loop-kept_names es (e ∷ kept) hs)
      ]
    ])

clean_elems-kept_names : (s : Bytes) → IsValidPath s → clean_elems s ≡ kept_names (split s slash)
unfolding clean_elems
clean_elems-kept_names s v = rw v.relative (clean_loop-kept_names (split s slash) [] v.items)

two_dots : (e : Bytes) → has_prefix e dot_dot ≡ true → ltb 2 (length e) ≡ false → e ≡ dot_dot
unfolding has_prefix
two_dots [] p h = ground arith
two_dots (a ∷ []) p h = ground arith
two_dots (a ∷ b ∷ []) p h = ground arith
two_dots (a ∷ b ∷ c ∷ e) p h = ground arith

keep_first :
    (es : List Bytes)
    → first es ≢ dot
    → first es ≢ []
    → (rest : List Bytes) × (kept_names es ≡ first es ∷ rest)
keep_first [] nd ne = absurd (ne refl)
keep_first (e ∷ es) nd ne = (kept_names es, rw (ne→=? e [] ne, ne→=? e dot nd))

first_plain :
    (es : List Bytes) (v : All IsItem es)
    → first es ≢ []
    → (has_prefix (first es) dot_dot && ltb 2 (length (first es))) ≡ false
    → has_prefix (first es) dot_dot ≡ false
first_plain [] v ne p = absurd (ne refl)
first_plain (e ∷ es) (v, _) ne p = elim (Bool-cases (has_prefix e dot_dot)) [
  | inl h ↦ absurd (v.ne_dot_dot (two_dots e h (ground arith)))
  | inr h ↦ h
]

-- An accepted path that does not start with "./" keeps its first element when it is cleaned, and
-- that element does not begin with "..": it names nothing reserved.
pub validate_path-unreserved :
    (path : Bytes)
    → validate_path path ≡ none
    → first (split path slash) ≢ dot
    → first (split path slash) ≢ []
    → (rest : List Bytes) × (clean_elems path ≡ first (split path slash) ∷ rest)
      × (has_prefix (first (split path slash)) dot_dot ≡ false)
validate_path-unreserved path h nd ne =
    let v = (validate_path_iff path).0 h in
    let (rest, e) = keep_first (split path slash) nd ne in
    (
      rest,
      clean_elems-kept_names path v ∙ e,
      first_plain (split path slash) v.items ne v.plain_start,
    )

no_slash-split : (n : Bytes) → All (λ c. c ≢ slash) n → split n slash ≡ n ∷ []
unfolding split
no_slash-split [] _ = refl
no_slash-split (c ∷ n) (h, hs) = rw (ne→=? c slash h, no_slash-split n hs)

split_behind_dot :
    (n : Bytes) → All (λ c. c ≢ slash) n → split (b'.' ∷ slash ∷ n) slash ≡ dot ∷ n ∷ []
unfolding split
split_behind_dot n h = rw (no_slash-split n h)

-- A name that begins with ".." is accepted behind "./", and cleaning the path leaves the name: every
-- name of at most 255 bytes but ".", "..", the empty one and those with a slash gets in this way.
pub validate_path_admits_reserved :
    (name : Bytes)
    → name ≢ []
    → name ≢ dot
    → name ≢ dot_dot
    → All (λ c. c ≢ slash) name
    → length name ≤ max_file_name_length
    → (validate_path (b'.' ∷ slash ∷ name) ≡ none) × (clean_elems (b'.' ∷ slash ∷ name) ≡ name ∷ [])
validate_path_admits_reserved name ne nd ndd ns short =
    let e = split_behind_dot name ns in
    let path : Bytes = b'.' ∷ slash ∷ name in
    let v : IsValidPath path = record {
      ne_empty = cc;
      relative = unfold is_abs in refl;
      short = omega arith;
      items = rw e (
        record { ne_dot_dot = cc; short = omega arith },
        (record { ne_dot_dot = ndd; short = short }, tt),
      );
      plain_start = rw e (unfold has_prefix in refl);
    } in
    (
      (validate_path_iff path).1 v,
      clean_elems-kept_names path v
          ∙ rw e (rw (ne→=? name [] ne, ne→=? name dot nd) (unfold list_beq in refl)),
    )
