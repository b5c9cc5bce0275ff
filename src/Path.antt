-- ===== src/Path.antt =====
-- The parts of Go's `strings`, `path` and `path/filepath` that the driver uses, on byte strings.
pub mod Inside
use csi_driver_trusted_ca.Common.{
  ℕ, ◌≡◌, refl, Bool, true, false, ◌&&◌, List, [], ◌∷◌, ◌++◌, ◌==◌, if◌then◌else◌, Bytes, codes,
  ◌=?◌, list_beq, nat_eq, list_eq,
}

abbrev pub slash : ℕ
slash = b'/'

abbrev pub dot : Bytes
dot = codes "."

abbrev pub dot_dot : Bytes
dot_dot = codes ".."

-- strings.HasPrefix
unfoldable pub has_prefix : Bytes → Bytes → Bool
has_prefix s [] = true
has_prefix [] (c ∷ p) = false
has_prefix (d ∷ s) (c ∷ p) = (d == c) && has_prefix s p

abbrev pub cons_head : ℕ → List Bytes → List Bytes
cons_head c [] = (c ∷ []) ∷ []
cons_head c (p ∷ ps) = (c ∷ p) ∷ ps

-- strings.Split(s, sep) at a separator of one byte
unfoldable pub split : Bytes → ℕ → List Bytes
split [] sep = [] ∷ []
split (c ∷ s) sep = let rest = split s sep in if c == sep then [] ∷ rest else cons_head c rest

-- strings.Join(elems, sep)
unfoldable pub join : List Bytes → ℕ → Bytes
join [] sep = []
join (p ∷ []) sep = p
join (p ∷ q ∷ ps) sep = p ++ sep ∷ join (q ∷ ps) sep

-- items[0] of a split, which is never empty
abbrev pub first : List Bytes → Bytes
first [] = []
first (p ∷ ps) = p

-- path.IsAbs
unfoldable pub is_abs : Bytes → Bool
is_abs [] = false
is_abs (c ∷ s) = c == slash

-- One element of filepath.Clean over the elements kept so far, the last one first.
abbrev pub pop : Bool → List Bytes → List Bytes
pop true [] = []
pop false [] = dot_dot ∷ []
pop rooted (e ∷ kept) = if e =? dot_dot then dot_dot ∷ e ∷ kept else kept

unfoldable pub clean_loop : Bool → List Bytes → List Bytes → List Bytes
clean_loop rooted [] kept = kept
clean_loop rooted (e ∷ es) kept = clean_loop rooted es (
    if e =? []
    then kept
    else if e =? dot
    then kept
    else if e =? dot_dot
    then pop rooted kept
    else e ∷ kept)

abbrev pub reverse_onto : List Bytes → List Bytes → List Bytes
reverse_onto [] done = done
reverse_onto (e ∷ es) done = reverse_onto es (e ∷ done)

-- The elements of filepath.Clean(s): no element stands for "." and for "/".
unfoldable pub clean_elems : Bytes → List Bytes
unfolding clean_loop is_abs split list_beq
clean_elems s = reverse_onto (clean_loop (is_abs s) (split s slash) []) []

-- filepath.Clean
unfoldable pub clean : Bytes → Bytes
unfolding clean_elems join
clean s =
    let text = join (clean_elems s) slash in
    if is_abs s then slash ∷ text else if text =? [] then dot else text

clean_up : clean (codes "a//b/./../c/") ≡ codes "a/c"
unfolding clean
clean_up = refl

clean_above : clean (codes "../a/../../b") ≡ codes "../../b"
unfolding clean
clean_above = refl

clean_root : clean (codes "/../a/..") ≡ codes "/"
unfolding clean
clean_root = refl
