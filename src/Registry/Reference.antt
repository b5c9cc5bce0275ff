-- ===== src/Registry/Reference.antt =====
-- Which part of a reference is cleaned.
use csi_driver_trusted_ca.Common.{
  ℕ, zero, suc, ◌≡◌, ◌≢◌, refl, sym, ◌∙◌, ap, true, false, List, [], ◌∷◌, ◌++◌, map, Bytes, codes,
  All, ◌==◌, if◌then◌else◌, length, length-append, All-append, arith, Bool-cases, inl, inr, ◌⊎◌,
  contains, append_assoc, append-nil, list_eq, nat_eq,
}
use csi_driver_trusted_ca.Path.{split, has_prefix, slash, cons_head}
use csi_driver_trusted_ca.Registry.{replace_from, clean_tag, clean_reference, last}

abbrev pub underscored : ℕ → ℕ
underscored c = if c == b'+' then b'_' else c

replace_plus : (s : Bytes) → replace_from b'+' [] (codes "_") 0 s ≡ map underscored s
unfolding replace_from has_prefix
replace_plus [] = refl
replace_plus (c ∷ s) = rw (replace_plus s) (ground arith)

abbrev taken : ℕ → Bytes → Bytes
taken zero s = []
taken (suc k) [] = []
taken (suc k) (c ∷ s) = c ∷ taken k s

taken_prefix : (s p : Bytes) → has_prefix s p ≡ true → taken (length p) s ≡ p
unfolding has_prefix
taken_prefix s [] h = refl
taken_prefix [] (c ∷ p) h = absurd (cc)
taken_prefix (d ∷ s) (c ∷ p) h = ground (arith, taken_prefix s p)

-- a text that is replaced by itself
replace_same : (c : ℕ) (old s : Bytes) (k : ℕ) → taken k s ++ replace_from c old (c ∷ old) k s ≡ s
unfolding replace_from has_prefix
replace_same c old [] zero = refl
replace_same c old [] (suc k) = refl
replace_same c old (d ∷ s) (suc k) = ap (λ t. d ∷ t) (replace_same c old s k)
replace_same c old (d ∷ s) zero = elim (Bool-cases (has_prefix (d ∷ s) (c ∷ old))) [
  | inl e ↦
      let t = taken_prefix s old (ground arith) in
      let r = replace_same c old s (length old) in
      let same : d ≡ c = ground arith in rw e (cc (t, r, same))
  | inr e ↦ rw e (ap (λ t. d ∷ t) (replace_same c old s 0))
]

-- two texts with a plus sign at the same place or not
first_plus :
    (p q pre rest : Bytes)
    → All (λ c. c ≢ b'+') p
    → All (λ c. c ≢ b'+') pre
    → has_prefix (pre ++ b'+' ∷ rest) (p ++ b'+' ∷ q) ≡ true
    → length pre ≡ length p
unfolding has_prefix
first_plus [] q [] rest hp hpre h = refl
first_plus [] q (d ∷ pre) rest hp (hd, hpre) h = absurd (ground arith)
first_plus (c ∷ p) q [] rest (hc, hp) hpre h = absurd (ground arith)
first_plus (c ∷ p) q (d ∷ pre) rest (hc, hp) (hd, hpre) h =
    ap suc (first_plus p q pre rest hp hpre (ground arith))

absent : (xs : Bytes) (a : ℕ) → contains xs a ≡ false → All (λ c. c ≢ a) xs
unfolding contains
absent [] a h = tt
absent (x ∷ xs) a h = (λ e. ground arith, absent xs a (ground arith))

has_prefix_self : (s : Bytes) → has_prefix s s ≡ true
unfolding has_prefix
has_prefix_self [] = refl
has_prefix_self (c ∷ s) = ground (arith, has_prefix_self s)

replace_skipped : (c : ℕ) (old new s : Bytes) → replace_from c old new (length s) s ≡ []
unfolding replace_from
replace_skipped c old new [] = refl
replace_skipped c old new (d ∷ s) = replace_skipped c old new s

-- the tag does not match before its place: the first plus sign stands later
too_late :
    (c : ℕ) (old p q : Bytes) (d : ℕ) (b : Bytes)
    → c ∷ old ≡ p ++ b'+' ∷ q
    → All (λ c. c ≢ b'+') p
    → All (λ c. c ≢ b'+') (d ∷ b)
    → has_prefix (d ∷ b ++ c ∷ old) (c ∷ old) ≡ true
    → ⊥
too_late c old p q d b e hp hb m =
    let m' : has_prefix (d ∷ b ++ (p ++ b'+' ∷ q)) (p ++ b'+' ∷ q) ≡ true = rw e at m in
    let m'' : has_prefix ((d ∷ b ++ p) ++ b'+' ∷ q) (p ++ b'+' ∷ q) ≡ true =
      rw (append_assoc (d ∷ b) p (b'+' ∷ q)) m' in
    omega (
      arith,
      first_plus p q (d ∷ b ++ p) q hp (All-append _ (d ∷ b) p hb hp) m'',
      length-append (d ∷ b) p,
    )

-- a tag with a plus sign, behind a text without one
replace_tag :
    (c : ℕ) (old new p q b : Bytes)
    → c ∷ old ≡ p ++ b'+' ∷ q
    → All (λ c. c ≢ b'+') p
    → All (λ c. c ≢ b'+') b
    → replace_from c old new 0 (b ++ c ∷ old) ≡ b ++ new
unfolding replace_from
replace_tag c old new p q [] e hp hb =
    rw (has_prefix_self (c ∷ old)) (rw (replace_skipped c old new old) (append-nil new))
replace_tag c old new p q (d ∷ b) e hp (hd, hb) =
    elim (Bool-cases (has_prefix (d ∷ b ++ c ∷ old) (c ∷ old))) [
      | inl m ↦ absurd (too_late c old p q d b e hp (hd, hb) m)
      | inr m ↦ rw m (ap (λ t. d ∷ t) (replace_tag c old new p q b e hp hb))
    ]

-- the first plus sign
plus_cases :
    (tag : Bytes)
    → (map underscored tag ≡ tag)
      ⊎ ((p : Bytes) × (q : Bytes) × (tag ≡ p ++ b'+' ∷ q) × All (λ c. c ≢ b'+') p)
plus_cases [] = inl refl
plus_cases (c ∷ tag) = elim (Bool-cases (c == b'+')) [
  | inl e ↦ inr ([], tag, ground arith, tt)
  | inr e ↦ elim (plus_cases tag) [
    | inl same ↦ inl (ground arith)
    | inr (p, q, parts, hp) ↦ inr (c ∷ p, q, ap (λ t. c ∷ t) parts, (ground arith, hp))
  ]
]

-- the parts of a reference, at the last colon
record Parts (base tag : Bytes) : Type 0 where
  pub first : Bytes
  pub middle : List Bytes
  pub split_eq : split (base ++ b':' ∷ tag) b':' ≡ first ∷ middle ++ tag ∷ []

split_one : (tag : Bytes) → contains tag b':' ≡ false → split tag b':' ≡ tag ∷ []
unfolding split contains
split_one [] h = refl
split_one (c ∷ tag) h = ground (arith, split_one tag)

tag-Parts : (base tag : Bytes) → contains tag b':' ≡ false → Parts base tag
unfolding split
tag-Parts [] tag h = record {
  first = [];
  middle = [];
  split_eq = ap (λ ps. [] ∷ ps) (split_one tag h);
}
tag-Parts (c ∷ base) tag h =
    let r = tag-Parts base tag h in
    elim (Bool-cases (c == b':')) [
      | inl e ↦ record {
        first = [];
        middle = r.first ∷ r.middle;
        split_eq = rw e (ap (λ ps. [] ∷ ps) r.split_eq);
      }
      | inr e ↦ record {
        first = c ∷ r.first;
        middle = r.middle;
        split_eq = rw e (ap (cons_head c) r.split_eq);
      }
    ]

last-append :
    (first : Bytes) (middle : List Bytes) (tag : Bytes) → last (first ∷ middle ++ tag ∷ []) ≡ tag
last-append first [] tag = refl
last-append first (m ∷ middle) tag = last-append m middle tag

clean_tag-underscored :
    (base tag : Bytes)
    → contains base b'+' ≡ false
    → clean_tag (base ++ b':' ∷ tag) tag ≡ base ++ b':' ∷ map underscored tag
clean_tag-underscored base [] hb = refl
clean_tag-underscored base (c ∷ tag) hb =
    ap (λ new. replace_from c tag new 0 (base ++ b':' ∷ c ∷ tag)) (replace_plus (c ∷ tag))
    ∙ elim (plus_cases (c ∷ tag)) [
      | inl same ↦
          ap (λ new. replace_from c tag new 0 (base ++ b':' ∷ c ∷ tag)) same
          ∙ replace_same c tag (base ++ b':' ∷ c ∷ tag) 0
          ∙ ap (λ t. base ++ b':' ∷ t) (sym same)
      | inr (p, q, parts, hp) ↦
          let new = map underscored (c ∷ tag) in
          let b = base ++ b':' ∷ [] in
          ap (replace_from c tag new 0) (sym (append_assoc base (b':' ∷ []) (c ∷ tag)))
          ∙ replace_tag c tag new p q b parts hp
              (All-append _ base (b':' ∷ []) (absent base b'+' hb) ((λ e. omega (arith, e)), tt))
          ∙ append_assoc base (b':' ∷ []) new
    ]

clean_reference-Parts :
    (base tag : Bytes)
    → Parts base tag
    → contains tag slash ≡ false
    → clean_reference (base ++ b':' ∷ tag) ≡ clean_tag (base ++ b':' ∷ tag) tag
unfolding clean_reference
clean_reference-Parts base tag r hs =
    rw (r.split_eq, clean_reference)
      (rw (last-append r.first r.middle tag)
        (rw hs (rw (length-append (r.first ∷ r.middle) (tag ∷ [])) (ground arith))))

-- The tag of a reference is what follows its last colon, where it holds no slash. In it each plus sign
-- becomes an underscore, and nothing else of the reference changes, where no plus sign stands before
-- the colon.
pub clean_reference-underscored :
    (base tag : Bytes)
    → contains base b'+' ≡ false
    → contains tag b':' ≡ false
    → contains tag slash ≡ false
    → clean_reference (base ++ b':' ∷ tag) ≡ base ++ b':' ∷ map underscored tag
clean_reference-underscored base tag hb hc hs =
    clean_reference-Parts base tag (tag-Parts base tag hc) hs ∙ clean_tag-underscored base tag hb
