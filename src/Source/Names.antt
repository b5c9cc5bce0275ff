-- ===== src/Source/Names.antt =====
-- How a source's name and configuration are read off its text.
use csi_driver_trusted_ca.Common.{
  ℕ, ◌≡◌, ◌≢◌, ◌↔◌, refl, sym, ◌∙◌, ap, Bool, true, false, not, ◌&&◌, [], ◌∷◌, ◌++◌, Bytes, codes,
  contains, All, ◌==◌, ◌=?◌, =?_ne, ne→=?, subst, list_eq, nat_eq, if◌then◌else◌, arith, inl, inr,
  Bool-cases,
}
use csi_driver_trusted_ca.Source.{is_alphanumeric, span, matched, get_source}

abbrev pub IsAlphanumeric : ℕ → Type 0
IsAlphanumeric c = is_alphanumeric c ≡ true

-- the source's text is the name, "::" and the configuration
pub record IsSource (src name cfg : Bytes) : Type 0 where
  pub parts : src ≡ name ++ (codes "::" ++ cfg)
  pub letters : All IsAlphanumeric name
  pub ne_name : name ≢ []
  pub ne_config : cfg ≢ []
  pub one_line : contains cfg 10 ≡ false

span-parts : (s : Bytes) → (s ≡ (span s).0 ++ (span s).1) × All IsAlphanumeric (span s).0
unfolding span
span-parts [] = (refl, tt)
span-parts (c ∷ s) = elim (Bool-cases (is_alphanumeric c)) [
  | inl e ↦ let (p, a) = span-parts s in rw e (ap (λ t. c ∷ t) p, (e, a))
  | inr e ↦ rw e (refl, tt)
]

span-append :
    (name cfg : Bytes)
    → All IsAlphanumeric name
    → span (name ++ (codes "::" ++ cfg)) ≡ (name, codes "::" ++ cfg)
unfolding span is_alphanumeric
span-append [] cfg _ = refl
span-append (c ∷ name) cfg (h, hs) = rw (h, span-append name cfg hs)

matched-IsSource :
    (n rest name cfg : Bytes)
    → All IsAlphanumeric n
    → name ≢ []
    → matched n rest ≡ (name, cfg)
    → IsSource (n ++ rest) name cfg
matched-IsSource [] rest name cfg a ne h = absurd (ne (ap (λ p. p.0) (sym h)))
matched-IsSource (c ∷ n) [] name cfg a ne h = absurd (ne (ap (λ p. p.0) (sym h)))
matched-IsSource (c ∷ n) (x ∷ []) name cfg a ne h = absurd (ne (ap (λ p. p.0) (sym h)))
matched-IsSource (c ∷ n) (x ∷ y ∷ r) name cfg a ne h =
    by_test ((x == b':') && ((y == b':') && (not (r =? []) && not (contains r 10)))) refl h
  where
    by_test :
        (b : Bool)
        → ((x == b':') && ((y == b':') && (not (r =? []) && not (contains r 10)))) ≡ b
        → ◌≡◌ {A = Bytes × Bytes} (if b then (c ∷ n, r) else ([], [])) (name, cfg)
        → IsSource (c ∷ n ++ x ∷ y ∷ r) name cfg
    by_test false e q = absurd (ne (ap (λ p. p.0) (sym q)))
    by_test true e q =
        let same_name : c ∷ n ≡ name = ap (λ p. p.0) q in
        let same_config : r ≡ cfg = ap (λ p. p.1) q in
        let x_colon : x ≡ b':' = ground arith in
        let y_colon : y ≡ b':' = ground arith in
        let not_empty : (r =? []) ≡ false = ground arith in
        let no_line_feed : contains r 10 ≡ false = ground arith in
        record {
          parts =
              rw (x_colon, y_colon)
                (ap (λ t. t ++ (codes "::" ++ r)) same_name
                  ∙ ap (λ u. name ++ (codes "::" ++ u)) same_config);
          letters = subst (All IsAlphanumeric) same_name a;
          ne_name = ne;
          ne_config = λ e. =?_ne r [] not_empty (same_config ∙ e);
          one_line = subst (λ t. contains t 10 ≡ false) same_config no_line_feed;
        }

IsSource-matched :
    (name cfg : Bytes)
    → name ≢ []
    → cfg ≢ []
    → contains cfg 10 ≡ false
    → matched name (codes "::" ++ cfg) ≡ (name, cfg)
IsSource-matched [] cfg ne nc line = absurd (ne refl)
IsSource-matched (c ∷ name) cfg ne nc line = rw (ne→=? cfg [] nc, line) refl

-- A text has the source's name and configuration read off it, with a name that is not empty,
-- exactly if it is the name, of ASCII letters and digits, "::" and the configuration, which is not
-- empty and holds no line feed.
pub get_source_iff :
    (src name cfg : Bytes) → ((get_source src ≡ (name, cfg)) × (name ≢ [])) ↔ IsSource src name cfg
unfolding get_source
get_source_iff src name cfg = (found, read)
  where
    found : (get_source src ≡ (name, cfg)) × (name ≢ []) → IsSource src name cfg
    found (h, ne) =
        let (p, a) = span-parts src in
        rw p (matched-IsSource (span src).0 (span src).1 name cfg a ne h)

    read : IsSource src name cfg → (get_source src ≡ (name, cfg)) × (name ≢ [])
    read s = (
      rw (s.parts, span-append name cfg s.letters)
          (IsSource-matched name cfg s.ne_name s.ne_config s.one_line),
      s.ne_name,
    )
