-- ===== src/Endpoint/Sound.antt =====
-- Which endpoints are accepted, and how they are taken apart.
use csi_driver_trusted_ca.Common.{
  ℕ, ◌≡◌, ◌≢◌, ◌↔◌, refl, sym, ◌∙◌, ap, Bool, true, false, ◌||◌, [], ◌∷◌, ◌++◌, Option, none, some,
  map, Bytes, codes, if◌then◌else◌, ◌=?◌, ne→=?, =?_ne, subst, list_eq, nat_eq, All, arith, inl,
  inr, ◌⊎◌, Bool-cases,
}
use csi_driver_trusted_ca.Path.{has_prefix}
use csi_driver_trusted_ca.Endpoint.{to_lower, separator, cut, parse_endpoint}

abbrev lower : Bytes → Bytes
lower = map to_lower

to_lower-colon : (c : ℕ) → to_lower c ≡ b':' → c ≡ b':'
unfolding to_lower
to_lower-colon c h = ground arith

to_lower-slash : (c : ℕ) → to_lower c ≡ b'/' → c ≡ b'/'
unfolding to_lower
to_lower-slash c h = ground arith

to_lower-keeps : (c : ℕ) → to_lower c ≢ b':' → c ≢ b':'
unfolding to_lower
to_lower-keeps c h e = h (ground arith)

-- a text that begins so when its case is dropped
record Begins (s p : Bytes) : Type 0 where
  pub start : Bytes
  pub rest : Bytes
  pub parts : s ≡ start ++ rest
  pub same : lower start ≡ p

begins : (s p : Bytes) → has_prefix (lower s) p ≡ true → Begins s p
unfolding has_prefix
begins s [] h = record { start = []; rest = s; parts = refl; same = refl }
begins [] (c ∷ p) h = absurd (cc)
begins (d ∷ s) (c ∷ p) h =
    let b = begins s p (ground arith) in
    record {
      start = d ∷ b.start;
      rest = b.rest;
      parts = ap (λ t. d ∷ t) b.parts;
      same = ground (arith, b.same);
    }

cut-append :
    (p host : Bytes) → All (λ c. c ≢ b':') p → cut (p ++ separator ++ host) ≡ some (p, host)
unfolding cut has_prefix
cut-append [] host _ = ground arith
cut-append (c ∷ p) host (h, hs) = rw (cut-append p host hs) (ground arith)

-- the scheme in either case, behind which "://" follows as it is written
scheme_of :
    (q s : Bytes) → lower s ≡ q ++ separator → (p : Bytes) × (s ≡ p ++ separator) × (lower p ≡ q)
scheme_of [] (a ∷ b ∷ c ∷ []) h =
    ([], ground (arith, to_lower-colon a, to_lower-slash b, to_lower-slash c), refl)
scheme_of [] [] h = absurd (cc)
scheme_of [] (a ∷ []) h = absurd (cc)
scheme_of [] (a ∷ b ∷ []) h = absurd (cc)
scheme_of [] (a ∷ b ∷ c ∷ d ∷ s) h = absurd (cc)
scheme_of (c ∷ q) [] h = absurd (cc)
scheme_of (c ∷ q) (d ∷ s) h = let (p, e, l) = scheme_of q s (cc) in (d ∷ p, cc, cc)

no_colon : (p q : Bytes) → lower p ≡ q → All (λ c. c ≢ b':') q → All (λ c. c ≢ b':') p
no_colon [] q h a = tt
no_colon (c ∷ p) [] h a = absurd (cc)
no_colon (c ∷ p) (d ∷ q) h (hd, hq) = (to_lower-keeps c (λ e. hd (cc)), no_colon p q (cc) hq)

abbrev pub IsScheme : Bytes → Type 0
IsScheme p = (lower p ≡ codes "unix") ⊎ (lower p ≡ codes "tcp")

no_colon_scheme : (p : Bytes) → IsScheme p → All (λ c. c ≢ b':') p
no_colon_scheme p (inl h) = no_colon p (codes "unix") h (omega arith)
no_colon_scheme p (inr h) = no_colon p (codes "tcp") h (omega arith)

-- what a text that begins with a scheme in either case is cut into
record IsCut (s : Bytes) : Type 0 where
  pub proto : Bytes
  pub host : Bytes
  pub parts : s ≡ proto ++ separator ++ host
  pub scheme : IsScheme proto
  pub cut_eq : cut s ≡ some (proto, host)

is_cut :
    (s q : Bytes)
    → ((p : Bytes) → lower p ≡ q → IsScheme p)
    → has_prefix (lower s) (q ++ separator) ≡ true
    → IsCut s
is_cut s q known h =
    let b = begins s (q ++ separator) h in
    let (p, e, l) = scheme_of q b.start b.same in
    let parts : s ≡ p ++ separator ++ b.rest = b.parts ∙ ap (λ t. t ++ b.rest) e in
    record {
      proto = p;
      host = b.rest;
      parts = parts;
      scheme = known p l;
      cut_eq = ap cut parts ∙ cut-append p b.rest (no_colon_scheme p (known p l));
    }

prefix-IsCut :
    (s : Bytes)
    → (has_prefix (lower s) (codes "unix://") || has_prefix (lower s) (codes "tcp://")) ≡ true
    → IsCut s
prefix-IsCut s h = elim (Bool-cases (has_prefix (lower s) (codes "unix://"))) [
  | inl e ↦ is_cut s (codes "unix") (λ p. inl) e
  | inr e ↦ is_cut s (codes "tcp") (λ p. inr) (ground arith)
]

has_prefix-lower :
    (p host : Bytes) → has_prefix (lower (p ++ separator ++ host)) (lower p ++ separator) ≡ true
unfolding has_prefix to_lower
has_prefix-lower [] host = refl
has_prefix-lower (c ∷ p) host = ground (arith, has_prefix-lower p host)

abbrev tested : Bytes → Bool
tested s = has_prefix (lower s) (codes "unix://") || has_prefix (lower s) (codes "tcp://")

scheme_tested : (p host : Bytes) → IsScheme p → tested (p ++ separator ++ host) ≡ true
scheme_tested p host (inl h) =
    let e : has_prefix (lower (p ++ separator ++ host)) (codes "unix://") ≡ true =
      rw h at (has_prefix-lower p host) in
    rw e
scheme_tested p host (inr h) =
    let e : has_prefix (lower (p ++ separator ++ host)) (codes "tcp://") ≡ true =
      rw h at (has_prefix-lower p host) in
    ground arith

parse_cut :
    (s p host : Bytes)
    → tested s ≡ true
    → cut s ≡ some (p, host)
    → parse_endpoint s ≡ (if host =? [] then none else some (p, host))
unfolding parse_endpoint
parse_cut s p host t c = ground arith

untested : (s : Bytes) → tested s ≡ false → parse_endpoint s ≡ none
unfolding parse_endpoint
untested s t = ground arith

same_parts :
    (p host p' host' : Bytes)
    → ◌≡◌ {A = Option (Bytes × Bytes)}
        (if host =? [] then none else some (p, host))
        (some (p', host'))
    → (p ≡ p') × (host ≡ host') × (host' ≢ [])
same_parts p host p' host' h = elim (Bool-cases (host =? [])) [
  | inl e ↦ absurd (ground arith)
  | inr e ↦
      let q : ◌≡◌ {A = Option (Bytes × Bytes)} (some (p, host)) (some (p', host')) = ground arith in
      let same : host ≡ host' = cc in (cc, same, λ n. =?_ne host [] e (same ∙ n))
]

accepted-parts :
    (ep proto host : Bytes)
    → tested ep ≡ true
    → parse_endpoint ep ≡ some (proto, host)
    → (ep ≡ proto ++ separator ++ host) × IsScheme proto × (host ≢ [])
accepted-parts ep proto host t h =
    let c = prefix-IsCut ep t in
    let (p, q, ne) =
      same_parts c.proto c.host proto host (sym (parse_cut ep c.proto c.host t c.cut_eq) ∙ h) in
    (
      c.parts ∙ ap (λ x. x ++ separator ++ c.host) p ∙ ap (λ x. proto ++ separator ++ x) q,
      subst IsScheme p c.scheme,
      ne,
    )

-- An endpoint is accepted exactly if it is a scheme, "://" and a host that is not empty, where the
-- scheme is "unix" or "tcp" in whatever case; it is taken apart into just these two.
pub parse_endpoint_iff :
    (ep proto host : Bytes)
    → (parse_endpoint ep ≡ some (proto, host))
      ↔ ((ep ≡ proto ++ separator ++ host) × IsScheme proto × (host ≢ []))
parse_endpoint_iff ep proto host = (accepted (tested ep) refl, complete)
  where
    accepted :
        (b : Bool)
        → tested ep ≡ b
        → parse_endpoint ep ≡ some (proto, host)
        → (ep ≡ proto ++ separator ++ host) × IsScheme proto × (host ≢ [])
    accepted false t h = absurd (cc (untested ep t))
    accepted true t h = accepted-parts ep proto host t h

    complete :
        (ep ≡ proto ++ separator ++ host) × IsScheme proto × (host ≢ [])
        → parse_endpoint ep ≡ some (proto, host)
    complete (e, s, ne) = rw e (
        parse_cut (proto ++ separator ++ host) proto host (scheme_tested proto host s)
          (cut-append proto host (no_colon_scheme proto s))
        ∙ rw (ne→=? host [] ne) refl)
