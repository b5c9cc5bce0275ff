-- ===== src/Sys/Keeps.antt =====
-- Invariants of the tree of files: what holds of it before a program holds at every moment of the
-- run, with one rule for each way to build a program.
use csi_driver_trusted_ca.Common.{
  ◌≡◌, subst, sym, Bool, true, false, Option, none, some, All, if◌then◌else◌,
}
use csi_driver_trusted_ca.Sys.{
  Error, Result, ok, err, Nodes, World, Sys, syscall, pure, raise, ◌>>=◌, attempt, next_fault,
  outcome, attempt_call, continue,
}

abbrev pub Post : {A : Type 0} → (A → Type 0) → Result A → Type 0
Post R (ok a) = R a
Post R (err e) = Unit

-- `Q` holds of the tree now, and `O` of every tree seen so far.
pub record Holds (Q O : Nodes → Type 0) (w : World) : Type 0 where
  pub now : Q w.nodes
  pub seen : All O w.observed

-- `m` keeps `Q`, whether it returns or fails, and what it returns satisfies `R`.
pub record Keeps {A : Type 0} (Q O : Nodes → Type 0) (R : A → Type 0) (m : Sys A) : Type 0 where
  pub holds : (w : World) → Holds Q O w → Holds Q O (m w).1
  pub post : (w : World) → Holds Q O w → Post R (m w).0

abbrev pub Any : {A : Type 0} → A → Type 0
Any _ = Unit

same_tree :
    {A : Type 0} (Q : Nodes → Type 0) (R : A → Type 0) (r : Result (A × Nodes)) (n : Nodes)
    → Q n
    → Post (λ an. ((an.1) ≡ n) × R (an.0)) r
    → Post (λ an. Q (an.1) × R (an.0)) r
same_tree Q R (ok (a, n')) n h (e, p) = (subst Q (sym e) h, p)
same_tree Q R (err e) n h p = tt

module _ {Q O : Nodes → Type 0} (sub : (n : Nodes) → Q n → O n) where
  outcome-Holds :
      {A : Type 0} (R : A → Type 0) (r : Result (A × Nodes)) (w : World)
      → Post (λ an. Q (an.1) × R (an.0)) r
      → Holds Q O w
      → Holds Q O (outcome r w).1 × Post R (outcome r w).0
  outcome-Holds R (ok (a, n)) w (q, p) h = (record { now = q; seen = (sub n q, h.seen) }, p)
  outcome-Holds R (err e) w p h = (record { now = h.now; seen = h.seen }, tt)

  attempt_call-Holds :
      {A : Type 0} (R : A → Type 0) (f : Option Error) (r : Result (A × Nodes)) (w : World)
      → Post (λ an. Q (an.1) × R (an.0)) r
      → Holds Q O w
      → Holds Q O (attempt_call f r w).1 × Post R (attempt_call f r w).0
  attempt_call-Holds R (some e) r w p h = (record { now = h.now; seen = h.seen }, tt)
  attempt_call-Holds R none r w p h = outcome-Holds R r w p h

  pub Keeps-syscall :
      {A : Type 0} {R : A → Type 0} (f : Nodes → Result (A × Nodes))
      → ((n : Nodes) → Q n → Post (λ an. Q (an.1) × R (an.0)) (f n))
      → Keeps Q O R (syscall f)
  unfolding syscall
  Keeps-syscall {R = R} f k = record {
    holds = λ w h. (attempt_call-Holds R (next_fault w.faults) (f w.nodes) w (k w.nodes h.now) h).0;
    post = λ w h. (attempt_call-Holds R (next_fault w.faults) (f w.nodes) w (k w.nodes h.now) h).1;
  }

  -- a call that only reads
  pub Keeps-reads :
      {A : Type 0} {R : A → Type 0} (f : Nodes → Result (A × Nodes))
      → ((n : Nodes) → Q n → Post (λ an. ((an.1) ≡ n) × R (an.0)) (f n))
      → Keeps Q O R (syscall f)
  Keeps-reads {R = R} f k = Keeps-syscall f λ n h. same_tree Q R (f n) n h (k n h)

Post-mono :
    {A : Type 0} (R S : A → Type 0) (r : Result A) → ((a : A) → R a → S a) → Post R r → Post S r
Post-mono R S (ok a) imp p = imp a p
Post-mono R S (err e) imp p = tt

module _ {Q O : Nodes → Type 0} where
  pub Keeps-pure : {A : Type 0} {R : A → Type 0} (a : A) → R a → Keeps Q O R (pure a)
  unfolding pure
  Keeps-pure a r = record { holds = λ w h. h; post = λ w h. r }

  pub Keeps-raise : {A : Type 0} {R : A → Type 0} (e : Error) → Keeps Q O R (raise {A = A} e)
  unfolding raise
  Keeps-raise e = record { holds = λ w h. h; post = λ w h. tt }

  continue-Keeps :
      {A B : Type 0} {R : A → Type 0} {S : B → Type 0} (r : Result A) (f : A → Sys B)
      → Post R r
      → ((a : A) → R a → Keeps Q O S (f a))
      → Keeps Q O S (continue r f)
  continue-Keeps (ok a) f p k = record { holds = (k a p).holds; post = (k a p).post }
  continue-Keeps (err e) f p k = record { holds = λ w h. h; post = λ w h. tt }

  pub Keeps-bind :
      {A B : Type 0} {R : A → Type 0} {S : B → Type 0} (m : Sys A) (f : A → Sys B)
      → Keeps Q O R m
      → ((a : A) → R a → Keeps Q O S (f a))
      → Keeps Q O S (m >>= f)
  unfolding ◌>>=◌
  Keeps-bind {R = R} m f km kf = record {
    holds = λ w h. (continue-Keeps {R = R} (m w).0 f (km.post w h) kf).holds (m w).1 (km.holds w h);
    post = λ w h. (continue-Keeps {R = R} (m w).0 f (km.post w h) kf).post (m w).1 (km.holds w h);
  }

  pub Keeps-attempt :
      {A : Type 0} {R : A → Type 0} (m : Sys A) → Keeps Q O R m → Keeps Q O (Post R) (attempt m)
  unfolding attempt
  Keeps-attempt m km = record { holds = km.holds; post = km.post }

  pub Keeps-mono :
      {A : Type 0} {R S : A → Type 0} (m : Sys A)
      → Keeps Q O R m
      → ((a : A) → R a → S a)
      → Keeps Q O S m
  Keeps-mono {R = R} {S = S} m k imp = record {
    holds = k.holds;
    post = λ w h. Post-mono R S (m w).0 imp (k.post w h);
  }

  pub Keeps-if :
      {A : Type 0} {R : A → Type 0} (b : Bool) (m k : Sys A)
      → Keeps Q O R m
      → Keeps Q O R k
      → Keeps Q O R (if b then m else k)
  Keeps-if true m k hm hk = hm
  Keeps-if false m k hm hk = hk
