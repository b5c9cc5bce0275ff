-- ===== src/Sys/Hoare.antt =====
-- What holds after a program, with one condition for its result and one for its failure.
use csi_driver_trusted_ca.Common.{◌∷◌, Option, none, some}
use csi_driver_trusted_ca.Sys.{
  Error, Result, ok, err, Nodes, World, Sys, ◌>>=◌, continue, attempt, pure, raise, syscall,
  outcome, attempt_call, next_fault, later_faults,
}
use csi_driver_trusted_ca.Sys.Keeps.{Holds, Keeps, Post}

abbrev pub Ends : {A : Type 0} → (A → World → Type 0) → (World → Type 0) → Result A → World → Type 0
Ends Q E (ok a) w = Q a w
Ends Q E (err e) w = E w

-- From `P` the program returns with `Q`, or fails with `E`.
pub record Hoare {A : Type 0} (P : World → Type 0) (Q : A → World → Type 0) (E : World → Type 0)
    (m : Sys A) : Type 0 where
  pub run : (w : World) → P w → Ends Q E (m w).0 (m w).1

continue-Ends :
    {A B : Type 0} {Q : A → World → Type 0} {S : B → World → Type 0} {E : World → Type 0}
    (r : Result A) (f : A → Sys B) (w : World)
    → Ends Q E r w
    → ((a : A) → Hoare (Q a) S E (f a))
    → Ends S E (continue r f w).0 (continue r f w).1
continue-Ends (ok a) f w h k = (k a).run w h
continue-Ends (err e) f w h k = h

module _ {P E : World → Type 0} where
  pub Hoare-bind :
      {A B : Type 0} {Q : A → World → Type 0} {S : B → World → Type 0} (m : Sys A) (f : A → Sys B)
      → Hoare P Q E m
      → ((a : A) → Hoare (Q a) S E (f a))
      → Hoare P S E (m >>= f)
  unfolding ◌>>=◌
  Hoare-bind {Q = Q} m f km kf = record {
    run = λ w h. continue-Ends {Q = Q} (m w).0 f (m w).1 (km.run w h) kf;
  }

  pub Hoare-attempt :
      {A : Type 0} {Q : A → World → Type 0} {D : World → Type 0} (m : Sys A)
      → Hoare P Q D m
      → Hoare P (Ends Q D) E (attempt m)
  unfolding attempt
  Hoare-attempt m km = record { run = km.run }

  pub Hoare-pure :
      {A : Type 0} {Q : A → World → Type 0} (a : A)
      → ((w : World) → P w → Q a w)
      → Hoare P Q E (pure a)
  unfolding pure
  Hoare-pure a k = record { run = k }

  pub Hoare-raise :
      {A : Type 0} {Q : A → World → Type 0} (e : Error)
      → ((w : World) → P w → E w)
      → Hoare P Q E (raise {A = A} e)
  unfolding raise
  Hoare-raise e k = record { run = k }

Ends-mono :
    {A : Type 0} {Q Q' : A → World → Type 0} {E E' : World → Type 0} (r : Result A) (w : World)
    → Ends Q E r w
    → ((a : A) (w : World) → Q a w → Q' a w)
    → ((w : World) → E w → E' w)
    → Ends Q' E' r w
Ends-mono (ok a) w h k l = k a w h
Ends-mono (err e) w h k l = l w h

-- a stronger condition before, weaker ones after
pub Hoare-mono :
    {A : Type 0} {P P' : World → Type 0} {Q Q' : A → World → Type 0} {E E' : World → Type 0}
    (m : Sys A)
    → Hoare P Q E m
    → ((w : World) → P' w → P w)
    → ((a : A) (w : World) → Q a w → Q' a w)
    → ((w : World) → E w → E' w)
    → Hoare P' Q' E' m
Hoare-mono m h p q e = record { run = λ w x. Ends-mono (m w).0 (m w).1 (h.run w (p w x)) q e }

Keeps-Ends :
    {A : Type 0} {Q O : Nodes → Type 0} (R : A → Type 0) (r : Result A) (w : World)
    → Holds Q O w
    → Post R r
    → Ends (λ a w'. R a × Holds Q O w') (Holds Q O) r w
Keeps-Ends R (ok a) w h p = (p, h)
Keeps-Ends R (err e) w h p = h

pub Keeps-Hoare :
    {A : Type 0} {Q O : Nodes → Type 0} {R : A → Type 0} (m : Sys A)
    → Keeps Q O R m
    → Hoare (Holds Q O) (λ a w. R a × Holds Q O w) (Holds Q O) m
Keeps-Hoare {R = R} m k = record {
  run = λ w h. Keeps-Ends R (m w).0 (m w).1 (k.holds w h) (k.post w h);
}

-- the world after a call that returned with the tree `n`, and after one that failed
abbrev pub moved : World → Nodes → World
moved w n = record { nodes = n; observed = n ∷ w.observed; faults = later_faults w.faults }

abbrev pub stayed : World → World
stayed w = record w { faults = later_faults w.faults }

outcome-Ends :
    {A : Type 0} (Q : A → World → Type 0) (E : World → Type 0) (r : Result (A × Nodes)) (w : World)
    → Post (λ an. Q (an.0) (moved w (an.1))) r
    → E (stayed w)
    → Ends Q E (outcome r w).0 (outcome r w).1
outcome-Ends Q E (ok (a, n)) w h e = h
outcome-Ends Q E (err x) w h e = e

attempt_call-Ends :
    {A : Type 0} (Q : A → World → Type 0) (E : World → Type 0) (f : Option Error)
    (r : Result (A × Nodes)) (w : World)
    → Post (λ an. Q (an.0) (moved w (an.1))) r
    → E (stayed w)
    → Ends Q E (attempt_call f r w).0 (attempt_call f r w).1
attempt_call-Ends Q E (some x) r w h e = e
attempt_call-Ends Q E none r w h e = outcome-Ends Q E r w h e

pub Hoare-call :
    {A : Type 0} {P : World → Type 0} {Q : A → World → Type 0} {E : World → Type 0}
    (f : Nodes → Result (A × Nodes))
    → ((w : World) → P w → Post (λ an. Q (an.0) (moved w (an.1))) (f w.nodes))
    → ((w : World) → P w → E (stayed w))
    → Hoare P Q E (syscall f)
unfolding syscall
Hoare-call {Q = Q} {E = E} f k e = record {
  run = λ w h. attempt_call-Ends Q E (next_fault w.faults) (f w.nodes) w (k w h) (e w h);
}

-- Two triples of one program hold together.
both-Ends :
    {A : Type 0} (Q Q' : A → World → Type 0) (E E' : World → Type 0) (r : Result A) (w : World)
    → Ends Q E r w
    → Ends Q' E' r w
    → Ends (λ a w. Q a w × Q' a w) (λ w. E w × E' w) r w
both-Ends Q Q' E E' (ok a) w h k = (h, k)
both-Ends Q Q' E E' (err e) w h k = (h, k)

pub Hoare-both :
    {A : Type 0} {P P' : World → Type 0} {Q Q' : A → World → Type 0} {E E' : World → Type 0}
    (m : Sys A)
    → Hoare P Q E m
    → Hoare P' Q' E' m
    → Hoare (λ w. P w × P' w) (λ a w. Q a w × Q' a w) (λ w. E w × E' w) m
Hoare-both {Q = Q} {Q' = Q'} {E = E} {E' = E'} m h k = record {
  run = λ w (p, p'). both-Ends Q Q' E E' (m w).0 (m w).1 (h.run w p) (k.run w p');
}

trivial-Ends :
    {A : Type 0} (r : Result A) (w : World) → Ends (λ (_ : A) _. Unit {0}) (λ _. Unit {0}) r w
trivial-Ends (ok a) w = tt
trivial-Ends (err e) w = tt

pub Hoare-trivial :
    {A : Type 0} {P : World → Type 0} (m : Sys A) → Hoare P (λ _ _. Unit) (λ _. Unit) m
Hoare-trivial m = record { run = λ w _. trivial-Ends (m w).0 (m w).1 }
