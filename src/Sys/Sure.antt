-- ===== src/Sys/Sure.antt =====
-- Runs in which no call fails by chance: what a program is certain to do.
use csi_driver_trusted_ca.Common.{◌≡◌, [], List, Option}
use csi_driver_trusted_ca.Sys.{
  Error, Result, ok, err, Nodes, World, Sys, syscall, attempt, next_fault, attempt_call,
}
use csi_driver_trusted_ca.Sys.Hoare.{Hoare, Ends, moved, stayed}

-- the environment lets no coming call fail
abbrev pub Calm : World → Type 0
Calm w = w.faults ≡ []

-- a program that is certain to return
abbrev pub Sure : {A : Type 0} → (World → Type 0) → (A → World → Type 0) → Sys A → Type 0
Sure P Q m = Hoare P Q (λ _. ⊥) m

abbrev pub Succeeds : {A : Type 0} → (A → Type 0) → Result A → Type 0
Succeeds R (ok a) = R a
Succeeds R (err e) = ⊥

-- what a call that may find an obstacle leads to
abbrev pub Tried : {A : Type 0} → (Result A → World → Type 0) → World → Result (A × Nodes) → Type 0
Tried Q w (ok (a, n)) = Q (ok a) (moved w n)
Tried Q w (err e) = Q (err e) (stayed w)

call-Ends :
    {A : Type 0} (Q : A → World → Type 0) (r : Result (A × Nodes)) (w : World)
    (fs : List (Option Error))
    → fs ≡ []
    → Succeeds (λ an. Q (an.0) (moved w (an.1))) r
    → Ends Q (λ _. ⊥) (attempt_call (next_fault fs) r w).0 (attempt_call (next_fault fs) r w).1
call-Ends Q (ok (a, n)) w fs e h = rw e h
call-Ends Q (err x) w fs e h = absurd h

Ends-Tried :
    {A : Type 0} (Q : Result A → World → Type 0) (r : Result (A × Nodes)) (w : World)
    (fs : List (Option Error))
    → fs ≡ []
    → Tried Q w r
    → Q (attempt_call (next_fault fs) r w).0 (attempt_call (next_fault fs) r w).1
Ends-Tried Q (ok (a, n)) w fs e h = rw e h
Ends-Tried Q (err x) w fs e h = rw e h

module _ {A : Type 0} {P : World → Type 0} (f : Nodes → Result (A × Nodes)) where
  pub Sure-call :
      {Q : A → World → Type 0}
      → ((w : World) → P w → Calm w × Succeeds (λ an. Q (an.0) (moved w (an.1))) (f w.nodes))
      → Sure P Q (syscall f)
  unfolding syscall
  Sure-call {Q = Q} k = record {
    run = λ w h. call-Ends Q (f w.nodes) w w.faults (k w h).0 (k w h).1;
  }

  pub Sure-attempt :
      {Q : Result A → World → Type 0}
      → ((w : World) → P w → Calm w × Tried Q w (f w.nodes))
      → Sure P Q (attempt (syscall f))
  unfolding syscall attempt
  Sure-attempt {Q = Q} k = record {
    run = λ w h. Ends-Tried Q (f w.nodes) w w.faults (k w h).0 (k w h).1;
  }
