-- ===== src/Sys/Returns.antt =====
-- Runs in which no call fails by chance, as a relation on trees.
use csi_driver_trusted_ca.Common.{◌≡◌, refl, ◌∙◌, ap, List, [], ◌∷◌}
use csi_driver_trusted_ca.Sys.{
  Error, Result, ok, err, Nodes, World, Sys, syscall, pure, raise, ◌>>=◌, attempt, continue,
}

-- the world where no call fails by chance
abbrev pub calm_world : Nodes → List Nodes → World
calm_world n observed = record { nodes = n; observed = observed; faults = [] }

-- From the tree `n` the program ends with `r` and the tree `n'`.
pub record Returns {A : Type 0} (m : Sys A) (n : Nodes) (r : Result A) (n' : Nodes) : Type 0 where
  pub run :
      (seen : List Nodes)
      → (seen' : List Nodes) × (m (calm_world n seen) ≡ (r, calm_world n' seen'))

pub Returns-call :
    {A : Type 0} {a : A} {n n' : Nodes} (f : Nodes → Result (A × Nodes))
    → f n ≡ ok (a, n')
    → Returns (syscall f) n (ok a) n'
unfolding syscall
Returns-call {n' = n'} f h = record { run = λ seen. (n' ∷ seen, rw h refl) }

pub Returns-refused :
    {A : Type 0} {e : Error} {n : Nodes} (f : Nodes → Result (A × Nodes))
    → f n ≡ err e
    → Returns (syscall f) n (err e) n
unfolding syscall
Returns-refused f h = record { run = λ seen. (seen, rw h refl) }

pub Returns-pure : {A : Type 0} (a : A) (n : Nodes) → Returns (pure a) n (ok a) n
unfolding pure
Returns-pure a n = record { run = λ seen. (seen, refl) }

pub Returns-raise : {A : Type 0} (e : Error) (n : Nodes) → Returns (raise {A = A} e) n (err e) n
unfolding raise
Returns-raise e n = record { run = λ seen. (seen, refl) }

continued :
    {A B : Type 0} (m : Sys A) (f : A → Sys B) (w w' : World) (r : Result A)
    → m w ≡ (r, w')
    → (m >>= f) w ≡ continue r f w'
unfolding ◌>>=◌
continued m f w w' r h = ap (λ p. continue (p.0) f (p.1)) h

pub Returns-bind :
    {A B : Type 0} {n n' n'' : Nodes} {a : A} {r : Result B} (m : Sys A) (f : A → Sys B)
    → Returns m n (ok a) n'
    → Returns (f a) n' r n''
    → Returns (m >>= f) n r n''
Returns-bind {n = n} {n' = n'} {a = a} m f first then_ = record {
  run = λ seen.
      let (seen', e) = first.run seen in
      let (seen'', e') = then_.run seen' in
      (seen'', continued m f (calm_world n seen) (calm_world n' seen') (ok a) e ∙ e');
}

pub Returns-stop :
    {A B : Type 0} {n n' : Nodes} {e : Error} (m : Sys A) (f : A → Sys B)
    → Returns m n (err e) n'
    → Returns (m >>= f) n (err e) n'
Returns-stop {n = n} {n' = n'} {e = e} m f first = record {
  run = λ seen.
      let (seen', q) = first.run seen in
      (seen', continued m f (calm_world n seen) (calm_world n' seen') (err e) q);
}

pub Returns-attempt :
    {A : Type 0} {m : Sys A} {n n' : Nodes} {r : Result A}
    → Returns m n r n'
    → Returns (attempt m) n (ok r) n'
unfolding attempt
Returns-attempt m = record {
  run = λ seen. let (seen', e) = m.run seen in (seen', ap (λ p. (ok (p.0), p.1)) e);
}

-- the end of a run
pub Returns-result :
    {A : Type 0} {m : Sys A} {n n' : Nodes} {r : Result A}
    → Returns m n r n'
    → ((m (calm_world n [])).0 ≡ r) × ((m (calm_world n [])).1.nodes ≡ n')
Returns-result m = let (seen', e) = m.run [] in (ap (λ p. p.0) e, ap (λ p. p.1.nodes) e)
