-- ===== src/Sys.antt =====
-- Calls of the operating system. Each may fail as the environment chooses, and each leaves the tree
-- of files as other processes see it from then on.
pub mod Keeps
pub mod Hoare
pub mod Sure
pub mod Returns
use csi_driver_trusted_ca.Common.{
  ℕ, ◌≡◌, Bool, true, false, List, [], ◌∷◌, Option, none, some, Bytes, Dict,
}
use csi_driver_trusted_ca.Validate.{FilePath, PathError}

-- What the program tells apart by os.IsNotExist and the like; `fault` is any other failure.
pub data Error : Type 0 where
  not_exist exist not_dir is_dir not_empty invalid : Error
  fault : ℕ → Error
  bad_path : PathError → Error

pub data Result (A : Type 0) : Type 0 where
  ok : A → Result A
  err : Error → Result A

-- A file's user and group, where they are not those of the process that made it.
pub record Owner : Type 0 where
  pub user : Option ℕ
  pub group : Option ℕ

abbrev pub of_process : Owner
of_process = record { user = none; group = none }

-- A symbolic link holds its target, relative to the directory of the link.
pub data Node : Type 0 where
  file : Bytes → ℕ → Owner → Node
  dir : ℕ → Node
  link : FilePath → Node

-- The tree below one directory, by the paths relative to it. The directory itself is the path [].
abbrev pub Nodes : Type 0
Nodes = Dict FilePath Node

-- `faults` says of the coming calls which of them fail, and how; `observed` has the trees after the
-- calls made so far, the last one first.
pub record World : Type 0 where
  pub nodes : Nodes
  pub observed : List Nodes
  pub faults : List (Option Error)

abbrev pub Sys : Type 0 → Type 0
Sys A = World → Result A × World

abbrev pub next_fault : List (Option Error) → Option Error
next_fault [] = none
next_fault (f ∷ fs) = f

abbrev pub later_faults : List (Option Error) → List (Option Error)
later_faults [] = []
later_faults (f ∷ fs) = fs

abbrev pub outcome : {A : Type 0} → Result (A × Nodes) → World → Result A × World
outcome (ok (a, n)) w =
    (ok a, record { nodes = n; observed = n ∷ w.observed; faults = later_faults w.faults })
outcome (err e) w = (err e, record w { faults = later_faults w.faults })

abbrev pub attempt_call :
    {A : Type 0} → Option Error → Result (A × Nodes) → World → Result A × World
attempt_call (some e) r w = (err e, record w { faults = later_faults w.faults })
attempt_call none r w = outcome r w

unfoldable pub syscall : {A : Type 0} → (Nodes → Result (A × Nodes)) → Sys A
syscall f w = attempt_call (next_fault w.faults) (f w.nodes) w

unfoldable pub pure : {A : Type 0} → A → Sys A
pure a w = (ok a, w)

unfoldable pub raise : {A : Type 0} → Error → Sys A
raise e w = (err e, w)

abbrev pub continue : {A B : Type 0} → Result A → (A → Sys B) → Sys B
continue (ok a) f w = f a w
continue (err e) f w = (err e, w)

infixl 5 ◌>>=◌ ◌>>◌
unfoldable pub ◌>>=◌ : {A B : Type 0} → Sys A → (A → Sys B) → Sys B
◌>>=◌ m f w = let (r, w') = m w in continue r f w'

abbrev pub ◌>>◌ : {A B : Type 0} → Sys A → Sys B → Sys B
m >> k = m >>= λ _. k

-- The error becomes a value, for code that looks at it.
unfoldable pub attempt : {A : Type 0} → Sys A → Sys (Result A)
attempt m w = let (r, w') = m w in (ok r, w')
