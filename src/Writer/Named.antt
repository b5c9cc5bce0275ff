-- ===== src/Writer/Named.antt =====
-- The new timestamped directory is found, as long as one of the names drawn for it is free.
use csi_driver_trusted_ca.Common.{
  ℕ, ◌≡◌, ◌≢◌, refl, ◌∙◌, ap, List, [], ◌∷◌, ◌++◌, none, some, Bytes, codes, All, =?_refl, list_eq,
  nat_eq, arith,
}
use csi_driver_trusted_ca.Validate.{FilePath}
use csi_driver_trusted_ca.Sys.{
  ok, err, exist, Node, dir, Nodes, syscall, attempt, pure, raise, ◌>>=◌,
}
use csi_driver_trusted_ca.Sys.Returns.{calm_world}
use csi_driver_trusted_ca.Os.{at, mkdir_node, mkdir_temp, write_node, chmod_node, parent, is_dir_at}
use csi_driver_trusted_ca.Os.Change.{at-write_node, write_node-Only, follow_self}
use csi_driver_trusted_ca.Writer.{new_timestamp_dir}

module _ (prefix : Bytes) where
  abbrev pub IsTaken : Nodes → Bytes → Type 0
  IsTaken n random = (x : Node) × (at ((prefix ++ random) ∷ []) n ≡ some x)

  taken-mkdir_node :
      (n : Nodes) (p : FilePath) (mode : ℕ) (x : Node)
      → at p n ≡ some x
      → mkdir_node p mode n ≡ err exist
  unfolding mkdir_node
  taken-mkdir_node n p mode x h = rw (h, mkdir_node) refl

  free-mkdir_node :
      (n : Nodes) (name : Bytes) (mode : ℕ)
      → at (name ∷ []) n ≡ none
      → mkdir_node (name ∷ []) mode n ≡ ok (tt, write_node (name ∷ []) (dir mode) n)
  unfolding mkdir_node parent is_dir_at
  free-mkdir_node n name mode h = rw (h, mkdir_node) refl

  mkdir_temp-free :
      (n : Nodes) (observed : List Nodes) (before after : List Bytes) (random : Bytes)
      → All (IsTaken n) before
      → at ((prefix ++ random) ∷ []) n ≡ none
      → mkdir_temp prefix (before ++ random ∷ after) (calm_world n observed) ≡ (
        ok (prefix ++ random),
        calm_world
            (write_node ((prefix ++ random) ∷ []) (dir 0o700) n)
            (write_node ((prefix ++ random) ∷ []) (dir 0o700) n ∷ observed),
      )
  unfolding mkdir_temp syscall attempt pure raise ◌>>=◌
  mkdir_temp-free n observed [] after random _ free =
      rw (free-mkdir_node n (prefix ++ random) 0o700 free) refl
  mkdir_temp-free n observed (name ∷ before) after random ((x, taken), rest) free =
      rw (taken-mkdir_node n ((prefix ++ name) ∷ []) 0o700 x taken)
        (mkdir_temp-free n observed before after random rest free)

chmod-dir :
    (n : Nodes) (p : FilePath) (mode m : ℕ)
    → at p n ≡ some (dir m)
    → chmod_node p mode n ≡ ok (tt, write_node p (dir mode) n)
unfolding chmod_node
chmod-dir n p mode m h =
    let self = follow_self n p (λ t l. cc) in
    rw (self, chmod_node) (rw h (ap (λ r. ok (tt, write_node r (dir mode) n)) self))

module _ (stamp : Bytes) (before after : List Bytes) (random : Bytes) (n : Nodes) where
  abbrev prefix : Bytes
  prefix = codes ".." ++ stamp ++ codes "."

  abbrev ts : Bytes
  ts = prefix ++ random

  abbrev made : Nodes
  made = write_node (ts ∷ []) (dir 0o700) n

  made-dir : at (ts ∷ []) made ≡ some (dir 0o700)
  made-dir =
      ground
        (arith, at-write_node (ts ∷ []) (ts ∷ []) (dir 0o700) n, =?_refl {A = FilePath} (ts ∷ []))

  new_timestamp_dir-end :
      (observed : List Nodes)
      → All (IsTaken prefix n) before
      → at (ts ∷ []) n ≡ none
      → new_timestamp_dir stamp (before ++ random ∷ after) (calm_world n observed) ≡ (
        ok ts,
        calm_world
            (write_node (ts ∷ []) (dir 0o755) made)
            (write_node (ts ∷ []) (dir 0o755) made ∷ made ∷ observed),
      )
  unfolding new_timestamp_dir syscall pure ◌>>=◌
  new_timestamp_dir-end observed taken free =
      rw (mkdir_temp-free prefix n observed before after random taken free)
        (rw (chmod-dir made (ts ∷ []) 0o755 0o700 made-dir) refl)

  -- Where no call fails by chance and one of the names that are drawn is free, the new directory is
  -- made under the first such name, with mode 0755, and no other entry changes.
  pub new_timestamp_dir-found :
      (q : FilePath)
      → All (IsTaken prefix n) before
      → at (ts ∷ []) n ≡ none
      → (ts ∷ [] ≢ q)
      → ((new_timestamp_dir stamp (before ++ random ∷ after) (calm_world n [])).0 ≡ ok ts)
        × (at
              (ts ∷ [])
              (new_timestamp_dir stamp (before ++ random ∷ after) (calm_world n [])).1.nodes
            ≡ some (dir 0o755))
        × (at q (new_timestamp_dir stamp (before ++ random ∷ after) (calm_world n [])).1.nodes
            ≡ at q n)
  new_timestamp_dir-found q taken free apart = rw (new_timestamp_dir-end [] taken free) (
    refl,
    ground (
      arith,
      at-write_node (ts ∷ []) (ts ∷ []) (dir 0o755) made,
      =?_refl {A = FilePath} (ts ∷ []),
    ),
    write_node-Only (ts ∷ []) (dir 0o755) made q apart
        ∙ write_node-Only (ts ∷ []) (dir 0o700) n q apart,
  )
