-- ===== src/Filesystem/Calm.antt =====
-- The calls of Filesystem on a tree where no call fails by chance.
use csi_driver_trusted_ca.Common.{
  subst, ℕ, true, ◌≡◌, ◌≢◌, refl, sym, ◌∙◌, ap, ◌⊎◌, inl, inr, [], ◌∷◌, ◌++◌, none, some, Bytes,
  codes, =?_refl, list_eq, nat_eq,
}
use csi_driver_trusted_ca.Path.{clean_elems}
use csi_driver_trusted_ca.Validate.{FilePath}
use csi_driver_trusted_ca.Sys.{Owner, of_process, ok, Node, file, dir, Nodes, syscall}
use csi_driver_trusted_ca.Sys.Returns.{Returns, Returns-call, Returns-pure, Returns-bind}
use csi_driver_trusted_ca.Os.{
  at, parent, is_dir_at, write_node, ensure_dir_node, mkdir_all, open_node, write_content_node,
  write_file,
}
use csi_driver_trusted_ca.Os.Change.{at-write_node, write_node-Only, follow_self}
use csi_driver_trusted_ca.Storage.Memory.{metadata_file}
use csi_driver_trusted_ca.Filesystem.{
  volume_path, metadata_path_for_volume_id, data_path_for_volume_id, ensure_volume_directory,
}

pub at-write_self : (p : FilePath) (x : Node) (n : Nodes) → at p (write_node p x n) ≡ some x
at-write_self p x n = at-write_node p p x n ∙ rw (=?_refl p) refl

-- a place where os.MkdirAll makes a directory, or finds one
abbrev pub HasRoom : FilePath → Nodes → Type 0
HasRoom p n = (at p n ≡ none) ⊎ ((m : ℕ) × (at p n ≡ some (dir m)))

-- a tree that differs at one path only, where a directory is
pub record Housed (p : FilePath) (n n' : Nodes) : Type 0 where
  pub mode : ℕ
  pub there : at p n' ≡ some (dir mode)
  pub other : (q : FilePath) → p ≢ q → at q n' ≡ at q n

pub ensure_dir_node-Returns :
    (p : FilePath) (mode : ℕ) (n : Nodes)
    → HasRoom p n
    → (n' : Nodes) × Returns (syscall (ensure_dir_node p mode)) n (ok tt) n' × Housed p n n'
unfolding ensure_dir_node
ensure_dir_node-Returns p mode n (inl h) = (
  write_node p (dir mode) n,
  Returns-call (ensure_dir_node p mode) (rw (h, ensure_dir_node) refl),
  record {
    mode = mode;
    there = at-write_self p (dir mode) n;
    other = write_node-Only p (dir mode) n;
  },
)
ensure_dir_node-Returns p mode n (inr (m, h)) = (
  n,
  Returns-call (ensure_dir_node p mode) (rw (h, ensure_dir_node) refl),
  record { mode = m; there = h; other = λ q ne. refl },
)

-- a tree that differs at one path only, where a file with the text is
pub record Written (p : FilePath) (text : Bytes) (n n' : Nodes) : Type 0 where
  pub mode : ℕ
  pub owner : Owner
  pub there : at p n' ≡ some (file text mode owner)
  pub other : (q : FilePath) → p ≢ q → at q n' ≡ at q n

-- a place where os.WriteFile makes a file, or finds one
abbrev pub IsWritable : FilePath → Nodes → Type 0
IsWritable p n =
    ((at p n ≡ none) × (is_dir_at (parent p) n ≡ true))
    ⊎ ((c : Bytes) × (m : ℕ) × (u : Owner) × (at p n ≡ some (file c m u)))

module _ (p : FilePath) (text : Bytes) (mode : ℕ) (n : Nodes) where
  write_content-Returns :
      (n1 : Nodes) (c : Bytes) (m : ℕ) (u : Owner)
      → at p n1 ≡ some (file c m u)
      → Returns (syscall (write_content_node p text)) n1 (ok tt) (write_node p (file text m u) n1)
  unfolding write_content_node
  write_content-Returns n1 c m u h =
      let self = follow_self n1 p (λ t l. cc) in
      Returns-call (write_content_node p text) (
        rw (self, write_content_node)
          (rw h (ap (λ q. ok (tt, write_node q (file text m u) n1)) self)))

  -- the file is opened, and then written
  opened-Returns :
      (m : ℕ) (u : Owner)
      → open_node p mode n ≡ ok (tt, write_node p (file [] m u) n)
      → (n' : Nodes) × Returns (write_file p text mode) n (ok tt) n' × Written p text n n'
  unfolding write_file
  opened-Returns m u h =
      let n1 = write_node p (file [] m u) n in
      (
        write_node p (file text m u) n1,
        Returns-bind _ _ (Returns-call (open_node p mode) h)
            (write_content-Returns n1 [] m u (at-write_self p (file [] m u) n)),
        record {
          mode = m;
          owner = u;
          there = at-write_self p (file text m u) n1;
          other = λ q ne.
              write_node-Only p (file text m u) n1 q ne ∙ write_node-Only p (file [] m u) n q ne;
        },
      )

  pub write_file-Returns :
      IsWritable p n
      → (n' : Nodes) × Returns (write_file p text mode) n (ok tt) n' × Written p text n n'
  unfolding open_node
  write_file-Returns (inl (free, d)) =
      let self = follow_self n p (λ t l. cc) in
      opened-Returns mode of_process (rw (self, open_node) (rw free (rw self (rw d refl))))
  write_file-Returns (inr (c, m, u, h)) =
      let self = follow_self n p (λ t l. cc) in
      opened-Returns m u
        (rw (self, open_node) (rw h (ap (λ q. ok (tt, write_node q (file [] m u) n)) self)))

-- a volume's directories, and nothing else, were made
pub record Ensured (id : Bytes) (n n' : Nodes) : Type 0 where
  pub vol : (m : ℕ) × (at (id ∷ []) n' ≡ some (dir m))
  pub data_ : (m : ℕ) × (at (id ∷ codes "data" ∷ []) n' ≡ some (dir m))
  pub other : (q : FilePath) → id ∷ [] ≢ q → id ∷ codes "data" ∷ [] ≢ q → at q n' ≡ at q n

module _ (id : Bytes) (plain : clean_elems id ≡ id ∷ []) where
  pub volume_path-plain : volume_path id ≡ id ∷ []
  unfolding volume_path
  volume_path-plain = plain

  pub data_path-plain : data_path_for_volume_id id ≡ id ∷ codes "data" ∷ []
  unfolding data_path_for_volume_id
  data_path-plain = ap (λ p. p ++ codes "data" ∷ []) volume_path-plain

  pub metadata_path-plain : metadata_path_for_volume_id id ≡ id ∷ metadata_file ∷ []
  unfolding metadata_path_for_volume_id
  metadata_path-plain = ap (λ p. p ++ metadata_file ∷ []) volume_path-plain

  pub ensure_volume_directory-Returns :
      (n : Nodes)
      → HasRoom (id ∷ []) n
      → HasRoom (id ∷ codes "data" ∷ []) n
      → (n' : Nodes) × Returns (ensure_volume_directory id) n (ok tt) n' × Ensured id n n'
  unfolding ensure_volume_directory mkdir_all
  ensure_volume_directory-Returns n v d =
      let (n1, r1, h1) = ensure_dir_node-Returns (id ∷ []) 0o644 n v in
      let (n2, r2, h2) = ensure_dir_node-Returns (id ∷ []) 0o550 n1 (inr (h1.mode, h1.there)) in
      let d1 : HasRoom (id ∷ codes "data" ∷ []) n2 =
        subst (λ o. (o ≡ none) ⊎ ((m : ℕ) × (o ≡ some (dir m))))
          (sym (h2.other (id ∷ codes "data" ∷ []) (cc) ∙ h1.other (id ∷ codes "data" ∷ []) (cc)))
          d in
      let (n3, r3, h3) = ensure_dir_node-Returns (id ∷ codes "data" ∷ []) 0o550 n2 d1 in
      (
        n3,
        rw (volume_path-plain, data_path-plain)
            (Returns-bind _ _ (Returns-bind _ _ r1 (Returns-pure tt n1))
              (Returns-bind _ _ r2 (Returns-bind _ _ r3 (Returns-pure tt n3)))),
        record {
          vol = (h2.mode, h3.other (id ∷ []) (cc) ∙ h2.there);
          data_ = (h3.mode, h3.there);
          other = λ q a b. h3.other q b ∙ h2.other q a ∙ h1.other q a;
        },
      )
