-- ===== src/Writer/Switch.antt =====
-- The new link takes the data directory's place in one step, or nothing that readers see changes.
use csi_driver_trusted_ca.Common.{
  ◌≡◌, ◌≢◌, refl, ◌∙◌, Bool, true, false, [], ◌∷◌, some, Bytes, All, All-mono, inl, inr, ◌⊎◌, arith,
  if◌then◌else◌, =?_iff, ne→=?, list_eq, nat_eq,
}
use csi_driver_trusted_ca.Validate.{FilePath}
use csi_driver_trusted_ca.Sys.{Error, Result, ok, err, link, Nodes, World, syscall, ◌>>=◌, attempt}
use csi_driver_trusted_ca.Sys.Keeps.{Post, Keeps, Keeps-bind, Keeps-attempt, Any}
use csi_driver_trusted_ca.Sys.Hoare.{
  Hoare, Ends, Hoare-bind, Hoare-attempt, Hoare-pure, Hoare-call, moved,
}
use csi_driver_trusted_ca.Os.{
  at, symlink_node, rename_node, remove, remove_all, write_node, erase_node, is_dir_at,
}
use csi_driver_trusted_ca.Os.Change.{symlink_node-Only, at-write_node, at-erase_node}
use csi_driver_trusted_ca.Writer.{
  data_dir_name, new_data_dir_name, linked, renamed, make_link, switch_link,
}
use csi_driver_trusted_ca.Writer.Frame.{Protected, Same, Same-Only, Post-both}
use csi_driver_trusted_ca.Writer.View.{SameView, IsTarget, IsSwitched}
use csi_driver_trusted_ca.Writer.Fresh.{Seen, Seen-staging, IsFresh, Unseen}
use csi_driver_trusted_ca.Writer.Staged.{Staged, remove-Keeps, remove_new-Keeps, after-Hoare}

symlink_node-at :
    (target p : FilePath) (n : Nodes)
    → Post (λ an. at p (an.1) ≡ some (link target)) (symlink_node target p n)
unfolding symlink_node
symlink_node-at target p n = ground (arith, at-write_node p p (link target) n, =?_iff p p)

-- What a rename of the new link makes of the tree.
pub record IsRenamed (ts : Bytes) (n n' : Nodes) : Type 0 where
  pub links : at (data_dir_name ∷ []) n' ≡ some (link (ts ∷ []))
  pub deep : (e f : Bytes) (p : FilePath) → at (e ∷ f ∷ p) n' ≡ at (e ∷ f ∷ p) n

abbrev swapped : Bytes → Nodes → Nodes
swapped ts n =
    write_node (data_dir_name ∷ []) (link (ts ∷ [])) (erase_node (new_data_dir_name ∷ []) n)

swapped-IsRenamed : (ts : Bytes) (n : Nodes) → IsRenamed ts n (swapped ts n)
swapped-IsRenamed ts n = record {
  links = ground (
    arith,
    at-write_node (data_dir_name ∷ []) (data_dir_name ∷ []) (link (ts ∷ []))
        (erase_node (new_data_dir_name ∷ []) n),
    =?_iff {A = FilePath} (data_dir_name ∷ []) (data_dir_name ∷ []),
  );
  deep = λ e f p.
      at-write_node (data_dir_name ∷ []) (e ∷ f ∷ p) (link (ts ∷ []))
        (erase_node (new_data_dir_name ∷ []) n)
      ∙ rw (ne→=? {A = FilePath} (data_dir_name ∷ []) (e ∷ f ∷ p) (λ q. cc)) (
          at-erase_node (new_data_dir_name ∷ []) (e ∷ f ∷ p) n
          ∙ rw (ne→=? {A = FilePath} (new_data_dir_name ∷ []) (e ∷ f ∷ p) (λ q. cc)) refl);
}

pub rename_node-IsRenamed :
    (ts : Bytes) (n : Nodes)
    → at (new_data_dir_name ∷ []) n ≡ some (link (ts ∷ []))
    → Post
        (λ an. IsRenamed ts n (an.1))
        (rename_node (new_data_dir_name ∷ []) (data_dir_name ∷ []) n)
unfolding rename_node
rename_node-IsRenamed ts n h = rw (h, rename_node) (by_test (is_dir_at (data_dir_name ∷ []) n))
  where
    by_test :
        (b : Bool)
        → Post {A = Unit × Nodes}
            (λ an. IsRenamed ts n (an.1))
            (if b then err Error.exist else ok (tt, swapped ts n))
    by_test true = tt
    by_test false = swapped-IsRenamed ts n

module _ (n0 : Nodes) (target : IsTarget n0) where
  -- the new link is made
  abbrev pub Linked : Bytes → World → Type 0
  Linked ts w =
      Staged n0 target ts w × (at (new_data_dir_name ∷ []) w.nodes ≡ some (link (ts ∷ [])))

  pub make_link-Hoare :
      (ts : Bytes)
      → Hoare (Staged n0 target ts) (λ _ w. Linked ts w) (Unseen n0 target) (make_link ts)
  unfolding make_link
  make_link-Hoare ts = Hoare-bind _ _ (Hoare-attempt {D = Staged n0 target ts} _ call) by_result
    where
      keep :
          (w : World)
          → Staged n0 target ts w
          → Post
              (λ an. Linked ts (moved w (an.1)))
              (symlink_node (ts ∷ []) (new_data_dir_name ∷ []) w.nodes)
      keep w (fresh, h) =
          Post-both (symlink_node (ts ∷ []) (new_data_dir_name ∷ []) w.nodes)
            (symlink_node-Only w.nodes (new_data_dir_name ∷ []) (ts ∷ []))
            (symlink_node-at (ts ∷ []) (new_data_dir_name ∷ []) w.nodes)
            λ an only there.
              let same =
                Same-Only {P = Protected ts} n0 w.nodes (an.1) (new_data_dir_name ∷ [])
                  (λ e. ground arith) only h.now in
              (
                (
                  fresh,
                  record {
                    now = same;
                    seen = (Seen-staging n0 target ts (fresh.0) (an.1) same, h.seen);
                  },
                ),
                there,
              )

      call :
          Hoare
            (Staged n0 target ts)
            (λ _ w. Linked ts w)
            (Staged n0 target ts)
            (syscall (symlink_node (ts ∷ []) (new_data_dir_name ∷ [])))
      call = Hoare-call _ keep (λ w (fresh, h). (fresh, record { now = h.now; seen = h.seen }))

      by_result :
          (made : Result Unit)
          → Hoare
              (Ends (λ _ w. Linked ts w) (Staged n0 target ts) made)
              (λ _ w. Linked ts w)
              (Unseen n0 target)
              (linked ts made)
      by_result (ok _) = Hoare-pure tt λ w h. h
      by_result (err e) = after-Hoare n0 target ts _ e (remove_new-Keeps n0 target ts)

  -- The link was switched: the last tree is the only one that shows something new.
  abbrev pub Switched : Bytes → World → Type 0
  Switched ts w =
      IsFresh n0 target ts
      × IsSwitched ts w.nodes w.nodes
      × ((e f : Bytes) (p : FilePath) → e ≢ ts → at (e ∷ f ∷ p) w.nodes ≡ at (e ∷ f ∷ p) n0)
      × All (λ n. SameView n0 n ⊎ SameView w.nodes n) w.observed

  pub switch_link-Hoare :
      (ts : Bytes) → Hoare (Linked ts) (λ _ w. Switched ts w) (Unseen n0 target) (switch_link ts)
  unfolding switch_link
  switch_link-Hoare ts = Hoare-bind _ _ (Hoare-attempt {D = Staged n0 target ts} _ call) by_result
    where
      done :
          (w : World) (n : Nodes) → Linked ts w → IsRenamed ts w.nodes n → Switched ts (moved w n)
      done w n ((fresh, h), _) r = (
        fresh,
        record { links = r.links; same = λ e p. refl },
        (λ e f p apart. r.deep e f p ∙ h.now (e ∷ f ∷ p) apart),
        (inr (λ e p. refl), All-mono w.observed (λ m s. inl s) h.seen),
      )

      keep :
          (w : World)
          → Linked ts w
          → Post
              (λ an. Switched ts (moved w (an.1)))
              (rename_node (new_data_dir_name ∷ []) (data_dir_name ∷ []) w.nodes)
      keep w h =
          Post-both (rename_node (new_data_dir_name ∷ []) (data_dir_name ∷ []) w.nodes)
            (rename_node-IsRenamed ts w.nodes (h.1)) (rename_node-IsRenamed ts w.nodes (h.1))
            λ an r _. done w (an.1) h r

      call :
          Hoare
            (Linked ts)
            (λ _ w. Switched ts w)
            (Staged n0 target ts)
            (syscall (rename_node (new_data_dir_name ∷ []) (data_dir_name ∷ [])))
      call = Hoare-call _ keep (λ w ((fresh, h), _). (fresh, record { now = h.now; seen = h.seen }))

      cleanup :
          IsFresh n0 target ts
          → Keeps
              (Same (Protected ts) n0)
              (Seen n0 target)
              Any
              (attempt (remove (new_data_dir_name ∷ [])) >>= λ _. remove_all (ts ∷ []))
      cleanup fresh =
          Keeps-bind _ _
            (Keeps-attempt _
              (remove-Keeps n0 target ts (new_data_dir_name ∷ []) fresh (λ e. ground arith)))
            λ _ _. remove_new-Keeps n0 target ts fresh

      by_result :
          (made : Result Unit)
          → Hoare
              (Ends (λ _ w. Switched ts w) (Staged n0 target ts) made)
              (λ _ w. Switched ts w)
              (Unseen n0 target)
              (renamed ts made)
      by_result (ok _) = Hoare-pure tt λ w h. h
      by_result (err e) = after-Hoare n0 target ts _ e cleanup
