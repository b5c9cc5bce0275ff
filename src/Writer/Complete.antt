-- ===== src/Writer/Complete.antt =====
-- Writing the other files of the payload leaves a file that was written alone.
use csi_driver_trusted_ca.Common.{
  ℕ, ◌≡◌, ◌≢◌, subst, ◌∙◌, [], ◌∷◌, ◌++◌, Option, none, some, Bytes, Dict, lookup, Distinct,
  list_eq, nat_eq, ◌=?◌, =?_iff, arith, inl, inr, Bool-cases,
}
use csi_driver_trusted_ca.Validate.{FilePath, FileProjection}
use csi_driver_trusted_ca.Sys.{Result, ok, err, Nodes, World, syscall}
use csi_driver_trusted_ca.Sys.Hoare.{Ends, Hoare, Hoare-bind, Hoare-pure, Hoare-mono}
use csi_driver_trusted_ca.Os.{parent, follow, mkdir_all, write_file, ensure_dir_node}
use csi_driver_trusted_ca.Os.Change.{
  LinksNothing, OnlyAt, ensure_dir_node-LinksNothing, chmod_node-Only, chmod_node-LinksNothing,
  chown_node-Only, chown_node-LinksNothing, open_node-Only, open_node-LinksNothing,
  write_content_node-Only, write_content_node-LinksNothing,
}
use csi_driver_trusted_ca.Writer.{write_entry, write_payload_to_dir, change_owner}
use csi_driver_trusted_ca.Writer.Frame.{Post-both}
use csi_driver_trusted_ca.Writer.Delivers.{
  NoLinks, Delivered, Ready, Now, by_tree, links_kept, follow_new, write_entry-Ready,
  ensure_dir_node-keeps,
}

module _ (ts : Bytes) (q : FilePath) (g : FileProjection) where
  abbrev Kept : Nodes → Type 0
  Kept = Ready ts q g

  dirs-Kept :
      (base rest : FilePath) (mode : ℕ)
      → Hoare (Now Kept) (λ _ w. Now Kept w) (λ _. Unit) (mkdir_all base rest mode)
  unfolding mkdir_all
  dirs-Kept base [] mode = Hoare-pure tt λ w h. h
  dirs-Kept base (e ∷ rest) mode =
      Hoare-bind {Q = λ _ w. Now Kept w} _ _
        (by_tree Kept Kept _ λ n (h, d).
          Post-both (ensure_dir_node (base ++ e ∷ []) mode n)
            (ensure_dir_node-LinksNothing n (base ++ e ∷ []) mode)
            (ensure_dir_node-keeps n (base ++ e ∷ []) mode (ts ∷ q) d.there)
            λ an k t.
              (links_kept ts n (an.1) h k, record { owner = d.owner; there = t; owned = d.owned }))
        λ _. dirs-Kept (base ++ e ∷ []) rest mode

  module _ (p : FilePath) (apart : ts ∷ p ≢ ts ∷ q) where
    Kept-by :
        (f : Nodes → Result (Unit × Nodes))
        → ((n : Nodes) → OnlyAt (follow (ts ∷ p) n) n (f n))
        → ((n : Nodes) → LinksNothing n (f n))
        → Hoare (Now Kept) (λ _ w. Now Kept w) (λ _. Unit) (syscall f)
    Kept-by f only links = by_tree Kept Kept f λ n (h, d).
        Post-both (f n) (links n) (subst (λ x. OnlyAt x n (f n)) (follow_new ts p n h) (only n))
          λ an k o. (
            links_kept ts n (an.1) h k,
            record { owner = d.owner; there = o (ts ∷ q) apart ∙ d.there; owned = d.owned },
          )

    owner-Kept :
        (user : Option ℕ)
        → Hoare (Now Kept) (λ _ w. Now Kept w) (λ _. Unit) (change_owner (ts ∷ p) user)
    owner-Kept none = Hoare-pure tt λ w h. h
    owner-Kept (some uid) =
        Kept-by _ (λ n. chown_node-Only n (ts ∷ p) uid)
          (λ n. chown_node-LinksNothing n (ts ∷ p) uid)

    write_entry-Kept :
        (f : FileProjection) → Hoare (Now Kept) (λ _ w. Now Kept w) (λ _. Unit) (write_entry ts p f)
    unfolding write_entry write_file
    write_entry-Kept f =
        Hoare-bind {Q = λ _ w. Now Kept w} _ _ (dirs-Kept (ts ∷ []) (parent p) _) λ _.
          Hoare-bind {Q = λ _ w. Now Kept w} _ _
            (Hoare-bind {Q = λ _ w. Now Kept w} _ _
              (Kept-by _ (λ n. open_node-Only n (ts ∷ p) f.mode)
                (λ n. open_node-LinksNothing n (ts ∷ p) f.mode))
              λ _.
                Kept-by _ (λ n. write_content_node-Only n (ts ∷ p) f.content)
                  (λ n. write_content_node-LinksNothing n (ts ∷ p) f.content))
            λ _.
              Hoare-bind {Q = λ _ w. Now Kept w} _ _
                (Kept-by _ (λ n. chmod_node-Only n (ts ∷ p) f.mode)
                  (λ n. chmod_node-LinksNothing n (ts ∷ p) f.mode))
                λ _. owner-Kept f.fs_user

  rest-Kept :
      (payload : Dict FilePath FileProjection)
      → lookup q payload ≡ none
      → Hoare (Now Kept) (λ _ w. Now Kept w) (λ _. Unit) (write_payload_to_dir payload ts)
  unfolding write_payload_to_dir lookup
  rest-Kept [] h = Hoare-pure tt λ w k. k
  rest-Kept ((p, f) ∷ payload) h =
      Hoare-bind {Q = λ _ w. Now Kept w} _ _
        (write_entry-Kept p (λ e. ground (arith, =?_iff p q)) f)
        λ _. rest-Kept payload (ground arith)

  -- From a directory with no links below it, writePayloadToDir fails, or each file of the payload is
  -- there with its content, its mode and the owner that it was to have.
  pub write_payload_to_dir-delivers :
      (payload : Dict FilePath FileProjection)
      → Distinct payload
      → lookup q payload ≡ some g
      → Hoare
          (Now (NoLinks ts))
          (λ _ w. Ready ts q g w.nodes)
          (λ _. Unit)
          (write_payload_to_dir payload ts)
  unfolding write_payload_to_dir lookup
  write_payload_to_dir-delivers [] _ h = absurd (cc)
  write_payload_to_dir-delivers ((p, f) ∷ payload) (new, ds) h = elim (Bool-cases (p =? q)) [
    | inl e ↦
        let same : p ≡ q = (=?_iff p q).0 e in
        let the_file : f ≡ g = ground arith in
        Hoare-bind {Q = λ _ w. Now Kept w} _ _
          (subst
            (λ x.
              Hoare (Now (NoLinks ts)) (λ _ w. Ready ts q x w.nodes) (λ _. Unit)
                (write_entry ts p f))
            the_file
            (subst
              (λ x.
                Hoare (Now (NoLinks ts)) (λ _ w. Ready ts x f w.nodes) (λ _. Unit)
                  (write_entry ts p f))
              same (write_entry-Ready ts p f)))
          λ _. rest-Kept payload (subst (λ x. lookup x payload ≡ none) same new)
    | inr e ↦
        Hoare-bind {Q = λ _ w. Now (NoLinks ts) w} _ _
          (Hoare-mono _ (write_entry-Ready ts p f) (λ w x. x) (λ _ w x. x.0) (λ w x. x))
          λ _. write_payload_to_dir-delivers payload ds (ground arith)
  ]

-- When writePayloadToDir reports no error, each file of the payload is there with its content, its
-- mode and the owner that it was to have, in whatever order the files were written. The directory
-- has no links below it at the start.
pub writes_payload :
    (ts : Bytes) (payload : Dict FilePath FileProjection) (q : FilePath) (g : FileProjection)
    (w : World)
    → Distinct payload
    → NoLinks ts w.nodes
    → lookup q payload ≡ some g
    → (write_payload_to_dir payload ts w).0 ≡ ok tt
    → Delivered ts q g (write_payload_to_dir payload ts w).1.nodes
writes_payload ts payload q g w ds links h e =
    on_success (write_payload_to_dir payload ts w).0 (write_payload_to_dir payload ts w).1
      ((write_payload_to_dir-delivers ts q g payload ds h).run w links) e
  where
    on_success :
        (r : Result Unit) (w' : World)
        → Ends (λ _ w. Ready ts q g w.nodes) (λ _. Unit) r w'
        → r ≡ ok tt
        → Delivered ts q g w'.nodes
    on_success (ok _) w' x e = x.1
    on_success (err y) w' x e = absurd (cc)
