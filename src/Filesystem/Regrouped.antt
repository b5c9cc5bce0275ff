-- ===== src/Filesystem/Regrouped.antt =====
-- os.Chown with a group: what it changes, and the paths of the written files.
use csi_driver_trusted_ca.Common.{
  ℕ, ◌≡◌, ◌≢◌, ◌⊎◌, refl, sym, ap, subst, ◌∙◌, inl, inr, Bool-cases, [], ◌∷◌, ◌++◌, Option, none,
  some, Bytes, ◌=?◌, =?_iff, list_eq, nat_eq, arith,
}
use csi_driver_trusted_ca.Path.{clean_elems}
use csi_driver_trusted_ca.Validate.{FilePath}
use csi_driver_trusted_ca.Sys.{Owner, ok, err, not_exist, invalid, Node, file, dir, link, Nodes}
use csi_driver_trusted_ca.Sys.Keeps.{Post}
use csi_driver_trusted_ca.Os.{at, follow, write_node}
use csi_driver_trusted_ca.Os.Change.{at-write_node, follow_self}
use csi_driver_trusted_ca.Writer.{data_dir_name}
use csi_driver_trusted_ca.Writer.View.{view}
use csi_driver_trusted_ca.Filesystem.{ℤ}
use csi_driver_trusted_ca.Filesystem.Within.{sub, at-sub}
use csi_driver_trusted_ca.Filesystem.Groups.{SameButGroups, link_of, same_link}
use csi_driver_trusted_ca.Filesystem.Write.{gid_number, with_group, chgrp_node, written_file}

pub with_group-changes :
    (gid : ℤ) (u : Owner)
    → gid_number gid ≢ 4294967295
    → (with_group gid u).group ≡ some (gid_number gid)
unfolding with_group
with_group-changes gid u h = ground arith

-- the entry is as it was, or it is a file whose group was changed
abbrev pub Changed : ℤ → FilePath → Nodes → Nodes → Type 0
Changed gid p n n' =
    (at p n' ≡ at p n)
    ⊎ ((c : Bytes) × (m : ℕ) × (u : Owner) × (at p n ≡ some (file c m u))
        × (at p n' ≡ some (file c m (with_group gid u))))

-- Every entry is as it was or changed, and the file at the path itself is changed.
pub record Regrouped (p : FilePath) (gid : ℤ) (n n' : Nodes) : Type 0 where
  pub any : (q : FilePath) → Changed gid q n n'
  pub own :
      (c : Bytes) (m : ℕ) (u : Owner)
      → at p n ≡ some (file c m u)
      → at p n' ≡ some (file c m (with_group gid u))

written-Regrouped :
    (p : FilePath) (gid : ℤ) (c : Bytes) (m : ℕ) (u : Owner) (n : Nodes)
    → at (follow p n) n ≡ some (file c m u)
    → Regrouped p gid n (write_node (follow p n) (file c m (with_group gid u)) n)
written-Regrouped p gid c m u n h =
    let x = file c m (with_group gid u) in
    let q = follow p n in
    record {
      any = λ r. elim (Bool-cases (q =? r)) [
        | inl t ↦
            let same : q ≡ r = (=?_iff q r).0 t in
            inr (
              c,
              m,
              u,
              subst (λ r. at r n ≡ some (file c m u)) same h,
              at-write_node q r x n ∙ rw t refl,
            )
        | inr t ↦ inl (at-write_node q r x n ∙ rw t refl)
      ];
      own = λ d k v there.
          let self : q ≡ p = follow_self n p (λ t l. cc) in
          let same : file c m u ≡ file d k v = cc in
          let here : at p (write_node q x n) ≡ some x =
            at-write_node q p x n ∙ rw ((=?_iff q p).1 self) refl in
          here ∙ cc;
    }

pub chgrp_node-Regrouped :
    (p : FilePath) (gid : ℤ) (n : Nodes)
    → Post {A = Unit × Nodes} (λ an. Regrouped p gid n (an.1)) (chgrp_node p gid n)
unfolding chgrp_node
chgrp_node-Regrouped p gid n = by_entry (at (follow p n) n) refl
  where
    by_entry :
        (o : Option Node)
        → at (follow p n) n ≡ o
        → Post {A = Unit × Nodes}
            (λ an. Regrouped p gid n (an.1))
            (elim o [
              | none ↦ err not_exist
              | some (file c m u) ↦ ok (tt, write_node (follow p n) (file c m (with_group gid u)) n)
              | some (dir m) ↦ ok (tt, n)
              | some (link t) ↦ err invalid
            ])
    by_entry none h = tt
    by_entry (some (file c m u)) h = written-Regrouped p gid c m u n h
    by_entry (some (dir m)) h = record {
      any = λ q. inl refl;
      own = λ d k v there.
          let self : follow p n ≡ p = follow_self n p (λ t l. cc) in
          absurd (cc (sym h ∙ ap (λ q. at q n) self ∙ there));
    }
    by_entry (some (link t)) h = tt

module _ (d : FilePath) where
  abbrev by_target : Option FilePath → FilePath → FilePath
  by_target none p = d ++ data_dir_name ∷ p
  by_target (some t) p = d ++ (t ++ p)

  written_file-target :
      (name : Bytes) (n : Nodes)
      → written_file d name n
        ≡ by_target (link_of (at (d ++ data_dir_name ∷ []) n)) (clean_elems name)
  unfolding written_file
  written_file-target name n = by_entry (at (d ++ data_dir_name ∷ []) n)
    where
      by_entry :
          (o : Option Node)
          → ◌≡◌ {A = FilePath}
              (elim o [
                | some (link t) ↦ d ++ (t ++ clean_elems name)
                | _ ↦ d ++ data_dir_name ∷ clean_elems name
              ])
              (by_target (link_of o) (clean_elems name))
      by_entry none = refl
      by_entry (some (file c m u)) = refl
      by_entry (some (dir m)) = refl
      by_entry (some (link t)) = refl

  pub written_file-same :
      (name : Bytes) (n n' : Nodes)
      → SameButGroups n n'
      → written_file d name n' ≡ written_file d name n
  written_file-same name n n' h =
      written_file-target name n'
      ∙ ap (λ o. by_target o (clean_elems name))
          (same_link (at (d ++ data_dir_name ∷ []) n) (at (d ++ data_dir_name ∷ []) n')
            (h (d ++ data_dir_name ∷ [])))
      ∙ sym (written_file-target name n)

  -- what a reader sees stands at the path of the written file
  pub view-written :
      (name : Bytes) (n : Nodes) (x : Node)
      → view (sub d n) (clean_elems name) ≡ some x
      → at (written_file d name n) n ≡ some x
  unfolding view written_file
  view-written name n x h =
      by_entry (at (d ++ data_dir_name ∷ []) n) (rw (at-sub d (data_dir_name ∷ []) n, view) at h)
    where
      by_entry :
          (o : Option Node)
          → ◌≡◌ {A = Option Node}
              (elim o [ some (link t) ↦ at (t ++ clean_elems name) (sub d n) | _ ↦ none ])
              (some x)
          → at
              (elim o [
                | some (link t) ↦ d ++ (t ++ clean_elems name)
                | _ ↦ d ++ data_dir_name ∷ clean_elems name
              ])
              n
            ≡ some x
      by_entry none h = absurd (cc)
      by_entry (some (file c m u)) h = absurd (cc)
      by_entry (some (dir m)) h = absurd (cc)
      by_entry (some (link t)) h = sym (at-sub d (t ++ clean_elems name) n) ∙ h
