-- ===== src/Filesystem/Chowned.antt =====
-- The loop of WriteFiles that changes the groups of its files.
use csi_driver_trusted_ca.Common.{
  ℕ, ◌≡◌, ◌≢◌, refl, sym, ap, subst, ◌∙◌, inl, inr, [], ◌∷◌, Option, some, Bytes, In, keys, list_eq,
  nat_eq,
}
use csi_driver_trusted_ca.Validate.{FilePath}
use csi_driver_trusted_ca.Sys.{Owner, file, Nodes, World, syscall}
use csi_driver_trusted_ca.Sys.Keeps.{Post}
use csi_driver_trusted_ca.Sys.Hoare.{
  Hoare, Hoare-bind, Hoare-pure, Hoare-call, Hoare-trivial, moved,
}
use csi_driver_trusted_ca.Os.{at}
use csi_driver_trusted_ca.Storage.{Files}
use csi_driver_trusted_ca.Writer.Frame.{Post-both}
use csi_driver_trusted_ca.Filesystem.{ℤ, FsGroup, group}
use csi_driver_trusted_ca.Filesystem.Groups.{
  groupless_entry, groupless-file, SameButGroups, chgrp_written_node-Regroups,
}
use csi_driver_trusted_ca.Filesystem.Write.{
  gid_number, with_group, written_file, chgrp_written_node, chown_each, of_fs_group,
}
use csi_driver_trusted_ca.Filesystem.Regrouped.{
  Regrouped, with_group-changes, chgrp_node-Regrouped, written_file-same,
}

module _ (d : FilePath) where
  module _ (gid : ℤ) (changes : gid_number gid ≢ 4294967295) where
    -- if the written file is there, it has the group
    abbrev pub Grouped : Bytes → World → Type 0
    Grouped name w =
        (c : Bytes) (m : ℕ) (u : Owner)
        → at (written_file d name w.nodes) w.nodes ≡ some (file c m u)
        → u.group ≡ some (gid_number gid)

    kept :
        (name other : Bytes) (w : World) (n' : Nodes)
        → SameButGroups w.nodes n'
        → Regrouped (written_file d other w.nodes) gid w.nodes n'
        → Grouped name w
        → Grouped name (moved w n')
    kept name other w n' same r h c m u there =
        let q = written_file d name w.nodes in
        let here : at q n' ≡ some (file c m u) =
          subst (λ q. at q n' ≡ some (file c m u)) (written_file-same d name w.nodes n' same)
            there in
        elim (r.any q) [
          | inl e ↦ h c m u (sym e ∙ here)
          | inr (c', m', v, before, after) ↦
              let equal : file c' m' (with_group gid v) ≡ file c m u = cc in
              let owner : with_group gid v ≡ u = cc in
              subst (λ u. u.group ≡ some (gid_number gid)) owner (with_group-changes gid v changes)
        ]

    given :
        (name : Bytes) (w : World) (n' : Nodes)
        → SameButGroups w.nodes n'
        → Regrouped (written_file d name w.nodes) gid w.nodes n'
        → Grouped name (moved w n')
    given name w n' same r c m u there =
        let q = written_file d name w.nodes in
        let here : at q n' ≡ some (file c m u) =
          subst (λ q. at q n' ≡ some (file c m u)) (written_file-same d name w.nodes n' same)
            there in
        let (v, before, user) =
          groupless-file (at q w.nodes) c m u (sym (same q) ∙ ap groupless_entry here) in
        let after = r.own c m v before in
        let equal : file c m (with_group gid v) ≡ file c m u = cc in
        let owner : with_group gid v ≡ u = cc in
        subst (λ u. u.group ≡ some (gid_number gid)) owner (with_group-changes gid v changes)

    both :
        (name : Bytes) (w : World)
        → Post {A = Unit × Nodes}
            (λ an.
              SameButGroups w.nodes (an.1)
              × Regrouped (written_file d name w.nodes) gid w.nodes (an.1))
            (chgrp_written_node d name gid w.nodes)
    unfolding chgrp_written_node
    both name w =
        Post-both (chgrp_written_node d name gid w.nodes)
          (chgrp_written_node-Regroups d name gid w.nodes)
          (chgrp_node-Regrouped (written_file d name w.nodes) gid w.nodes) λ an s r. (s, r)

    call-kept :
        (name other : Bytes)
        → Hoare
            (Grouped name)
            (λ _ w. Grouped name w)
            (λ _. Unit)
            (syscall (chgrp_written_node d other gid))
    call-kept name other =
        Hoare-call (chgrp_written_node d other gid)
          (λ w h.
            Post-both (chgrp_written_node d other gid w.nodes) (both other w) (both other w)
              λ an s _. kept name other w (an.1) (s.0) (s.1) h)
          (λ w h. tt)

    call-given :
        (name : Bytes)
        → Hoare
            (λ _. Unit)
            (λ _ w. Grouped name w)
            (λ _. Unit)
            (syscall (chgrp_written_node d name gid))
    call-given name =
        Hoare-call (chgrp_written_node d name gid)
          (λ w h.
            Post-both (chgrp_written_node d name gid w.nodes) (both name w) (both name w)
              λ an s _. given name w (an.1) (s.0) (s.1))
          (λ w h. tt)

    chown_each-kept :
        (name : Bytes) (files : Files)
        → Hoare (Grouped name) (λ _ w. Grouped name w) (λ _. Unit) (chown_each d gid files)
    unfolding chown_each
    chown_each-kept name [] = Hoare-pure tt λ w h. h
    chown_each-kept name ((other, content) ∷ files) =
        Hoare-bind _ _ (call-kept name other) λ _. chown_each-kept name files

    pub chown_each-given :
        (name : Bytes) (files : Files)
        → In name (keys files)
        → Hoare (λ _. Unit) (λ _ w. Grouped name w) (λ _. Unit) (chown_each d gid files)
    unfolding chown_each keys
    chown_each-given name [] i = absurd i
    chown_each-given name ((other, content) ∷ files) (inl e) =
        Hoare-bind _ _
          (subst
            (λ k.
              Hoare (λ _. Unit) (λ _ w. Grouped name w) (λ _. Unit)
                (syscall (chgrp_written_node d k gid)))
            (sym e) (call-given name))
          λ _. chown_each-kept name files
    chown_each-given name ((other, content) ∷ files) (inr i) =
        Hoare-bind {Q = λ _ _. Unit} _ _ (Hoare-trivial _) λ _. chown_each-given name files i

    pub of_fs_group-gid :
        (g : FsGroup)
        → g ≡ group (some gid)
        → Hoare {A = Option ℤ} (λ _. Unit) (λ o w. o ≡ some gid) (λ _. Unit) (of_fs_group g)
    of_fs_group-gid g h =
        subst
          (λ g. Hoare {A = Option ℤ} (λ _. Unit) (λ o w. o ≡ some gid) (λ _. Unit) (of_fs_group g))
          (sym h) (Hoare-pure (some gid) λ w _. refl)
