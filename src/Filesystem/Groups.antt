-- ===== src/Filesystem/Groups.antt =====
-- What a tree shows when the files' groups are left out.
use csi_driver_trusted_ca.Common.{
  ◌≡◌, refl, sym, ap, ◌∙◌, inl, inr, Bool-cases, [], ◌∷◌, ◌++◌, Option, none, some, Bytes, ◌==◌,
  ◌=?◌, =?_iff, list_eq, nat_eq, ℕ,
}
use csi_driver_trusted_ca.Validate.{FilePath}
use csi_driver_trusted_ca.Sys.{
  Owner, Result, ok, err, not_exist, invalid, Node, file, dir, link, Nodes,
}
use csi_driver_trusted_ca.Sys.Keeps.{Post}
use csi_driver_trusted_ca.Os.{at, follow, write_node}
use csi_driver_trusted_ca.Os.Change.{at-write_node}
use csi_driver_trusted_ca.Writer.{data_dir_name}
use csi_driver_trusted_ca.Writer.View.{view, SameView}
use csi_driver_trusted_ca.Filesystem.{ℤ}
use csi_driver_trusted_ca.Filesystem.Within.{sub, at-sub}
use csi_driver_trusted_ca.Filesystem.Write.{
  gid_number, with_group, chgrp_node, written_file, chgrp_written_node,
}

abbrev pub groupless : Node → Node
groupless (file c m u) = file c m (record u { group = none })
groupless (dir m) = dir m
groupless (link t) = link t

abbrev pub groupless_entry : Option Node → Option Node
groupless_entry none = none
groupless_entry (some x) = some (groupless x)

-- the same entries, but for the groups of files
abbrev pub SameButGroups : Nodes → Nodes → Type 0
SameButGroups n n' = (p : FilePath) → groupless_entry (at p n') ≡ groupless_entry (at p n)

-- the same is seen in both trees, but for the groups of files
abbrev pub SameFiles : Nodes → Nodes → Type 0
SameFiles n n' =
    (e : Bytes) (p : FilePath)
    → groupless_entry (view n' (e ∷ p)) ≡ groupless_entry (view n (e ∷ p))

pub SameView-SameFiles : (n n' : Nodes) → SameView n n' → SameFiles n n'
SameView-SameFiles n n' h e p = ap groupless_entry (h e p)

pub groupless-none : (o : Option Node) → groupless_entry o ≡ none → o ≡ none
groupless-none none h = refl
groupless-none (some x) h = absurd (cc)

pub groupless-link :
    (o : Option Node) (t : FilePath) → groupless_entry o ≡ some (link t) → o ≡ some (link t)
groupless-link none t h = absurd (cc)
groupless-link (some (file c m u)) t h = absurd (cc)
groupless-link (some (dir m)) t h = absurd (cc)
groupless-link (some (link s)) t h = h

-- a file that is the same but for its group has the same content, mode and user
pub groupless-file :
    (o : Option Node) (c : Bytes) (m : ℕ) (u : Owner)
    → groupless_entry o ≡ groupless_entry (some (file c m u))
    → (v : Owner) × (o ≡ some (file c m v)) × (v.user ≡ u.user)
groupless-file none c m u h = absurd (cc)
groupless-file (some (file d k v)) c m u h =
    let same : file d k (record v { group = none }) ≡ file c m (record u { group = none }) = cc in
    let text : d ≡ c = cc in
    let mode : k ≡ m = cc in
    let user : record v { group = none } ≡ record u { group = none } = cc in
    (v, cc, ap (λ x. x.user) user)
groupless-file (some (dir k)) c m u h = absurd (cc)
groupless-file (some (link t)) c m u h = absurd (cc)

abbrev pub link_of : Option Node → Option FilePath
link_of (some (link t)) = some t
link_of _ = none

link_of-groupless : (o : Option Node) → link_of (groupless_entry o) ≡ link_of o
link_of-groupless none = refl
link_of-groupless (some (file c m u)) = refl
link_of-groupless (some (dir m)) = refl
link_of-groupless (some (link t)) = refl

pub same_link :
    (o o' : Option Node) → groupless_entry o' ≡ groupless_entry o → link_of o' ≡ link_of o
same_link o o' h = sym (link_of-groupless o') ∙ ap link_of h ∙ link_of-groupless o

abbrev through : Option FilePath → FilePath → Nodes → Option Node
through none p n = none
through (some t) p n = at (t ++ p) n

view-through :
    (n : Nodes) (p : FilePath) → view n p ≡ through (link_of (at (data_dir_name ∷ []) n)) p n
unfolding view
view-through n p = by_entry (at (data_dir_name ∷ []) n)
  where
    by_entry :
        (o : Option Node)
        → ◌≡◌ {A = Option Node}
            (elim o [ some (link t) ↦ at (t ++ p) n | _ ↦ none ])
            (through (link_of o) p n)
    by_entry none = refl
    by_entry (some (file c m u)) = refl
    by_entry (some (dir m)) = refl
    by_entry (some (link t)) = refl

through-groupless :
    (o : Option FilePath) (e : Bytes) (p : FilePath) (n n' : Nodes)
    → ((t : FilePath) → groupless_entry (at (t ++ e ∷ p) n') ≡ groupless_entry (at (t ++ e ∷ p) n))
    → groupless_entry (through o (e ∷ p) n') ≡ groupless_entry (through o (e ∷ p) n)
through-groupless none e p n n' h = refl
through-groupless (some t) e p n n' h = h t

-- trees whose entries below the root are the same but for groups show the same
pub entries-SameFiles :
    (n n' : Nodes)
    → ((e : Bytes) (p : FilePath)
        → groupless_entry (at (e ∷ p) n') ≡ groupless_entry (at (e ∷ p) n))
    → SameFiles n n'
entries-SameFiles n n' h e p =
    let links : link_of (at (data_dir_name ∷ []) n') ≡ link_of (at (data_dir_name ∷ []) n) =
      same_link (at (data_dir_name ∷ []) n) (at (data_dir_name ∷ []) n') (h data_dir_name []) in
    ap groupless_entry (view-through n' (e ∷ p) ∙ ap (λ o. through o (e ∷ p) n') links)
    ∙ through-groupless (link_of (at (data_dir_name ∷ []) n)) e p n n' below
    ∙ ap groupless_entry (sym (view-through n (e ∷ p)))
  where
    below :
        (t : FilePath) → groupless_entry (at (t ++ e ∷ p) n') ≡ groupless_entry (at (t ++ e ∷ p) n)
    below [] = h e p
    below (f ∷ t) = h f (t ++ e ∷ p)

pub SameButGroups-sub :
    (d : FilePath) (n n' : Nodes) → SameButGroups n n' → SameButGroups (sub d n) (sub d n')
SameButGroups-sub d n n' h p =
    ap groupless_entry (at-sub d p n') ∙ h (d ++ p) ∙ ap groupless_entry (sym (at-sub d p n))

-- a call that fails or changes groups of files only
abbrev pub Regroups : {A : Type 0} → Nodes → Result (A × Nodes) → Type 0
Regroups n r = Post (λ an. SameButGroups n (an.1)) r

with_group-groupless :
    (gid : ℤ) (c : Bytes) (m : ℕ) (u : Owner)
    → groupless (file c m (with_group gid u)) ≡ groupless (file c m u)
unfolding with_group
with_group-groupless gid c m u = elim (Bool-cases (gid_number gid == 4294967295)) [
  | inl h ↦ rw (h, with_group) refl
  | inr h ↦ rw (h, with_group) refl
]

write-SameButGroups :
    (q : FilePath) (gid : ℤ) (c : Bytes) (m : ℕ) (u : Owner) (n : Nodes)
    → at q n ≡ some (file c m u)
    → SameButGroups n (write_node q (file c m (with_group gid u)) n)
write-SameButGroups q gid c m u n h p =
    ap groupless_entry (at-write_node q p (file c m (with_group gid u)) n)
    ∙ (elim (Bool-cases (q =? p)) [
      | inl t ↦
          let same : q ≡ p = (=?_iff q p).0 t in
          rw t (
            ap some (with_group-groupless gid c m u)
            ∙ ap groupless_entry (sym h ∙ ap (λ x. at x n) same))
      | inr t ↦ rw t refl
    ])

pub chgrp_node-Regroups : (p : FilePath) (gid : ℤ) (n : Nodes) → Regroups n (chgrp_node p gid n)
unfolding chgrp_node
chgrp_node-Regroups p gid n = by_entry (at (follow p n) n) refl
  where
    by_entry :
        (o : Option Node)
        → at (follow p n) n ≡ o
        → Regroups n (elim o [
          | none ↦ err not_exist
          | some (file c m u) ↦ ok (tt, write_node (follow p n) (file c m (with_group gid u)) n)
          | some (dir m) ↦ ok (tt, n)
          | some (link t) ↦ err invalid
        ])
    by_entry none h = tt
    by_entry (some (file c m u)) h = write-SameButGroups (follow p n) gid c m u n h
    by_entry (some (dir m)) h = λ q. refl
    by_entry (some (link t)) h = tt

pub chgrp_written_node-Regroups :
    (d : FilePath) (name : Bytes) (gid : ℤ) (n : Nodes)
    → Regroups n (chgrp_written_node d name gid n)
unfolding chgrp_written_node
chgrp_written_node-Regroups d name gid n = chgrp_node-Regroups (written_file d name n) gid n
