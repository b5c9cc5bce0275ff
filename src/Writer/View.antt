-- ===== src/Writer/View.antt =====
-- What readers see through the data directory, and the two ways in which a tree may relate to it.
use csi_driver_trusted_ca.Common.{
  ◌≡◌, ◌≢◌, refl, [], ◌∷◌, ◌++◌, Option, none, some, Bytes, ◌⊎◌, inl, inr, ◌∙◌, sym, ap,
}
use csi_driver_trusted_ca.Validate.{FilePath}
use csi_driver_trusted_ca.Sys.{Node, link, Nodes}
use csi_driver_trusted_ca.Os.{at}
use csi_driver_trusted_ca.Writer.{data_dir_name}
use csi_driver_trusted_ca.Writer.Frame.{Protected, Same}

-- the entry that a reader finds at ..data/p
unfoldable pub view : Nodes → FilePath → Option Node
view n p = elim (at (data_dir_name ∷ []) n) [ some (link t) ↦ at (t ++ p) n | _ ↦ none ]

-- the same files are seen in both trees
abbrev pub SameView : Nodes → Nodes → Type 0
SameView n n' = (e : Bytes) (p : FilePath) → view n' (e ∷ p) ≡ view n (e ∷ p)

-- A tree that the writer may find: the data directory is not there, or links to a directory that is
-- there and holds no entry of the data directory's name.
pub record LinksTo (d : Bytes) (n : Nodes) : Type 0 where
  pub links : at (data_dir_name ∷ []) n ≡ some (link (d ∷ []))
  pub there : at (d ∷ []) n ≢ none
  pub other : d ≢ data_dir_name
  pub clear : at (d ∷ data_dir_name ∷ []) n ≡ none

pub record IsTarget (n : Nodes) : Type 0 where
  pub version : (at (data_dir_name ∷ []) n ≡ none) ⊎ ((d : Bytes) × LinksTo d n)
  pub rooted : (e : Bytes) (p : FilePath) → at (e ∷ []) n ≡ none → at (e ∷ p) n ≡ none

pub view_links :
    {d : Bytes} (n : Nodes) (p : FilePath)
    → at (data_dir_name ∷ []) n ≡ some (link (d ∷ []))
    → view n p ≡ at (d ∷ p) n
unfolding view
view_links n p h = rw (h, view)

pub view-none : (n : Nodes) (p : FilePath) → at (data_dir_name ∷ []) n ≡ none → view n p ≡ none
unfolding view
view-none n p h = rw (h, view)

-- While the entries that readers can reach stay as they are, so does the view.
pub Same-SameView :
    (ts : Bytes) (n0 n : Nodes)
    → IsTarget n0
    → at (ts ∷ []) n0 ≡ none
    → Same (Protected ts) n0 n
    → SameView n0 n
Same-SameView ts n0 n target fresh same e p = elim target.version [
  | inl missing ↦
      view-none n (e ∷ p) (same (data_dir_name ∷ []) refl ∙ missing)
      ∙ sym (view-none n0 (e ∷ p) missing)
  | inr (d, v) ↦
      view_links n (e ∷ p) (same (data_dir_name ∷ []) refl ∙ v.links)
      ∙ same (d ∷ e ∷ p) (λ q. v.there (ap (λ x. at (x ∷ []) n0) q ∙ fresh))
      ∙ sym (view_links n0 (e ∷ p) v.links)
]

-- After the switch to `ts`: the link, and what is below the new directory, are as in `n1`.
pub record IsSwitched (ts : Bytes) (n1 n : Nodes) : Type 0 where
  pub links : at (data_dir_name ∷ []) n ≡ some (link (ts ∷ []))
  pub same : (e : Bytes) (p : FilePath) → at (ts ∷ e ∷ p) n ≡ at (ts ∷ e ∷ p) n1

pub IsSwitched-SameView :
    (ts : Bytes) (n1 n n' : Nodes) → IsSwitched ts n1 n → IsSwitched ts n1 n' → SameView n n'
IsSwitched-SameView ts n1 n n' h h' e p =
    view_links n' (e ∷ p) h'.links
    ∙ h'.same e p
    ∙ sym (h.same e p)
    ∙ sym (view_links n (e ∷ p) h.links)
