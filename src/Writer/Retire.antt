-- ===== src/Writer/Retire.antt =====
-- The calls after the switch keep what readers see from then on, whatever fails among them.
use csi_driver_trusted_ca.Common.{
  ◌≡◌, ◌≢◌, true, false, List, [], ◌∷◌, ◌++◌, none, some, Bytes, Dict, All, Bool-cases, inl, inr,
  ◌=?◌, =?_iff, list_eq, nat_eq, arith, contains, not, ◌&&◌, ◌∙◌,
}
use csi_driver_trusted_ca.Validate.{FilePath, FileProjection}
use csi_driver_trusted_ca.Sys.{Error, Result, ok, err, Node, Nodes, pure, ◌>>=◌}
use csi_driver_trusted_ca.Sys.Keeps.{
  Post, Keeps, Keeps-reads, Keeps-syscall, Keeps-bind, Keeps-pure, Keeps-attempt, Keeps-if, Any,
}
use csi_driver_trusted_ca.Os.{
  at, under, walk_node, lstat_node, read_node, remove_node, remove, remove_all, read_file,
}
use csi_driver_trusted_ca.Os.Change.{lstat_node-Reads, read_node-Reads, remove_node-Only}
use csi_driver_trusted_ca.Os.Removal.{
  remove_node-none, walk_node-finds, remove_all-Keeps, return_result-Keeps,
}
use csi_driver_trusted_ca.Writer.{
  data_dir_name, strip, relative_paths, difference, visited, paths_to_remove, differs,
  should_write_file, should_write_payload, remove_paths, remove_user_visible_paths, retire,
  is_empty, new_paths,
}
use csi_driver_trusted_ca.Writer.Frame.{Post-both}
use csi_driver_trusted_ca.Writer.View.{IsSwitched}

abbrev NotDataDir : FilePath → Type 0
NotDataDir p = p ≢ data_dir_name ∷ []

-- the old directory, whose entry of the data directory's name is missing
pub record IsRetiring (ts d : Bytes) (n1 n : Nodes) : Type 0 where
  pub switched : IsSwitched ts n1 n
  pub clear : at (d ∷ data_dir_name ∷ []) n ≡ none

strip-NotDataDir :
    (d : Bytes) (q : FilePath)
    → under (d ∷ []) q ≡ true
    → q ≢ d ∷ data_dir_name ∷ []
    → NotDataDir (strip (d ∷ []) q)
unfolding strip under
strip-NotDataDir d [] u h e = cc
strip-NotDataDir d (f ∷ q) u h e = h (ground (arith, =?_iff d f))

pub under_head : (d f : Bytes) (q : FilePath) → under (d ∷ []) (f ∷ q) ≡ true → d ≡ f
unfolding under
under_head d f q u = ground (arith, =?_iff d f)

abbrev Found : Bytes → FilePath → Type 0
Found d k = (under (d ∷ []) k ≡ true) × (k ≢ d ∷ data_dir_name ∷ [])

relative_paths-NotDataDir :
    (d : Bytes) (qs : List FilePath)
    → All (Found d) qs
    → All NotDataDir (relative_paths (d ∷ []) qs)
unfolding relative_paths
relative_paths-NotDataDir d [] _ = tt
relative_paths-NotDataDir d (q ∷ qs) ((u, h), hs) = elim (Bool-cases (strip (d ∷ []) q =? [])) [
  | inl e ↦ rw e (relative_paths-NotDataDir d qs hs)
  | inr e ↦ rw e (strip-NotDataDir d q u h, relative_paths-NotDataDir d qs hs)
]

All-difference :
    (P : FilePath → Type 0) (ps qs : List FilePath) → All P ps → All P (difference ps qs)
unfolding difference
All-difference P [] qs _ = tt
All-difference P (p ∷ ps) qs (h, hs) = elim (Bool-cases (contains qs p)) [
  | inl e ↦ rw e (All-difference P ps qs hs)
  | inr e ↦ rw e (h, All-difference P ps qs hs)
]

visited-Found :
    (d : Bytes) (r : Result (List FilePath)) → Post (All (Found d)) r → All (Found d) (visited r)
visited-Found d (ok ps) h = h
visited-Found d (err e) h = tt

module _ (ts d : Bytes) (n1 : Nodes) (O : Nodes → Type 0)
    (sub : (n : Nodes) → IsRetiring ts d n1 n → O n) where
  abbrev Q : Nodes → Type 0
  Q = IsRetiring ts d n1

  paths_to_remove-Keeps :
      (payload : Dict FilePath FileProjection)
      → Keeps Q O (All NotDataDir) (paths_to_remove payload (d ∷ []))
  unfolding paths_to_remove
  paths_to_remove-Keeps payload =
      Keeps-bind _ _
        (Keeps-attempt _ (
          Keeps-reads sub {R = All (Found d)} (walk_node (d ∷ []))
            (λ n h. walk_node-finds (d ∷ []) (d ∷ data_dir_name ∷ []) n h.clear)))
        λ found h. Keeps-pure _ (
          All-difference NotDataDir (relative_paths (d ∷ []) (visited found)) (new_paths payload)
            (relative_paths-NotDataDir d (visited found) (visited-Found d found h)))

  differs-Keeps :
      (p : FilePath) (content : Bytes) (there : Result Node)
      → Keeps Q O Any (differs p content there)
  differs-Keeps p content there = by_result there
    where
      by_content : Keeps Q O Any (read_file p >>= λ c. pure (not (content =? c)))
      by_content =
          Keeps-bind _ _ (Keeps-reads sub {R = Any} (read_node p) (λ n _. read_node-Reads n p))
            λ c _. Keeps-pure (not (content =? c)) tt

      by_result : (there : Result Node) → Keeps Q O Any (differs p content there)
      by_result (err Error.not_exist) = Keeps-pure true tt
      by_result (ok x) = by_content
      by_result (err _) = by_content

  should_write_payload-Keeps :
      (payload : Dict FilePath FileProjection) (old : FilePath)
      → Keeps Q O Any (should_write_payload payload old)
  unfolding should_write_payload should_write_file
  should_write_payload-Keeps [] old = Keeps-pure false tt
  should_write_payload-Keeps ((p, f) ∷ payload) old =
      Keeps-bind _ _
        (Keeps-bind _ _
          (Keeps-attempt _ (
            Keeps-reads sub {R = Any} (lstat_node (old ++ p))
              (λ n _. lstat_node-Reads n (old ++ p))))
          (λ there _. differs-Keeps (old ++ p) f.content there))
        λ should _.
          Keeps-if should _ _ (Keeps-pure true tt) (should_write_payload-Keeps payload old)

  remove-Keeps :
      (q : FilePath)
      → NotDataDir q
      → ((e : Bytes) (p : FilePath) → q ≢ ts ∷ e ∷ p)
      → Keeps Q O Any (remove q)
  remove-Keeps q not_link elsewhere = Keeps-syscall sub (remove_node q) λ n h.
      Post-both (remove_node q n) (remove_node-Only n q)
        (remove_node-none q (d ∷ data_dir_name ∷ []) n h.clear)
        λ an only gone. (
          record {
            switched = record {
              links = only (data_dir_name ∷ []) not_link ∙ h.switched.links;
              same = λ e p. only (ts ∷ e ∷ p) (elsewhere e p) ∙ h.switched.same e p;
            };
            clear = gone;
          },
          tt,
        )

  remove_paths-Keeps :
      (ps : List FilePath) (last_err : Result Unit)
      → All NotDataDir ps
      → Keeps Q O Any (remove_paths ps last_err)
  unfolding remove_paths
  remove_paths-Keeps [] last_err _ = Keeps-pure last_err tt
  remove_paths-Keeps ([] ∷ ps) last_err (_, hs) = remove_paths-Keeps ps last_err hs
  remove_paths-Keeps ((e ∷ []) ∷ ps) last_err (h, hs) =
      Keeps-bind _ _ (Keeps-attempt _ (remove-Keeps (e ∷ []) h (λ f p q. cc)))
        λ done _. remove_paths-Keeps ps _ hs
  remove_paths-Keeps ((e ∷ f ∷ p) ∷ ps) last_err (_, hs) = remove_paths-Keeps ps last_err hs

  remove_user_visible_paths-Keeps :
      (ps : List FilePath) → All NotDataDir ps → Keeps Q O Any (remove_user_visible_paths ps)
  unfolding remove_user_visible_paths
  remove_user_visible_paths-Keeps ps h =
      Keeps-bind _ _ (remove_paths-Keeps ps (ok tt) h) λ r _. return_result-Keeps sub r

  remove_old-Keeps : d ≢ data_dir_name → d ≢ ts → Keeps Q O Any (remove_all (d ∷ []))
  remove_old-Keeps other apart = remove_all-Keeps sub (d ∷ []) below_old
    where
      below_old : (q : FilePath) → under (d ∷ []) q ≡ true → Keeps Q O Any (remove q)
      below_old [] u = absurd (unfold under in cc)
      below_old (f ∷ q) u =
          let e : d ≡ f = under_head d f q u in
          remove-Keeps (f ∷ q) (λ h. other (cc)) (λ g p h. apart (cc))

  pub retire-Keeps :
      (payload : Dict FilePath FileProjection)
      → d ≢ data_dir_name
      → d ≢ ts
      → Keeps Q O Any (retire payload (some (d ∷ [])))
  unfolding retire
  retire-Keeps payload other apart = Keeps-bind _ _ (paths_to_remove-Keeps payload) λ gone h.
      Keeps-bind _ _ (should_write_payload-Keeps payload (d ∷ [])) λ should _.
        Keeps-if (not should && is_empty gone) _ _ (Keeps-pure tt tt) (
          Keeps-bind _ _ (remove_user_visible_paths-Keeps gone h)
            λ _ _. remove_old-Keeps other apart)
