-- ===== src/Validate/Sound.antt =====
-- What validatePath accepts, and where the cleaned paths lead.
use csi_driver_trusted_ca.Common.{
  ◌≡◌, ◌≢◌, ◌↔◌, ◌≤◌, refl, false, ◌&&◌, List, [], ◌∷◌, none, arith, ltb, Bytes, ◌=?◌, =?_iff,
  subst, ne→=?, nat_eq, list_eq, length, All, Bool-cases, Dict, insert, inl, inr,
}
use csi_driver_trusted_ca.Path.{slash, dot_dot, has_prefix, split, first, is_abs, clean_elems}
use csi_driver_trusted_ca.Path.Inside.{IsName, clean_elems-IsName}
use csi_driver_trusted_ca.Validate.{
  FileProjection, FilePath, valid, check_items, check_first, validate_path, validate_entries,
  validate_payload, max_file_name_length, max_path_length,
}

-- an item of a valid path
pub record IsItem (item : Bytes) : Type 0 where
  pub ne_dot_dot : item ≢ dot_dot
  pub short : length item ≤ max_file_name_length

-- the documented rules, as they apply to the path as it is written
pub record IsValidPath (path : Bytes) : Type 0 where
  pub ne_empty : path ≢ []
  pub relative : is_abs path ≡ false
  pub short : length path ≤ max_path_length
  pub items : All IsItem (split path slash)
  pub plain_start :
      (has_prefix (first (split path slash)) dot_dot && ltb 2 (length (first (split path slash))))
      ≡ false

check_items-IsItem : (items : List Bytes) → check_items items ≡ none → All IsItem items
unfolding check_items
check_items-IsItem [] h = tt
check_items-IsItem (item ∷ items) h = (
  record { ne_dot_dot = ground (arith, =?_iff item dot_dot); short = ground arith },
  check_items-IsItem items (ground arith),
)

IsItem-check_items : (items : List Bytes) → All IsItem items → check_items items ≡ none
unfolding check_items
IsItem-check_items [] h = refl
IsItem-check_items (item ∷ items) (hi, his) =
    rw (ne→=? item dot_dot hi.ne_dot_dot) (ground (arith, hi.short, IsItem-check_items items his))

accepted-IsValidPath : (path : Bytes) → validate_path path ≡ none → IsValidPath path
unfolding validate_path check_first
accepted-IsValidPath path h = record {
  ne_empty = ground (arith, =?_iff path []);
  relative = ground arith;
  short = ground arith;
  items = check_items-IsItem (split path slash) (ground arith);
  plain_start = ground arith;
}

IsValidPath-accepted : (path : Bytes) → IsValidPath path → validate_path path ≡ none
unfolding validate_path check_first
IsValidPath-accepted path v = rw (ne→=? path [] v.ne_empty) (
    ground
      (arith, IsItem-check_items (split path slash) v.items, v.relative, v.short, v.plain_start))

-- A path is accepted exactly when it is not empty, is relative, has at most 4096 bytes, has no
-- element ".." and none of more than 255 bytes, and its first element does not start with ".." and
-- go on.
pub validate_path_iff : (path : Bytes) → (validate_path path ≡ none) ↔ IsValidPath path
validate_path_iff path = (accepted-IsValidPath path, IsValidPath-accepted path)

All-ne_dot_dot : (items : List Bytes) → All IsItem items → All (λ e. e ≢ dot_dot) items
All-ne_dot_dot [] _ = tt
All-ne_dot_dot (i ∷ is) (h, hs) = (h.ne_dot_dot, All-ne_dot_dot is hs)

-- Every element of an accepted path, once cleaned, is the name of an entry: neither empty, ".", ".."
-- nor with a slash in it. So the path leads nowhere but below the directory that it is joined to.
pub clean-valid-IsName : (path : Bytes) → validate_path path ≡ none → All IsName (clean_elems path)
clean-valid-IsName path h =
    let v = accepted-IsValidPath path h in
    clean_elems-IsName path v.relative (All-ne_dot_dot (split path slash) v.items)

abbrev AllNames : Dict FilePath FileProjection → Type 0
AllNames = All (λ entry. All IsName (entry.0))

AllNames-insert :
    (p : FilePath) (content : FileProjection) (m : Dict FilePath FileProjection)
    → All IsName p
    → AllNames m
    → AllNames (insert p content m)
unfolding insert
AllNames-insert p content [] hp h = (hp, tt)
AllNames-insert p content ((q, old) ∷ m) hp (hq, h) = elim (Bool-cases (q =? p)) [
  | inl e ↦ rw e (hp, h)
  | inr e ↦ rw e (hq, AllNames-insert p content m hp h)
]

validate_entries-AllNames :
    (payload : Dict Bytes FileProjection) (m c : Dict FilePath FileProjection)
    → AllNames m
    → validate_entries payload m ≡ valid c
    → AllNames c
unfolding validate_entries
validate_entries-AllNames [] m c h e = subst AllNames (ground arith) h
validate_entries-AllNames ((k, content) ∷ payload) m c h e =
    validate_entries-AllNames payload (insert (clean_elems k) content m) c
      (AllNames-insert (clean_elems k) content m (clean-valid-IsName k (ground arith)) h)
      (ground arith)

-- In whatever order the payload's map is read, every key of the payload that validatePayload
-- returns leads below the directory that it is joined to.
pub validate_payload_confined :
    (payload : Dict Bytes FileProjection) (c : Dict FilePath FileProjection)
    → validate_payload payload ≡ valid c
    → All (λ entry. All IsName (entry.0)) c
unfolding validate_payload
validate_payload_confined payload c h = validate_entries-AllNames payload [] c tt h
