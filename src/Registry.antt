-- ===== src/Registry.antt =====
-- pkg/registry/util.go: the tags of a reference. Its child Client is pkg/registry/client.go.
pub mod Reference
pub mod Client
pub mod Pull
pub mod Samples
pub mod Tests
use csi_driver_trusted_ca.Common.{
  ℕ, zero, suc, ◌≡◌, Bool, true, false, not, ◌&&◌, List, [], ◌∷◌, ◌++◌, Bytes, codes, ltb, ◌=?◌,
  contains, length, list_eq, nat_eq, if◌then◌else◌,
}
use csi_driver_trusted_ca.Path.{split, has_prefix, slash}

unfoldable pub contains_tag : List Bytes → Bytes → Bool
contains_tag [] tag = false
contains_tag (t ∷ tags) tag = if tag =? t then true else contains_tag tags tag

-- strings.ReplaceAll(s, c ∷ old, new), which does not look at the next `skip` bytes: a match was
-- replaced there
unfoldable pub replace_from : ℕ → Bytes → Bytes → ℕ → Bytes → Bytes
replace_from c old new skip [] = []
replace_from c old new (suc skip) (d ∷ s) = replace_from c old new skip s
replace_from c old new zero (d ∷ s) =
    let matched = new ++ replace_from c old new (length old) s in
    let unmatched = d ∷ replace_from c old new 0 s in
    if has_prefix (d ∷ s) (c ∷ old) then matched else unmatched

-- parts[len(parts)-1]
abbrev pub last : List Bytes → Bytes
last [] = []
last (p ∷ []) = p
last (p ∷ q ∷ ps) = last (q ∷ ps)

abbrev pub clean_tag : Bytes → Bytes → Bytes
clean_tag raw [] = raw
clean_tag raw (c ∷ tag) = replace_from c tag (replace_from b'+' [] (codes "_") 0 (c ∷ tag)) 0 raw

-- The text that parseReference hands to the parser of references.
unfoldable pub clean_reference : Bytes → Bytes
clean_reference raw =
    let parts = split raw b':' in
    if ltb 1 (length parts) && not (contains (last parts) slash)
    then clean_tag raw (last parts)
    else raw
