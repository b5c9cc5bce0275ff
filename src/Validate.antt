-- ===== src/Validate.antt =====
-- validatePath and validatePayload of pkg/util/atomic_writer.go, and the payload's types.
pub mod Sound
pub mod Reserved
pub mod Tests
use csi_driver_trusted_ca.Common.{
  ℕ, ◌≡◌, refl, Bool, true, false, ◌&&◌, List, [], ◌∷◌, Option, none, some, ◌==◌, ltb,
  if◌then◌else◌, Bytes, codes, ◌=?◌, list_beq, nat_eq, list_eq, length, Dict, insert,
}
use csi_driver_trusted_ca.Path.{slash, dot_dot, has_prefix, split, first, is_abs, clean_elems}

abbrev pub max_file_name_length : ℕ
max_file_name_length = 255

abbrev pub max_path_length : ℕ
max_path_length = 4096

-- FileProjection: the content, the mode and, if ownership is to change, the user.
pub record FileProjection : Type 0 where
  pub content : Bytes
  pub mode : ℕ
  pub fs_user : Option ℕ

-- The errors of validatePath, one for each message.
pub data PathError : Type 0 where
  empty_path absolute_path path_too_long holds_dot_dot name_too_long leading_dots : PathError

-- `for _, item := range items`
unfoldable pub check_items : List Bytes → Option PathError
check_items [] = none
check_items (item ∷ items) =
    let rest = check_items items in
    if item =? dot_dot
    then some holds_dot_dot
    else if ltb max_file_name_length (length item)
    then some name_too_long
    else rest

-- the test on `items[0]`
unfoldable pub check_first : Bytes → Option PathError
check_first item =
    if has_prefix item dot_dot && ltb 2 (length item) then some leading_dots else none

-- `none` is the nil error.
unfoldable pub validate_path : Bytes → Option PathError
validate_path target_path =
    if target_path =? []
    then some empty_path
    else if is_abs target_path
    then some absolute_path
    else if ltb max_path_length (length target_path)
    then some path_too_long
    else elim (check_items (split target_path slash)) [
      | some e ↦ some e
      | none ↦ check_first (first (split target_path slash))
    ]

-- A cleaned path by its elements, which the payload's map has for keys.
abbrev pub FilePath : Type 0
FilePath = List Bytes

pub data PayloadResult : Type 0 where
  valid : Dict FilePath FileProjection → PayloadResult
  invalid : PathError → PayloadResult

-- The loop of validatePayload, over the entries in the order of the iteration.
unfoldable pub validate_entries :
    Dict Bytes FileProjection → Dict FilePath FileProjection → PayloadResult
validate_entries [] clean_payload = valid clean_payload
validate_entries ((k, content) ∷ payload) clean_payload =
    let rest = validate_entries payload (insert (clean_elems k) content clean_payload) in
    elim (validate_path k) [ some e ↦ invalid e | none ↦ rest ]

unfoldable pub validate_payload : Dict Bytes FileProjection → PayloadResult
unfolding validate_entries
validate_payload payload = validate_entries payload []
