-- ===== src/Validate/Tests.antt =====
-- Paths that are accepted and refused.
use csi_driver_trusted_ca.Common.{
  ◌≡◌, ◌≢◌, ◌↔◌, refl, false, List, [], ◌∷◌, none, some, Bytes, codes, All, Dict, insert, list_beq,
  arith,
}
use csi_driver_trusted_ca.Path.{
  slash, dot, dot_dot, has_prefix, split, first, is_abs, clean_elems, clean_loop,
}
use csi_driver_trusted_ca.Path.Inside.{IsName}
use csi_driver_trusted_ca.Validate.{
  FileProjection, FilePath, holds_dot_dot, leading_dots, check_items, check_first, validate_path,
  valid, validate_entries, validate_payload,
}
use csi_driver_trusted_ca.Validate.Sound.{IsValidPath, validate_path_iff, validate_payload_confined}
use csi_driver_trusted_ca.Validate.Reserved.{
  validate_path-unreserved, validate_path_admits_reserved,
}

traversal : validate_path (codes "a/../../etc") ≡ some holds_dot_dot
unfolding validate_path check_items check_first split is_abs has_prefix list_beq
traversal = refl

hidden : validate_path (codes "..data") ≡ some leading_dots
unfolding validate_path check_items check_first split is_abs has_prefix list_beq
hidden = refl

nested : validate_path (codes "user/..labels") ≡ none
unfolding validate_path check_items check_first split is_abs has_prefix list_beq
nested = refl

abbrev pem : FileProjection
pem = record { content = codes "pem"; mode = 0o440; fs_user = none }

abbrev cleaned : Dict FilePath FileProjection
cleaned = (codes "ca" ∷ codes "root.pem" ∷ [], pem) ∷ []

cleans : validate_payload ((codes "ca//./root.pem", pem) ∷ []) ≡ valid cleaned
unfolding validate_payload validate_entries validate_path check_items check_first split is_abs
    has_prefix list_beq clean_elems clean_loop insert
cleans = refl

validate_payload_confined_example : All (λ entry. All IsName (entry.0)) cleaned
validate_payload_confined_example =
    validate_payload_confined ((codes "ca//./root.pem", pem) ∷ []) cleaned cleans

validate_path_iff_example :
    (validate_path (codes "user/..labels") ≡ none) ↔ IsValidPath (codes "user/..labels")
validate_path_iff_example = validate_path_iff (codes "user/..labels")

user_first : first (split (codes "user/..labels") slash) ≡ codes "user"
unfolding split list_beq
user_first = refl

user_ne_dot : first (split (codes "user/..labels") slash) ≢ dot
user_ne_dot = rw user_first (λ e. absurd (cc))

user_ne_empty : first (split (codes "user/..labels") slash) ≢ []
user_ne_empty = rw user_first (λ e. absurd (cc))

validate_path-unreserved_example :
    (rest : List Bytes) × (clean_elems (codes "user/..labels")
      ≡ first (split (codes "user/..labels") slash) ∷ rest)
    × (has_prefix (first (split (codes "user/..labels") slash)) dot_dot ≡ false)
validate_path-unreserved_example =
    validate_path-unreserved (codes "user/..labels") nested user_ne_dot user_ne_empty

data_no_slash : All (λ c. c ≢ slash) (codes "..data")
data_no_slash = (cc, (cc, (cc, (cc, (cc, (cc, tt))))))

validate_path_admits_reserved_example :
    (validate_path (codes "./..data") ≡ none)
    × (clean_elems (codes "./..data") ≡ codes "..data" ∷ [])
validate_path_admits_reserved_example =
    validate_path_admits_reserved (codes "..data") (cc) (cc) (cc) data_no_slash (omega arith)
