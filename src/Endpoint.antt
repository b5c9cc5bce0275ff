-- ===== src/Endpoint.antt =====
-- parseEndpoint of pkg/driver/server.go and the address that NewGRPCServer listens on. The text is a
-- list of code points.
pub mod Sound
pub mod Server
pub mod Tests
use csi_driver_trusted_ca.Common.{
  ℕ, ◌+◌, ◌≡◌, refl, Bool, true, false, ◌&&◌, ◌||◌, List, [], ◌∷◌, Option, none, some, map, Bytes,
  codes, ◌==◌, leb, if◌then◌else◌, ◌=?◌, list_eq, nat_eq, list_beq,
}
use csi_driver_trusted_ca.Path.{has_prefix}

-- unicode.ToLower where its result is ASCII. Any other rune becomes one that no prefix here has, and
-- is left as it is.
unfoldable pub to_lower : ℕ → ℕ
to_lower c =
    if leb b'A' c && leb c b'Z'
    then c + 32
    else if c == 0x130
    then b'i'
    else if c == 0x212a
    then b'k'
    else c

abbrev pub separator : Bytes
separator = codes "://"

abbrev pub drop : Bytes → Bytes → Bytes
drop [] s = s
drop (c ∷ p) [] = []
drop (c ∷ p) (d ∷ s) = drop p s

abbrev pub push : ℕ → Option (Bytes × Bytes) → Option (Bytes × Bytes)
push c none = none
push c (some (before, behind)) = some (c ∷ before, behind)

-- strings.SplitN(s, "://", 2), where there are two parts
unfoldable pub cut : Bytes → Option (Bytes × Bytes)
cut [] = none
cut (c ∷ s) =
    let later = push c (cut s) in
    if has_prefix (c ∷ s) separator then some ([], drop separator (c ∷ s)) else later

-- The error is none, and so is an index out of range, which would panic.
unfoldable pub parse_endpoint : Bytes → Option (Bytes × Bytes)
parse_endpoint ep =
    if has_prefix (map to_lower ep) (codes "unix://")
      || has_prefix (map to_lower ep) (codes "tcp://")
    then elim (cut ep) [
      | none ↦ none
      | some (proto, host) ↦ if host =? [] then none else some (proto, host)
    ]
    else none

-- The network and the address that NewGRPCServer hands to net.Listen.
unfoldable pub listen_on : Bytes × Bytes → Bytes × Bytes
listen_on (proto, addr) = if proto =? codes "unix" then (proto, b'/' ∷ addr) else (proto, addr)
