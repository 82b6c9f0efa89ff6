-- ===== src/Net/Policy.antt =====
-- internal/turn/server.go: `peerAllowed`; internal/rtc/mesh.go: `remoteCandidateAllowed`;
-- internal/config/server.go: `isPublicIPv4`.
pub mod Laws
use termcall.Prelude.{
  ℕ, ◌*◌, ◌^◌, Bool, true, false, not, ◌&&◌, ◌||◌, List, [], ◌∷◌, ◌++◌, Option, none, some,
  if◌then◌else◌,
}
use termcall.Text.{Bytes}
use termcall.Net.Address.{
  Addr, Prefix, prefix4, prefix6, quad, addr_from_slice, unmap, to4, any_contains, is_unspecified,
  is_loopback, is_multicast, is_link_local_unicast, is_private, is_global_unicast,
}

abbrev pub denied_public_ipv4_prefixes : List Prefix
denied_public_ipv4_prefixes =
    prefix4 (quad 0 0 0 0) 24
    ∷ prefix4 (quad 100 64 0 0) 22
    ∷ prefix4 (quad 192 0 0 0) 8
    ∷ prefix4 (quad 192 0 2 0) 8
    ∷ prefix4 (quad 198 18 0 0) 17
    ∷ prefix4 (quad 198 51 100 0) 8
    ∷ prefix4 (quad 203 0 113 0) 8
    ∷ []

-- The list of turn/server.go, and that of mesh.go.
abbrev pub denied_peer_prefixes : List Prefix
denied_peer_prefixes = denied_public_ipv4_prefixes ++ prefix6 (0x20010db8 * 2 ^ 96) 96 ∷ []

abbrev pub denied_remote_candidate_prefixes : List Prefix
denied_remote_candidate_prefixes =
    denied_public_ipv4_prefixes ++ prefix6 (0x20010db8 * 2 ^ 96) 96 ∷ []

unfoldable pub relayable : Bool → Addr → Bool
relayable allow_private a =
    if allow_private
    then not (is_unspecified a) && not (is_multicast a)
    else if not (is_global_unicast a) || is_private a || is_loopback a || is_link_local_unicast a
    then false
    else not (any_contains denied_peer_prefixes a)

unfoldable pub peer_allowed : Bytes → Bool → Bool
peer_allowed peer_ip allow_private = elim (addr_from_slice peer_ip) [
  | none ↦ false
  | some a ↦ relayable allow_private (unmap a)
]

unfoldable pub connectable : Bool → Addr → Bool
connectable allow_private a =
    if not (is_global_unicast a) || is_loopback a || is_link_local_unicast a
    then false
    else if is_private a
    then allow_private
    else not (any_contains denied_remote_candidate_prefixes a)

-- `remoteCandidateAllowedWithPrivate`
unfoldable pub remote_candidate_allowed : Bytes → Bool → Bool
remote_candidate_allowed ip allow_private = elim (addr_from_slice ip) [
  | none ↦ false
  | some a ↦ connectable allow_private (unmap a)
]

unfoldable pub is_public : Addr → Bool
is_public a =
    if not (is_global_unicast a) || is_private a || is_loopback a || is_link_local_unicast a
    then false
    else not (any_contains denied_public_ipv4_prefixes a)

unfoldable pub public_slice : Option Addr → Bool
public_slice none = false
public_slice (some a) = is_public a

unfoldable pub is_public_ipv4 : Bytes → Bool
unfolding public_slice
is_public_ipv4 ip = elim (to4 ip) [ none ↦ false | some quad ↦ public_slice (addr_from_slice quad) ]
