-- ===== src/Net/Policy/Laws.antt =====
-- The three policies against each other, and against the ranges of addresses they mean.
use termcall.Prelude.{
  ℕ, ◌+◌, ◌*◌, ◌<◌, ◌≡◌, sym, ◌⊎◌, ◌↔◌, inl, inr, Bool, true, false, [], ◌∷◌, some, arith, length,
  Option-cases,
}
use mathlib.Core.Path.{subst}
use termcall.Text.{Bytes}
use termcall.Net.Address.{
  Addr, v4, quad, addr_from_slice, unmap, to4, to4-length, to4-four, addr_from_slice-four,
  prefix_contains, any_contains, is_unspecified, is_loopback, is_multicast, is_link_local_unicast,
  is_private, is_global_unicast,
}
use termcall.Net.Policy.{
  relayable, peer_allowed, connectable, remote_candidate_allowed, is_public, is_public_ipv4,
  public_slice,
}

connectable-relayable :
    (allow : Bool) (a : Addr) → connectable allow a ≡ true → relayable allow a ≡ true
unfolding connectable relayable is_global_unicast
connectable-relayable true a h = ground arith
connectable-relayable false a h = ground arith

-- An address that a client accepts as a remote candidate is one to which a TURN server with the
-- same option relays.
pub remote_candidate_allowed-peer_allowed :
    (ip : Bytes) (allow : Bool)
    → remote_candidate_allowed ip allow ≡ true
    → peer_allowed ip allow ≡ true
unfolding remote_candidate_allowed peer_allowed
remote_candidate_allowed-peer_allowed ip allow h = elim (Option-cases (addr_from_slice ip)) [
  | inl e ↦ absurd (ground arith)
  | inr (a, e) ↦
      rw (e, peer_allowed)
        (connectable-relayable allow (unmap a) (rw (e, remote_candidate_allowed) at h))
]

-- n is outside of lo .. hi.
abbrev pub Outside : ℕ → ℕ → ℕ → Type 0
Outside lo hi n = (n < lo) ⊎ (hi < n)

-- The public part of the IPv4 space, range by range.
pub record IsPublicV4 (n : ℕ) : Type 0 where
  pub this_network : Outside (quad 0 0 0 0) (quad 0 255 255 255) n
  pub private_a : Outside (quad 10 0 0 0) (quad 10 255 255 255) n
  pub shared : Outside (quad 100 64 0 0) (quad 100 127 255 255) n
  pub loopback : Outside (quad 127 0 0 0) (quad 127 255 255 255) n
  pub link_local : Outside (quad 169 254 0 0) (quad 169 254 255 255) n
  pub private_b : Outside (quad 172 16 0 0) (quad 172 31 255 255) n
  pub protocol : Outside (quad 192 0 0 0) (quad 192 0 0 255) n
  pub test_1 : Outside (quad 192 0 2 0) (quad 192 0 2 255) n
  pub private_c : Outside (quad 192 168 0 0) (quad 192 168 255 255) n
  pub benchmark : Outside (quad 198 18 0 0) (quad 198 19 255 255) n
  pub test_2 : Outside (quad 198 51 100 0) (quad 198 51 100 255) n
  pub test_3 : Outside (quad 203 0 113 0) (quad 203 0 113 255) n
  pub multicast : Outside (quad 224 0 0 0) (quad 239 255 255 255) n
  pub broadcast : Outside (quad 255 255 255 255) (quad 255 255 255 255) n

public_sound : (n : ℕ) → relayable false (v4 n) ≡ true → IsPublicV4 n
unfolding relayable is_global_unicast is_unspecified is_loopback is_multicast is_link_local_unicast
    is_private any_contains prefix_contains
public_sound n h = ground arith

public_complete : (n : ℕ) → IsPublicV4 n → relayable false (v4 n) ≡ true
unfolding relayable is_global_unicast is_unspecified is_loopback is_multicast is_link_local_unicast
    is_private any_contains prefix_contains
public_complete n h = ground arith

is_public-relayable : (n : ℕ) → is_public (v4 n) ≡ true → relayable false (v4 n) ≡ true
unfolding is_public relayable any_contains prefix_contains
is_public-relayable n h = ground arith

-- A public address of the configuration: its four bytes, which a TURN server relays to.
pub is_public_ipv4-peer_allowed :
    (ip : Bytes)
    → is_public_ipv4 ip ≡ true
    → (four : Bytes) × (to4 ip ≡ some four)
      × (to4 four ≡ some four)
      × (peer_allowed four false ≡ true)
unfolding is_public_ipv4 public_slice peer_allowed unmap
is_public_ipv4-peer_allowed ip h = elim (Option-cases (to4 ip)) [
  | inl e ↦ absurd (ground arith)
  | inr (four, e) ↦
      let size : length four ≡ 4 = to4-length ip four e in
      let (n, found) = addr_from_slice-four four size in
      let public : is_public (v4 n) ≡ true = rw (e, is_public_ipv4, found, public_slice) at h in
      (four, e, to4-four four size, rw (found, peer_allowed, unmap) (is_public-relayable n public))
]

-- Without the option for private peers, the TURN server relays to an IPv4 address exactly if it is
-- outside of the fourteen ranges of addresses that are not public.
pub peer_allowed-IsPublicV4 :
    (a b c d : ℕ) → (peer_allowed (a ∷ b ∷ c ∷ d ∷ []) false ≡ true) ↔ IsPublicV4 (quad a b c d)
unfolding peer_allowed addr_from_slice unmap
peer_allowed-IsPublicV4 a b c d =
    let same : (((0 * 256 + a) * 256 + b) * 256 + c) * 256 + d ≡ quad a b c d = omega arith in
    (
      λ h. subst IsPublicV4 same (public_sound ((((0 * 256 + a) * 256 + b) * 256 + c) * 256 + d) h),
      λ h.
          public_complete ((((0 * 256 + a) * 256 + b) * 256 + c) * 256 + d)
            (subst IsPublicV4 (sym same) h),
    )
