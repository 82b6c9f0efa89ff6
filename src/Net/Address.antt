-- ===== src/Net/Address.antt =====
-- What the source uses of Go's `net.IP` and `net/netip`.
--
-- An address is a number below 2^32 or 2^128. A `net.IP` is its bytes; nil is the empty list.
use termcall.Prelude.{
  ℕ, zero, suc, ◌+◌, ◌-◌, ◌*◌, ◌/◌, ◌%◌, ◌^◌, Bool, true, false, not, ◌&&◌, ◌||◌, List, [], ◌∷◌,
  Option, none, some, ◌==◌, if◌then◌else◌, length, ◌≡◌, ◌∙◌, arith,
}
use termcall.Text.{Bytes}

pub data Addr : Type 0 where
  v4 v6 : ℕ → Addr

-- Bytes, the most significant one first, behind `n`.
value_from : ℕ → Bytes → ℕ
value_from n [] = n
value_from n (b ∷ bs) = value_from (n * 256 + b) bs

-- `netip.AddrFromSlice`
unfoldable pub addr_from_slice : Bytes → Option Addr
unfolding value_from
addr_from_slice ip =
    if length ip == 4
    then some (v4 (value_from 0 ip))
    else if length ip == 16
    then some (v6 (value_from 0 ip))
    else none

unfoldable pub unmap : Addr → Addr
unmap (v4 n) = v4 n
unmap (v6 n) = if n / 2 ^ 32 == 0xffff then v4 (n % 2 ^ 32) else v6 n

starts_with : Bytes → Bytes → Bool
starts_with [] ip = true
starts_with (b ∷ bs) [] = false
starts_with (b ∷ bs) (c ∷ ip) = b == c && starts_with bs ip

drop : ℕ → Bytes → Bytes
drop zero ip = ip
drop (suc n) [] = []
drop (suc n) (b ∷ ip) = drop n ip

-- The first twelve bytes of an IPv4 address in sixteen bytes.
abbrev v4_in_v6_prefix : Bytes
v4_in_v6_prefix = 0 ∷ 0 ∷ 0 ∷ 0 ∷ 0 ∷ 0 ∷ 0 ∷ 0 ∷ 0 ∷ 0 ∷ 0xff ∷ 0xff ∷ []

-- `net.IP.To4`
unfoldable pub to4 : Bytes → Option Bytes
unfolding starts_with drop
to4 ip =
    if length ip == 4
    then some ip
    else if length ip == 16 && starts_with v4_in_v6_prefix ip
    then some (drop 12 ip)
    else none

unfoldable pub is_unspecified : Addr → Bool
is_unspecified (v4 n) = n == 0
is_unspecified (v6 n) = n == 0

unfoldable pub is_loopback : Addr → Bool
is_loopback (v4 n) = n / 2 ^ 24 == 127
is_loopback (v6 n) = n == 1

unfoldable pub is_multicast : Addr → Bool
is_multicast (v4 n) = n / 2 ^ 28 == 14
is_multicast (v6 n) = n / 2 ^ 120 == 0xff

unfoldable pub is_link_local_unicast : Addr → Bool
is_link_local_unicast (v4 n) = n / 2 ^ 16 == 169 * 256 + 254
is_link_local_unicast (v6 n) = n / 2 ^ 118 == 0xfe80 / 2 ^ 6

unfoldable pub is_private : Addr → Bool
is_private (v4 n) = n / 2 ^ 24 == 10 || n / 2 ^ 20 == 172 * 16 + 1 || n / 2 ^ 16 == 192 * 256 + 168
is_private (v6 n) = n / 2 ^ 121 == 0xfc / 2

is_broadcast : Addr → Bool
is_broadcast (v4 n) = n == 2 ^ 32 - 1
is_broadcast (v6 n) = false

unfoldable pub is_global_unicast : Addr → Bool
unfolding is_broadcast
is_global_unicast a =
    not (is_unspecified a)
    && not (is_broadcast a)
    && not (is_loopback a)
    && not (is_multicast a)
    && not (is_link_local_unicast a)

-- `netip.Prefix`: the network's number and the bits behind its prefix.
pub data Prefix : Type 0 where
  prefix4 prefix6 : ℕ → ℕ → Prefix

abbrev pub quad : ℕ → ℕ → ℕ → ℕ → ℕ
quad a b c d = a * 2 ^ 24 + b * 2 ^ 16 + c * 2 ^ 8 + d

unfoldable pub prefix_contains : Prefix → Addr → Bool
prefix_contains (prefix4 net bits) (v4 n) = n / 2 ^ bits == net / 2 ^ bits
prefix_contains (prefix4 net bits) (v6 n) = false
prefix_contains (prefix6 net bits) (v4 n) = false
prefix_contains (prefix6 net bits) (v6 n) = n / 2 ^ bits == net / 2 ^ bits

unfoldable pub any_contains : List Prefix → Addr → Bool
any_contains [] a = false
any_contains (p ∷ ps) a = prefix_contains p a || any_contains ps a

length-drop : (n : ℕ) (ip : Bytes) → length (drop n ip) ≡ length ip - n
unfolding drop
length-drop zero ip = ground arith
length-drop (suc n) [] = ground arith
length-drop (suc n) (b ∷ ip) = length-drop n ip ∙ ground arith

-- What `To4` gives has four bytes.
pub to4-length : (ip quad : Bytes) → to4 ip ≡ some quad → length quad ≡ 4
unfolding to4
to4-length ip quad h =
    let dropped : length (drop 12 ip) ≡ length ip - 12 = length-drop 12 ip in ground arith

pub to4-four : (ip : Bytes) → length ip ≡ 4 → to4 ip ≡ some ip
unfolding to4
to4-four ip h = ground arith

pub addr_from_slice-four :
    (ip : Bytes) → length ip ≡ 4 → (n : ℕ) × (addr_from_slice ip ≡ some (v4 n))
unfolding addr_from_slice
addr_from_slice-four ip h = (value_from 0 ip, ground arith)
