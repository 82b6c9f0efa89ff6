-- ===== src/Config/Server/Start.antt =====
-- cmd/termcall-server/main.go: the configurations that `run` makes of a server's, and what the
-- services check of them.
use termcall.Prelude.{
  ℕ, zero, suc, ◌%◌, ◌^◌, ◌≤◌, ◌<◌, ◌≡◌, refl, sym, ap, ◌∙◌, Bool, true, false, not, ◌&&◌, ◌||◌,
  List, [], arith, ℤ, pos, negsuc, pos_part, neg_part, ltb_ℤ, ◌≤ℤ◌, ok, >>=-eq-ok, Text, text_eq,
}
use termcall.Text.{codes}
use termcall.Net.Policy.{is_public_ipv4}
use termcall.Net.Policy.Laws.{is_public_ipv4-peer_allowed}
use termcall.Turn.Server.{Config, minute, hour, validate_config, valid_shared_secret}
use termcall.Signaling.Connections.{ServerConfig, check_config}
use termcall.Config.Values.{Float64, less, more, Parsers}
use termcall.Config.Server.{
  ServerInput, Server, validate_port, valid_turn_secret, validate_origin_list, make_server,
  check_addresses, check_limits, validate_server,
}

unfoldable pub turn_config : Server → Config
turn_config s = record {
  public_ip = s.public_ip;
  port = s.turn_port;
  realm = codes "termcall";
  shared_secret = s.turn_shared_secret;
  credential_ttl = s.turn_credential_ttl;
  min_relay_port = s.relay_port_min;
  max_relay_port = s.relay_port_max;
  per_user_quota = s.turn_per_user_quota;
  total_quota = s.turn_total_quota;
  allow_private_peers = s.allow_private_peers;
}

is_zero : Float64 → Bool
is_zero (Float64.finite m k) = not (ltb_ℤ m (pos 0)) && not (ltb_ℤ (pos 0) m)
is_zero f = false

-- The TURN server is the issuer; `MessageRate <= 0` is tested.
unfoldable pub signaling_config : Server → ServerConfig
unfolding is_zero
signaling_config s = record {
  has_issuer = true;
  max_room_size = s.max_room_size;
  max_rooms = s.max_rooms;
  max_connections = s.max_connections;
  max_connections_per_ip = s.max_connections_per_ip;
  rate_positive = not (less s.message_rate 0 || is_zero s.message_rate);
  message_burst = s.message_burst;
}

-- What the checks on the limits leave.
record Limits (i : ServerInput) : Type 0 where
  room_size : pos 2 ≤ℤ i.max_room_size
  secret : valid_turn_secret i.turn_secret ≡ true
  lifetime : (ltb_ℤ i.credential_ttl minute || ltb_ℤ hour i.credential_ttl) ≡ false
  user_quota : pos 1 ≤ℤ i.per_user_quota
  total_quota_ok : i.per_user_quota ≤ℤ i.total_quota
  ip_connections : pos 1 ≤ℤ i.max_connections
  connections : i.max_connections ≤ℤ i.max_total_connections
  rooms : pos 1 ≤ℤ i.max_rooms
  rooms_covered : i.max_rooms ≤ℤ i.max_total_connections
  rate : less i.message_rate 1 ≡ false
  burst : pos 1 ≤ℤ i.message_burst

check_limits-Limits :
    (parsers : Parsers) (i : ServerInput) → check_limits parsers i ≡ ok tt → Limits i
unfolding check_limits
check_limits-Limits parsers i h = ground arith

port-in-range :
    (port : ℤ)
    → validate_port port ≡ ok tt
    → (1 ≤ pos_part port) × (pos_part port % 2 ^ 16 ≡ pos_part port) × (neg_part port ≡ 0)
unfolding validate_port
port-in-range (pos n) h = ground arith
port-in-range (negsuc n) h = absurd (ground arith)

-- What the checks on addresses and ports leave.
record Addresses (parsers : Parsers) (i : ServerInput) : Type 0 where
  public : is_public_ipv4 (parsers.parse_ip i.public_ip) ≡ true
  turn : validate_port i.turn_port ≡ ok tt
  relay_min : validate_port i.relay_min ≡ ok tt
  relay_max : validate_port i.relay_max ≡ ok tt
  relay_range : i.relay_min ≤ℤ i.relay_max

check_addresses-Addresses :
    (parsers : Parsers) (i : ServerInput) → check_addresses parsers i ≡ ok tt → Addresses parsers i
unfolding check_addresses
check_addresses-Addresses parsers i h = ground arith

valid_turn_secret-valid_shared_secret : (s : Text) → valid_turn_secret s ≡ valid_shared_secret s
unfolding valid_turn_secret valid_shared_secret
valid_turn_secret-valid_shared_secret s = refl

power-positive : (k : ℕ) → 0 < 2 ^ k
power-positive zero = omega arith
power-positive (suc k) = let below = power-positive k in omega arith

rate-positive : (f : Float64) → less f 1 ≡ false → not (less f 0 || is_zero f) ≡ true
unfolding less is_zero
rate-positive Float64.nan h = refl
rate-positive Float64.plus_infinity h = refl
rate-positive Float64.minus_infinity h = cc
rate-positive (Float64.finite m k) h = let positive : 0 < 2 ^ k = power-positive k in ground arith

module _ (parsers : Parsers) (i : ServerInput) (origins : List Text) where
  accepted : Server
  accepted = make_server parsers i origins

  signaling-starts : Limits i → check_config (signaling_config accepted) ≡ ok tt
  unfolding check_config signaling_config accepted make_server
  signaling-starts l =
      let positive : (signaling_config accepted).rate_positive ≡ true =
        rate-positive i.message_rate l.rate in
      ground arith

  turn-starts : Limits i → Addresses parsers i → validate_config (turn_config accepted) ≡ ok tt
  unfolding validate_config turn_config accepted make_server text_eq
  turn-starts l a =
      let (low, low_port, low_sign) = port-in-range i.relay_min a.relay_min in
      let (high, high_port, high_sign) = port-in-range i.relay_max a.relay_max in
      let (turn, turn_port, turn_sign) = port-in-range i.turn_port a.turn in
      let (four, found, size, allowed) =
        is_public_ipv4-peer_allowed (parsers.parse_ip i.public_ip) a.public in
      let secret : valid_shared_secret i.turn_secret ≡ true =
        sym (valid_turn_secret-valid_shared_secret i.turn_secret) ∙ l.secret in
      let named : text_eq (codes "termcall") [] ≡ false = refl in ground arith

-- A configuration that `validateServer` returns is one that both services start with.
pub validate_server-starts :
    (parsers : Parsers) (i : ServerInput) (s : Server)
    → validate_server parsers i ≡ ok s
    → (validate_config (turn_config s) ≡ ok tt) × (check_config (signaling_config s) ≡ ok tt)
unfolding validate_server make_server accepted
validate_server-starts parsers i s h =
    let (_, addresses, h1) = >>=-eq-ok (check_addresses parsers i) _ h in
    let (_, limits, h2) = >>=-eq-ok (check_limits parsers i) _ h1 in
    let (origins, _, h3) = >>=-eq-ok (validate_origin_list parsers i.allowed_origins) _ h2 in
    let a = check_addresses-Addresses parsers i addresses in
    let l = check_limits-Limits parsers i limits in
    let made : make_server parsers i origins ≡ s = cc in
    (
      ap (λ t. validate_config (turn_config t)) (sym made) ∙ turn-starts parsers i origins l a,
      ap (λ t. check_config (signaling_config t)) (sym made) ∙ signaling-starts parsers i origins l,
    )

-- The settings with NaN for the message rate.
abbrev pub with_nan_rate : ServerInput → ServerInput
with_nan_rate i = record i { message_rate = Float64.nan }

limits_nan :
    (parsers : Parsers) (i : ServerInput)
    → check_limits parsers i ≡ ok tt
    → check_limits parsers (with_nan_rate i) ≡ ok tt
unfolding check_limits less more
limits_nan parsers i h = ground arith

accept :
    (parsers : Parsers) (i : ServerInput) (origins : List Text)
    → check_addresses parsers i ≡ ok tt
    → check_limits parsers i ≡ ok tt
    → validate_origin_list parsers i.allowed_origins ≡ ok origins
    → validate_server parsers i ≡ ok (make_server parsers i origins)
unfolding validate_server
accept parsers i origins ha hl ho = rw (ha, hl, ho)

-- Settings that are accepted are accepted also with NaN for the message rate, and give the same
-- configuration with NaN in it.
pub validate_server-nan_rate :
    (parsers : Parsers) (i : ServerInput) (s : Server)
    → validate_server parsers i ≡ ok s
    → validate_server parsers (with_nan_rate i) ≡ ok (record s { message_rate = Float64.nan })
unfolding validate_server make_server check_addresses
validate_server-nan_rate parsers i s h =
    let (_, addresses, h1) = >>=-eq-ok (check_addresses parsers i) _ h in
    let (_, limits, h2) = >>=-eq-ok (check_limits parsers i) _ h1 in
    let (origins, listed, h3) = >>=-eq-ok (validate_origin_list parsers i.allowed_origins) _ h2 in
    let made : make_server parsers i origins ≡ s = cc in
    accept parsers (with_nan_rate i) origins addresses (limits_nan parsers i limits) listed
    ∙ ap (λ (t : Server). ok (record t { message_rate = Float64.nan })) made
