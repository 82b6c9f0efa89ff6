-- ===== src/Config/Server.antt =====
-- internal/config/server.go: `validateServer`.
pub mod Start
use Prim.Native.String.{String}
use termcall.Prelude.{
  ℕ, ◌*◌, ◌%◌, ◌^◌, Bool, true, false, not, ◌&&◌, ◌||◌, List, [], ◌∷◌, ◌++◌, Option, none, some,
  ltb, leb, ◌==◌, if◌then◌else◌, ℤ, pos, pos_part, ltb_ℤ, Result, ok, err, ◌>>=◌, ◌>>◌, guard,
  length, Text, text_eq,
}
use termcall.Text.{Bytes, codes}
use termcall.Text.Decimal.{itoa}
use termcall.Text.Utf8.{utf8, distinct_bytes}
use termcall.Protocol.Message.{byte_length}
use termcall.Net.Address.{to4}
use termcall.Net.Policy.{is_public_ipv4}
use termcall.Net.Url.{Url}
use termcall.Turn.Server.{minute, hour}
use termcall.Config.Values.{Float64, less, more, Parsers, split_comma_list}

abbrev pub minimum_turn_secret_bytes : ℕ
minimum_turn_secret_bytes = 32

pub record ServerInput : Type 0 where
  pub ws_bind : Text
  pub ws_port : ℤ
  pub public_ip : Text
  pub turn_port : ℤ
  pub relay_min : ℤ
  pub relay_max : ℤ
  pub max_room_size : ℤ
  pub turn_secret : Text
  pub credential_ttl : ℤ
  pub per_user_quota : ℤ
  pub total_quota : ℤ
  pub allow_private_peers : Bool
  pub allowed_origins : Text
  pub max_connections : ℤ
  pub max_total_connections : ℤ
  pub max_rooms : ℤ
  pub message_rate : Float64
  pub message_burst : ℤ

pub record Server : Type 0 where
  pub http_address : Text
  pub public_ip : Bytes
  pub turn_port : ℕ
  pub relay_port_min : ℕ
  pub relay_port_max : ℕ
  pub max_room_size : ℤ
  pub turn_shared_secret : Text
  pub turn_credential_ttl : ℤ
  pub turn_per_user_quota : ℤ
  pub turn_total_quota : ℤ
  pub allow_private_peers : Bool
  pub allowed_origins : List Text
  pub max_rooms : ℤ
  pub max_connections : ℤ
  pub max_connections_per_ip : ℤ
  pub message_rate : Float64
  pub message_burst : ℤ

pub data ServerError : Type 0 where
  bad_bind bad_public_ip bad_port bad_relay_range bad_room_size bad_secret bad_lifetime
        bad_user_quota bad_total_quota bad_ip_connections bad_connections bad_rooms bad_rate
        bad_burst bad_origin bad_value bad_flags bad_file :
      ServerError

unfoldable pub validate_port : ℤ → Result ServerError (Unit {0})
validate_port port = guard (not (ltb_ℤ port (pos 1) || ltb_ℤ (pos 65535) port)) bad_port

unfoldable pub valid_turn_secret : Text → Bool
valid_turn_secret secret =
    if ltb (byte_length secret) minimum_turn_secret_bytes || text_eq secret (codes "termcall")
    then false
    else leb 8 (distinct_bytes (utf8 secret))

contains_any : Text → Text → Bool
contains_any cs [] = false
contains_any cs (c ∷ s) = has c cs || contains_any cs s
  where
    has : ℕ → Text → Bool
    has c [] = false
    has c (d ∷ t) = c == d || has c t

unfoldable pub begins : Text → Text → Bool
begins [] s = true
begins (c ∷ p) [] = false
begins (c ∷ p) (d ∷ s) = c == d && begins p s

contains_text : Text → Text → Bool
contains_text p [] = begins p []
contains_text p (c ∷ s) = begins p (c ∷ s) || contains_text p s

module _ (parsers : Parsers) where
  -- An origin with a scheme is a bare http or https origin.
  origin_url : Option Url → Bool
  origin_url none = false
  origin_url (some url) =
      (text_eq url.scheme (codes "http") || text_eq url.scheme (codes "https"))
      && not (text_eq url.host [])
      && text_eq url.path []
      && text_eq url.raw_query []
      && text_eq url.fragment []

  unfoldable pub valid_origin : Text → Bool
  unfolding contains_any contains_text origin_url begins
  valid_origin origin =
      if text_eq origin (codes "*")
        || ltb 256 (byte_length origin)
        || contains_any (b' ' ∷ 9 ∷ 13 ∷ 10 ∷ 0 ∷ []) origin
      then false
      else if contains_text (codes "://") origin
      then origin_url (parsers.parse_url origin)
      else parsers.valid_pattern origin

  all_valid : List Text → Bool
  all_valid [] = true
  all_valid (origin ∷ origins) = valid_origin origin && all_valid origins

  unfoldable pub validate_origin_list : Text → Result ServerError (List Text)
  unfolding all_valid
  validate_origin_list value = do
    guard (all_valid (split_comma_list value)) bad_origin
    ok (split_comma_list value)

  -- `net.JoinHostPort`
  join_host_port : Text → Text → Text
  join_host_port host port =
      if contains_text (codes ":") host
      then codes "[" ++ (host ++ (codes "]:" ++ port))
      else host ++ (codes ":" ++ port)

  public_bytes : Option Bytes → Bytes
  public_bytes none = []
  public_bytes (some quad) = quad

  -- The result; the ports are cut to 16 bits.
  unfoldable pub make_server : ServerInput → List Text → Server
  unfolding join_host_port public_bytes contains_text begins
  make_server i origins = record {
    http_address = join_host_port i.ws_bind (itoa i.ws_port);
    public_ip = public_bytes (to4 (parsers.parse_ip i.public_ip));
    turn_port = pos_part i.turn_port % 2 ^ 16;
    relay_port_min = pos_part i.relay_min % 2 ^ 16;
    relay_port_max = pos_part i.relay_max % 2 ^ 16;
    max_room_size = i.max_room_size;
    turn_shared_secret = i.turn_secret;
    turn_credential_ttl = i.credential_ttl;
    turn_per_user_quota = i.per_user_quota;
    turn_total_quota = i.total_quota;
    allow_private_peers = i.allow_private_peers;
    allowed_origins = origins;
    max_rooms = i.max_rooms;
    max_connections = i.max_total_connections;
    max_connections_per_ip = i.max_connections;
    message_rate = i.message_rate;
    message_burst = i.message_burst;
  }

  -- The checks on addresses and ports, and those on the limits.
  check_addresses : ServerInput → Result ServerError (Unit {0})
  check_addresses i = do
    guard (not (length (parsers.parse_ip i.ws_bind) == 0)) bad_bind
    guard (is_public_ipv4 (parsers.parse_ip i.public_ip)) bad_public_ip
    validate_port i.ws_port
    validate_port i.turn_port
    validate_port i.relay_min
    validate_port i.relay_max
    guard (not (ltb_ℤ i.relay_max i.relay_min)) bad_relay_range

  check_limits : ServerInput → Result ServerError (Unit {0})
  check_limits i = do
    guard (not (ltb_ℤ i.max_room_size (pos 2) || ltb_ℤ (pos 16) i.max_room_size)) bad_room_size
    guard (valid_turn_secret i.turn_secret) bad_secret
    guard (not (ltb_ℤ i.credential_ttl minute || ltb_ℤ hour i.credential_ttl)) bad_lifetime
    guard (not (ltb_ℤ i.per_user_quota (pos 1) || ltb_ℤ (pos 10) i.per_user_quota)) bad_user_quota
    guard (not (ltb_ℤ i.total_quota i.per_user_quota || ltb_ℤ (pos 10000) i.total_quota))
        bad_total_quota
    guard (not (ltb_ℤ i.max_connections (pos 1) || ltb_ℤ (pos 1000) i.max_connections))
        bad_ip_connections
    guard
        (not (
          ltb_ℤ i.max_total_connections i.max_connections
          || ltb_ℤ (pos 10000) i.max_total_connections))
        bad_connections
    guard (not (ltb_ℤ i.max_rooms (pos 1) || ltb_ℤ i.max_total_connections i.max_rooms)) bad_rooms
    guard (not (less i.message_rate 1 || more i.message_rate 1000)) bad_rate
    guard (not (ltb_ℤ i.message_burst (pos 1) || ltb_ℤ (pos 2000) i.message_burst)) bad_burst

  unfoldable pub validate_server : ServerInput → Result ServerError Server
  unfolding check_addresses check_limits
  validate_server i = do
    check_addresses i
    check_limits i
    origins ← validate_origin_list i.allowed_origins
    ok (make_server i origins)
