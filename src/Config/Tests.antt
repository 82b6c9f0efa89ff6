-- ===== src/Config/Tests.antt =====
-- A configuration of the environment, and one with a file.
use termcall.Prelude.{
  ◌≡◌, refl, ◌↔◌, true, false, List, [], ◌∷◌, Option, none, some, arith, pos, ok, Text, text_eq,
  lookup, if◌then◌else◌, All,
}
use termcall.Text.{codes}
use termcall.Text.Lines.{terminated}
use termcall.Protocol.Validate.{is_space, trim_space, trim_right, trim_left}
use termcall.Protocol.Validate.Samples.{ascii}
use termcall.Turn.Server.{validate_config}
use termcall.Signaling.Connections.{check_config}
use termcall.Net.Policy.{
  peer_allowed, connectable, remote_candidate_allowed, is_public_ipv4, is_public, public_slice,
}
use termcall.Net.Policy.Laws.{
  IsPublicV4, peer_allowed-IsPublicV4, remote_candidate_allowed-peer_allowed,
}
use termcall.Config.Values.{
  Parsers, finite, nan, env_value, env_string, less, more, split_comma_list,
}
use termcall.Config.EnvFile.{parse_env, valid_env_key, continues, parse_lines, parse_line}
use termcall.Config.EnvFile.Laws.{Words, Quotable, quoted_lines, bound_after, parse_env-quoted}
use termcall.Config.Server.{
  ServerInput, Server, validate_server, begins, make_server, valid_origin, valid_turn_secret,
  validate_origin_list, validate_port,
}
use termcall.Config.Server.Start.{
  turn_config, signaling_config, with_nan_rate, validate_server-nan_rate,
}
use termcall.Config.Load.{contents, load_server, load_server-starts, parse_server, env_settings}
use termcall.Text.Split.{split}
use termcall.Net.Address.{
  quad, unmap, to4, addr_from_slice, any_contains, is_global_unicast, is_link_local_unicast,
  is_loopback, is_multicast, is_private, is_unspecified, prefix_contains,
}
use termcall.Text.Decimal.{atoi, format_uint, itoa}
use termcall.Text.Utf8.{distinct_bytes, encode_rune, holds, utf8}

-- Two addresses, and nothing else.
abbrev parsers : Parsers
parsers = record {
  parse_ip = λ t.
      if text_eq t (codes "127.0.0.1")
      then 127 ∷ 0 ∷ 0 ∷ 1 ∷ []
      else if text_eq t (codes "8.8.4.4")
      then 8 ∷ 8 ∷ 4 ∷ 4 ∷ []
      else [];
  parse_url = λ t. none;
  valid_pattern = λ t. true;
  parse_duration = λ t. none;
  parse_float = λ t. none;
  unquote = λ t. none;
}

abbrev secret : Text
secret = codes "0123456789abcdef0123456789abcdef"

abbrev environment : Text → Option Text
environment key =
    if text_eq key (codes "TERMCALL_PUBLIC_IP")
    then some (codes "8.8.4.4")
    else if text_eq key (codes "TERMCALL_TURN_SECRET")
    then some secret
    else none

abbrev given : ServerInput
given = record {
  ws_bind = codes "127.0.0.1";
  ws_port = pos 8080;
  public_ip = codes "8.8.4.4";
  turn_port = pos 3478;
  relay_min = pos 49152;
  relay_max = pos 65535;
  max_room_size = pos 5;
  turn_secret = secret;
  credential_ttl = pos 600000000000;
  per_user_quota = pos 2;
  total_quota = pos 100;
  allow_private_peers = false;
  allowed_origins = codes "a.org, b.org";
  max_connections = pos 20;
  max_total_connections = pos 1000;
  max_rooms = pos 200;
  message_rate = finite (pos 20) 0;
  message_burst = pos 40;
}

abbrev made : Server
made = record {
  http_address = codes "127.0.0.1:8080";
  public_ip = 8 ∷ 8 ∷ 4 ∷ 4 ∷ [];
  turn_port = 3478;
  relay_port_min = 49152;
  relay_port_max = 65535;
  max_room_size = pos 5;
  turn_shared_secret = secret;
  turn_credential_ttl = pos 600000000000;
  turn_per_user_quota = pos 2;
  turn_total_quota = pos 100;
  allow_private_peers = false;
  allowed_origins = codes "a.org" ∷ codes "b.org" ∷ [];
  max_rooms = pos 200;
  max_connections = pos 1000;
  max_connections_per_ip = pos 20;
  message_rate = finite (pos 20) 0;
  message_burst = pos 40;
}

validated : validate_server parsers given ≡ ok made
unfolding split trim_space trim_right trim_left is_space text_eq validate_server is_public_ipv4 to4
    begins make_server valid_origin valid_turn_secret validate_origin_list validate_port less more
    split_comma_list addr_from_slice any_contains is_global_unicast is_link_local_unicast
    is_loopback is_multicast is_private is_unspecified prefix_contains is_public public_slice atoi
    format_uint itoa distinct_bytes encode_rune holds utf8
validated = refl

loaded :
    load_server parsers
      (λ args settings. some (record settings { allowed_origins = codes "a.org, b.org" }))
      ascii
      environment
      (contents (codes "# none"))
      []
    ≡ ok made
unfolding load_server parse_env parse_lines split parse_line trim_space trim_right trim_left
    is_space parse_server env_settings env_value text_eq lookup validate_server env_string
    is_public_ipv4 to4 begins make_server valid_origin valid_turn_secret validate_origin_list
    validate_port less more split_comma_list addr_from_slice any_contains is_global_unicast
    is_link_local_unicast is_loopback is_multicast is_private is_unspecified prefix_contains
    is_public public_slice atoi format_uint itoa distinct_bytes encode_rune holds utf8
loaded = refl

load_server-starts_example :
    (validate_config (turn_config made) ≡ ok tt) × (check_config (signaling_config made) ≡ ok tt)
load_server-starts_example =
    load_server-starts parsers
      (λ args settings. some (record settings { allowed_origins = codes "a.org, b.org" })) ascii
      environment (contents (codes "# none")) [] made loaded

validate_server-nan_rate_example :
    validate_server parsers (with_nan_rate given) ≡ ok (record made { message_rate = nan })
validate_server-nan_rate_example = validate_server-nan_rate parsers given made validated

peer_allowed-IsPublicV4_example :
    (peer_allowed (8 ∷ 8 ∷ 4 ∷ 4 ∷ []) false ≡ true) ↔ IsPublicV4 (quad 8 8 4 4)
peer_allowed-IsPublicV4_example = peer_allowed-IsPublicV4 8 8 4 4

candidate : remote_candidate_allowed (10 ∷ 0 ∷ 0 ∷ 1 ∷ []) true ≡ true
unfolding remote_candidate_allowed addr_from_slice connectable is_global_unicast is_unspecified
    unmap is_loopback is_multicast is_link_local_unicast is_private
candidate = refl

remote_candidate_allowed-peer_allowed_example : peer_allowed (10 ∷ 0 ∷ 0 ∷ 1 ∷ []) true ≡ true
remote_candidate_allowed-peer_allowed_example =
    remote_candidate_allowed-peer_allowed (10 ∷ 0 ∷ 0 ∷ 1 ∷ []) true candidate

ascii-Words : Words ascii
unfolding is_space
ascii-Words = record { word = λ c h. (ground arith, ground arith, ground arith) }

abbrev entries : List (Text × Text)
entries = (codes "key", codes "a b") ∷ (codes "_k2", codes "x=#") ∷ (codes "key", []) ∷ []

entries-Quotable : All (Quotable ascii) entries
unfolding valid_env_key continues
entries-Quotable = ground arith

parse_env-quoted_example :
    parse_env parsers ascii (terminated (quoted_lines entries)) ≡ ok (bound_after [] entries)
parse_env-quoted_example = parse_env-quoted parsers ascii ascii-Words entries entries-Quotable
