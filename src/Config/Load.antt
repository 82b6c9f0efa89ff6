-- ===== src/Config/Load.antt =====
-- internal/config/server.go: `LoadServer`, `readEnvFile` and `ParseServer`.
--
-- Go's `flag` package is a parameter: the settings after the arguments, whose defaults are those before
-- them, or none for an unknown flag, a bad value or an argument that is no flag.
use termcall.Prelude.{
  ◌*◌, false, List, [], Option, none, some, ℤ, pos, Result, ok, err, ◌>>=◌, or_fail, Text, lookup,
  ◌≡◌, >>=-eq-ok,
}
use termcall.Text.{codes}
use termcall.Text.Decimal.{atoi}
use termcall.Protocol.Validate.{Runes}
use termcall.Turn.Server.{validate_config, second}
use termcall.Signaling.Connections.{check_config}
use termcall.Config.Values.{finite, Parsers, Lookup, env_string, env_value, parse_bool}
use termcall.Config.EnvFile.{Env, EnvError, parse_env}
use termcall.Config.Server.{
  ServerInput, Server, ServerError, bad_value, bad_flags, bad_file, validate_server,
}
use termcall.Config.Server.Start.{turn_config, signaling_config, validate_server-starts}

-- `-flag value` on top of the settings.
abbrev pub Flags : Type 0
Flags = List Text → ServerInput → Option ServerInput

pub data EnvFile : Type 0 where
  missing unreadable : EnvFile
  contents : Text → EnvFile

or_bad_file : Result EnvError Env → Result ServerError Env
or_bad_file (err e) = err bad_file
or_bad_file (ok values) = ok values

module _ (parsers : Parsers) where
  env_int : Lookup → Text → ℤ → Result ServerError ℤ
  env_int = env_value bad_value atoi

  -- The settings of the environment, in the order in which they are read.
  unfoldable pub env_settings : Lookup → Result ServerError ServerInput
  unfolding env_int
  env_settings values = do
    ws_port ← env_int values (codes "TERMCALL_WS_PORT") (pos 8080)
    turn_port ← env_int values (codes "TERMCALL_TURN_PORT") (pos 3478)
    relay_min ← env_int values (codes "TERMCALL_RELAY_PORT_MIN") (pos 49152)
    relay_max ← env_int values (codes "TERMCALL_RELAY_PORT_MAX") (pos 65535)
    max_room_size ← env_int values (codes "TERMCALL_MAX_ROOM_SIZE") (pos 5)
    credential_ttl ←
        env_value bad_value parsers.parse_duration values (codes "TERMCALL_TURN_CREDENTIAL_TTL")
          (pos (600 * second))
    per_user_quota ← env_int values (codes "TERMCALL_TURN_PER_USER_QUOTA") (pos 2)
    total_quota ← env_int values (codes "TERMCALL_TURN_TOTAL_QUOTA") (pos 100)
    allow_private_peers ←
        env_value bad_value parse_bool values (codes "TERMCALL_TURN_ALLOW_PRIVATE_PEERS") false
    max_connections ← env_int values (codes "TERMCALL_MAX_CONNECTIONS_PER_IP") (pos 20)
    max_total_connections ← env_int values (codes "TERMCALL_MAX_CONNECTIONS") (pos 1000)
    max_rooms ← env_int values (codes "TERMCALL_MAX_ROOMS") (pos 200)
    message_rate ←
        env_value bad_value parsers.parse_float values (codes "TERMCALL_MESSAGE_RATE")
          (finite (pos 20) 0)
    message_burst ← env_int values (codes "TERMCALL_MESSAGE_BURST") (pos 40)
    ok (record {
      ws_bind = env_string values (codes "TERMCALL_WS_BIND") (codes "127.0.0.1");
      ws_port = ws_port;
      public_ip = env_string values (codes "TERMCALL_PUBLIC_IP") [];
      turn_port = turn_port;
      relay_min = relay_min;
      relay_max = relay_max;
      max_room_size = max_room_size;
      turn_secret = env_string values (codes "TERMCALL_TURN_SECRET") [];
      credential_ttl = credential_ttl;
      per_user_quota = per_user_quota;
      total_quota = total_quota;
      allow_private_peers = allow_private_peers;
      allowed_origins = env_string values (codes "TERMCALL_ALLOWED_ORIGINS") [];
      max_connections = max_connections;
      max_total_connections = max_total_connections;
      max_rooms = max_rooms;
      message_rate = message_rate;
      message_burst = message_burst;
    })

  module _ (flags : Flags) where
    unfoldable pub parse_server : List Text → Lookup → Result ServerError Server
    parse_server args values = do
      settings ← env_settings values
      parsed ← or_fail bad_flags (flags args settings)
      validate_server parsers parsed

    module _ (u : Runes) where
      read_env_file : EnvFile → Result ServerError Env
      read_env_file missing = ok []
      read_env_file unreadable = err bad_file
      read_env_file (contents text) = or_bad_file (parse_env parsers u text)

      -- The process's environment stands before the file's.
      over : Lookup → Env → Lookup
      over environment values key = elim (environment key) [
        | none ↦ lookup key values
        | some value ↦ some value
      ]

      unfoldable pub load_server : Lookup → EnvFile → List Text → Result ServerError Server
      unfolding read_env_file over or_bad_file
      load_server environment file args = do
        values ← read_env_file file
        parse_server args (over environment values)

      -- A configuration that is loaded, from whatever environment, file and flags, is one that the
      -- checks of the TURN server and of the signaling server accept, as the program hands it to
      -- them.
      pub load_server-starts :
          (environment : Lookup) (file : EnvFile) (args : List Text) (s : Server)
          → load_server environment file args ≡ ok s
          → (validate_config (turn_config s) ≡ ok tt) × (check_config (signaling_config s) ≡ ok tt)
      unfolding load_server parse_server
      load_server-starts environment file args s h =
          let (values, _, parse) = >>=-eq-ok (read_env_file file) _ h in
          let (settings, _, flagged) = >>=-eq-ok (env_settings (over environment values)) _ parse in
          let (parsed, _, accepted) =
            >>=-eq-ok (or_fail bad_flags (flags args settings)) _ flagged in
          validate_server-starts parsers parsed s accepted
