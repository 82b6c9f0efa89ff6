-- ===== src/Signaling/Connections.antt =====
-- internal/signaling/handler.go: `acquireConnection`, `releaseConnection`, and the checks of
-- `NewServer`. Both run under a lock, so each is one step.
pub mod Laws
mod Tests
use termcall.Prelude.{
  ℕ, ◌+◌, ◌-◌, Bool, true, false, not, ◌||◌, List, [], ◌∷◌, ltb, leb, if◌then◌else◌, ℤ, pos, ltb_ℤ,
  Result, ok, err, ◌>>=◌, ◌>>◌, guard, Text,
}
use termcall.Prelude.Counts.{Counts, count, increment, decrement}

-- The limits of `ServerConfig`, with the rate in whole messages; the issuer is there or not.
pub record ServerConfig : Type 0 where
  pub has_issuer : Bool
  pub max_room_size : ℤ
  pub max_rooms : ℤ
  pub max_connections : ℤ
  pub max_connections_per_ip : ℤ
  pub rate_positive : Bool
  pub message_burst : ℤ

pub data ConfigError : Type 0 where
  no_issuer small_rooms no_capacity uncovered_limits no_connections no_rate : ConfigError

unfoldable pub check_config : ServerConfig → Result ConfigError (Unit {0})
check_config c = do
  guard c.has_issuer no_issuer
  guard (not (ltb_ℤ c.max_room_size (pos 2))) small_rooms
  guard (not (ltb_ℤ c.max_rooms (pos 1) || ltb_ℤ c.max_connections (pos 1))) no_capacity
  guard
      (not
        (ltb_ℤ c.max_connections c.max_connections_per_ip || ltb_ℤ c.max_connections c.max_rooms))
      uncovered_limits
  guard (not (ltb_ℤ c.max_connections_per_ip (pos 1))) no_connections
  guard (not (not c.rate_positive || ltb_ℤ c.message_burst (pos 1))) no_rate

pub record Connections : Type 0 where
  pub max_connections : ℕ
  pub max_connections_per_ip : ℕ
  pub connections : Counts
  pub total_connections : ℕ

unfoldable pub acquire_connection : Connections → Text → Bool × Connections
acquire_connection s address =
    if leb s.max_connections s.total_connections
      || leb s.max_connections_per_ip (count address s.connections)
    then (false, s)
    else (
      true,
      record s {
        connections = increment address s.connections;
        total_connections = s.total_connections + 1;
      },
    )

unfoldable pub release_connection : Connections → Text → Connections
release_connection s address = record s {
  connections = decrement address s.connections;
  total_connections =
      if ltb 0 s.total_connections then s.total_connections - 1 else s.total_connections;
}
