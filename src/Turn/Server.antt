-- ===== src/Turn/Server.antt =====
-- internal/turn/server.go: `validateConfig`, `turnURLs` and the credential issuer.
--
-- A duration is its nanoseconds. `sign` stands for HMAC-SHA1 under the secret, in base64.
use termcall.Prelude.{
  ℕ, ◌+◌, ◌*◌, ◌/◌, Bool, true, false, not, ◌&&◌, ◌||◌, List, [], ◌∷◌, ◌++◌, Option, none, some,
  ltb, leb, ◌==◌, if◌then◌else◌, ℤ, pos, ltb_ℤ, Result, ok, ◌>>◌, guard, Text, text_eq,
}
use termcall.Text.{Bytes, codes}
use termcall.Text.Decimal.{format_uint, itoa}
use termcall.Text.Utf8.{utf8, distinct_bytes}
use termcall.Net.Address.{to4}
use termcall.Net.Policy.{peer_allowed}
use termcall.Protocol.Message.{byte_length}
use termcall.Protocol.Validate.{Runes, ProtocolError, validate_peer_id}
use termcall.Protocol.Envelope.{IceServer}

abbrev pub second : ℕ
second = 1000000000

abbrev pub minute : ℤ
minute = pos (60 * second)

abbrev pub hour : ℤ
hour = pos (3600 * second)

pub record Config : Type 0 where
  pub public_ip : Bytes
  pub port : ℕ
  pub realm : Text
  pub shared_secret : Text
  pub credential_ttl : ℤ
  pub min_relay_port : ℕ
  pub max_relay_port : ℕ
  pub per_user_quota : ℤ
  pub total_quota : ℤ
  pub allow_private_peers : Bool

pub data TurnError : Type 0 where
  bad_public_ip no_port no_realm weak_secret bad_lifetime bad_relay_range bad_quotas : TurnError

unfoldable pub valid_shared_secret : Text → Bool
valid_shared_secret secret =
    if ltb (byte_length secret) 32 || text_eq secret (codes "termcall")
    then false
    else leb 8 (distinct_bytes (utf8 secret))

unfoldable pub has_v4 : Option Bytes → Bool
has_v4 none = false
has_v4 (some quad) = true

-- An empty `net.IP` is nil, and has no `To4`.
unfoldable pub validate_config : Config → Result TurnError (Unit {0})
unfolding has_v4
validate_config c = do
  guard (has_v4 (to4 c.public_ip) && peer_allowed c.public_ip false) bad_public_ip
  guard (not (c.port == 0)) no_port
  guard (not (text_eq c.realm [])) no_realm
  guard (valid_shared_secret c.shared_secret) weak_secret
  guard (not (ltb_ℤ c.credential_ttl minute || ltb_ℤ hour c.credential_ttl)) bad_lifetime
  guard (not (c.min_relay_port == 0 || ltb c.max_relay_port c.min_relay_port)) bad_relay_range
  guard (not (ltb_ℤ c.per_user_quota (pos 1) || ltb_ℤ c.total_quota c.per_user_quota)) bad_quotas

-- `host` is the text of the public address.
unfoldable pub turn_urls : Text → ℕ → List Text
turn_urls host port =
    (codes "stun:" ++ (host ++ (codes ":" ++ format_uint port)))
    ∷ (codes "turn:" ++ (host ++ (codes ":" ++ format_uint port)))
    ∷ (codes "turn:" ++ (host ++ (codes ":" ++ (format_uint port ++ codes "?transport=tcp"))))
    ∷ []

pub record CredentialIssuer : Type 0 where
  pub shared_secret : Text
  pub ttl : ℤ
  pub urls : List Text

-- The Unix time at `ttl` after `now` nanoseconds; a lifetime that passed `validate_config` is positive.
unfoldable pub expiry : ℕ → ℤ → ℕ
expiry now (pos ttl) = (now + ttl) / second
expiry now ttl = now / second

module _ (u : Runes) (sign : Text → Text → Text) where
  unfoldable pub issue : CredentialIssuer → ℕ → Text → Result ProtocolError IceServer
  issue i now peer_id = do
    validate_peer_id u peer_id
    ok (record {
      urls = i.urls;
      username = itoa (pos (expiry now i.ttl)) ++ (codes ":" ++ peer_id);
      credential = sign i.shared_secret (itoa (pos (expiry now i.ttl)) ++ (codes ":" ++ peer_id));
      expires_at = pos (expiry now i.ttl);
    })
