-- ===== src/Signaling/Client/Credentials.antt =====
-- The credentials of `CredentialIssuer.Issue` under the checks of `validateAdmission`.
use termcall.Prelude.{
  ℕ, ◌+◌, ◌/◌, ◌^◌, ◌≤◌, ◌<◌, ◌≡◌, refl, ap, ◌∙◌, true, false, ◌||◌, List, [], ◌∷◌, ◌++◌, arith, ℤ,
  pos, negsuc, ltb_ℤ, ok, length, All, Text, text_eq, >>=-eq-ok,
}
use mathlib.Core.Path.{subst}
use termcall.Text.{codes}
use termcall.Text.Decimal.{itoa, format_uint, IsNumeral, length-itoa_pos}
use termcall.Text.Numerals.{itoa-IsNumeral}
use termcall.Protocol.Message.{byte_length, byte_length-append, max_peer_id_bytes}
use termcall.Protocol.Validate.{Runes, validate_peer_id}
use termcall.Protocol.Envelope.{IceServer}
use termcall.Turn.Server.{CredentialIssuer, second, minute, hour, turn_urls, expiry, issue}
use termcall.Signaling.Client.{
  has_prefix, breaks_line, valid_ice_url, check_ice_urls, check_ice_servers,
}

breaks_line-append :
    (s t : Text) → breaks_line s ≡ false → breaks_line t ≡ false → breaks_line (s ++ t) ≡ false
unfolding breaks_line
breaks_line-append [] t hs ht = ht
breaks_line-append (c ∷ s) t hs ht = ground (arith, breaks_line-append s t)

numerals : (s : Text) → All IsNumeral s → (breaks_line s ≡ false) × (byte_length s ≡ length s)
unfolding breaks_line
numerals [] h = (refl, refl)
numerals (c ∷ s) h = let (b, l) = numerals s h.1 in (ground (arith, h.0), ground (arith, h.0))

decimal :
    (n : ℕ) → n < 10 ^ 20 → (breaks_line (itoa (pos n)) ≡ false) × (byte_length (itoa (pos n)) ≤ 20)
decimal n h =
    let (b, l) = numerals (itoa (pos n)) (itoa-IsNumeral (pos n)) in
    let digits : length (itoa (pos n)) ≤ 20 = length-itoa_pos 19 n h in (b, omega arith)

-- The text of an address.
pub record IsHost (host : Text) : Type 0 where
  pub short : byte_length host ≤ 255
  pub one_line : breaks_line host ≡ false

-- The URL of a server behind its scheme.
ice_url-valid :
    (rest : Text)
    → byte_length rest ≤ 400
    → breaks_line rest ≡ false
    → (valid_ice_url (codes "stun:" ++ rest) ≡ true)
      × (valid_ice_url (codes "turn:" ++ rest) ≡ true)
unfolding valid_ice_url has_prefix breaks_line
ice_url-valid rest short line = (ground arith, ground arith)

turn_urls-valid :
    (host : Text) (port : ℕ)
    → IsHost host
    → port < 2 ^ 16
    → check_ice_urls (turn_urls host port) ≡ ok tt
unfolding check_ice_urls turn_urls breaks_line itoa
turn_urls-valid host port h hp =
    let (port_line, port_short) = decimal port (omega arith) in
    let plain : Text = codes ":" ++ format_uint port in
    let tcp : Text = codes ":" ++ (format_uint port ++ codes "?transport=tcp") in
    let plain_line : breaks_line (host ++ plain) ≡ false =
      breaks_line-append host plain h.one_line port_line in
    let tcp_line : breaks_line (host ++ tcp) ≡ false =
      breaks_line-append host tcp h.one_line
        (breaks_line-append (format_uint port) (codes "?transport=tcp") port_line refl) in
    let plain_short : byte_length (host ++ plain) ≤ 400 =
      omega (arith, byte_length-append host plain, h.short) in
    let tcp_short : byte_length (host ++ tcp) ≤ 400 = omega (
      arith,
      byte_length-append host tcp,
      byte_length-append (format_uint port) (codes "?transport=tcp"),
      h.short,
    ) in
    let plain_ok = ice_url-valid (host ++ plain) plain_short plain_line in
    let tcp_ok = ice_url-valid (host ++ tcp) tcp_short tcp_line in
    rw (plain_ok.0, plain_ok.1, tcp_ok.1)

-- A credential: what the signature gives, the lifetime that the configuration allows, and clocks less
-- than a minute apart.
pub record IsIssuer (sign : Text → Text → Text) (host : Text) (port : ℕ) (i : CredentialIssuer)
    : Type 0 where
  pub urls : i.urls ≡ turn_urls host port
  pub lifetime : (ltb_ℤ i.ttl minute || ltb_ℤ hour i.ttl) ≡ false
  pub signed : (t : Text) → text_eq (sign i.shared_secret t) [] ≡ false
  pub signature : (t : Text) → byte_length (sign i.shared_secret t) ≤ 512

pub record IsNear (now clock : ℕ) : Type 0 where
  pub epoch : now < 2 ^ 63
  pub behind : now / second < clock + 60
  pub ahead : clock < now / second + 60

expiry-bounds :
    (now : ℕ) (ttl : ℤ)
    → (ltb_ℤ ttl minute || ltb_ℤ hour ttl) ≡ false
    → (now / second + 60 ≤ expiry now ttl) × (expiry now ttl ≤ now / second + 3601)
unfolding expiry
expiry-bounds now (pos ttl) h = ground arith
expiry-bounds now (negsuc ttl) h = absurd (ground arith)

pub validate_peer_id-short :
    (u : Runes) (id : Text)
    → validate_peer_id u id ≡ ok tt
    → (text_eq id [] ≡ false) × (byte_length id ≤ max_peer_id_bytes)
unfolding validate_peer_id
validate_peer_id-short u id h = ground arith

not_empty-append : (s : Text) (c : ℕ) (t : Text) → text_eq (s ++ c ∷ t) [] ≡ false
unfolding text_eq
not_empty-append [] c t = refl
not_empty-append (d ∷ s) c t = refl

ice_server-valid :
    (clock expires : ℕ) (ice : IceServer)
    → length ice.urls ≡ 3
    → check_ice_urls ice.urls ≡ ok tt
    → (text_eq ice.username [] ≡ false) × (byte_length ice.username ≤ 256)
    → (text_eq ice.credential [] ≡ false) × (byte_length ice.credential ≤ 512)
    → ice.expires_at ≡ pos expires
    → clock < expires
    → expires ≤ clock + 7200
    → check_ice_servers clock (ice ∷ []) ≡ ok tt
unfolding check_ice_servers
ice_server-valid clock expires ice hl hu hn hc he h1 h2 = rw he (ground arith)

module _ (u : Runes) (sign : Text → Text → Text) (host : Text) (port : ℕ)
    (i : CredentialIssuer) where
  pub issue-valid :
      (now clock : ℕ) (id : Text) (ice : IceServer)
      → IsHost host
      → port < 2 ^ 16
      → IsIssuer sign host port i
      → IsNear now clock
      → issue u sign i now id ≡ ok ice
      → check_ice_servers clock (ice ∷ []) ≡ ok tt
  unfolding issue turn_urls
  issue-valid now clock id ice h hp hi near issued =
      let (_, valid, made) = >>=-eq-ok (validate_peer_id u id) _ issued in
      let (id_nonempty, id_short) = validate_peer_id-short u id valid in
      let (low, high) = expiry-bounds now i.ttl hi.lifetime in
      let expires : ℕ = expiry now i.ttl in
      let name : Text = itoa (pos expires) ++ (codes ":" ++ id) in
      let (_, digits) = decimal expires (omega (arith, near.epoch, high)) in
      let name_short : byte_length name ≤ 256 =
        omega (arith, byte_length-append (itoa (pos expires)) (codes ":" ++ id)) in
      subst (λ (x : IceServer). check_ice_servers clock (x ∷ []) ≡ ok tt) (cc)
        (ice_server-valid clock expires
          (record {
            urls = i.urls;
            username = name;
            credential = sign i.shared_secret name;
            expires_at = pos expires;
          })
          (ap (λ (us : List Text). length us) hi.urls)
          (ap check_ice_urls hi.urls ∙ turn_urls-valid host port h hp)
          (not_empty-append (itoa (pos expires)) b':' id, name_short)
          (hi.signed name, hi.signature name) refl (omega (arith, near.ahead, low))
          (omega (arith, near.behind, high)))
