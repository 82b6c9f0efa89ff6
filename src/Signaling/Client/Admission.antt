-- ===== src/Signaling/Client/Admission.antt =====
-- A join's answer, from the server that writes it to the client that reads it.
use termcall.Prelude.{
  ℕ, ◌^◌, ◌≤◌, ◌<◌, ◌≡◌, refl, sym, ap, ◌∙◌, inl, inr, true, false, List, [], ◌∷◌, Option, none,
  some, arith, ltb, leb, ◌==◌, ok, length, All, Text, text_eq, text_eq_refl, lookup, Keyed, Entries,
  Option-cases, >>=-eq-ok,
}
use mathlib.Core.Path.{subst}
use termcall.Text.{Bytes}
use termcall.Protocol.Message.{
  SignalingMessage, PeerInfo, new_message, msg_join_accepted, max_payload_bytes,
}
use termcall.Protocol.Validate.{
  Runes, Json, decode_payload, normalize_username, validate_peer_id, validate_room_id,
}
use termcall.Protocol.Envelope.{
  IceServer, JoinAcceptedPayload, decode_message, marshal_payload, bounded,
}
use termcall.Turn.Server.{CredentialIssuer, issue}
use termcall.Signaling.Rooms.{Room, peer_info_snapshot}
use termcall.Signaling.Rooms.Invariant.{Named, IsRoom}
use termcall.Signaling.Server.{Services, accept_message}
use termcall.Signaling.Client.Credentials.{
  IsHost, IsIssuer, IsNear, validate_peer_id-short, issue-valid,
}
use termcall.Signaling.Client.{
  relabel, check_ice_servers, seen_in, discard_name, check_peers, validate_admission, admission,
  join_response,
}

-- A peer that the server lets in.
abbrev pub Acceptable : Runes → Text → PeerInfo → Type 0
Acceptable u key p =
    (validate_peer_id u p.peer_id ≡ ok tt)
    × ((name : Text) × (normalize_username u p.username ≡ ok name))

-- No entry of one of the IDs.
abbrev Unseen : List (Text × PeerInfo) → List Text → Type 0
Unseen m = All (λ s. lookup s m ≡ none)

seen_in-Unseen :
    (id : Text) (p : PeerInfo) (m : List (Text × PeerInfo)) (seen : List Text)
    → Unseen ((id, p) ∷ m) seen
    → (seen_in id seen ≡ false) × Unseen m seen
unfolding seen_in lookup
seen_in-Unseen id p m [] h = (refl, tt)
seen_in-Unseen id p m (s ∷ seen) h =
    let rest = seen_in-Unseen id p m seen h.1 in (ground arith, (ground arith, rest.1))

module _ (u : Runes) (own : Text) where
  check_peers-snapshot :
      (seen : List Text) (m : List (Text × PeerInfo))
      → Keyed m
      → Entries Named m
      → Entries (Acceptable u) m
      → lookup own m ≡ none
      → Unseen m seen
      → check_peers u own seen (peer_info_snapshot m []) ≡ ok tt
  unfolding check_peers peer_info_snapshot lookup relabel discard_name
  check_peers-snapshot seen [] hk hn ha ho hs = refl
  check_peers-snapshot seen ((id, p) ∷ m) hk hn ha ho hs =
      let named : p.peer_id ≡ id = hn.0 in
      let valid : validate_peer_id u p.peer_id ≡ ok tt = ha.0.0 in
      let nonempty : text_eq id [] ≡ false =
        subst (λ (t : Text). text_eq t [] ≡ false) named
          (validate_peer_id-short u p.peer_id valid).0 in
      let other : text_eq p.peer_id own ≡ false =
        subst (λ (t : Text). text_eq t own ≡ false) (sym named) (ground arith) in
      let (fresh, unseen) = seen_in-Unseen id p m seen hs in
      let new : seen_in p.peer_id seen ≡ false =
        subst (λ (t : Text). seen_in t seen ≡ false) (sym named) fresh in
      let first : lookup p.peer_id m ≡ none =
        subst (λ (t : Text). lookup t m ≡ none) (sym named) hk.0 in
      let later : lookup own m ≡ none = ground arith in
      rw (nonempty, valid, other, new, ha.0.1.1)
        (check_peers-snapshot (p.peer_id ∷ seen) m hk.1 hn.1 ha.1 later (first, unseen))

-- A JSON library reads back what it wrote of a value.
pub record Reads {A : Type 0} (write : A → Option Bytes) (read : Bytes → Option A) (a : A)
    : Type 0 where
  pub nonempty : (raw : Bytes) → write a ≡ some raw → (length raw == 0) ≡ false
  pub same : (raw : Bytes) → write a ≡ some raw → read raw ≡ some a

decode-marshal :
    {A : Type 0} (write : A → Option Bytes) (read : Bytes → Option A) (a : A) (payload : Bytes)
    → Reads write read a
    → marshal_payload write a ≡ some payload
    → decode_payload read payload ≡ ok a
unfolding marshal_payload decode_payload bounded
decode-marshal write read a payload h marshalled = elim (Option-cases (write a)) [
  | inl e ↦ absurd (cc)
  | inr (raw, e) ↦
      let fits : bounded raw ≡ some payload = rw (e, marshal_payload) at marshalled in
      let same : raw ≡ payload = ground arith in
      let found : read payload ≡ some a =
        subst (λ (t : Bytes). read t ≡ some a) same (h.same raw e) in
      let nonempty : (length payload == 0) ≡ false =
        subst (λ (t : Bytes). (length t == 0) ≡ false) same (h.nonempty raw e) in
      let short : ltb max_payload_bytes (length payload) ≡ false = ground arith in
      rw (nonempty, short, found, decode_payload)
]

same_value : {A : Type 0} {a b : A} → some a ≡ some b → a ≡ b
same_value h = cc

snapshot-length : (m : List (Text × PeerInfo)) → length (peer_info_snapshot m []) ≤ length m
unfolding peer_info_snapshot
snapshot-length [] = omega arith
snapshot-length ((id, p) ∷ m) = ground (arith, snapshot-length m)

module _ (u : Runes) (json : Json) (services : Services) (sign : Text → Text → Text) (host : Text)
    (port : ℕ) (i : CredentialIssuer) where
  -- What the server answers to a join into a room.
  abbrev pub answer : Text → IceServer → Room → JoinAcceptedPayload
  answer id ice room = record {
    room_id = room.id;
    peer_id = id;
    peers = peer_info_snapshot room.peers [];
    ice_servers = ice ∷ [];
  }

  answer-valid :
      (clock : ℕ) (id : Text) (ice : IceServer) (room : Room)
      → validate_room_id room.id ≡ ok tt
      → validate_peer_id u id ≡ ok tt
      → check_ice_servers clock (ice ∷ []) ≡ ok tt
      → length room.peers ≤ 16
      → check_peers u id [] (peer_info_snapshot room.peers []) ≡ ok tt
      → validate_admission u clock (answer id ice room) ≡ ok tt
  unfolding validate_admission relabel
  answer-valid clock id ice room hr hi hs hl hp =
      let few : leb (length (peer_info_snapshot room.peers [])) 16 ≡ true =
        ground (arith, snapshot-length room.peers) in
      rw (hr, hi, few, hs, hp)

  -- The message of the answer, read.
  read_answer :
      (read_message : Bytes → Option SignalingMessage)
      (read_accepted : Bytes → Option JoinAcceptedPayload) (clock : ℕ) (raw payload : Bytes)
      (a : JoinAcceptedPayload)
      → decode_message read_message raw
        ≡ ok (record (new_message msg_join_accepted) {
          room_id = a.room_id;
          peer_id = a.peer_id;
          payload = payload;
        })
      → decode_payload read_accepted payload ≡ ok a
      → validate_admission u clock a ≡ ok tt
      → join_response u json read_message read_accepted clock true raw ≡ ok a
  unfolding join_response admission relabel text_eq new_message
  read_answer read_message read_accepted clock raw payload a decoded found valid =
      rw (decoded, found, valid, text_eq_refl a.room_id, text_eq_refl a.peer_id)

  -- Take a room of a server with places for at most 16, whose peers and ID pass the validators and
  -- of which the newcomer is not one yet, credentials that the issuer gives for a lifetime that the
  -- configuration allows, under URLs of a host and a 16-bit port, with a signature of at most 512
  -- bytes, and a JSON library that reads the answer back as it was written. If the server answers
  -- the join, then a client whose clock is less than a minute away takes the answer, and has the
  -- very payload that the server wrote.
  pub join_response-accept_message :
      (read_message : Bytes → Option SignalingMessage)
      (read_accepted : Bytes → Option JoinAcceptedPayload) (now clock max_room_size next : ℕ)
      (id raw : Text) (ice : IceServer) (room : Room) (m : SignalingMessage)
      → IsHost host
      → port < 2 ^ 16
      → IsIssuer sign host port i
      → IsNear now clock
      → Reads services.write_accepted read_accepted (answer id ice room)
      → IsRoom next room.id room
      → room.max_peers ≤ 16
      → Entries (Acceptable u) room.peers
      → lookup id room.peers ≡ none
      → validate_room_id room.id ≡ ok tt
      → issue u sign i now id ≡ ok ice
      → accept_message u json services max_room_size id ice room.id
          (peer_info_snapshot room.peers [])
        ≡ some m
      → decode_message read_message raw ≡ ok m
      → join_response u json read_message read_accepted clock true raw ≡ ok (answer id ice room)
  unfolding accept_message issue
  join_response-accept_message read_message read_accepted now clock max_room_size next id raw ice
        room m hh hp hi near hj hr hm ha ho hv issued accepted decoded =
      let (_, valid, _) = >>=-eq-ok (validate_peer_id u id) _ issued in
      let credentials = issue-valid u sign host port i now clock id ice hh hp hi near issued in
      let few : length room.peers ≤ 16 = omega (arith, hr.within, hm) in
      let listed = check_peers-snapshot u id [] room.peers hr.once hr.named ha ho tt in
      let made : (payload : Bytes)
          → marshal_payload services.write_accepted (answer id ice room) ≡ some payload
          → record (new_message msg_join_accepted) {
            room_id = room.id;
            peer_id = id;
            payload = payload;
          }
            ≡ m =
        λ payload e. same_value (rw (e, accept_message) at accepted) in
      elim (Option-cases (marshal_payload services.write_accepted (answer id ice room))) [
        | inl e ↦ absurd (cc)
        | inr (payload, e) ↦
            read_answer read_message read_accepted clock raw payload (answer id ice room)
              (decoded ∙ ap (λ (x : SignalingMessage). ok x) (sym (made payload e)))
              (decode-marshal services.write_accepted read_accepted (answer id ice room) payload hj
                e)
              (answer-valid clock id ice room hv valid credentials few listed)
      ]
