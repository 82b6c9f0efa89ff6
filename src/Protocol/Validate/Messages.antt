-- ===== src/Protocol/Validate/Messages.antt =====
-- The validator of the server against that of the client.
use termcall.Prelude.{
  ℕ, ◌≤◌, ◌≡◌, refl, inl, inr, Bool, true, false, ◌&&◌, [], arith, leb, ◌==◌, pos, eqb_ℤ, eqb_ℤ_iff,
  Result, ok, err, ◌>>◌, guard, >>=-eq-ok, length, Text, text_eq, text_eq_iff, Bool-cases, ==_iff,
}
use termcall.Protocol.Message.{
  SignalingMessage, max_payload_bytes, version, msg_join_room, msg_leave_room,
}
use termcall.Protocol.Validate.{
  Runes, Json, ProtocolError, invalid_message, protocol_version, normalize_username,
  validate_room_id, validate_peer_id, validate_signal_payload, client_fields,
  validate_client_message, is_signal, fits, discard,
}

-- What the server makes of a signal from `sender` before it is routed.
unfoldable pub relay : Text → SignalingMessage → SignalingMessage
relay sender m = record m { version = pos 1; peer_id = sender; room_id = []; username = [] }

module _ (u : Runes) (json : Json) where
  -- What a client's message is, once it has passed.
  pub data Accepted (m : SignalingMessage) : Type 0 where
    join :
        m.kind ≡ msg_join_room
        → (m.peer_id ≡ []) × (length m.payload ≡ 0)
        → validate_room_id m.room_id ≡ ok tt
        → (name : Text) → normalize_username u m.username ≡ ok name
        → Accepted m
    leave :
        m.kind ≡ msg_leave_room
        → (m.room_id ≡ []) × (m.peer_id ≡ []) × (m.username ≡ []) × (length m.payload ≡ 0)
        → Accepted m
    signal :
        is_signal u json m.kind ≡ true
        → (m.room_id ≡ []) × (m.username ≡ [])
        → validate_peer_id u m.peer_id ≡ ok tt
        → validate_signal_payload u json m.kind m.payload ≡ ok tt
        → Accepted m

  tests_true : (a b : Bool) → (a && b) ≡ true → (a ≡ true) × (b ≡ true)
  tests_true a b h = ground arith

  guard-true {ℓ} : {E : Type ℓ} (b : Bool) (e : E) (x : Unit {0}) → guard b e ≡ ok x → b ≡ true
  guard-true true e x h = refl
  guard-true false e x h = cc

  empty_text : (t : Text) → text_eq t [] ≡ true → t ≡ []
  empty_text t h = (text_eq_iff t []).0 h

  discard-eq-ok :
      (r : Result ProtocolError Text) → discard u json r ≡ ok tt → (name : Text) × (r ≡ ok name)
  unfolding discard
  discard-eq-ok (ok name) h = (name, refl)
  discard-eq-ok (err e) h = cc

  join-Accepted :
      (m : SignalingMessage)
      → m.kind ≡ msg_join_room
      → (guard (text_eq m.peer_id [] && length m.payload == 0) invalid_message
          >> (validate_room_id m.room_id >> discard u json (normalize_username u m.username)))
        ≡ ok tt
      → Accepted m
  join-Accepted m k h =
      let (x, g, h1) =
        >>=-eq-ok (guard (text_eq m.peer_id [] && length m.payload == 0) invalid_message)
          (λ _. validate_room_id m.room_id >> discard u json (normalize_username u m.username)) h in
      let (y, r, h2) =
        >>=-eq-ok (validate_room_id m.room_id)
          (λ _. discard u json (normalize_username u m.username)) h1 in
      let (name, n) = discard-eq-ok (normalize_username u m.username) h2 in
      let t = tests_true (text_eq m.peer_id []) (length m.payload == 0) (guard-true _ _ _ g) in
      join k (empty_text m.peer_id t.0, (==_iff (length m.payload) 0).0 t.1) r name n

  no_fields : SignalingMessage → Bool
  no_fields m =
      text_eq m.room_id [] && text_eq m.peer_id [] && text_eq m.username [] && length m.payload == 0

  four :
      (a b c d : Bool)
      → (a && b && c && d) ≡ true
      → (a ≡ true) × (b ≡ true) × (c ≡ true) × (d ≡ true)
  four a b c d h = ground arith

  leave-Accepted :
      (m : SignalingMessage) → m.kind ≡ msg_leave_room → no_fields m ≡ true → Accepted m
  unfolding no_fields
  leave-Accepted m k h =
      let (a, b, c, d) =
        four (text_eq m.room_id []) (text_eq m.peer_id []) (text_eq m.username [])
          (length m.payload == 0) h in
      leave k (
        empty_text m.room_id a,
        empty_text m.peer_id b,
        empty_text m.username c,
        (==_iff (length m.payload) 0).0 d,
      )

  signal_step : SignalingMessage → Result ProtocolError (Unit {0})
  signal_step m = do validate_peer_id u m.peer_id; validate_signal_payload u json m.kind m.payload

  signal-Accepted :
      (m : SignalingMessage)
      → is_signal u json m.kind ≡ true
      → (guard (text_eq m.room_id [] && text_eq m.username []) invalid_message >> signal_step m)
        ≡ ok tt
      → Accepted m
  unfolding signal_step
  signal-Accepted m k h =
      let (x, g, h1) =
        >>=-eq-ok (guard (text_eq m.room_id [] && text_eq m.username []) invalid_message)
          (λ _. signal_step m) h in
      let (y, p, s) =
        >>=-eq-ok (validate_peer_id u m.peer_id)
          (λ _. validate_signal_payload u json m.kind m.payload) h1 in
      let t = tests_true (text_eq m.room_id []) _ (guard-true _ _ _ g) in
      signal k (empty_text _ t.0, empty_text _ t.1) p s

  fields-Accepted : (m : SignalingMessage) → client_fields u json m ≡ ok tt → Accepted m
  unfolding client_fields signal_step no_fields
  fields-Accepted m h = elim (Bool-cases (text_eq m.kind msg_join_room)) [
    | inl k ↦ join-Accepted m ((text_eq_iff m.kind msg_join_room).0 k) (rw k at h)
    | inr k ↦ elim (Bool-cases (text_eq m.kind msg_leave_room)) [
      | inl l ↦
          leave-Accepted m ((text_eq_iff m.kind msg_leave_room).0 l)
            (guard-true (no_fields m) invalid_message tt (rw (k, l) at h))
      | inr l ↦ elim (Bool-cases (is_signal u json m.kind)) [
        | inl s ↦ signal-Accepted m s (rw (k, l, s) at h)
        | inr s ↦ absurd (refused (rw (k, l, s) at h))
      ]
    ]
  ]
    where
      refused : guard false invalid_message ≡ ok tt → ⊥
      refused h = cc

  -- A client's message that the server accepts has the version and the size of the protocol, and is
  -- one of three: a join with a room and a name and nothing else, a bare leave, or a signal with a
  -- peer and a payload of its type and no room or name.
  pub validate_client_message-Accepted :
      (m : SignalingMessage)
      → validate_client_message u json m ≡ ok tt
      → (m.version ≡ version) × (length m.payload ≤ max_payload_bytes) × Accepted m
  unfolding validate_client_message
  validate_client_message-Accepted m h =
      let (x, v, h1) =
        >>=-eq-ok (guard (eqb_ℤ m.version version) protocol_version)
          (λ _.
            guard (leb (length m.payload) max_payload_bytes) invalid_message
            >> (guard (fits u json (json.encoded_length m)) invalid_message
                >> client_fields u json m))
          h in
      let (y, p, h2) =
        >>=-eq-ok (guard (leb (length m.payload) max_payload_bytes) invalid_message)
          (λ _.
            guard (fits u json (json.encoded_length m)) invalid_message >> client_fields u json m)
          h1 in
      let (z, f, h3) =
        >>=-eq-ok (guard (fits u json (json.encoded_length m)) invalid_message)
          (λ _. client_fields u json m) h2 in
      (
        (eqb_ℤ_iff m.version version).0 (guard-true _ _ _ v),
        small (length m.payload) (guard-true _ _ _ p),
        fields-Accepted m h3,
      )
    where
      small : (n : ℕ) → leb n max_payload_bytes ≡ true → n ≤ max_payload_bytes
      small n t = ground arith

  join_room : is_signal u json msg_join_room ≡ false
  unfolding text_eq
  join_room = refl

  leave_room : is_signal u json msg_leave_room ≡ false
  unfolding text_eq
  leave_room = refl
