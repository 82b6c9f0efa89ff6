-- ===== src/Rtc/Mesh/Peers.antt =====
-- The peers of a mesh, over the messages that the signaling brings.
use termcall.Prelude.{
  ℕ, ◌≡◌, refl, inl, inr, false, not, ◌||◌, [], Option, some, Result, ok, err, Text, text_eq,
  lookup, insert, Entries-lookup, Bool-cases, Option-cases,
}
use termcall.Protocol.Message.{
  SignalingMessage, msg_peer_joined, msg_peer_left, msg_offer, msg_answer, msg_ice_candidate,
}
use termcall.Protocol.Validate.{
  Runes, Json, SdpPayload, IceCandidatePayload, ProtocolError, validate_peer_id, normalize_username,
  decode_payload,
}
use termcall.Text.{Bytes}
use termcall.Rtc.Peer.{
  RemotePeer, new_peer, set_data_channel, set_remote_description, add_ice_candidate,
}
use termcall.Rtc.Mesh.{
  MeshManager, Answers, greater, negotiate, add_peer, insert_peer, meanwhile, present, named, known,
  handle_peer_joined, described, handle_description, suggested, handle_ice_candidate,
  handle_signaling_message,
}
use termcall.Rtc.Mesh.Invariant.{
  description-closed, candidate-closed, channel-closed, or_right, IsPeer, IsMesh, replace-IsMesh,
  add-IsMesh, branches, left-IsMesh, stop-IsMesh,
}

module _ (u : Runes) (json : Json) (write_sdp : SdpPayload → Option Bytes)
    (candidate_number : IceCandidatePayload → ℕ) (w : Answers) where
  negotiate-IsMesh :
      (id : Text) (p : RemotePeer) (m : MeshManager)
      → IsMesh u m
      → m.stopped ≡ false
      → p.closed ≡ false
      → validate_peer_id u id ≡ ok tt
      → IsMesh u (negotiate u json write_sdp candidate_number w id p m).1
  unfolding negotiate
  negotiate-IsMesh id p m h running o v = elim (Bool-cases (greater m.local_peer_id id)) [
    | inl waits ↦ rw waits h
    | inr makes ↦ elim (Option-cases w.channel) [
      | inl e ↦ rw (makes, e, negotiate) (left-IsMesh u id m h)
      | inr (c, e) ↦
          rw (makes, e, negotiate)
            (add-IsMesh u m id (set_data_channel c p).1 h running (channel-closed c p o) v)
    ]
  ]

  insert_peer-IsMesh :
      (id name : Text) (m : MeshManager)
      → IsMesh u m
      → validate_peer_id u id ≡ ok tt
      → IsMesh u (insert_peer u json write_sdp candidate_number w id name m).1
  unfolding insert_peer
  insert_peer-IsMesh id name m h v =
      branches u (present (lookup id m.peers) || m.stopped) _ _ (λ refused. h)
        (λ free.
          let running : m.stopped ≡ false = or_right (present (lookup id m.peers)) m.stopped free in
          negotiate-IsMesh id new_peer (record m { peers = insert id new_peer m.peers })
            (add-IsMesh u m id new_peer h running refl v) running refl v)

  meanwhile-IsMesh :
      (m : MeshManager) → IsMesh u m → IsMesh u (meanwhile u json write_sdp candidate_number w m).1
  unfolding meanwhile
  meanwhile-IsMesh m h = branches u w.stops _ _ (λ stops. (stop-IsMesh u m h).0) (λ runs. h)

  add_peer-IsMesh :
      (id name : Text) (m : MeshManager)
      → IsMesh u m
      → validate_peer_id u id ≡ ok tt
      → IsMesh u (add_peer u json write_sdp candidate_number w id name m).1
  unfolding add_peer
  add_peer-IsMesh id name m h v =
      branches u (present (lookup id m.peers)) _ _ (λ known. h)
        (λ new.
          branches u (not w.creates) _ _ (λ refused. h)
            (λ created.
              insert_peer-IsMesh id name (meanwhile u json write_sdp candidate_number w m).1
                (meanwhile-IsMesh m h) v))

  named-IsMesh :
      (message : SignalingMessage) (m : MeshManager) (r : Result ProtocolError Text)
      → IsMesh u m
      → validate_peer_id u message.peer_id ≡ ok tt
      → IsMesh u (named u json write_sdp candidate_number w message m r).1
  unfolding named
  named-IsMesh message m (err e) h v = h
  named-IsMesh message m (ok name) h v = add_peer-IsMesh message.peer_id name m h v

  known-IsMesh :
      (message : SignalingMessage) (m : MeshManager) (r : Result ProtocolError (Unit {0}))
      → IsMesh u m
      → validate_peer_id u message.peer_id ≡ r
      → IsMesh u (known u json write_sdp candidate_number w message m r).1
  unfolding known
  known-IsMesh message m (err e) h v = h
  known-IsMesh message m (ok x) h v =
      named-IsMesh message m (normalize_username u message.username) h v

  joined-IsMesh :
      (message : SignalingMessage) (m : MeshManager)
      → IsMesh u m
      → IsMesh u (handle_peer_joined u json write_sdp candidate_number w message m).1
  unfolding handle_peer_joined
  joined-IsMesh message m h =
      branches u m.stopped _ _ (λ stopped. h)
        (λ running. known-IsMesh message m (validate_peer_id u message.peer_id) h refl)

  described-IsMesh :
      (kind id : Text) (p : RemotePeer) (m : MeshManager) (r : Result ProtocolError SdpPayload)
      → IsMesh u m
      → lookup id m.peers ≡ some p
      → IsMesh u (described u json write_sdp candidate_number w kind id p m r).1
  unfolding described
  described-IsMesh kind id p m (err e) h l = h
  described-IsMesh kind id p m (ok payload) h l =
      elim (Bool-cases (not (text_eq payload.kind kind) || text_eq payload.sdp [])) [
        | inl bad ↦ rw bad h
        | inr good ↦ rw good (
            replace-IsMesh u m id p (set_remote_description w.sets_remote w.takes p).2 h l (
              description-closed w.sets_remote w.takes p
                (Entries-lookup (IsPeer u) id p m.peers h.good l).0))
      ]

  description-IsMesh :
      (kind : Text) (message : SignalingMessage) (m : MeshManager)
      → IsMesh u m
      → IsMesh u (handle_description u json write_sdp candidate_number w kind message m).1
  unfolding handle_description
  description-IsMesh kind message m h = elim (Option-cases (lookup message.peer_id m.peers)) [
    | inl l ↦ rw (l, handle_description) h
    | inr (p, l) ↦
        rw (l, handle_description)
          (described-IsMesh kind message.peer_id p m
            (decode_payload json.decode_sdp message.payload) h l)
  ]

  suggested-IsMesh :
      (id : Text) (p : RemotePeer) (m : MeshManager) (r : Result ProtocolError IceCandidatePayload)
      → IsMesh u m
      → lookup id m.peers ≡ some p
      → IsMesh u (suggested u json write_sdp candidate_number w id p m r).1
  unfolding suggested
  suggested-IsMesh id p m (err e) h l = h
  suggested-IsMesh id p m (ok payload) h l = elim (Bool-cases (text_eq payload.candidate [])) [
    | inl bad ↦ rw bad h
    | inr good ↦ rw good (
        replace-IsMesh u m id p (add_ice_candidate w.takes (candidate_number payload) p).2 h l (
          candidate-closed w.takes (candidate_number payload) p
            (Entries-lookup (IsPeer u) id p m.peers h.good l).0))
  ]

  candidate-IsMesh :
      (message : SignalingMessage) (m : MeshManager)
      → IsMesh u m
      → IsMesh u (handle_ice_candidate u json write_sdp candidate_number w message m).1
  unfolding handle_ice_candidate
  candidate-IsMesh message m h = elim (Option-cases (lookup message.peer_id m.peers)) [
    | inl l ↦ rw (l, handle_ice_candidate) h
    | inr (p, l) ↦
        rw (l, handle_ice_candidate)
          (suggested-IsMesh message.peer_id p m
            (decode_payload json.decode_candidate message.payload) h l)
  ]

  -- Whatever message arrives, however the WebRTC library answers, and whether or not Stop runs
  -- between the two looks that the arrival of a peer takes at the mesh, a good mesh stays good:
  -- each ID stands once and is valid, no peer in it is closed, and a mesh that is stopped has
  -- none.
  pub handle_signaling_message-IsMesh :
      (message : SignalingMessage) (m : MeshManager)
      → IsMesh u m
      → IsMesh u (handle_signaling_message u json write_sdp candidate_number w message m).1
  unfolding handle_signaling_message
  handle_signaling_message-IsMesh message m h =
      elim (Bool-cases (text_eq message.kind msg_peer_joined)) [
        | inl a ↦ rw a (joined-IsMesh message m h)
        | inr a ↦ elim (Bool-cases (text_eq message.kind msg_peer_left)) [
          | inl b ↦ rw (a, b) (left-IsMesh u message.peer_id m h)
          | inr b ↦ elim (Bool-cases (text_eq message.kind msg_offer)) [
            | inl c ↦ rw (a, b, c) (description-IsMesh msg_offer message m h)
            | inr c ↦ elim (Bool-cases (text_eq message.kind msg_answer)) [
              | inl d ↦ rw (a, b, c, d) (description-IsMesh msg_answer message m h)
              | inr d ↦ elim (Bool-cases (text_eq message.kind msg_ice_candidate)) [
                | inl e ↦ rw (a, b, c, d, e) (candidate-IsMesh message m h)
                | inr e ↦ rw (a, b, c, d, e) h
              ]
            ]
          ]
        ]
      ]
