-- ===== src/Rtc/Mesh.antt =====
-- internal/rtc/mesh.go: the peers of a call, and the handlers of signaling messages.
--
-- `stopped` tells that the context is cancelled. What the handlers do to the outside is a list of
-- effects, in order. The WebRTC library's answers are inputs: whether a connection is created, the
-- session description that it offers or answers with, whether a description is set, a channel made, a
-- message sent; and whether `Stop` runs between the two looks of `handlePeerJoined` at the mesh, the
-- second one under the lock under which the peer is added. What it does after that is one step.
pub mod Invariant
pub mod Peers
mod Tests
use termcall.Prelude.{
  ℕ, ◌≡◌, Bool, true, false, not, ◌&&◌, ◌||◌, List, [], ◌∷◌, ◌++◌, Option, none, some, ltb, ◌==◌,
  if◌then◌else◌, Result, ok, err, Text, text_eq, lookup, insert, delete,
}
use termcall.Text.{Bytes}
use termcall.Protocol.Message.{
  SignalingMessage, new_message, msg_peer_joined, msg_peer_left, msg_offer, msg_answer,
  msg_ice_candidate, msg_error,
}
use termcall.Protocol.Validate.{
  Runes, Json, SdpPayload, IceCandidatePayload, ProtocolError, validate_peer_id, normalize_username,
  decode_payload,
}
use termcall.Protocol.Envelope.{marshal_payload}
use termcall.Rtc.Peer.{
  RemotePeer, Call, new_peer, set_data_channel, set_remote_description, add_ice_candidate, close,
}

pub record MeshManager : Type 0 where
  pub local_peer_id : Text
  pub peers : List (Text × RemotePeer)
  pub stopped : Bool

pub data Effect : Type 0 where
  notify_error : Effect
  on_peer_join : Text → Text → Effect
  on_peer_leave : Text → Effect
  await_channel : Text → Effect
  calls : Text → List Call → Effect
  sends : SignalingMessage → Effect

-- What the WebRTC library answers while one message is handled, and whether `Stop` runs meanwhile.
pub record Answers : Type 0 where
  pub stops : Bool
  pub creates : Bool
  pub channel : Option ℕ
  pub description : Option Text
  pub sets_local : Bool
  pub sets_remote : Bool
  pub takes : ℕ → Bool
  pub delivers : Bool

-- The order of Go's strings; on runes it is the order of their UTF-8.
unfoldable pub greater : Text → Text → Bool
greater [] t = false
greater (c ∷ s) [] = true
greater (c ∷ s) (d ∷ t) = ltb d c || (c == d && greater s t)

-- Whether a peer is in the map.
unfoldable pub present : Option RemotePeer → Bool
present none = false
present (some p) = true

unfoldable pub handle_peer_left : Text → MeshManager → List Effect × MeshManager
handle_peer_left id m = elim (lookup id m.peers) [
  | none ↦ ([], m)
  | some p ↦ (calls id (close p).0 ∷ on_peer_leave id ∷ [], record m { peers = delete id m.peers })
]

close_all : List (Text × RemotePeer) → List Effect
close_all [] = []
close_all ((id, p) ∷ ps) = calls id (close p).0 ∷ close_all ps

unfoldable pub stop : MeshManager → List Effect × MeshManager
unfolding close_all
stop m = if m.stopped then ([], m) else (close_all m.peers, record m { peers = []; stopped = true })

module _ (u : Runes) (json : Json) (write_sdp : SdpPayload → Option Bytes)
    (candidate_number : IceCandidatePayload → ℕ) (w : Answers) where
  -- A description that was made is set, wrapped and sent.
  send_description : Text → Text → Option Text → List Effect
  send_description kind id none = notify_error ∷ []
  send_description kind id (some sdp) =
      if not w.sets_local
      then notify_error ∷ []
      else elim (marshal_payload write_sdp (record { sdp = sdp; kind = kind })) [
        | none ↦ notify_error ∷ []
        | some payload ↦
            sends (record (new_message kind) { peer_id = id; payload = payload })
            ∷ (if w.delivers then [] else notify_error ∷ [])
      ]

  -- After the peer is in the map: the side with the smaller ID makes the channel and the offer.
  unfoldable pub negotiate : Text → RemotePeer → MeshManager → List Effect × MeshManager
  unfolding send_description
  negotiate id peer m =
      if greater m.local_peer_id id then (await_channel id ∷ [], m) else elim w.channel [
        | none ↦ let (effects, left) = handle_peer_left id m in (notify_error ∷ effects, left)
        | some channel ↦ (
          send_description msg_offer id w.description,
          record m { peers = insert id (set_data_channel channel peer).1 m.peers },
        )
      ]

  abbrev pub first_effect : Effect → List Effect × MeshManager → List Effect × MeshManager
  first_effect e (es, m) = (e ∷ es, m)

  abbrev pub then_effects : List Effect → List Effect × MeshManager → List Effect × MeshManager
  then_effects before (es, m) = (before ++ es, m)

  -- Under the lock: a peer that came meanwhile, or a mesh that was stopped, and the new one is closed.
  unfoldable pub insert_peer : Text → Text → MeshManager → List Effect × MeshManager
  insert_peer id name m =
      if present (lookup id m.peers) || m.stopped
      then (calls id (close new_peer).0 ∷ [], m)
      else first_effect (on_peer_join id name)
          (negotiate id new_peer (record m { peers = insert id new_peer m.peers }))

  -- What runs before the lock is taken.
  unfoldable pub meanwhile : MeshManager → List Effect × MeshManager
  meanwhile m = if w.stops then stop m else ([], m)

  -- A newcomer with a valid ID and a normalised name.
  unfoldable pub add_peer : Text → Text → MeshManager → List Effect × MeshManager
  add_peer id name m =
      if present (lookup id m.peers)
      then ([], m)
      else if not w.creates
      then (notify_error ∷ [], m)
      else then_effects (meanwhile m).0 (insert_peer id name (meanwhile m).1)

  named : SignalingMessage → MeshManager → Result ProtocolError Text → List Effect × MeshManager
  named message m (err e) = (notify_error ∷ [], m)
  named message m (ok name) = add_peer message.peer_id name m

  known :
      SignalingMessage → MeshManager → Result ProtocolError (Unit {0}) → List Effect × MeshManager
  unfolding named
  known message m (err e) = (notify_error ∷ [], m)
  known message m (ok x) = named message m (normalize_username u message.username)

  unfoldable pub handle_peer_joined : SignalingMessage → MeshManager → List Effect × MeshManager
  unfolding known
  handle_peer_joined message m =
      if m.stopped then ([], m) else known message m (validate_peer_id u message.peer_id)

  is_ok {ℓ κ} : {E : Type ℓ} {A : Type κ} → Result E A → Bool
  is_ok (ok a) = true
  is_ok (err e) = false

  -- `handleOffer` and `handleAnswer` on a peer that is there: only the offer is answered.
  described :
      Text
      → Text
      → RemotePeer
      → MeshManager
      → Result ProtocolError SdpPayload
      → List Effect × MeshManager
  unfolding is_ok send_description
  described kind id p m (err e) = (notify_error ∷ [], m)
  described kind id p m (ok payload) =
      if not (text_eq payload.kind kind) || text_eq payload.sdp []
      then (notify_error ∷ [], m)
      else (let (r, cs, q) = set_remote_description w.sets_remote w.takes p in
          (
            calls id cs
                ∷ (if not (is_ok r)
                    then notify_error ∷ []
                    else if text_eq kind msg_offer
                    then send_description msg_answer id w.description
                    else []),
            record m { peers = insert id q m.peers },
          ))

  unfoldable pub handle_description :
      Text → SignalingMessage → MeshManager → List Effect × MeshManager
  unfolding described
  handle_description kind message m = elim (lookup message.peer_id m.peers) [
    | none ↦ (notify_error ∷ [], m)
    | some p ↦ described kind message.peer_id p m (decode_payload json.decode_sdp message.payload)
  ]

  suggested :
      Text
      → RemotePeer
      → MeshManager
      → Result ProtocolError IceCandidatePayload
      → List Effect × MeshManager
  unfolding is_ok
  suggested id p m (err e) = (notify_error ∷ [], m)
  suggested id p m (ok payload) =
      if text_eq payload.candidate []
      then (notify_error ∷ [], m)
      else (let (r, cs, q) = add_ice_candidate w.takes (candidate_number payload) p in
          (
            calls id cs ∷ (if is_ok r then [] else notify_error ∷ []),
            record m { peers = insert id q m.peers },
          ))

  unfoldable pub handle_ice_candidate : SignalingMessage → MeshManager → List Effect × MeshManager
  unfolding suggested
  handle_ice_candidate message m = elim (lookup message.peer_id m.peers) [
    | none ↦ (notify_error ∷ [], m)
    | some p ↦ suggested message.peer_id p m (decode_payload json.decode_candidate message.payload)
  ]

  -- An error message and one of an unknown type are only reported.
  unfoldable pub handle_signaling_message :
      SignalingMessage → MeshManager → List Effect × MeshManager
  handle_signaling_message message m =
      if text_eq message.kind msg_peer_joined
      then handle_peer_joined message m
      else if text_eq message.kind msg_peer_left
      then handle_peer_left message.peer_id m
      else if text_eq message.kind msg_offer
      then handle_description msg_offer message m
      else if text_eq message.kind msg_answer
      then handle_description msg_answer message m
      else if text_eq message.kind msg_ice_candidate
      then handle_ice_candidate message m
      else (notify_error ∷ [], m)
