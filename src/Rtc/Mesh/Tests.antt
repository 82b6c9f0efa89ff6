-- ===== src/Rtc/Mesh/Tests.antt =====
-- The theorems on the mesh at a concrete call.
use termcall.Prelude.{ℕ, ◌≢◌, arith, refl, true, false, [], ◌∷◌, Option, some, lookup, text_eq}
use termcall.Text.{Bytes, codes}
use termcall.Protocol.Message.{SignalingMessage, new_message, msg_peer_joined}
use termcall.Protocol.Validate.{
  SdpPayload, IceCandidatePayload, validate_peer_id, is_identifier_rune,
}
use termcall.Protocol.Validate.Samples.{ascii, plain_json}
use termcall.Rtc.Peer.{new_peer}
use termcall.Rtc.Mesh.{MeshManager, Answers, handle_signaling_message}
use termcall.Rtc.Mesh.Invariant.{IsMesh}
use termcall.Rtc.Mesh.Peers.{handle_signaling_message-IsMesh}

abbrev call : MeshManager
call = record { local_peer_id = codes "a"; peers = (codes "b", new_peer) ∷ []; stopped = false }

abbrev answers : Answers
answers = record {
  stops = true;
  creates = true;
  channel = some 1;
  description = some (codes "v=0");
  sets_local = true;
  sets_remote = true;
  takes = λ c. true;
  delivers = true;
}

abbrev arrival : SignalingMessage
arrival = record (new_message msg_peer_joined) { peer_id = codes "c"; username = codes "cat" }

abbrev write_sdp : SdpPayload → Option Bytes
write_sdp p = some p.sdp

abbrev number : IceCandidatePayload → ℕ
number c = 0

call-IsMesh : IsMesh ascii call
unfolding lookup validate_peer_id text_eq is_identifier_rune
call-IsMesh = record { distinct = (refl, tt); good = ((refl, refl), tt); empty = λ s. absurd (cc) }

handle_signaling_message-IsMesh_example :
    IsMesh ascii (handle_signaling_message ascii plain_json write_sdp number answers arrival call).1
handle_signaling_message-IsMesh_example =
    handle_signaling_message-IsMesh ascii plain_json write_sdp number answers arrival call
      call-IsMesh

different : codes "b" ≢ codes "a"
different e = ground arith
