-- ===== src/Rtc/Peer.antt =====
-- internal/rtc/peer.go: `RemotePeer`. Each method holds the peer's lock where it changes it.
--
-- A channel, a player and a candidate are numbers, as the code only passes them on. What a method
-- calls on the WebRTC connection and the player is returned as a list of calls, in order; the answers
-- of the connection are parameters.
pub mod Sequence
pub mod Candidates
mod Tests
use termcall.Prelude.{
  ℕ, ◌+◌, ◌-◌, Bool, true, false, not, ◌&&◌, ◌||◌, List, [], ◌∷◌, ◌++◌, map, Option, none, some,
  ltb, leb, ◌==◌, if◌then◌else◌, Result, ok, err, length,
}
use termcall.Text.{Bytes}
use termcall.Rtc.Frame.{parse_tagged_frame}

abbrev pub max_pending_ice_candidates : ℕ
max_pending_ice_candidates = 256

pub record RemotePeer : Type 0 where
  pub last_seq : ℕ
  pub has_connection : Bool
  pub data_channel : Option ℕ
  pub player : Option ℕ
  pub last_frame : Bytes
  pub pending_ice : List ℕ
  pub remote_description_set : Bool
  pub closed : Bool

pub data PeerError : Type 0 where
  peer_closed too_many_candidates no_connection description_refused candidate_refused : PeerError

pub data Call : Type 0 where
  add_candidate close_player : ℕ → Call
  close_connection : Call

abbrev pub new_peer : RemotePeer
new_peer = record {
  last_seq = 0;
  has_connection = true;
  data_channel = none;
  player = none;
  last_frame = [];
  pending_ice = [];
  remote_description_set = false;
  closed = false;
}

unfoldable pub set_data_channel : ℕ → RemotePeer → Bool × RemotePeer
set_data_channel channel peer =
    if peer.closed then (false, peer) else (true, record peer { data_channel = some channel })

-- The player that was there before, and whether the new one is taken.
unfoldable pub set_player : ℕ → RemotePeer → Option ℕ × Bool × RemotePeer
set_player player peer =
    if peer.closed
    then (none, false, peer)
    else (peer.player, true, record peer { player = some player })

is_player : ℕ → Option ℕ → Bool
is_player player none = false
is_player player (some p) = p == player

unfoldable pub clear_player : ℕ → RemotePeer → RemotePeer
unfolding is_player
clear_player player peer =
    if is_player player peer.player then record peer { player = none } else peer

unfoldable pub update_frame : Bytes → RemotePeer → RemotePeer
update_frame frame peer = record peer { last_frame = frame }

unfoldable pub compare_and_update_seq : ℕ → RemotePeer → Bool × RemotePeer
compare_and_update_seq sequence peer =
    if leb sequence peer.last_seq
    then (false, peer)
    else (true, record peer { last_seq = sequence })

-- `allowed` is the answer of the rate limiter.
unfoldable pub allow_frame : Bool → RemotePeer → Bool
allow_frame allowed peer = not peer.closed && allowed

shown : Bool → Bytes → RemotePeer → Option Bytes × RemotePeer
shown false frame peer = (none, peer)
shown true frame peer = (some frame, update_frame frame peer)

accepted : Option (ℕ × Bytes) → RemotePeer → Option Bytes × RemotePeer
unfolding shown
accepted none peer = (none, peer)
accepted (some (sequence, frame)) peer =
    let (newer, peer) = compare_and_update_seq sequence peer in shown newer frame peer

-- The channel's `OnMessage` in mesh.go: the frame that is shown, if any.
unfoldable pub on_message : Bool → Bool → Bytes → RemotePeer → Option Bytes × RemotePeer
unfolding accepted
on_message is_string allowed raw peer =
    if not is_string || not (allow_frame allowed peer)
    then (none, peer)
    else accepted (parse_tagged_frame raw) peer

-- What AddICECandidate does beyond queueing is one call, whose answer it returns.
unfoldable pub add_ice_candidate :
    (ℕ → Bool) → ℕ → RemotePeer → Result PeerError (Unit {0}) × List Call × RemotePeer
add_ice_candidate takes candidate peer =
    if peer.closed
    then (err peer_closed, [], peer)
    else if not peer.remote_description_set
    then (if leb max_pending_ice_candidates (length peer.pending_ice)
        then (err too_many_candidates, [], peer)
        else (ok tt, [], record peer { pending_ice = peer.pending_ice ++ candidate ∷ [] }))
    else (
      (if takes candidate then ok tt else err candidate_refused),
      add_candidate candidate ∷ [],
      peer,
    )

all_taken : (ℕ → Bool) → List ℕ → Bool
all_taken takes [] = true
all_taken takes (c ∷ cs) = takes c && all_taken takes cs

unfoldable pub set_remote_description :
    Bool → (ℕ → Bool) → RemotePeer → Result PeerError (Unit {0}) × List Call × RemotePeer
unfolding all_taken
set_remote_description applies takes peer =
    if peer.closed
    then (err peer_closed, [], peer)
    else if not peer.has_connection
    then (err no_connection, [], peer)
    else if not applies
    then (err description_refused, [], peer)
    else (
      (if all_taken takes peer.pending_ice then ok tt else err candidate_refused),
      map add_candidate peer.pending_ice,
      record peer { remote_description_set = true; pending_ice = [] },
    )

player_calls : Option ℕ → List Call
player_calls none = []
player_calls (some p) = close_player p ∷ []

-- `closeOnce` runs the body once; a peer is closed by nothing else.
unfoldable pub close : RemotePeer → List Call × RemotePeer
unfolding player_calls
close peer = if peer.closed then ([], peer) else (
  player_calls peer.player ++ (if peer.has_connection then close_connection ∷ [] else []),
  record peer { closed = true; player = none; pending_ice = [] },
)

-- `counterDelta`: a counter that has fallen was reset.
unfoldable pub counter_delta : ℕ → ℕ → ℕ
counter_delta now previous = if ltb now previous then now else now - previous
