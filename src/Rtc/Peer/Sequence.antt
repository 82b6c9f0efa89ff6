-- ===== src/Rtc/Peer/Sequence.antt =====
-- Frames over a channel that loses, repeats and reorders.
use termcall.Prelude.{
  ℕ, ◌≤◌, ◌<◌, ◌^◌, ◌≡◌, refl, ap, inl, inr, Bool, true, false, not, ◌&&◌, ◌||◌, List, [], ◌∷◌,
  Option, none, some, arith, leb, if◌then◌else◌, length, All, Bool-cases,
}
use termcall.Text.{Bytes}
use termcall.Ascii.Frame.{max_encoded_frame_bytes}
use termcall.Rtc.Frame.{tag_frame, parse_tagged_frame-tag_frame}
use termcall.Rtc.Peer.{
  RemotePeer, compare_and_update_seq, on_message, accepted, shown, update_frame, allow_frame,
}

-- What a sender may tag.
abbrev pub IsFrame : ℕ × Bytes → Type 0
IsFrame (n, frame) =
    (0 < n) × (n < 2 ^ 64) × (0 < length frame) × (length frame ≤ max_encoded_frame_bytes)

keep_shown : ℕ × Bytes → Option Bytes → List (ℕ × Bytes) → List (ℕ × Bytes)
keep_shown message none rest = rest
keep_shown message (some frame) rest = message ∷ rest

-- The messages that arrive, each with the limiter's answer, and those that are shown.
unfoldable pub play : List (Bool × ℕ × Bytes) → RemotePeer → List (ℕ × Bytes)
unfolding keep_shown
play [] peer = []
play ((allowed, n, frame) ∷ ms) peer =
    let (seen, after) = on_message true allowed (tag_frame n frame) peer in
    keep_shown (n, frame) seen (play ms after)

-- Strictly rising numbers, above `last`.
abbrev pub Rising : ℕ → List (ℕ × Bytes) → Type 0
Rising last [] = Unit
Rising last ((n, frame) ∷ ms) = (last < n) × Rising n ms

abbrev pub AllFrames : List (Bool × ℕ × Bytes) → Type 0
AllFrames = All (λ (m : Bool × ℕ × Bytes). IsFrame (m.1, m.2))

-- The three ways a message can go.
on_message_tagged :
    (allowed : Bool) (n : ℕ) (frame : Bytes) (peer : RemotePeer)
    → IsFrame (n, frame)
    → on_message true allowed (tag_frame n frame) peer ≡ (
        if not (not peer.closed && allowed) || leb n peer.last_seq
        then (none, peer)
        else (some frame, record peer { last_seq = n; last_frame = frame }))
unfolding on_message allow_frame accepted shown update_frame compare_and_update_seq
on_message_tagged allowed n frame peer h = elim (Bool-cases (not peer.closed && allowed)) [
  | inr stop ↦ rw stop refl
  | inl go ↦ elim (Bool-cases (leb n peer.last_seq)) [
    | inl old ↦ rw (go, parse_tagged_frame-tag_frame n frame h.0 h.1 h.2 h.3, old) refl
    | inr new ↦ rw (go, parse_tagged_frame-tag_frame n frame h.0 h.1 h.2 h.3, new) refl
  ]
]

-- However the frames of a sender arrive, lost, repeated or out of order, the ones that are shown have
-- strictly rising numbers, all above the last one shown before.
pub play-Rising :
    (ms : List (Bool × ℕ × Bytes)) (peer : RemotePeer)
    → AllFrames ms
    → Rising peer.last_seq (play ms peer)
unfolding play keep_shown
play-Rising [] peer h = tt
play-Rising ((allowed, n, frame) ∷ ms) peer h =
    elim (Bool-cases (not (not peer.closed && allowed) || leb n peer.last_seq)) [
      | inl skip ↦ rw (on_message_tagged allowed n frame peer h.0, skip) (play-Rising ms peer h.1)
      | inr show ↦
          rw (on_message_tagged allowed n frame peer h.0, show)
            (ground arith, play-Rising ms (record peer { last_seq = n; last_frame = frame }) h.1)
    ]

pub plain : List (ℕ × Bytes) → List (Bool × ℕ × Bytes)
plain [] = []
plain ((n, frame) ∷ ms) = (true, n, frame) ∷ plain ms

-- Frames that arrive in the order in which they were sent, at an open peer and within the rate, are
-- all shown.
pub play_in_order :
    (ms : List (ℕ × Bytes)) (peer : RemotePeer)
    → All IsFrame ms
    → peer.closed ≡ false
    → Rising peer.last_seq ms
    → play (plain ms) peer ≡ ms
unfolding play keep_shown plain
play_in_order [] peer h o r = refl
play_in_order ((n, frame) ∷ ms) peer h o r =
    rw (on_message_tagged true n frame peer h.0, passes peer.closed n peer.last_seq o r.0)
      (ap (λ (t : List (ℕ × Bytes)). (n, frame) ∷ t)
        (play_in_order ms (record peer { last_seq = n; last_frame = frame }) h.1 o r.1))
  where
    passes :
        (closed : Bool) (n last : ℕ)
        → closed ≡ false
        → last < n
        → (not (not closed && true) || leb n last) ≡ false
    passes closed n last e h = ground arith
