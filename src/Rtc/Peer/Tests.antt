-- ===== src/Rtc/Peer/Tests.antt =====
-- Runs of a peer, and its theorems at concrete messages.
use termcall.Prelude.{ℕ, ◌≡◌, refl, Bool, true, List, [], ◌∷◌, ◌++◌, some, arith, All}
use termcall.Text.{Bytes, codes}
use termcall.Rtc.Frame.{tag_frame, parse_tagged_frame, parse_tagged_frame-tag_frame}
use termcall.Rtc.Peer.{new_peer}
use termcall.Rtc.Peer.Sequence.{IsFrame, Rising, AllFrames, play, play-Rising, plain, play_in_order}
use termcall.Rtc.Peer.Candidates.{
  Event, candidate, description, handed, run, taken, IsQueue, run-taken,
}

abbrev late : List (Bool × ℕ × Bytes)
late =
    (true, 1, codes "a") ∷ (true, 3, codes "c") ∷ (true, 2, codes "b") ∷ (true, 3, codes "c") ∷ []

abbrev sent : List (ℕ × Bytes)
sent = (1, codes "a") ∷ (2, codes "b") ∷ []

abbrev events : List Event
events = candidate 7 ∷ candidate 8 ∷ description true ∷ candidate 9 ∷ []

new_peer-IsQueue : IsQueue new_peer
new_peer-IsQueue = record { short = omega arith; flushed = λ h. refl }

parse_tagged_frame-tag_frame_example :
    parse_tagged_frame (tag_frame 12 (codes "frame")) ≡ some (12, codes "frame")
parse_tagged_frame-tag_frame_example =
    parse_tagged_frame-tag_frame 12 (codes "frame") (omega arith) (omega arith) (omega arith)
      (omega arith)

late-AllFrames : AllFrames late
late-AllFrames = ground arith

sent-IsFrame : All IsFrame sent
sent-IsFrame = ground arith

play-Rising_example : Rising 0 (play late new_peer)
play-Rising_example = play-Rising late new_peer late-AllFrames

play_in_order_example : play (plain sent) new_peer ≡ sent
play_in_order_example =
    play_in_order sent new_peer sent-IsFrame refl (omega arith, (omega arith, tt))

run-taken_example :
    (handed (run (λ c. true) events new_peer).0 ++ (run (λ c. true) events new_peer).1.pending_ice
      ≡ taken (λ c. true) events new_peer)
    × IsQueue (run (λ c. true) events new_peer).1
run-taken_example = run-taken (λ c. true) events new_peer new_peer-IsQueue
