-- ===== src/Rtc/Peer/Candidates.antt =====
-- internal/rtc/peer.go: the candidates on their way to the connection.
use termcall.Prelude.{
  ℕ, ◌≤◌, ◌≡◌, refl, sym, ap, ◌∙◌, inl, inr, Bool, true, List, [], ◌∷◌, ◌++◌, append_assoc,
  append-nil, map, arith, leb, if◌then◌else◌, Result, ok, err, length, length-append, Bool-cases,
}
use termcall.Rtc.Peer.{
  RemotePeer, PeerError, peer_closed, too_many_candidates, no_connection, description_refused,
  candidate_refused, all_taken, Call, add_candidate, close_player, close_connection,
  add_ice_candidate, set_remote_description, max_pending_ice_candidates,
}

-- A candidate that the signaling brings, or a description, with the connection's answer to it.
pub data Event : Type 0 where
  candidate : ℕ → Event
  description : Bool → Event

-- The candidates among the calls.
unfoldable pub handed : List Call → List ℕ
handed [] = []
handed (add_candidate c ∷ calls) = c ∷ handed calls
handed (close_player p ∷ calls) = handed calls
handed (close_connection ∷ calls) = handed calls

unfoldable pub step : (ℕ → Bool) → Event → RemotePeer → List Call × RemotePeer
step takes (candidate c) peer =
    let (r, calls, next) = add_ice_candidate takes c peer in (calls, next)
step takes (description applies) peer =
    let (r, calls, next) = set_remote_description applies takes peer in (calls, next)

-- The candidates of the connection and of the queue, and the state.
unfoldable pub run : (ℕ → Bool) → List Event → RemotePeer → List Call × RemotePeer
run takes [] peer = ([], peer)
run takes (e ∷ es) peer =
    let (calls, next) = step takes e peer in
    let (more, last) = run takes es next in (calls ++ more, last)

-- The candidates that the peer takes: those of a closed peer and those beyond a full queue are refused.
unfoldable pub taken_one : Event → RemotePeer → List ℕ
taken_one (description applies) peer = []
taken_one (candidate c) peer =
    if peer.closed
    then []
    else if peer.remote_description_set
    then c ∷ []
    else if leb max_pending_ice_candidates (length peer.pending_ice)
    then []
    else c ∷ []

unfoldable pub taken : (ℕ → Bool) → List Event → RemotePeer → List ℕ
taken takes [] peer = []
taken takes (e ∷ es) peer = taken_one e peer ++ taken takes es (step takes e peer).1

-- The queue is within its bound, and empty once the description is set.
pub record IsQueue (peer : RemotePeer) : Type 0 where
  pub short : length peer.pending_ice ≤ max_pending_ice_candidates
  pub flushed : peer.remote_description_set ≡ true → peer.pending_ice ≡ []

handed-map : (cs : List ℕ) → handed (map add_candidate cs) ≡ cs
unfolding handed
handed-map [] = refl
handed-map (c ∷ cs) = ap (λ (t : List ℕ). c ∷ t) (handed-map cs)

handed-append : (a b : List Call) → handed (a ++ b) ≡ handed a ++ handed b
unfolding handed
handed-append [] b = refl
handed-append (add_candidate c ∷ a) b = ap (λ (t : List ℕ). c ∷ t) (handed-append a b)
handed-append (close_player p ∷ a) b = handed-append a b
handed-append (close_connection ∷ a) b = handed-append a b

-- What one event does to the candidates.
abbrev Conserves : (ℕ → Bool) → Event → RemotePeer → Type 0
Conserves takes e peer =
    (handed (step takes e peer).0 ++ (step takes e peer).1.pending_ice
      ≡ peer.pending_ice ++ taken_one e peer)
    × IsQueue (step takes e peer).1

by_candidate :
    (takes : ℕ → Bool) (c : ℕ) (peer : RemotePeer)
    (a : Result PeerError (Unit {0}) × List Call × RemotePeer) (t : List ℕ)
    → add_ice_candidate takes c peer ≡ a
    → taken_one (candidate c) peer ≡ t
    → (handed a.1 ++ a.2.pending_ice ≡ peer.pending_ice ++ t) × IsQueue a.2
    → Conserves takes (candidate c) peer
unfolding step
by_candidate takes c peer a t ea et h = rw (ea, et) h

candidate-Conserves :
    (takes : ℕ → Bool) (c : ℕ) (peer : RemotePeer)
    → IsQueue peer
    → Conserves takes (candidate c) peer
unfolding add_ice_candidate taken_one handed
candidate-Conserves takes c peer q = elim (Bool-cases peer.closed) [
  | inl e ↦
      by_candidate takes c peer (err peer_closed, [], peer) [] (ground arith) (ground arith)
        (sym (append-nil peer.pending_ice), q)
  | inr e ↦ elim (Bool-cases peer.remote_description_set) [
    | inl set ↦
        by_candidate takes c peer
          ((if takes c then ok tt else err candidate_refused), add_candidate c ∷ [], peer) (c ∷ [])
          (ground arith) (ground arith)
          (
            ap (λ (t : List ℕ). c ∷ t) (q.flushed set)
                ∙ ap (λ (t : List ℕ). t ++ c ∷ []) (sym (q.flushed set)),
            q,
          )
    | inr unset ↦ elim (Bool-cases (leb max_pending_ice_candidates (length peer.pending_ice))) [
      | inl full ↦
          by_candidate takes c peer (err too_many_candidates, [], peer) [] (ground arith)
            (ground arith) (sym (append-nil peer.pending_ice), q)
      | inr space ↦
          by_candidate takes c peer
            (ok tt, [], record peer { pending_ice = peer.pending_ice ++ c ∷ [] }) (c ∷ [])
            (ground arith) (ground arith)
            (
              refl,
              record {
                short = ground (arith, length-append peer.pending_ice (c ∷ []));
                flushed = λ h. absurd (cc);
              },
            )
    ]
  ]
]

by_description :
    (takes : ℕ → Bool) (applies : Bool) (peer : RemotePeer)
    (a : Result PeerError (Unit {0}) × List Call × RemotePeer)
    → set_remote_description applies takes peer ≡ a
    → (handed a.1 ++ a.2.pending_ice ≡ peer.pending_ice) × IsQueue a.2
    → Conserves takes (description applies) peer
unfolding step taken_one
by_description takes applies peer a ea h = rw ea (h.0 ∙ sym (append-nil peer.pending_ice), h.1)

description-Conserves :
    (takes : ℕ → Bool) (applies : Bool) (peer : RemotePeer)
    → IsQueue peer
    → Conserves takes (description applies) peer
unfolding set_remote_description handed
description-Conserves takes applies peer q = elim (Bool-cases peer.closed) [
  | inl e ↦ by_description takes applies peer (err peer_closed, [], peer) (ground arith) (refl, q)
  | inr e ↦ elim (Bool-cases peer.has_connection) [
    | inr no_pc ↦
        by_description takes applies peer (err no_connection, [], peer) (ground arith) (refl, q)
    | inl pc ↦ elim (Bool-cases applies) [
      | inr refused ↦
          by_description takes applies peer (err description_refused, [], peer) (ground arith)
            (refl, q)
      | inl applied ↦
          by_description takes applies peer
            (
              (if all_taken takes peer.pending_ice then ok tt else err candidate_refused),
              map add_candidate peer.pending_ice,
              record peer { remote_description_set = true; pending_ice = [] },
            )
            (ground arith)
            (
              append-nil _ ∙ handed-map peer.pending_ice,
              record { short = omega arith; flushed = λ h. refl },
            )
    ]
  ]
]

step-Conserves :
    (takes : ℕ → Bool) (e : Event) (peer : RemotePeer) → IsQueue peer → Conserves takes e peer
step-Conserves takes (candidate c) peer q = candidate-Conserves takes c peer q
step-Conserves takes (description applies) peer q = description-Conserves takes applies peer q

-- Whatever candidates and descriptions come, in whatever order: what the connection has been handed,
-- and behind it what still waits, is what waited before and behind it what the peer has taken since,
-- each candidate once and in its order; and the queue stays within its bound.
pub run-taken :
    (takes : ℕ → Bool) (es : List Event) (peer : RemotePeer)
    → IsQueue peer
    → (handed (run takes es peer).0 ++ (run takes es peer).1.pending_ice
        ≡ peer.pending_ice ++ taken takes es peer)
      × IsQueue (run takes es peer).1
unfolding run taken handed
run-taken takes [] peer q = (sym (append-nil peer.pending_ice), q)
run-taken takes (e ∷ es) peer q =
    let (one, q1) = step-Conserves takes e peer q in
    let (more, q2) = run-taken takes es (step takes e peer).1 q1 in
    (
      ap (λ (t : List ℕ). t ++ (run takes es (step takes e peer).1).1.pending_ice)
            (handed-append (step takes e peer).0 (run takes es (step takes e peer).1).0)
          ∙ append_assoc (handed (step takes e peer).0)
              (handed (run takes es (step takes e peer).1).0) _
          ∙ ap (λ (t : List ℕ). handed (step takes e peer).0 ++ t) more
          ∙ sym (
              append_assoc (handed (step takes e peer).0) (step takes e peer).1.pending_ice
                (taken takes es (step takes e peer).1))
          ∙ ap (λ (t : List ℕ). t ++ taken takes es (step takes e peer).1) one
          ∙ append_assoc peer.pending_ice (taken_one e peer) (taken takes es (step takes e peer).1),
      q2,
    )
