-- ===== src/Rtc/Mesh/Invariant.antt =====
-- internal/rtc/mesh.go: the invariant of the peers of a mesh.
use termcall.Prelude.{
  ℕ, ◌≡◌, refl, sym, ap, ◌∙◌, ◌≢◌, inl, inr, Bool, true, false, not, ◌||◌, List, [], ◌∷◌, some,
  arith, ◌==◌, if◌then◌else◌, ok, Text, lookup, insert, Keyed, Entries, Entries-insert,
  Entries-delete, Entries-lookup, insert-Keyed, delete-Keyed, ==_iff, Bool-cases, Option-cases,
}
use termcall.Protocol.Validate.{Runes, validate_peer_id}
use termcall.Rtc.Peer.{RemotePeer, set_data_channel, set_remote_description, add_ice_candidate}
use termcall.Rtc.Mesh.{MeshManager, Effect, greater, handle_peer_left, stop, close_all}

-- Of two different IDs exactly one is greater, so of two peers that meet exactly one makes the offer.
pub greater_total : (a b : Text) → a ≢ b → greater a b ≡ not (greater b a)
unfolding greater
greater_total [] [] n = absurd (n refl)
greater_total [] (d ∷ b) n = refl
greater_total (c ∷ a) [] n = refl
greater_total (c ∷ a) (d ∷ b) n = elim (Bool-cases (c == d)) [
  | inl e ↦ same e (greater_total a b (λ t. n (both e t)))
  | inr e ↦ ground arith
]
  where
    both : (c == d) ≡ true → a ≡ b → c ∷ a ≡ d ∷ b
    both e t = rw ((==_iff c d).0 e, t) refl

    same :
        (c == d) ≡ true
        → greater a b ≡ not (greater b a)
        → greater (c ∷ a) (d ∷ b) ≡ not (greater (d ∷ b) (c ∷ a))
    same e t = ground arith

pub description-closed :
    (applies : Bool) (takes : ℕ → Bool) (p : RemotePeer)
    → p.closed ≡ false
    → (set_remote_description applies takes p).2.closed ≡ false
unfolding set_remote_description
description-closed applies takes p h = ground arith

pub candidate-closed :
    (takes : ℕ → Bool) (c : ℕ) (p : RemotePeer)
    → p.closed ≡ false
    → (add_ice_candidate takes c p).2.closed ≡ false
unfolding add_ice_candidate
candidate-closed takes c p h = ground arith

pub channel-closed :
    (c : ℕ) (p : RemotePeer) → p.closed ≡ false → (set_data_channel c p).1.closed ≡ false
unfolding set_data_channel
channel-closed c p h = ground arith

pub or_right : (a b : Bool) → (a || b) ≡ false → b ≡ false
or_right a b h = ground arith

stop_again : (m : MeshManager) → m.stopped ≡ true → stop m ≡ ([], m)
unfolding stop
stop_again m s = ground arith

stop_running :
    (m : MeshManager)
    → m.stopped ≡ false
    → stop m ≡ (close_all m.peers, record m { peers = []; stopped = true })
unfolding stop
stop_running m s = ground arith

module _ (u : Runes) where
  abbrev pub IsPeer : Text → RemotePeer → Type 0
  IsPeer id p = (p.closed ≡ false) × (validate_peer_id u id ≡ ok tt)

  -- An ID stands once and is valid, no peer is closed, and a mesh that is stopped has none.
  pub record IsMesh (m : MeshManager) : Type 0 where
    pub distinct : Keyed m.peers
    pub good : Entries IsPeer m.peers
    pub empty : m.stopped ≡ true → m.peers ≡ []

  missing :
      (m : MeshManager) (id : Text) (p : RemotePeer) → lookup id m.peers ≡ some p → m.peers ≡ [] → ⊥
  missing m id p l e = not_there (sym (ap (λ (ps : List (Text × RemotePeer)). lookup id ps) e) ∙ l)
    where
      not_there : lookup id [] ≡ some p → ⊥
      not_there h = unfold lookup in cc

  -- A peer that is there changes and stays open.
  pub replace-IsMesh :
      (m : MeshManager) (id : Text) (p q : RemotePeer)
      → IsMesh m
      → lookup id m.peers ≡ some p
      → q.closed ≡ false
      → IsMesh (record m { peers = insert id q m.peers })
  replace-IsMesh m id p q h l open_q = record {
    distinct = insert-Keyed id q m.peers h.distinct;
    good =
        Entries-insert IsPeer id q m.peers (open_q, (Entries-lookup IsPeer id p m.peers h.good l).1)
          h.good;
    empty = λ s. absurd (missing m id p l (h.empty s));
  }

  -- A valid newcomer in a mesh that runs.
  pub add-IsMesh :
      (m : MeshManager) (id : Text) (q : RemotePeer)
      → IsMesh m
      → m.stopped ≡ false
      → q.closed ≡ false
      → validate_peer_id u id ≡ ok tt
      → IsMesh (record m { peers = insert id q m.peers })
  add-IsMesh m id q h running open_q v = record {
    distinct = insert-Keyed id q m.peers h.distinct;
    good = Entries-insert IsPeer id q m.peers (open_q, v) h.good;
    empty = λ s. absurd (both m.stopped s running);
  }
    where
      both : (t : Bool) → t ≡ true → t ≡ false → ⊥
      both t a b = cc

  pub branches :
      (t : Bool) (a b : List Effect × MeshManager)
      → (t ≡ true → IsMesh a.1)
      → (t ≡ false → IsMesh b.1)
      → IsMesh (if t then a else b).1
  branches true a b f g = f refl
  branches false a b f g = g refl

  pub left-IsMesh : (id : Text) (m : MeshManager) → IsMesh m → IsMesh (handle_peer_left id m).1
  unfolding handle_peer_left
  left-IsMesh id m h = elim (Option-cases (lookup id m.peers)) [
    | inl l ↦ rw (l, handle_peer_left) h
    | inr (p, l) ↦
        rw (l, handle_peer_left)
          (record {
            distinct = delete-Keyed id m.peers h.distinct;
            good = Entries-delete IsPeer id m.peers h.good;
            empty = λ s. absurd (missing m id p l (h.empty s));
          })
  ]

  -- Stopping a mesh leaves no peer in it.
  pub stop-IsMesh : (m : MeshManager) → IsMesh m → IsMesh (stop m).1 × ((stop m).1.peers ≡ [])
  stop-IsMesh m h = elim (Bool-cases m.stopped) [
    | inl s ↦ rw (stop_again m s) (h, h.empty s)
    | inr s ↦ rw (stop_running m s) (record { distinct = tt; good = tt; empty = λ t. refl }, refl)
  ]
