-- ===== src/Tui/Call/Peers.antt =====
-- The peers that a call shows.
use termcall.Prelude.{
  ◌≡◌, refl, ap, ◌∙◌, inl, inr, Bool, true, false, not, ◌&&◌, ◌||◌, List, [], ◌∷◌, ◌++◌, Option,
  none, some, arith, if◌then◌else◌, Result, ok, err, Text, text_eq, text_eq_iff, text_eq_refl,
  lookup, insert, delete, lookup-insert, lookup-delete, Bool-cases,
}
use termcall.Text.{codes}
use termcall.Ascii.Cell.{Grid, RenderMode}
use termcall.Ascii.Frame.{FrameError}
use termcall.Ascii.Decoder.{DeltaDecoder}
use termcall.Tui.Model.{CallModel, present, flag, has, is_removed, drop_first}
use termcall.Tui.Call.{add_peer, remove_peer, meet, show_frame, hide}

abbrev pub member : Text → List Text → Bool
member id [] = false
member id (other ∷ ids) = text_eq other id || member id ids

abbrev pub Distinct : List Text → Type 0
Distinct [] = Unit {0}
Distinct (id ∷ ids) = (member id ids ≡ false) × Distinct ids

present-if :
    {V : Type 0} (t : Bool) (o p : Option V)
    → present (if t then o else p) ≡ (if t then present o else present p)
present-if true o p = refl
present-if false o p = refl

flag-if :
    (t : Bool) (o p : Option Bool) → flag (if t then o else p) ≡ (if t then flag o else flag p)
flag-if true o p = refl
flag-if false o p = refl

has-insert :
    {V : Type 0} (k j : Text) (v : V) (m : List (Text × V))
    → has j (insert k v m) ≡ (text_eq k j || has j m)
unfolding has present
has-insert k j v m =
    ap present (lookup-insert k j v m)
    ∙ present-if (text_eq k j) (some v) (lookup j m)
    ∙ ground arith

has-delete :
    {V : Type 0} (k j : Text) (m : List (Text × V))
    → has j (delete k m) ≡ (not (text_eq k j) && has j m)
unfolding has present
has-delete k j m =
    ap present (lookup-delete k j m) ∙ present-if (text_eq k j) none (lookup j m) ∙ ground arith

is_removed-insert :
    (k j : Text) (m : List (Text × Bool))
    → is_removed j (insert k true m) ≡ (text_eq k j || is_removed j m)
unfolding is_removed flag
is_removed-insert k j m =
    ap flag (lookup-insert k j true m)
    ∙ flag-if (text_eq k j) (some true) (lookup j m)
    ∙ ground arith

is_removed-delete :
    (k j : Text) (m : List (Text × Bool))
    → is_removed j (delete k m) ≡ (not (text_eq k j) && is_removed j m)
unfolding is_removed flag
is_removed-delete k j m =
    ap flag (lookup-delete k j m) ∙ flag-if (text_eq k j) none (lookup j m) ∙ ground arith

member-append :
    (j id : Text) (ids : List Text) → member j (ids ++ id ∷ []) ≡ (member j ids || text_eq id j)
member-append j id [] = ground arith
member-append j id (other ∷ ids) = ground (arith, member-append j id ids)

Distinct-append :
    (id : Text) (ids : List Text) → Distinct ids → member id ids ≡ false → Distinct (ids ++ id ∷ [])
Distinct-append id [] h new = (refl, tt)
Distinct-append id (other ∷ ids) h new = (
  ground (arith, member-append other id ids, text_eq_iff other id, text_eq_iff id other),
  Distinct-append id ids h.1 (ground arith),
)

member-drop_first :
    (j id : Text) (ids : List Text)
    → Distinct ids
    → member j (drop_first id ids) ≡ (not (text_eq id j) && member j ids)
unfolding drop_first
member-drop_first j id [] h = ground arith
member-drop_first j id (other ∷ ids) h = ground (
  arith,
  member-drop_first j id ids h.1,
  text_eq_iff other id,
  text_eq_iff id j,
  text_eq_iff other j,
)

Distinct-drop_first : (id : Text) (ids : List Text) → Distinct ids → Distinct (drop_first id ids)
unfolding drop_first
Distinct-drop_first id [] h = tt
Distinct-drop_first id (other ∷ ids) h =
    ground (arith, Distinct-drop_first id ids h.1, member-drop_first other id ids h.1)

-- The parts of a call that are about its peers.
pub record Roster : Type 0 where
  pub peers : List Text
  pub names : List (Text × Text)
  pub cells : List (Text × Grid)
  pub modes : List (Text × RenderMode)
  pub decoders : List (Text × DeltaDecoder)
  pub removed : List (Text × Bool)

-- The list shows each named peer once. A peer that has left is not named, and of a peer that is not
-- named there is neither a picture nor a decoder.
pub record IsRoster (r : Roster) : Type 0 where
  pub once : Distinct r.peers
  pub named : (j : Text) → member j r.peers ≡ has j r.names
  pub left : (j : Text) → is_removed j r.removed ≡ true → has j r.names ≡ false
  pub shown : (j : Text) → has j r.cells ≡ true → has j r.names ≡ true
  pub moded : (j : Text) → has j r.modes ≡ has j r.cells
  pub decoded : (j : Text) → has j r.decoders ≡ true → has j r.names ≡ true

module _ {Stats Level : Type 0} where
  abbrev pub roster : CallModel Stats Level → Roster
  roster c = record {
    peers = c.peers;
    names = c.peer_names;
    cells = c.peer_cells;
    modes = c.peer_modes;
    decoders = c.peer_decoders;
    removed = c.removed_peers;
  }

  pub add_peer-IsRoster :
      (id name : Text) (c : CallModel Stats Level)
      → IsRoster (roster c)
      → IsRoster (roster (add_peer id name c))
  unfolding add_peer
  add_peer-IsRoster id name c h = elim (Bool-cases (has id c.peer_names)) [
    | inl e ↦ rw e (record {
      once = h.once;
      named = λ j. ground (arith, h.named j, has-insert id j name c.peer_names, text_eq_iff id j);
      left = λ j r. ground (
        arith,
        h.left j,
        has-insert id j name c.peer_names,
        is_removed-delete id j c.removed_peers,
      );
      shown = λ j s. ground (arith, h.shown j, has-insert id j name c.peer_names);
      moded = h.moded;
      decoded = λ j s. ground (arith, h.decoded j, has-insert id j name c.peer_names);
    })
    | inr e ↦ rw e (record {
      once = Distinct-append id c.peers h.once (h.named id ∙ e);
      named = λ j.
          ground (arith, h.named j, has-insert id j name c.peer_names, member-append j id c.peers);
      left = λ j r. ground (
        arith,
        h.left j,
        has-insert id j name c.peer_names,
        is_removed-delete id j c.removed_peers,
      );
      shown = λ j s. ground (arith, h.shown j, has-insert id j name c.peer_names);
      moded = h.moded;
      decoded = λ j s. ground (arith, h.decoded j, has-insert id j name c.peer_names);
    })
  ]

  pub remove_peer-IsRoster :
      (id : Text) (c : CallModel Stats Level)
      → IsRoster (roster c)
      → IsRoster (roster (remove_peer id c))
  unfolding remove_peer
  remove_peer-IsRoster id c h = record {
    once = Distinct-drop_first id c.peers h.once;
    named = λ j.
        ground
          (arith, h.named j, has-delete id j c.peer_names, member-drop_first j id c.peers h.once);
    left = λ j r.
        ground
          (arith, h.left j, has-delete id j c.peer_names, is_removed-insert id j c.removed_peers);
    shown = λ j s.
        ground (arith, h.shown j, has-delete id j c.peer_names, has-delete id j c.peer_cells);
    moded =
        λ j. ground (arith, h.moded j, has-delete id j c.peer_modes, has-delete id j c.peer_cells);
    decoded = λ j s.
        ground (arith, h.decoded j, has-delete id j c.peer_names, has-delete id j c.peer_decoders);
  }

  pub meet-IsRoster :
      (id : Text) (c : CallModel Stats Level)
      → is_removed id c.removed_peers ≡ false
      → IsRoster (roster c)
      → IsRoster (roster (meet id c)) × (has id (meet id c).peer_names ≡ true)
  unfolding meet
  meet-IsRoster id c present h = elim (Bool-cases (has id c.peer_names)) [
    | inl e ↦ rw e (h, e)
    | inr e ↦ rw e (
      record {
        once = Distinct-append id c.peers h.once (h.named id ∙ e);
        named = λ j. ground (
          arith,
          h.named j,
          has-insert id j (codes "Peer " ++ id) c.peer_names,
          member-append j id c.peers,
        );
        left = λ j r.
            ground (
              arith,
              h.left j,
              has-insert id j (codes "Peer " ++ id) c.peer_names,
              text_eq_iff id j,
            );
        shown =
            λ j s. ground (arith, h.shown j, has-insert id j (codes "Peer " ++ id) c.peer_names);
        moded = h.moded;
        decoded =
            λ j s. ground (arith, h.decoded j, has-insert id j (codes "Peer " ++ id) c.peer_names);
      },
      ground (arith, has-insert id id (codes "Peer " ++ id) c.peer_names, text_eq_refl id),
    )
  ]

  pub hide-IsRoster :
      (id : Text) (c : CallModel Stats Level) → IsRoster (roster c) → IsRoster (roster (hide id c))
  unfolding hide
  hide-IsRoster id c h = record {
    once = h.once;
    named = h.named;
    left = h.left;
    shown = λ j s. ground (arith, h.shown j, has-delete id j c.peer_cells);
    moded =
        λ j. ground (arith, h.moded j, has-delete id j c.peer_modes, has-delete id j c.peer_cells);
    decoded = h.decoded;
  }

  pub show_frame-IsRoster :
      (id : Text) (c : CallModel Stats Level) (d : DeltaDecoder)
      (r : Result FrameError DeltaDecoder)
      → has id c.peer_names ≡ true
      → IsRoster (roster c)
      → IsRoster (roster (show_frame id c d r))
  unfolding show_frame
  show_frame-IsRoster id c d (err e) known h = record {
    once = h.once;
    named = h.named;
    left = h.left;
    shown = h.shown;
    moded = h.moded;
    decoded =
        λ j s. ground (arith, h.decoded j, has-insert id j d c.peer_decoders, text_eq_iff id j);
  }
  show_frame-IsRoster id c d (ok after) known h = record {
    once = h.once;
    named = h.named;
    left = h.left;
    shown =
        λ j s. ground (arith, h.shown j, has-insert id j after.grid c.peer_cells, text_eq_iff id j);
    moded = λ j. ground (
      arith,
      h.moded j,
      has-insert id j after.mode c.peer_modes,
      has-insert id j after.grid c.peer_cells,
    );
    decoded =
        λ j s. ground (arith, h.decoded j, has-insert id j after c.peer_decoders, text_eq_iff id j);
  }
