-- ===== src/Signaling/Connections/Laws.antt =====
-- internal/signaling/handler.go: the connection counters, against each other and the limits.
use termcall.Prelude.{
  ◌+◌, ◌≤◌, ◌<◌, ◌≡◌, refl, inl, inr, true, false, ◌||◌, List, [], ◌∷◌, arith, leb, if◌then◌else◌,
  Text, text_eq_refl, text_eq_iff, Keyed, Entries, Bool-cases,
}
use termcall.Prelude.Counts.{
  count, increment, total, Positive, count-increment, count-decrement, total-increment,
  total-decrement, increment-Keyed, decrement-Keyed, increment-Positive, decrement-Positive,
  count-le-total,
}
use termcall.Signaling.Connections.{Connections, acquire_connection, release_connection}

pub record IsValid (s : Connections) : Type 0 where
  pub distinct : Keyed s.connections
  pub positive : Entries Positive s.connections
  pub counted : total s.connections ≡ s.total_connections
  pub bounded : s.total_connections ≤ s.max_connections
  pub per_ip : (a : Text) → count a s.connections ≤ s.max_connections_per_ip

-- A connection that is let in keeps the counters valid, and was below both limits.
acquire_step :
    (s : Connections) (address : Text)
    → IsValid s
    → (leb s.max_connections s.total_connections
        || leb s.max_connections_per_ip (count address s.connections))
      ≡ false
    → IsValid (record s {
      connections = increment address s.connections;
      total_connections = s.total_connections + 1;
    })
acquire_step s address v free = record {
  distinct = increment-Keyed address s.connections v.distinct;
  positive = increment-Positive address s.connections v.positive;
  counted = ground (arith, total-increment address s.connections v.distinct, v.counted);
  bounded = ground (arith, v.bounded);
  per_ip =
      λ a. ground (arith, count-increment address a s.connections, v.per_ip a, v.per_ip address);
}

pub acquire_connection-IsValid :
    (s : Connections) (address : Text) → IsValid s → IsValid (acquire_connection s address).1
unfolding acquire_connection
acquire_connection-IsValid s address v =
    elim (Bool-cases (
      leb s.max_connections s.total_connections
      || leb s.max_connections_per_ip (count address s.connections))) [
        | inl full ↦ rw full v
        | inr free ↦ rw free (acquire_step s address v free)
      ]

-- A release by an address that holds a connection keeps them valid too.
pub release_connection-IsValid :
    (s : Connections) (address : Text)
    → IsValid s
    → 0 < count address s.connections
    → IsValid (release_connection s address)
unfolding release_connection
release_connection-IsValid s address v held =
    let t = total-decrement address s.connections v.distinct held in
    let some_left = count-le-total address s.connections in
    record {
      distinct = decrement-Keyed address s.connections v.distinct;
      positive = decrement-Positive address s.connections v.positive;
      counted = ground (arith, t, v.counted);
      bounded = ground (arith, t, v.bounded);
      per_ip = λ a.
          ground (arith, count-decrement address a s.connections, v.per_ip a, v.per_ip address);
    }

-- The calls of a server's handlers: an address comes, or one that was let in goes.
pub data Event : Type 0 where
  comes : Text → Event
  goes : Text → Event

-- A refused connection is not released.
step : Connections → Event → Connections
step s (comes a) = (acquire_connection s a).1
step s (goes a) = if leb 1 (count a s.connections) then release_connection s a else s

pub run : Connections → List Event → Connections
unfolding step
run s [] = s
run s (e ∷ es) = run (step s e) es

step-IsValid : (s : Connections) (e : Event) → IsValid s → IsValid (step s e)
unfolding step
step-IsValid s (comes a) v = acquire_connection-IsValid s a v
step-IsValid s (goes a) v = elim (Bool-cases (leb 1 (count a s.connections))) [
  | inl held ↦ rw held (release_connection-IsValid s a v (ground arith))
  | inr absent ↦ rw absent v
]

-- Over any history of connections and disconnections, the total is the sum of the counters, no
-- address has more than its share, and the server not more than its limit.
pub run-IsValid : (s : Connections) (es : List Event) → IsValid s → IsValid (run s es)
unfolding run
run-IsValid s [] v = v
run-IsValid s (e ∷ es) v = run-IsValid (step s e) es (step-IsValid s e v)

-- Below both limits an address is let in and counted once; a release then takes every counter and
-- the total back to where they were.
pub release-acquire :
    (s : Connections) (address : Text)
    → IsValid s
    → s.total_connections < s.max_connections
    → count address s.connections < s.max_connections_per_ip
    → let (admitted, s') = acquire_connection s address in
      (admitted ≡ true)
      × (count address s'.connections ≡ count address s.connections + 1)
      × ((a : Text) → count a (release_connection s' address).connections ≡ count a s.connections)
      × ((release_connection s' address).total_connections ≡ s.total_connections)
unfolding acquire_connection release_connection
release-acquire s address v h k =
    let free : (leb s.max_connections s.total_connections
          || leb s.max_connections_per_ip (count address s.connections))
        ≡ false =
      ground arith in
    let up = count-increment address address s.connections in
    rw free (
      refl,
      ground (arith, up, text_eq_refl address),
      (λ a. ground (
        arith,
        count-decrement address a (increment address s.connections),
        count-increment address a s.connections,
        up,
        text_eq_refl address,
        text_eq_iff address a,
      )),
      ground arith,
    )
