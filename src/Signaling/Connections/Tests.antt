-- ===== src/Signaling/Connections/Tests.antt =====
-- Runs of the connection counters, and their theorems at concrete histories.
use termcall.Prelude.{refl, arith, [], ◌∷◌, Text}
use termcall.Prelude.Counts.{count-nil, total}
use termcall.Text.{codes}
use termcall.Signaling.Connections.{Connections}
use termcall.Signaling.Connections.Laws.{IsValid, comes, goes, run, run-IsValid}

abbrev empty : Connections
empty = record {
  max_connections = 3;
  max_connections_per_ip = 2;
  connections = [];
  total_connections = 0;
}

abbrev here : Text
here = codes "10.0.0.1"

empty-IsValid : IsValid empty
unfolding total
empty-IsValid = record {
  distinct = tt;
  positive = tt;
  counted = refl;
  bounded = omega arith;
  per_ip = λ a. omega (arith, count-nil a);
}

run-IsValid_example : IsValid (run empty (comes here ∷ comes here ∷ comes here ∷ goes here ∷ []))
run-IsValid_example =
    run-IsValid empty (comes here ∷ comes here ∷ comes here ∷ goes here ∷ []) empty-IsValid
