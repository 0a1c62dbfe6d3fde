-- ===== src/Rete/Window/Tests.antt =====
-- Runs of a WindowNode (rulesforge/src/rete/rete_node.cpp).
use rules_forge.Prelude.{ℕ, ◌≤◌, refl, none, some, List, [], ◌∷◌, length, arith, All}
use rules_forge.Prelude.Int.{pos, ◌-ℤ◌}
use rules_forge.Prelude.Set
use rules_forge.Prelude.Vector.{count}
use rules_forge.Rete.{assert, retract, modify, receive_all}
use rules_forge.Rete.Window.{
  length_window, time_window, Times, enter, refresh, right_activate, expire, expire_length, place,
}
use rules_forge.Rete.Window.View.{WindowCall, Tracks, AreSuited, run, run-Tracks, Suits}
use rules_forge.Rete.Window.Bounds.{
  IsByTime, IsRecent, HasAges, length_window_bounded, time_window_recent,
}

-- The fact f comes at the time f; it is 50 now.
abbrev times : Times
times = record {
  event_time = λ f. some (pos f);
  timestamp = λ f. none;
  current_time = some (pos 50);
}

abbrev two : List ℕ
two = 20 ∷ 40 ∷ []

length_window_bounded_example :
    (length (enter (length_window 2) times 45 two).0 ≤ 2)
    × (length (refresh (length_window 2) times 45 two).0 ≤ 2)
length_window_bounded_example = length_window_bounded 2 times 45 two

ages : HasAges times pos (λ f. refl) (pos 50) (38 ∷ two)
unfolding ◌-ℤ◌
ages = (ground arith, (ground arith, (ground arith, tt)))

time_window_recent_example :
    IsByTime times pos (λ f. refl) (enter (time_window (pos 15)) times 38 two).0
    × All
        (IsRecent times pos (λ f. refl) (pos 15) (pos 50))
        (enter (time_window (pos 15)) times 38 two).0
time_window_recent_example =
    time_window_recent times pos (λ f. refl) (pos 15) (pos 50) 38 two refl ages
      ((omega arith, tt), (tt, tt))

-- A third fact pushes the first one out.
abbrev calls : List WindowCall
calls =
    record { times = times; fact = 1; p_type = assert }
    ∷ record { times = times; fact = 2; p_type = assert }
    ∷ record { times = times; fact = 3; p_type = assert }
    ∷ record { times = times; fact = 3; p_type = modify }
    ∷ record { times = times; fact = 2; p_type = retract }
    ∷ []

calls-AreSuited : AreSuited (length_window 2) calls []
unfolding AreSuited Suits right_activate refresh enter expire expire_length place Set.contains
calls-AreSuited = (refl, (refl, (refl, (refl, (tt, tt)))))

empty-Tracks : Tracks [] []
unfolding count Set.contains
empty-Tracks = record { same = λ g. refl; once = λ g. omega arith }

run-Tracks_example :
    Tracks (receive_all (run (length_window 2) calls []).1 []) (run (length_window 2) calls []).0
run-Tracks_example = run-Tracks (length_window 2) calls [] [] calls-AreSuited empty-Tracks
