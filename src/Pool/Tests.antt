-- ===== src/Pool/Tests.antt =====
-- A run of the session pool (rulesforge/include/engine/session_pool.hpp).
use rules_forge.Prelude.{◌≡◌, refl, Option, none, some, List, [], ◌∷◌, length}
use rules_forge.Prelude.Set
use rules_forge.Rule.{Ptr}
use rules_forge.Pool.{
  SessionPool, created, create, is_empty, acquire_from, acquire, release, in_use_count,
}
use rules_forge.Pool.Balance.{
  without, IsBalanced, acquires, releases, Reachable, starts, steps, Reachable-IsBalanced,
}

-- The second of three attempts to create a session failed.
abbrev attempts : List (Option Ptr)
attempts = some 10 ∷ none ∷ some 20 ∷ []

abbrev fresh : SessionPool
fresh = record { pool = 10 ∷ 20 ∷ []; available = 10 ∷ 20 ∷ [] }

-- One session is taken, and replaced by session 30 on release.
abbrev back : SessionPool
back = (release (some 30) (some 10) (acquire fresh).0).0

back-Reachable : Reachable attempts back (without 10 (10 ∷ []))
unfolding create created is_empty acquire acquire_from Set.contains
back-Reachable =
    steps (steps (starts refl) (acquires {p = fresh} 10 refl)) (releases (some 30) 10 refl)

Reachable-IsBalanced_example :
    IsBalanced back (without 10 (10 ∷ [])) × (in_use_count back ≡ length (without 10 (10 ∷ [])))
Reachable-IsBalanced_example =
    Reachable-IsBalanced attempts back (without 10 (10 ∷ [])) back-Reachable
