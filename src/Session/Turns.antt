-- ===== src/Session/Turns.antt =====
-- About the turns of fire_all_rules_impl (rulesforge/src/engine/stateful_session.cpp).
use rules_forge.Prelude.{ℕ, ◌≤◌}
use rules_forge.Prelude.Int.{ℤ, pos, negsuc}
use rules_forge.Agenda.{Agenda}
use rules_forge.Session.{FireOps, Firing}
use rules_forge.Session.Sound.{IsSound}

abbrev pub IsWithin : ℤ → ℕ → Type 0
IsWithin (pos limit) fired = fired ≤ limit
IsWithin (negsuc n) fired = Unit {0}

-- The agenda is sound, and no more rules have fired than the limit allows.
abbrev pub IsSafe : (F : FireOps) → (ℕ → ℤ) → ℤ → Firing F → Type 0
IsSafe F sal limit f = IsSound sal f.live.agenda × IsWithin limit f.total_fired_count
