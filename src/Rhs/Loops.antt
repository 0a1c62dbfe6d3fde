-- ===== src/Rhs/Loops.antt =====
-- How the loops of execute_action in rulesforge/src/engine/rhs_executor.cpp end.
use rules_forge.Prelude.{◌≡◌, false}
use rules_forge.Rhs.{RhsOps, Executor, Outcome, returned, thrown}

module _ (E : RhsOps) where
  open E use {Condition, Source, Item}

  -- Neither break nor continue is requested.
  abbrev pub IsClear : Executor E → Type 0
  IsClear x = (x.break_requested ≡ false) × (x.continue_requested ≡ false)

  abbrev pub EndsClear : Outcome E → Type 0
  EndsClear (returned x) = IsClear x
  EndsClear (thrown x) = Unit {0}
