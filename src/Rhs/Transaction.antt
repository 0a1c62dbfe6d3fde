-- ===== src/Rhs/Transaction.antt =====
-- RhsExecutor::execute (rulesforge/src/engine/rhs_executor.cpp): the right-hand side as a transaction.
use rules_forge.Prelude.{◌≡◌, Bool, true, false, ◌⊎◌}
use rules_forge.Rhs.{RhsOps}
use rules_forge.Rhs.Flow.{Reach}

module _ (E : RhsOps) where
  open E use {Session}

  -- A call that returns has committed a session that calls lead to. One that throws has rolled back
  -- such a session, or what the commit that threw left of it.
  abbrev pub Ended : Session → Session × Bool → Type 0
  Ended s (after, true) =
      (last : Session) × Reach E (E.begin_rhs_transaction s) last
      × (E.end_rhs_transaction true last ≡ (after, true))
  Ended s (after, false) =
      (last : Session) × Reach E (E.begin_rhs_transaction s) last
      × ((after ≡ (E.end_rhs_transaction false last).0)
          ⊎ (((E.end_rhs_transaction true last).1 ≡ false)
              × (after ≡ (E.end_rhs_transaction false (E.end_rhs_transaction true last).0).0)))
