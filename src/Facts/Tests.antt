-- ===== src/Facts/Tests.antt =====
-- About the transactions of rulesforge/src/engine/stateful_session.cpp on concrete facts.
use rules_forge.Prelude.{
  ℕ, ◌+◌, ◌≡◌, refl, Bool, true, false, List, [], ◌∷◌, ◌==◌, not, if◌then◌else◌, arith, ==_iff,
}
use rules_forge.Prelude.Eq.{nat_eq}
use rules_forge.Prelude.Map
use rules_forge.Prelude.Set
use rules_forge.Facts.{
  act, tell, lose_fact, loses, Network, FactSession, begin_rhs_transaction, end_rhs_transaction,
  Action, inserts, retracts, updates, breaks_off, act_all,
}
use rules_forge.Facts.Derived.{OnlyDerived}
use rules_forge.Facts.Within.{IsProper, AreProper}
use rules_forge.Facts.Commit.{IsCommitted, IsCalm, commit_retracts}
use rules_forge.Facts.Restored.{IsRestored, rollback_restores}

-- A network that counts the changes, with numbers for the fields, where nine is refused. The fact 4 is
-- derived from 1, and retracted when 1 is updated.
abbrev counting : Network
counting = record {
  World = ℕ;
  Fields = ℕ;
  is_positive = λ g. not (g == 0);
  is_valid = λ v. not (v == 9);
  propagate = λ t fact live fields w. (w + 1, (if fact == 1 then loses 4 ∷ [] else []), true);
}

abbrev is_four : ℕ → Bool
is_four g = g == 4

only_four : OnlyDerived counting is_four
unfolding OnlyDerived
only_four t fact live fields w = ground arith

calm : IsCalm counting is_four
unfolding tell lose_fact
calm fact s c = ground (arith, c)

abbrev three_facts : FactSession counting
three_facts = record {
  live = 1 ∷ 2 ∷ 4 ∷ [];
  fields = λ g. g + 10;
  in_rhs_transaction = false;
  inserted = [];
  retracted = [];
  updated_order = [];
  snapshots = [];
  is_consistent = true;
  halt_requested = false;
  world = 0;
}

live_positive : (g : ℕ) → Set.contains g three_facts.live ≡ true → counting.is_positive g ≡ true
unfolding Set.contains
live_positive g l = ground (arith, l, ==_iff g 0)

abbrev some_actions : List (Action counting)
some_actions = updates 1 7 ∷ inserts 3 5 ∷ retracts 2 ∷ breaks_off 1 8 ∷ []

rollback_restores_example :
    IsRestored counting is_four three_facts
      (end_rhs_transaction counting false
        (act_all counting some_actions (begin_rhs_transaction counting three_facts))).0
unfolding Set.contains IsProper AreProper act begin_rhs_transaction Map.find
rollback_restores_example =
    rollback_restores counting is_four only_four three_facts some_actions refl live_positive
      (tt, (refl, (refl, (tt, tt))))

abbrev after : Bool → List (Action counting) → FactSession counting
after commits actions =
    (end_rhs_transaction counting commits
      (act_all counting actions (begin_rhs_transaction counting three_facts))).0

-- The derived fact is retracted on the way, and comes back.
rolled_back : (after false some_actions).live ≡ 4 ∷ 1 ∷ 2 ∷ []
unfolding end_rhs_transaction act_all begin_rhs_transaction Set.contains Map.find Set.insert
    Map.insert Set.erase
rolled_back = refl

-- Three is inserted and retracted, and stays after the rollback.
comes_back : (after false (inserts 3 5 ∷ retracts 3 ∷ [])).live ≡ 3 ∷ 1 ∷ 2 ∷ 4 ∷ []
unfolding end_rhs_transaction act_all begin_rhs_transaction Set.contains Map.find Set.insert
    Map.insert Set.erase
comes_back = refl

abbrev retracting : FactSession counting
retracting =
    act_all counting (updates 1 7 ∷ inserts 3 5 ∷ retracts 2 ∷ [])
      (begin_rhs_transaction counting three_facts)

commit_retracts_example :
    IsCommitted counting is_four retracting (end_rhs_transaction counting true retracting)
unfolding act_all begin_rhs_transaction Set.contains Map.find Set.insert Map.insert
commit_retracts_example = commit_retracts counting is_four only_four calm retracting refl
