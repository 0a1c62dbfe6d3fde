-- ===== src/Rhs/Tests.antt =====
-- Runs of the right-hand side executor (rulesforge/src/engine/rhs_executor.cpp) over a session that
-- counts the actions and keeps the count at the start of the transaction.
use rules_forge.Prelude.{ℕ, suc, true, false, Option, none, some, List, [], ◌∷◌, ◌==◌, ltb}
use rules_forge.Rhs.{
  RhsOps, update, Action, Actions, Executor, execute_action, executor_of, effect, for_action,
  break_action, done, next,
}
use rules_forge.Rhs.Flow.{Good, execute_action-Good}

-- An action throws on the payload 13; a transaction holds the count at its start.
abbrev counter : RhsOps
counter = record {
  Session = ℕ × Option ℕ;
  Payload = ℕ;
  Condition = ℕ;
  Expression = ℕ;
  Value = ℕ;
  Source = List ℕ;
  Item = ℕ;
  perform = λ kind payload env s. elim (payload == 13) [
    | true ↦ (s, false)
    | false ↦ ((suc s.0, s.1), true)
  ];
  collect_for_items = λ source env s. (s, some source);
  evaluate_condition = λ limit env s. some (ltb s.0 limit);
  evaluate_value = λ e env s. some e;
  values_equal = λ a b. a == b;
  begin_rhs_transaction = λ s. (s.0, some s.0);
  end_rhs_transaction = λ committed s. elim committed [
    | true ↦ ((s.0, none), true)
    | false ↦ (elim s.1 [ none ↦ s | some n ↦ (n, none) ], true)
  ];
}

abbrev twice : Actions counter
twice = next (effect update 1) (next break_action done)

abbrev loop : Action counter
loop = for_action "item" (4 ∷ 5 ∷ []) twice

abbrev at_start : Executor counter
at_start = executor_of counter (0, some 0)

execute_action-Good_example : Good counter at_start (execute_action counter loop at_start)
execute_action-Good_example = execute_action-Good counter loop at_start
