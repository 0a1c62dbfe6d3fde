-- ===== src/Rhs.antt =====
-- RhsExecutor: the control flow of a rule's right-hand side (rulesforge/src/engine/rhs_executor.cpp,
-- rulesforge/include/core/rhs_actions.hpp). The six actions on facts and the evaluation of
-- expressions are calls of the record RhsOps; timing and counters are left out.
pub mod Flow
pub mod Loops
pub mod Transaction
mod Tests
use rules_forge.Prelude.{
  ℕ, suc, zero, String, Bool, true, false, Option, none, some, List, [], ◌∷◌, ◌||◌,
}
use rules_forge.Prelude.Int.{ℤ, pos, negsuc}
use rules_forge.Prelude.Eq.{string_eq}
use rules_forge.Prelude.Map.{Map}
use rules_forge.Prelude.Map

-- The action types that call the session and have no actions inside.
pub data EffectType : Type 0 where
  update insert insert_logical retract halt set_focus : EffectType

-- What the executor calls. `Payload` holds the fields of an action with an effect, `Source` those
-- that name what a loop runs over, `Item` is the pointer of a fact.
pub record RhsOps : Type 1 where
  pub Session : Type 0
  pub Payload : Type 0
  pub Condition : Type 0
  pub Expression : Type 0
  pub Value : Type 0
  pub Source : Type 0
  pub Item : Type 0
  -- The session after the call, and false where it throws.
  pub perform : EffectType → Payload → Map String Item → Session → Session × Bool
  pub collect_for_items : Source → Map String Item → Session → Session × Option (List Item)
  -- none where the evaluator does not support the expression, or throws.
  pub evaluate_condition : Condition → Map String Item → Session → Option Bool
  pub evaluate_value : Expression → Map String Item → Session → Option Value
  pub values_equal : Value → Value → Bool
  pub begin_rhs_transaction : Session → Session
  pub end_rhs_transaction : Bool → Session → Session × Bool

module _ (E : RhsOps) where
  open E use {Session, Payload, Condition, Expression, Value, Source, Item}

  mutual
    pub data Action : Type 0 where
      effect : EffectType → Payload → Action
      if_action : Option Condition → Actions → Actions → Action
      switch_action : Option Expression → Cases → Action
      for_action : String → Source → Actions → Action
      while_action : Option Condition → ℤ → Actions → Action
      break_action : Action
      continue_action : Action

    pub data Actions : Type 0 where
      done : Actions
      next : Action → Actions → Actions

    -- A case has is_default, a value or none, and its actions.
    pub data Cases : Type 0 where
      no_case : Cases
      switch_case : Bool → Option Expression → Actions → Cases → Cases

  pub record Executor : Type 0 where
    pub session : Session
    pub temp_bindings : Map String Item
    pub break_requested : Bool
    pub continue_requested : Bool

  pub data Outcome : Type 0 where
    returned : Executor → Outcome
    thrown : Executor → Outcome

  abbrev pub and_then : Outcome → (Executor → Outcome) → Outcome
  and_then (returned x) f = f x
  and_then (thrown x) f = thrown x

  unfoldable pub is_stopped : Executor → Bool
  is_stopped x = x.break_requested || x.continue_requested

  -- The end of a loop's iteration: leave on break, clear continue and go on otherwise.
  unfoldable pub go_on : (Executor → Outcome) → Executor → Outcome
  go_on again x = elim x.break_requested [
    | true ↦ returned (record x { break_requested = false })
    | false ↦ again (record x { continue_requested = false })
  ]

  -- The destructor of ForTempBindingRestore.
  unfoldable pub restore : String → Option Item → Executor → Executor
  restore name none x = record x { temp_bindings = Map.erase name x.temp_bindings }
  restore name (some item) x = record x { temp_bindings = Map.insert name item x.temp_bindings }

  unfoldable pub restore_outcome : String → Option Item → Outcome → Outcome
  unfolding restore
  restore_outcome name old (returned x) = returned (restore name old x)
  restore_outcome name old (thrown x) = thrown (restore name old x)

  -- One iteration of FOR up to the test of the flags.
  unfoldable pub for_body : (Executor → Outcome) → String → Item → Executor → Outcome
  unfolding restore_outcome
  for_body body name item x =
      restore_outcome name (Map.find name x.temp_bindings)
        (body (record x { temp_bindings = Map.insert name item x.temp_bindings }))

  -- The flags are tested inside the scope of the binding; the restore that follows changes neither.
  unfoldable pub for_loop : (Executor → Outcome) → String → List Item → Executor → Outcome
  unfolding for_body go_on
  for_loop body name [] x = returned x
  for_loop body name (item ∷ items) x =
      and_then (for_body body name item x) (go_on (for_loop body name items))

  -- The loop of WHILE with `n` iterations left before max_iterations.
  unfoldable pub while_loop :
      (Executor → Option Bool) → (Executor → Outcome) → ℕ → Executor → Outcome
  unfolding go_on
  while_loop test body zero x = elim (test x) [
    | none ↦ thrown x
    | some holds ↦ elim holds [ true ↦ thrown x | false ↦ returned x ]
  ]
  while_loop test body (suc n) x = elim (test x) [
    | none ↦ thrown x
    | some holds ↦ elim holds [
      | true ↦ and_then (body x) (go_on (while_loop test body n))
      | false ↦ returned x
    ]
  ]

  abbrev pub test_of : Condition → Executor → Option Bool
  test_of c x = E.evaluate_condition c x.temp_bindings x.session

  abbrev pub value_of : Expression → Executor → Option Value
  value_of e x = E.evaluate_value e x.temp_bindings x.session

  unfoldable pub perform_effect : EffectType → Payload → Executor → Outcome
  perform_effect kind payload x =
      let (s, fine) = E.perform kind payload x.temp_bindings x.session in
      elim fine [
        | true ↦ returned (record x { session = s })
        | false ↦ thrown (record x { session = s })
      ]

  unfoldable pub run_for : (Executor → Outcome) → String → Source → Executor → Outcome
  unfolding for_loop
  run_for body name source x =
      let (s, collected) = E.collect_for_items source x.temp_bindings x.session in
      elim collected [
        | none ↦ thrown (record x { session = s })
        | some items ↦ for_loop body name items (record x { session = s })
      ]

  unfoldable pub run_while : (Executor → Outcome) → Condition → ℤ → Executor → Outcome
  unfolding while_loop
  run_while body c (negsuc n) x = thrown x
  run_while body c (pos zero) x = thrown x
  run_while body c (pos (suc n)) x = while_loop (test_of c) body (suc n) x

  unfoldable pub run_if :
      (Executor → Outcome) → (Executor → Outcome) → Condition → Executor → Outcome
  run_if yes_branch no_branch c x = elim (test_of c x) [
    | none ↦ thrown x
    | some holds ↦ elim holds [ true ↦ yes_branch x | false ↦ no_branch x ]
  ]

  unfoldable pub run_switch : (Value → Executor → Outcome) → Expression → Executor → Outcome
  run_switch cases e x = elim (value_of e x) [ none ↦ thrown x | some v ↦ cases v x ]

  unfoldable pub run_case :
      (Executor → Outcome) → (Executor → Outcome) → Value → Expression → Executor → Outcome
  run_case body others v e x = elim (value_of e x) [
    | none ↦ thrown x
    | some w ↦ elim (E.values_equal v w) [ true ↦ body x | false ↦ others x ]
  ]

  -- `if (break_requested_ || continue_requested_) return;`
  unfoldable pub guarded : Executor → Outcome → Outcome
  unfolding is_stopped
  guarded x o = elim (is_stopped x) [ true ↦ returned x | false ↦ o ]

  unfoldable mutual
    unfolding perform_effect run_for run_while run_if run_switch run_case guarded

    pub execute_action : Action → Executor → Outcome
    execute_action (effect kind payload) x = guarded x (perform_effect kind payload x)
    execute_action (if_action none t e) x = guarded x (thrown x)
    execute_action (if_action (some c) t e) x =
        guarded x (run_if (execute_actions t) (execute_actions e) c x)
    execute_action (switch_action none cs) x = guarded x (thrown x)
    execute_action (switch_action (some e) cs) x =
        guarded x (run_switch (λ v. execute_cases cs v returned) e x)
    execute_action (for_action name source body) x =
        guarded x (run_for (execute_actions body) name source x)
    execute_action (while_action none limit body) x = guarded x (thrown x)
    execute_action (while_action (some c) limit body) x =
        guarded x (run_while (execute_actions body) c limit x)
    execute_action break_action x = guarded x (returned (record x { break_requested = true }))
    execute_action continue_action x = guarded x (returned (record x { continue_requested = true }))

    pub execute_actions : Actions → Executor → Outcome
    execute_actions done x = returned x
    execute_actions (next a rest) x =
        guarded x (and_then (execute_action a x) (execute_actions rest))

    -- The cases from one on, with the actions of the default case that was seen last.
    pub execute_cases : Cases → Value → (Executor → Outcome) → Executor → Outcome
    execute_cases no_case v fallback x = fallback x
    execute_cases (switch_case true e body cs) v fallback x =
        execute_cases cs v (execute_actions body) x
    execute_cases (switch_case false none body cs) v fallback x = execute_cases cs v fallback x
    execute_cases (switch_case false (some e) body cs) v fallback x =
        run_case (execute_actions body) (execute_cases cs v fallback) v e x

  -- The root actions are pointers; a null one ends the list.
  unfoldable pub execute_roots : List (Option Action) → Executor → Outcome
  unfolding guarded execute_action
  execute_roots [] x = returned x
  execute_roots (none ∷ roots) x = returned x
  execute_roots (some a ∷ roots) x = guarded x (and_then (execute_action a x) (execute_roots roots))

  abbrev pub executor_of : Session → Executor
  executor_of s = record {
    session = s;
    temp_bindings = [];
    break_requested = false;
    continue_requested = false;
  }

  unfoldable pub is_empty : List (Option Action) → Bool
  is_empty [] = true
  is_empty (a ∷ rest) = false

  -- The catch block: the session after it, and that the exception goes on.
  unfoldable pub roll_back : Session → Session × Bool
  roll_back s = ((E.end_rhs_transaction false s).0, false)

  unfoldable pub commit : Outcome → Session × Bool
  unfolding roll_back
  commit (thrown x) = roll_back x.session
  commit (returned x) =
      let (s, fine) = E.end_rhs_transaction true x.session in
      elim fine [ true ↦ (s, true) | false ↦ roll_back s ]

  -- execute: the session that it leaves, and false where it throws. The flags and the temporary
  -- bindings are reset at its start, so they are no part of the state between calls.
  unfoldable pub execute : List (Option Action) → Session → Session × Bool
  unfolding commit roll_back execute_roots
  execute roots s =
      let begun = E.begin_rhs_transaction s in
      elim (is_empty roots) [
        | true ↦ roll_back begun
        | false ↦ commit (execute_roots roots (executor_of begun))
      ]
