-- ===== src/Session/Tests.antt =====
-- Runs of the firing loop (rulesforge/src/engine/stateful_session.cpp) over a world that counts the
-- right-hand sides; the third one throws.
use rules_forge.Prelude.{◌≡◌, ℕ, suc, true, false, none, some, [], ◌∷◌, ltb}
use rules_forge.Prelude.Int.{ℤ, pos}
use rules_forge.Rule.{Activation, ParsedRule}
use rules_forge.Agenda.{Agenda, empty, add}
use rules_forge.Session.{FireOps, Firing, turns}
use rules_forge.Session.Ends.{is_again, readings, turns_terminate}

abbrev counting : FireOps
counting = record {
  World = ℕ;
  flush_pending_nodes = λ l. l;
  noloop_key = λ rule wme. rule.addr;
  has_id = λ fact w. true;
  contains_fact_pointer = λ fact w. true;
  execute_rule_rhs = λ act l. (record l { world = suc l.world }, ltb l.world 2);
}

abbrev rule : ParsedRule
rule = record {
  addr = 100;
  name = "alarm";
  salience = pos 10;
  no_loop = true;
  lock_on_active = false;
  duration = pos 0;
  agenda_group = none;
  activation_group = none;
}

abbrev act : ℕ → Activation
act hash = record { rule = rule; token = record { wme = some (some 7 ∷ []) }; hash_value = hash }

abbrev three : Agenda
three = add (act 1) (add (act 2) (add (act 3) empty))

abbrev level : ℕ → ℤ
level hash = pos 10

abbrev ready : Firing counting
ready = record {
  live = record { agenda = three; halt_requested = false; is_consistent = true; world = 0 };
  total_fired_count = 0;
}

turns_terminate_example :
    (n : ℕ) × (is_again counting (turns counting (pos 2) (readings counting (λ i. i) n) ready)
      ≡ false)
turns_terminate_example = turns_terminate counting 2 (λ i. i) ready
