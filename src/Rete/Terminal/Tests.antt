-- ===== src/Rete/Terminal/Tests.antt =====
-- A run of a TerminalNode (rulesforge/src/rete/rete_node_terminal.inc).
use rules_forge.Prelude.{ℕ, ◌+◌, true, false, none, some, List, [], ◌∷◌}
use rules_forge.Prelude.Int.{pos}
use rules_forge.Prelude.Map
use rules_forge.Rule.{ParsedRule}
use rules_forge.Agenda
use rules_forge.Tms
use rules_forge.Session.{FireOps}
use rules_forge.Rete.{assert, retract, Message}
use rules_forge.Rete.Terminal.{TerminalNode, TerminalState}

abbrev idle : FireOps
idle = record {
  World = ℕ;
  flush_pending_nodes = λ l. l;
  noloop_key = λ r w. 0;
  has_id = λ f w. true;
  contains_fact_pointer = λ f w. true;
  execute_rule_rhs = λ act l. (l, true);
}

abbrev rule : ParsedRule
rule = record {
  addr = 100;
  name = "alarm";
  salience = pos 10;
  no_loop = false;
  lock_on_active = false;
  duration = pos 0;
  agenda_group = some "alarms";
  activation_group = none;
}

abbrev node : TerminalNode
node = record {
  rule = rule;
  auto_focus = true;
  hash_of = λ w. w + 100;
  token_at = λ w. record { wme = some (some w ∷ []) };
}

abbrev fresh : TerminalState
fresh = record { memory = []; agenda = Agenda.empty; tms = Tms.empty }

abbrev messages : List (ℕ × Message)
messages =
    (1, record { subject = 1; p_type = assert })
    ∷ (2, record { subject = 2; p_type = assert })
    ∷ (1, record { subject = 1; p_type = retract })
    ∷ []
