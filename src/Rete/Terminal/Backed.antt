-- ===== src/Rete/Terminal/Backed.antt =====
-- About the matches of a rule and its activations on the agenda
-- (rulesforge/src/rete/rete_node_terminal.inc).
use rules_forge.Prelude.{ℕ, ◌≡◌, Bool, false, none, List, [], ◌∷◌}
use rules_forge.Prelude.Eq.{nat_eq}
use rules_forge.Prelude.Map
use rules_forge.Prelude.Set
use rules_forge.Agenda.{Agenda}
use rules_forge.Session.{FireOps}
use rules_forge.Rete.{Message}
use rules_forge.Rete.Terminal.{TerminalNode, TerminalState, left_activate}

module _ (F : FireOps) (n : TerminalNode)
    (injective : (v w : ℕ) → n.hash_of v ≡ n.hash_of w → v ≡ w) where
  -- No activation waits for a match that is gone.
  unfoldable pub IsBacked : TerminalState → Type 0
  IsBacked s =
      (w : ℕ) → Set.contains w s.memory ≡ false → Map.find (n.hash_of w) s.agenda.agenda_map ≡ none

  -- Messages, each with the clock's reading.
  unfoldable pub deliver : (ℕ → Bool) → List (ℕ × Message) → TerminalState → TerminalState
  deliver known [] s = s
  deliver known ((now, token) ∷ tokens) s =
      deliver known tokens (left_activate F n now known token s).0
