-- ===== src/Rete/Terminal.antt =====
-- TerminalNode (rulesforge/src/rete/rete_node_terminal.inc): the tokens of a rule's complete matches,
-- its activations on the agenda, and the support that a match gives. The rule is found when the network is
-- built, and the session is consistent. The hash of a match is an argument, as is the chain at an
-- address; the listeners are left out.
pub mod Backed
mod Tests
use rules_forge.Prelude.{
  ℕ, String, Bool, true, false, Option, none, some, List, [], ◌∷◌, ◌++◌, if◌then◌else◌,
}
use rules_forge.Prelude.Eq.{nat_eq}
use rules_forge.Prelude.Set
use rules_forge.Rule.{ParsedRule, Token, Activation}
use rules_forge.Agenda.{Agenda, remove}
use rules_forge.Agenda.Blocks.{set_focus}
use rules_forge.Session.{FireOps, add_activation, add_activations_batch}
use rules_forge.Tms.{Tms, remove_justifications_by_token}
use rules_forge.Rete.{PropagationType, assert, retract, modify, Message}

pub record TerminalNode : Type 0 where
  pub rule : ParsedRule
  pub auto_focus : Bool
  -- std::hash of the address, and the rule's address mixed in.
  pub hash_of : ℕ → ℕ
  pub token_at : ℕ → Token

pub record TerminalState : Type 0 where
  pub memory : List ℕ
  pub agenda : Agenda
  pub tms : Tms

module _ (F : FireOps) (n : TerminalNode) where
  unfoldable pub activation_at : ℕ → Activation
  activation_at wme = record { rule = n.rule; token = n.token_at wme; hash_value = n.hash_of wme }

  -- `if (rule->auto_focus && rule->agenda_group) session.set_focus(...)`
  unfoldable pub take_focus : Agenda → Agenda
  take_focus a =
      if n.auto_focus
      then elim n.rule.agenda_group [ none ↦ a | some group ↦ set_focus group a ]
      else a

  unfoldable pub remove_match : ℕ → TerminalState → TerminalState
  remove_match wme s =
      if Set.contains wme s.memory
      then record s {
        memory = Set.erase wme s.memory;
        agenda = (remove (n.hash_of wme) s.agenda).0;
      }
      else s

  -- With logical_retract; the facts that lose their last support are the second result.
  unfoldable pub retract_match : (ℕ → Bool) → ℕ → TerminalState → TerminalState × List ℕ
  unfolding remove_match
  retract_match known wme s =
      let (tms, facts) = remove_justifications_by_token known (some wme) s.tms in
      (record (remove_match wme s) { tms = tms }, facts)

  unfoldable pub assert_match : ℕ → ℕ → TerminalState → TerminalState
  unfolding activation_at take_focus
  assert_match now wme s = if Set.contains wme s.memory then s else record s {
    memory = Set.insert wme s.memory;
    agenda = take_focus (add_activation F now (activation_at wme) s.agenda);
  }

  -- `now` is the clock's reading; `known` what the network knows.
  unfoldable pub left_activate : ℕ → (ℕ → Bool) → Message → TerminalState → TerminalState × List ℕ
  unfolding retract_match assert_match
  left_activate now known token s = elim token.p_type [
    | retract ↦ retract_match known token.subject s
    | assert ↦ (assert_match now token.subject s, [])
    | modify ↦ (s, [])
  ]

  -- The loop of left_activate_batch: the activations to add are its third result.
  unfoldable pub batch_loop :
      (ℕ → Bool) → List Message → TerminalState → TerminalState × List ℕ × List Activation
  unfolding retract_match activation_at
  batch_loop known [] s = (s, [], [])
  batch_loop known (token ∷ tokens) s = elim token.p_type [
    | retract ↦
        let (s', facts) = retract_match known token.subject s in
        let (end, more, acts) = batch_loop known tokens s' in (end, facts ++ more, acts)
    | assert ↦ elim (Set.contains token.subject s.memory) [
      | true ↦ batch_loop known tokens s
      | false ↦
          let (end, more, acts) =
            batch_loop known tokens (record s { memory = Set.insert token.subject s.memory }) in
          (end, more, activation_at token.subject ∷ acts)
    ]
    | modify ↦ batch_loop known tokens s
  ]

  unfoldable pub add_collected : List Activation → TerminalState → TerminalState
  unfolding take_focus
  add_collected [] s = s
  add_collected (act ∷ acts) s = record s {
    agenda = add_activations_batch F (act ∷ acts) (take_focus s.agenda);
  }

  unfoldable pub left_activate_batch :
      (ℕ → Bool) → List Message → TerminalState → TerminalState × List ℕ
  unfolding batch_loop add_collected
  left_activate_batch known tokens s =
      let (end, facts, acts) = batch_loop known tokens s in (add_collected acts end, facts)
