-- ===== src/Agenda/Blocks.antt =====
-- The focus stack, the blocking sets, the activation groups and the removal of a fact's
-- activations (rulesforge/include/engine/agenda.hpp).
use rules_forge.Prelude.{ℕ, String, Bool, true, false, Option, none, some, List, [], ◌∷◌}
use rules_forge.Prelude.Eq.{string_eq, nat_eq}
use rules_forge.Prelude.Map.{Map}
use rules_forge.Prelude.Map
use rules_forge.Prelude.Set
use rules_forge.Rule.{Ptr, ParsedRule, Activation, wme_references_fact}
use rules_forge.Agenda.{Agenda, get_focus, remove_all, store_group}

unfoldable pub set_focus : String → Agenda → Agenda
set_focus group a = record a { focus_stack = group ∷ a.focus_stack }

-- The empty string where the stack is empty.
unfoldable pub pop_focus : Agenda → Agenda × String
pop_focus a = elim a.focus_stack [
  | [] ↦ (a, "")
  | group ∷ rest ↦ (record a { focus_stack = rest }, group)
]

unfoldable pub has_focus_override : Agenda → Bool
has_focus_override a = elim a.focus_stack [ [] ↦ false | group ∷ rest ↦ true ]

unfoldable pub block_noloop : ℕ → Agenda → Agenda
block_noloop key a = record a { no_loop_blocked = Set.insert key a.no_loop_blocked }

unfoldable pub is_noloop_blocked : ℕ → Agenda → Bool
is_noloop_blocked key a = Set.contains key a.no_loop_blocked

unfoldable pub clear_noloop : Agenda → Agenda
clear_noloop a = record a { no_loop_blocked = [] }

unfoldable pub clear_lock_on_active : Agenda → Agenda
clear_lock_on_active a = record a { lock_on_active_blocked = [] }

unfoldable pub is_lock_on_active_blocked : ParsedRule → Agenda → Bool
is_lock_on_active_blocked rule a = Set.contains rule.addr a.lock_on_active_blocked

-- `agenda_group.value_or("MAIN") == focus`
group_or_main : Option String → String
group_or_main none = "MAIN"
group_or_main (some group) = group

seed_loop : String → Map ℕ Activation → List Ptr
unfolding group_or_main
seed_loop focus [] = []
seed_loop focus ((hash, act) ∷ m) =
    let rest = seed_loop focus m in
    elim act.rule.lock_on_active [
      | false ↦ rest
      | true ↦ elim (string_eq.beq (group_or_main act.rule.agenda_group) focus) [
        | true ↦ Set.insert act.rule.addr rest
        | false ↦ rest
      ]
    ]

unfoldable pub seed_lock_on_active_for_focus : Agenda → Agenda
unfolding seed_loop
seed_lock_on_active_for_focus a = record a {
  lock_on_active_blocked = seed_loop (get_focus a) a.agenda_map;
}

-- The end of cancel_activation_group, after the others are removed.
unfoldable pub drop_except : String → ℕ → Agenda → Agenda
drop_except group except_hash a = elim (Map.find group a.activation_group_map) [
  | none ↦ a
  | some hashes ↦ record a {
    activation_group_map = store_group group (Set.erase except_hash hashes) a.activation_group_map;
  }
]

unfoldable pub cancel_activation_group : String → ℕ → Agenda → Agenda
unfolding drop_except
cancel_activation_group group except_hash a = elim (Map.find group a.activation_group_map) [
  | none ↦ a
  | some hashes ↦ drop_except group except_hash (remove_all (Set.erase except_hash hashes) a)
]

unfoldable pub clear_activation_groups : Agenda → Agenda
clear_activation_groups a = record a { activation_group_map = [] }

-- The hashes of the activations whose chain holds the fact.
unfoldable pub to_remove : (Ptr → ℕ) → ℕ → Map ℕ Activation → List ℕ
to_remove ids fact_id [] = []
to_remove ids fact_id ((hash, act) ∷ m) =
    let rest = to_remove ids fact_id m in
    elim act.token.wme [
      | none ↦ rest
      | some wme ↦ elim (wme_references_fact ids fact_id wme) [ true ↦ hash ∷ rest | false ↦ rest ]
    ]

unfoldable pub remove_activations_with_fact_id : (Ptr → ℕ) → ℕ → Agenda → Agenda
unfolding to_remove
remove_activations_with_fact_id ids fact_id a = remove_all (to_remove ids fact_id a.agenda_map) a
