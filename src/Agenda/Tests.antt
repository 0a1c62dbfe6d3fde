-- ===== src/Agenda/Tests.antt =====
-- Runs of the agenda of rulesforge/include/engine/agenda.hpp on small concrete agendas.
use rules_forge.Prelude.{
  arith, ℕ, ◌≡◌, refl, true, false, none, some, List, [], ◌∷◌, length, All, if◌then◌else◌, ◌==◌,
  ◌≤◌,
}
use rules_forge.Prelude.Int.{ℤ, pos, ◌≤ℤ◌}
use rules_forge.Prelude.Eq.{nat_eq, string_eq}
use rules_forge.Prelude.Map
use rules_forge.Prelude.Set
use rules_forge.Rule.{Ptr, ParsedRule, Activation}
use rules_forge.Agenda.{
  Agenda, empty, add, get_focus, in_focus, compact_if_needed, PoppedActivationItem,
  flush_ready_delayed,
}
use rules_forge.Agenda.Queue.{push, entry_lt}
use rules_forge.Agenda.Pop.{pop_loop, pop_next_batch_activations, pop_next, requeue}
use rules_forge.Agenda.Blocks.{cancel_activation_group, remove_activations_with_fact_id}
use rules_forge.Agenda.Invariant.{IsWellFormed, empty-IsWellFormed, add-IsWellFormed}
use rules_forge.Agenda.Order.{IsDescending, IsTaken}
use rules_forge.Agenda.Batch.{
  pop_next_batch_activations-IsWellFormed, pop_next_batch_activations_order,
}
use rules_forge.Agenda.Requeue.{requeue-pop_next_batch_activations, batch_takes_all, lookup_items}
use rules_forge.Agenda.Next.{IsNext, pop_next-IsNext}
use rules_forge.Agenda.Flush.{Flushed, flush_ready_delayed-Flushed}
use rules_forge.Agenda.Cancel.{
  cancel_activation_group_lem, remove_activations_with_fact_id_lem, group_members, depends,
}

abbrev alarm : ParsedRule
alarm = record {
  addr = 100;
  name = "alarm";
  salience = pos 10;
  no_loop = false;
  lock_on_active = false;
  duration = pos 0;
  agenda_group = none;
  activation_group = some "one";
}

abbrev report : ParsedRule
report = record alarm { addr = 200; name = "report"; salience = pos 5 }

abbrev first : Activation
first = record { rule = alarm; token = record { wme = some (some 7 ∷ []) }; hash_value = 1 }

abbrev second : Activation
second = record { rule = report; token = record { wme = some (some 8 ∷ []) }; hash_value = 2 }

abbrev two : Agenda
two = add first (add second empty)

abbrev saliences : ℕ → ℤ
saliences h = if h == 1 then pos 10 else pos 5

two-IsWellFormed : IsWellFormed saliences two
two-IsWellFormed =
    add-IsWellFormed saliences first (add second empty) refl
      (add-IsWellFormed saliences second empty refl (empty-IsWellFormed saliences))

abbrev batch : Agenda × List PoppedActivationItem
batch = pop_next_batch_activations 1 two

pop_next_batch_activations_order_example :
    (length batch.1 ≤ 1)
    × IsDescending batch.1
    × All (IsTaken (get_focus two) two.agenda_map batch.0.agenda_map) batch.1
    × ((h : ℕ) (x : Activation)
        → Map.find h batch.0.agenda_map ≡ some x
        → in_focus (get_focus two) x.rule ≡ true
        → (length batch.1 ≡ 1) × All (λ item. x.rule.salience ≤ℤ item.salience) batch.1)
pop_next_batch_activations_order_example =
    pop_next_batch_activations_order saliences 1 two two-IsWellFormed

requeue-pop_next_batch_activations_example :
    ((h : ℕ) → Map.find h (requeue batch.1 batch.0).agenda_map ≡ Map.find h two.agenda_map)
    × IsWellFormed saliences (requeue batch.1 batch.0)
requeue-pop_next_batch_activations_example =
    requeue-pop_next_batch_activations saliences 1 two two-IsWellFormed

pop_next_batch_activations-IsWellFormed_example : IsWellFormed saliences batch.0
pop_next_batch_activations-IsWellFormed_example =
    pop_next_batch_activations-IsWellFormed saliences 1 two two-IsWellFormed

pop_next-IsNext_example :
    IsNext (get_focus two) two.agenda_map (pop_next two).0.agenda_map (pop_next two).1
pop_next-IsNext_example = pop_next-IsNext saliences two two-IsWellFormed

batch_takes_all_example : lookup_items 2 (pop_next_batch_activations 64 two).1 ≡ some second
unfolding pop_next_batch_activations pop_loop add push entry_lt get_focus in_focus Map.find
    Map.insert Map.erase compact_if_needed
batch_takes_all_example =
    batch_takes_all saliences 64 two 2 second two-IsWellFormed (omega arith) refl refl

cancel_activation_group_lem_example :
    Map.find 2 (cancel_activation_group "one" 1 two).agenda_map ≡ (
      if 1 == 2
      then Map.find 2 two.agenda_map
      else if Set.contains 2 (group_members "one" two)
      then none
      else Map.find 2 two.agenda_map)
cancel_activation_group_lem_example = cancel_activation_group_lem "one" 1 2 two

abbrev fact_ids : Ptr → ℕ
fact_ids p = p

remove_activations_with_fact_id_lem_example :
    ((x : Activation)
      → Map.find 1 two.agenda_map ≡ some x
      → Map.find 1 (remove_activations_with_fact_id fact_ids 7 two).agenda_map
        ≡ (if depends fact_ids 7 x then none else some x))
    × (Map.find 1 two.agenda_map ≡ none
        → Map.find 1 (remove_activations_with_fact_id fact_ids 7 two).agenda_map ≡ none)
    × ((remove_activations_with_fact_id fact_ids 7 two).delayed_activations
        ≡ two.delayed_activations)
remove_activations_with_fact_id_lem_example =
    remove_activations_with_fact_id_lem fact_ids 7 1 two two-IsWellFormed.unique

abbrev waiting : Agenda
waiting = record two {
  delayed_activations =
      record { fire_time = 5; activation = record second { hash_value = 3 } } ∷ [];
}

flush_ready_delayed-Flushed_example :
    Flushed 9 waiting.delayed_activations waiting (flush_ready_delayed 9 waiting)
    × IsWellFormed saliences (flush_ready_delayed 9 waiting)
flush_ready_delayed-Flushed_example =
    flush_ready_delayed-Flushed saliences 9 waiting (refl, tt)
      (record {
        entries = two-IsWellFormed.entries;
        acts = two-IsWellFormed.acts;
        covered = two-IsWellFormed.covered;
        sorted = two-IsWellFormed.sorted;
        unique = two-IsWellFormed.unique;
      })
