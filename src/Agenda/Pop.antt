-- ===== src/Agenda/Pop.antt =====
-- Taking activations off the agenda, and putting a popped batch back
-- (rulesforge/include/engine/agenda.hpp: pop_next, pop_next_batch_activations,
-- requeue_batch_activations). The timers of the batch are left out.
use rules_forge.Prelude.{ℕ, zero, suc, ◌+◌, String, true, false, Option, none, some, List, [], ◌∷◌}
use rules_forge.Prelude.Eq.{nat_eq}
use rules_forge.Prelude.Map.{Map}
use rules_forge.Prelude.Map
use rules_forge.Rule.{Activation}
use rules_forge.Agenda.{
  Agenda, Groups, PoppedActivationItem, enter_group, leave_group, get_focus, in_focus,
  compact_if_needed,
}
use rules_forge.Agenda.Queue.{Entry, push, push_all}

-- What the pop loop has when it ends: `rest` is what it left in the queue.
pub record Popped : Type 0 where
  pub out : List PoppedActivationItem
  pub deferred : List Entry
  pub rest : List Entry
  pub agenda_map : Map ℕ Activation
  pub groups : Groups
  pub stale_skipped : ℕ

-- `while (!agenda_queue_.empty() && out.size() < max_items)`; `room` is what max_items leaves.
unfoldable pub pop_loop : String → ℕ → List Entry → Map ℕ Activation → Groups → Popped
pop_loop focus room [] m groups = record {
  out = [];
  deferred = [];
  rest = [];
  agenda_map = m;
  groups = groups;
  stale_skipped = 0;
}
pop_loop focus zero (e ∷ q) m groups = record {
  out = [];
  deferred = [];
  rest = e ∷ q;
  agenda_map = m;
  groups = groups;
  stale_skipped = 0;
}
pop_loop focus (suc room) (e ∷ q) m groups = elim (Map.find e.hash m) [
  | none ↦
      let p = pop_loop focus (suc room) q m groups in
      record p { stale_skipped = p.stale_skipped + 1 }
  | some act ↦ elim (in_focus focus act.rule) [
    | true ↦
        let p =
          pop_loop focus room q (Map.erase e.hash m)
            (leave_group act.rule.activation_group e.hash groups) in
        record p { out = record { salience = e.salience; activation = act } ∷ p.out }
    | false ↦ let p = pop_loop focus (suc room) q m groups in record p { deferred = e ∷ p.deferred }
  ]
]

unfoldable pub pop_next_batch_activations : ℕ → Agenda → Agenda × List PoppedActivationItem
pop_next_batch_activations zero a = (a, [])
pop_next_batch_activations (suc max_items) a =
    let p =
      pop_loop (get_focus a) (suc max_items) a.agenda_queue a.agenda_map a.activation_group_map in
    (
      compact_if_needed p.stale_skipped (record a {
        agenda_map = p.agenda_map;
        agenda_queue = push_all p.deferred p.rest;
        activation_group_map = p.groups;
      }),
      p.out,
    )

-- pop_next: the same search for one activation, whose group keeps its hash.
pub record Found : Type 0 where
  pub out : Option Activation
  pub deferred : List Entry
  pub rest : List Entry
  pub agenda_map : Map ℕ Activation
  pub stale_skipped : ℕ

unfoldable pub next_loop : String → List Entry → Map ℕ Activation → Found
next_loop focus [] m = record {
  out = none;
  deferred = [];
  rest = [];
  agenda_map = m;
  stale_skipped = 0;
}
next_loop focus (e ∷ q) m = elim (Map.find e.hash m) [
  | none ↦ let f = next_loop focus q m in record f { stale_skipped = f.stale_skipped + 1 }
  | some act ↦ elim (in_focus focus act.rule) [
    | true ↦ record {
      out = some act;
      deferred = [];
      rest = q;
      agenda_map = Map.erase e.hash m;
      stale_skipped = 0;
    }
    | false ↦ let f = next_loop focus q m in record f { deferred = e ∷ f.deferred }
  ]
]

unfoldable pub pop_next : Agenda → Agenda × Option Activation
pop_next a =
    let f = next_loop (get_focus a) a.agenda_queue a.agenda_map in
    (
      compact_if_needed f.stale_skipped
          (record a { agenda_map = f.agenda_map; agenda_queue = push_all f.deferred f.rest }),
      f.out,
    )

-- requeue_batch_activations over the items from start_index on.
unfoldable pub requeue : List PoppedActivationItem → Agenda → Agenda
requeue [] a = a
requeue (item ∷ items) a = requeue items (record a {
  agenda_map = Map.insert item.activation.hash_value item.activation a.agenda_map;
  agenda_queue =
      push (record { salience = item.salience; hash = item.activation.hash_value }) a.agenda_queue;
  activation_group_map =
      enter_group item.activation.rule.activation_group item.activation.hash_value
        a.activation_group_map;
})
