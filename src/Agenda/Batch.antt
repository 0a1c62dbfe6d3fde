-- ===== src/Agenda/Batch.antt =====
-- About pop_next_batch_activations of rulesforge/include/engine/agenda.hpp.
use rules_forge.Prelude.{ℕ, zero, suc, ◌≤◌, ◌≡◌, refl, true, some, List, arith, All, String, length}
use rules_forge.Prelude.Int.{ℤ, ◌≤ℤ◌}
use rules_forge.Prelude.Eq.{nat_eq}
use rules_forge.Prelude.Map.{
  Map, find-insert, find-erase, All-insert, All-erase, All-find, IsUnique, IsUnique-erase,
}
use rules_forge.Prelude.Map
use rules_forge.Rule.{Activation}
use rules_forge.Agenda.{Agenda, Groups, in_focus, get_focus, compact_if_needed}
use rules_forge.Agenda.Pop.{Popped, pop_loop, pop_next_batch_activations}
use rules_forge.Agenda.Queue.{Entry, push_all, has-push_all, All-push_all, push_all-IsSorted}
use rules_forge.Agenda.Invariant.{FitsAt, EntryFits, IsWellFormed, compact_if_needed-IsWellFormed}
use rules_forge.Agenda.Search.{
  pop_loop_induction, pop_loop-length, pop_loop-kept, pop_loop-entries, pop_loop-IsSorted,
  pop_loop-covered,
}
use rules_forge.Agenda.Order.{
  IsDescending, IsTaken, pop_loop_complete, pop_loop-IsDescending, pop_loop-IsTaken,
}

pub agenda_map-compact :
    (stale : ℕ) (a : Agenda) → (compact_if_needed stale a).agenda_map ≡ a.agenda_map
unfolding compact_if_needed
agenda_map-compact stale a = ground arith

-- The agenda before the queue is compacted.
abbrev after_pop : ℕ → Agenda → Popped
after_pop max_items a =
    pop_loop (get_focus a) max_items a.agenda_queue a.agenda_map a.activation_group_map

abbrev store : Popped → Agenda → Agenda
store p a = record a {
  agenda_map = p.agenda_map;
  agenda_queue = push_all p.deferred p.rest;
  activation_group_map = p.groups;
}

module _ (sal : ℕ → ℤ) where
  store-IsWellFormed :
      (n : ℕ) (a : Agenda) → IsWellFormed sal a → IsWellFormed sal (store (after_pop n a) a)
  store-IsWellFormed n a w =
      let f = get_focus a in
      let q = a.agenda_queue in
      let m = a.agenda_map in
      let g = a.activation_group_map in
      let entries = pop_loop-entries f (EntryFits sal) n q m g w.entries in
      record {
        entries = All-push_all (EntryFits sal) _ _ entries.0 entries.1;
        acts = pop_loop-acts f n q m g w.acts;
        covered = λ h x k. ground (
          arith,
          has-push_all (pop_loop f n q m g).deferred h (pop_loop f n q m g).rest,
          pop_loop-covered f n q m g h x k (w.covered h x (pop_loop-kept f n q m g h x k)),
        );
        sorted = push_all-IsSorted _ _ (pop_loop-IsSorted f n q m g w.sorted);
        unique = pop_loop-IsUnique f n q m g w.unique;
      }
    where
      pop_loop-IsUnique :
          (f : String) (room : ℕ) (q : List Entry) (m : Map ℕ Activation) (g : Groups)
          → IsUnique m
          → IsUnique (pop_loop f room q m g).agenda_map
      pop_loop-IsUnique f =
          pop_loop_induction f (λ room q m p. IsUnique m → IsUnique p.agenda_map)
            (λ room m g a. unfold pop_loop in a) (λ e q m g a. unfold pop_loop in a)
            (λ room e q m g n ih a. ih a)
            (λ room e q m g act n t ih a. ih (IsUnique-erase e.hash m a))
            (λ room e q m g act n t ih a. ih a)

      pop_loop-acts :
          (f : String) (room : ℕ) (q : List Entry) (m : Map ℕ Activation) (g : Groups)
          → All (λ (kv : ℕ × Activation). FitsAt sal kv.0 kv.1) m
          → All (λ (kv : ℕ × Activation). FitsAt sal kv.0 kv.1) (pop_loop f room q m g).agenda_map
      pop_loop-acts f =
          pop_loop_induction f
            (λ room q m p.
              All (λ (kv : ℕ × Activation). FitsAt sal kv.0 kv.1) m
              → All (λ (kv : ℕ × Activation). FitsAt sal kv.0 kv.1) p.agenda_map)
            (λ room m g a. unfold pop_loop in a) (λ e q m g a. unfold pop_loop in a)
            (λ room e q m g n ih a. ih a) (λ room e q m g act n t ih a. ih (All-erase _ e.hash m a))
            (λ room e q m g act n t ih a. ih a)

  -- Popping a batch keeps the agenda well formed, whatever its size.
  pub pop_next_batch_activations-IsWellFormed :
      (max_items : ℕ) (a : Agenda)
      → IsWellFormed sal a
      → IsWellFormed sal (pop_next_batch_activations max_items a).0
  unfolding pop_next_batch_activations
  pop_next_batch_activations-IsWellFormed zero a w = w
  pop_next_batch_activations-IsWellFormed (suc n) a w =
      compact_if_needed-IsWellFormed sal _ _ (store-IsWellFormed (suc n) a w)

  -- From a well-formed agenda, a batch holds at most max_items items, from the highest salience
  -- down; each was live, is of the focus group and has left the map; and a live activation of the
  -- focus group stays behind only if the batch is full and no item of it has a lower salience.
  pub pop_next_batch_activations_order :
      (max_items : ℕ) (a : Agenda)
      → IsWellFormed sal a
      → (length (pop_next_batch_activations max_items a).1 ≤ max_items)
        × IsDescending (pop_next_batch_activations max_items a).1
        × All
            (IsTaken
              (get_focus a)
              a.agenda_map
              (pop_next_batch_activations max_items a).0.agenda_map)
            (pop_next_batch_activations max_items a).1
        × ((h : ℕ) (x : Activation)
            → Map.find h (pop_next_batch_activations max_items a).0.agenda_map ≡ some x
            → in_focus (get_focus a) x.rule ≡ true
            → (length (pop_next_batch_activations max_items a).1 ≡ max_items)
              × All
                  (λ item. x.rule.salience ≤ℤ item.salience)
                  (pop_next_batch_activations max_items a).1)
  unfolding pop_next_batch_activations
  pop_next_batch_activations_order zero a w = (omega arith, tt, tt, λ h x k t. (refl, tt))
  pop_next_batch_activations_order (suc n) a w =
      let f = get_focus a in
      let q = a.agenda_queue in
      let m = a.agenda_map in
      let g = a.activation_group_map in
      (
        pop_loop-length f (suc n) q m g,
        pop_loop-IsDescending sal f (suc n) q m g w.sorted,
        rw agenda_map-compact (pop_loop-IsTaken sal f (suc n) q m g w.acts),
        λ h x k t.
            let k' = (rw agenda_map-compact at k) in
            let live = pop_loop-kept f (suc n) q m g h x k' in
            let fits = All-find (FitsAt sal) h x m w.acts live in
            rw fits.1 (
              pop_loop_complete sal f (suc n) q m g h x w.entries w.sorted k' t
                (w.covered h x live)),
      )
