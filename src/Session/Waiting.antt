-- ===== src/Session/Waiting.antt =====
-- About the number of activations that wait, through a flush and a pop
-- (rulesforge/include/engine/agenda.hpp).
use rules_forge.Prelude.{
  String, ℕ, zero, suc, ◌≤◌, ◌+◌, ◌≡◌, inl, inr, List, [], ◌∷◌, arith, Bool-cases, Option-cases,
  length,
}
use rules_forge.Prelude.Eq.{nat_eq}
use rules_forge.Prelude.Map.{Map, length-erase-lt, length-insert-le}
use rules_forge.Prelude.Map
use rules_forge.Rule.{Activation}
use rules_forge.Agenda.{
  Agenda, DelayedActivation, Groups, add, flush_loop, flush_ready_delayed, get_focus, in_focus,
  leave_group, compact_if_needed,
}
use rules_forge.Agenda.Queue.{Entry, push_all}
use rules_forge.Agenda.Pop.{pop_loop, pop_next_batch_activations}

-- The activations that an agenda holds, live or delayed.
unfoldable pub waiting : Agenda → ℕ
waiting a = length a.agenda_map + length a.delayed_activations

flush_loop-waiting :
    (now : ℕ) (ds : List DelayedActivation) (a : Agenda)
    → waiting (flush_loop now ds a) ≤ length a.agenda_map + length ds
unfolding flush_loop waiting add
flush_loop-waiting now [] a = omega arith
flush_loop-waiting now (d ∷ ds) a = ground (
  arith,
  flush_loop-waiting now ds (add d.activation a),
  length-insert-le d.activation.hash_value d.activation a.agenda_map,
)

pub flush-waiting : (now : ℕ) (a : Agenda) → waiting (flush_ready_delayed now a) ≤ waiting a
unfolding flush_ready_delayed waiting
flush-waiting now a = flush_loop-waiting now a.delayed_activations a

pop_loop-waiting :
    (focus : String) (room : ℕ) (q : List Entry) (m : Map ℕ Activation) (g : Groups)
    → length (pop_loop focus room q m g).out + length (pop_loop focus room q m g).agenda_map
      ≤ length m
unfolding pop_loop
pop_loop-waiting focus room [] m g = omega arith
pop_loop-waiting focus zero (e ∷ q) m g = omega arith
pop_loop-waiting focus (suc room) (e ∷ q) m g = elim (Option-cases (Map.find e.hash m)) [
  | inl n ↦ rw (n, pop_loop) (pop_loop-waiting focus (suc room) q m g)
  | inr (act, n) ↦ elim (Bool-cases (in_focus focus act.rule)) [
    | inr t ↦ rw (n, t, pop_loop) (pop_loop-waiting focus (suc room) q m g)
    | inl t ↦
        rw (n, t, pop_loop)
          (omega (
            arith,
            length-erase-lt e.hash act m n,
            pop_loop-waiting focus room q (Map.erase e.hash m)
                (leave_group act.rule.activation_group e.hash g),
          ))
  ]
]

compact-waiting : (stale : ℕ) (a : Agenda) → waiting (compact_if_needed stale a) ≡ waiting a
unfolding compact_if_needed waiting
compact-waiting stale a = ground arith

pub pop-waiting :
    (n : ℕ) (a : Agenda)
    → length (pop_next_batch_activations n a).1 + waiting (pop_next_batch_activations n a).0
      ≤ waiting a
unfolding pop_next_batch_activations waiting
pop-waiting zero a = omega arith
pop-waiting (suc n) a =
    let p = pop_loop (get_focus a) (suc n) a.agenda_queue a.agenda_map a.activation_group_map in
    omega (
      arith,
      compact-waiting p.stale_skipped (record a {
        agenda_map = p.agenda_map;
        agenda_queue = push_all p.deferred p.rest;
        activation_group_map = p.groups;
      }),
      pop_loop-waiting (get_focus a) (suc n) a.agenda_queue a.agenda_map a.activation_group_map,
    )
