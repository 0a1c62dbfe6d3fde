-- ===== src/Session.antt =====
-- The firing of a StatefulSession (rulesforge/src/engine/stateful_session.cpp: fire_all_rules_impl,
-- fire_activation, add_activation, add_activations_batch). What the network, the listeners and a
-- rule's right-hand side do is the record FireOps; timing and tracing are left out. One turn of the
-- `while (true)` is a function, and the loop a sequence of turns.
pub mod Sound
pub mod Turns
pub mod Waiting
pub mod Ends
mod Tests
use rules_forge.Prelude.{
  String, ℕ, suc, ◌+◌, ◌-◌, Bool, true, false, not, Option, none, some, List, [], ◌∷◌, length, ltb,
  leb, if◌then◌else◌, ◌||◌, ◌&&◌,
}
use rules_forge.Prelude.Int.{ℤ, pos, negsuc}
use rules_forge.Rule.{Ptr, ParsedRule, Activation, TokenWme}
use rules_forge.Agenda.{
  get_focus, Agenda, PoppedActivationItem, add_batch, add_with_duration, flush_ready_delayed,
}
use rules_forge.Agenda.Pop.{pop_next_batch_activations, requeue}
use rules_forge.Agenda.Blocks.{
  set_focus, block_noloop, is_noloop_blocked, is_lock_on_active_blocked, cancel_activation_group,
  clear_noloop, clear_lock_on_active, clear_activation_groups, seed_lock_on_active_for_focus,
}

abbrev pub agenda_batch_size : ℕ
agenda_batch_size = 64

-- The session while it fires; `World` is the rest of it, behind the calls.
pub record Live (World : Type 0) : Type 0 where
  pub agenda : Agenda
  pub halt_requested : Bool
  pub is_consistent : Bool
  pub world : World

pub record FireOps : Type 1 where
  pub World : Type 0
  pub flush_pending_nodes : Live World → Live World
  -- compute_noloop_key_from_token: a hash of the rule and the facts.
  pub noloop_key : ParsedRule → Option TokenWme → ℕ
  -- `fact->id > 0`, and contains_fact_pointer of working memory.
  pub has_id : Ptr → World → Bool
  pub contains_fact_pointer : Ptr → World → Bool
  -- execute_rule_rhs: false where it throws.
  pub execute_rule_rhs : Activation → Live World → Live World × Bool

module _ (F : FireOps) where
  open F use {World}

  -- No fact of the chain was retracted: one without an id is not in working memory.
  unfoldable pub is_chain_valid : TokenWme → World → Bool
  is_chain_valid [] w = true
  is_chain_valid (none ∷ up) w = is_chain_valid up w
  is_chain_valid (some fact ∷ up) w =
      (not (F.has_id fact w) || F.contains_fact_pointer fact w) && is_chain_valid up w

  unfoldable pub is_activation_valid : Activation → World → Bool
  unfolding is_chain_valid
  is_activation_valid act w = elim act.token.wme [ none ↦ true | some wme ↦ is_chain_valid wme w ]

  unfoldable pub block_own : Activation → Agenda → Agenda
  block_own act a =
      if act.rule.no_loop then block_noloop (F.noloop_key act.rule act.token.wme) a else a

  unfoldable pub cancel_others : Activation → Agenda → Agenda
  cancel_others act a = elim act.rule.activation_group [
    | none ↦ a
    | some group ↦ cancel_activation_group group act.hash_value a
  ]

  -- fire_activation where the right-hand side's exception goes on, as every one that it throws does.
  unfoldable pub fire_activation : Activation → Live World → Live World × Bool
  unfolding block_own cancel_others
  fire_activation act l =
      F.execute_rule_rhs act (record l { agenda = cancel_others act (block_own act l.agenda) })

  pub record Firing : Type 0 where
    pub live : Live World
    pub total_fired_count : ℕ

  -- `max_rules >= 0 && total_fired_count >= max_rules`
  unfoldable pub is_full : ℤ → ℕ → Bool
  is_full (pos limit) fired = leb limit fired
  is_full (negsuc n) fired = false

  unfoldable pub budget : ℤ → ℕ → ℕ
  budget (negsuc n) fired = agenda_batch_size
  budget (pos limit) fired =
      if ltb (limit - fired) agenda_batch_size then limit - fired else agenda_batch_size

  unfoldable pub is_over : ℤ → Firing → Bool
  unfolding is_full
  is_over max_rules f = f.live.halt_requested || is_full max_rules f.total_fired_count

  -- The loop over a batch; false where an exception leaves it.
  unfoldable pub fire_batch : ℤ → List PoppedActivationItem → Firing → Firing × Bool
  unfolding is_over
  fire_batch max_rules [] f = (f, true)
  fire_batch max_rules (item ∷ items) f = elim (is_over max_rules f) [
    | true ↦ (
      record f { live = record (f.live) { agenda = requeue (item ∷ items) f.live.agenda } },
      true,
    )
    | false ↦ elim (is_activation_valid item.activation f.live.world) [
      | false ↦ fire_batch max_rules items f
      | true ↦
          let (l, fine) = fire_activation item.activation f.live in
          let fired : Firing = record { live = l; total_fired_count = f.total_fired_count + 1 } in
          elim fine [ true ↦ fire_batch max_rules items fired | false ↦ (fired, false) ]
    ]
  ]

  pub data Turn : Type 0 where
    again : Firing → Turn
    ends : Firing → Turn
    escapes : Firing → Turn

  abbrev pub after : Turn → Firing
  after (again f) = f
  after (ends f) = f
  after (escapes f) = f

  unfoldable pub close : ℤ → Firing × Bool → Turn
  unfolding is_over
  close max_rules (f, false) = escapes f
  close max_rules (f, true) = elim (is_over max_rules f) [ true ↦ ends f | false ↦ again f ]

  unfoldable pub fire_items : ℤ → List PoppedActivationItem → Firing → Turn
  unfolding close fire_batch
  fire_items max_rules [] f = ends f
  fire_items max_rules (item ∷ items) f = close max_rules (fire_batch max_rules (item ∷ items) f)

  abbrev pub with_agenda : Agenda → Firing → Firing
  with_agenda a f = record f { live = record (f.live) { agenda = a } }

  unfoldable pub pop_and_fire : ℤ → Firing → Turn
  unfolding fire_items budget
  pop_and_fire max_rules f =
      let (a, items) =
        pop_next_batch_activations (budget max_rules f.total_fired_count) f.live.agenda in
      fire_items max_rules items (with_agenda a f)

  -- One turn of the loop at the time `now`.
  unfoldable pub turn : ℤ → ℕ → Firing → Turn
  unfolding pop_and_fire
  turn max_rules now f =
      let f' = with_agenda (flush_ready_delayed now f.live.agenda) f in
      elim (is_over max_rules f') [ true ↦ ends f' | false ↦ pop_and_fire max_rules f' ]

  -- Turns at the times of the list, until one does not go on.
  unfoldable pub turns : ℤ → List ℕ → Firing → Turn
  unfolding turn
  turns max_rules [] f = again f
  turns max_rules (now ∷ times) f = elim (turn max_rules now f) [
    | again f' ↦ turns max_rules times f'
    | ends f' ↦ ends f'
    | escapes f' ↦ escapes f'
  ]

  pub data Opening : Type 0 where
    -- logic_error on a session that is executing; 0 from one that is inconsistent.
    reentered : Opening
    inconsistent : Opening
    opened : Firing → Opening

  -- fire_all_rules_impl before its loop.
  unfoldable pub start : Bool → Live World → Opening
  start execution_active l =
      if execution_active
      then reentered
      else if not l.is_consistent
      then inconsistent
      else let l' = F.flush_pending_nodes l in
        opened (record {
          live = record l' {
            halt_requested = false;
            agenda = seed_lock_on_active_for_focus l'.agenda;
          };
          total_fired_count = 0;
        })

  -- fire_all_rules_impl after its loop; every focus is popped.
  unfoldable pub finish : Live World → Live World
  finish l = record l {
    agenda = record (clear_activation_groups (clear_lock_on_active (clear_noloop l.agenda))) {
      focus_stack = [];
    };
  }

  -- The two filters that both ways onto the agenda share.
  unfoldable pub is_accepted : Activation → Agenda → Bool
  is_accepted act a =
      not (act.rule.no_loop && is_noloop_blocked (F.noloop_key act.rule act.token.wme) a)
      && not (act.rule.lock_on_active && is_lock_on_active_blocked act.rule a)

  unfoldable pub add_activation : ℕ → Activation → Agenda → Agenda
  unfolding is_accepted
  add_activation now act a = if is_accepted act a then add_with_duration now act a else a

  unfoldable pub accepted : List Activation → Agenda → List Activation
  unfolding is_accepted
  accepted [] a = []
  accepted (act ∷ acts) a =
      let rest = accepted acts a in if is_accepted act a then act ∷ rest else rest

  unfoldable pub add_activations_batch : List Activation → Agenda → Agenda
  unfolding accepted
  add_activations_batch acts a = add_batch (accepted acts a) a

  -- set_focus: none where ensure_consistent_for_mutation throws.
  unfoldable pub set_session_focus : String → Live World → Option (Live World)
  set_session_focus group l =
      if l.is_consistent then some (record l { agenda = set_focus group l.agenda }) else none

  unfoldable pub get_session_focus : Live World → String
  get_session_focus l = get_focus l.agenda
