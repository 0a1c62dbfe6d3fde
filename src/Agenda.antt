-- ===== src/Agenda.antt =====
-- rulesforge/include/engine/agenda.hpp: the activations that wait to fire, the focus stack, and
-- the sets that block re-activation. The hash map is an association list, the clock an argument.
pub mod Queue
pub mod Pop
pub mod Blocks
pub mod Invariant
pub mod Flush
pub mod Search
pub mod Order
pub mod Batch
pub mod Requeue
pub mod Next
pub mod Cancel
mod Tests
use rules_forge.Prelude.{
  ℕ, zero, suc, ◌+◌, ◌*◌, String, Bool, true, false, Option, none, some, List, [], ◌∷◌, leb, ltb,
  if◌then◌else◌, length,
}
use rules_forge.Prelude.Int.{ℤ, ltb_ℤ, pos, pos_part}
use rules_forge.Prelude.Eq.{Eq, string_eq, nat_eq}
use rules_forge.Prelude.Map.{Map}
use rules_forge.Prelude.Map
use rules_forge.Prelude.Set
use rules_forge.Rule.{Ptr, ParsedRule, Activation, TokenWme, wme_references_fact}
use Queue.{Entry, push, push_all}

pub record DelayedActivation : Type 0 where
  pub fire_time : ℕ
  pub activation : Activation

pub record Agenda : Type 0 where
  -- The head is the back of the vector.
  pub focus_stack : List String
  pub agenda_map : Map ℕ Activation
  pub agenda_queue : List Entry
  pub no_loop_blocked : List ℕ
  pub lock_on_active_blocked : List Ptr
  pub activation_group_map : Map String (List ℕ)
  -- The earliest first.
  pub delayed_activations : List DelayedActivation

abbrev pub empty : Agenda
empty = record {
  focus_stack = [];
  agenda_map = [];
  agenda_queue = [];
  no_loop_blocked = [];
  lock_on_active_blocked = [];
  activation_group_map = [];
  delayed_activations = [];
}

abbrev pub Groups : Type 0
Groups = Map String (List ℕ)

-- `groups[g]`, which is empty where the key is new.
unfoldable pub members : String → Groups → List ℕ
members g groups = elim (Map.find g groups) [ none ↦ [] | some hashes ↦ hashes ]

unfoldable pub enter_group : Option String → ℕ → Groups → Groups
unfolding members
enter_group none hash groups = groups
enter_group (some g) hash groups = Map.insert g (Set.insert hash (members g groups)) groups

-- A group whose set becomes empty is erased.
unfoldable pub store_group : String → List ℕ → Groups → Groups
store_group g [] groups = Map.erase g groups
store_group g hashes groups = Map.insert g hashes groups

unfoldable pub leave_group : Option String → ℕ → Groups → Groups
unfolding store_group
leave_group none hash groups = groups
leave_group (some g) hash groups = elim (Map.find g groups) [
  | none ↦ groups
  | some hashes ↦ store_group g (Set.erase hash hashes) groups
]

unfoldable pub add : Activation → Agenda → Agenda
unfolding enter_group
add act a = record a {
  agenda_map = Map.insert act.hash_value act a.agenda_map;
  agenda_queue =
      push (record { salience = act.rule.salience; hash = act.hash_value }) a.agenda_queue;
  activation_group_map =
      enter_group act.rule.activation_group act.hash_value a.activation_group_map;
}

push_delayed : DelayedActivation → List DelayedActivation → List DelayedActivation
push_delayed d [] = d ∷ []
push_delayed d (x ∷ ds) = if ltb d.fire_time x.fire_time then d ∷ x ∷ ds else x ∷ push_delayed d ds

unfoldable pub add_with_duration : ℕ → Activation → Agenda → Agenda
unfolding push_delayed
add_with_duration now act a =
    if ltb_ℤ (pos 0) act.rule.duration
    then record a {
      delayed_activations =
          push_delayed (record { fire_time = now + pos_part act.rule.duration; activation = act })
            a.delayed_activations;
    }
    else add act a

unfoldable pub add_batch : List Activation → Agenda → Agenda
add_batch [] a = a
add_batch (act ∷ acts) a = add_batch acts (add act a)

-- The loop of flush_ready_delayed over the delayed activations, the earliest first.
unfoldable pub flush_loop : ℕ → List DelayedActivation → Agenda → Agenda
flush_loop now [] a = record a { delayed_activations = [] }
flush_loop now (d ∷ ds) a = elim (leb d.fire_time now) [
  | true ↦ flush_loop now ds (add d.activation a)
  | false ↦ record a { delayed_activations = d ∷ ds }
]

unfoldable pub flush_ready_delayed : ℕ → Agenda → Agenda
unfolding flush_loop
flush_ready_delayed now a = flush_loop now a.delayed_activations a

unfoldable pub remove : ℕ → Agenda → Agenda × Bool
unfolding leave_group
remove hash a = elim (Map.find hash a.agenda_map) [
  | none ↦ (a, false)
  | some act ↦ (
    record a {
      agenda_map = Map.erase hash a.agenda_map;
      activation_group_map = leave_group act.rule.activation_group hash a.activation_group_map;
    },
    true,
  )
]

unfoldable pub remove_all : List ℕ → Agenda → Agenda
remove_all [] a = a
remove_all (hash ∷ hashes) a = remove_all hashes (remove hash a).0

unfoldable pub get_focus : Agenda → String
get_focus a = elim a.focus_stack [ [] ↦ "MAIN" | group ∷ rest ↦ group ]

-- A rule without an agenda group belongs to MAIN.
unfoldable pub in_focus : String → ParsedRule → Bool
in_focus focus rule = elim rule.agenda_group [
  | some group ↦ string_eq.beq group focus
  | none ↦ string_eq.beq focus "MAIN"
]

unfoldable pub entries_of : Map ℕ Activation → List Entry
entries_of [] = []
entries_of ((hash, act) ∷ m) =
    push (record { salience = act.rule.salience; hash = hash }) (entries_of m)

unfoldable pub compact_if_needed : ℕ → Agenda → Agenda
unfolding entries_of
compact_if_needed stale_skipped a =
    if leb stale_skipped 64
    then a
    else if leb (length a.agenda_queue) (length a.agenda_map * 2)
    then a
    else record a { agenda_queue = entries_of a.agenda_map }

pub record PoppedActivationItem : Type 0 where
  pub salience : ℤ
  pub activation : Activation

unfoldable pub size : Agenda → ℕ
size a = length a.agenda_map
