-- ===== src/Rete.antt =====
-- The nodes of the network (rulesforge/src/rete/rete_node.cpp and its includes,
-- rulesforge/include/rete/network_memory.hpp): what a node keeps, and what it tells its children. A fact
-- is named by its id, a token by the address of its last element; a fact's fields are read through
-- functions that an activation takes, since they change from one call to the next. Every child of
-- a node gets the same messages, in order, but for the batches of Alpha. A set or a hash map is
-- walked in the order of its list.
pub mod Messages
pub mod Alpha
pub mod Index
pub mod Condition
pub mod Calls
pub mod Join
pub mod Terminal
pub mod Window
mod Tests
use rules_forge.Prelude.{
  ℕ, Bool, true, false, Option, none, some, List, [], ◌∷◌, ◌++◌, if◌then◌else◌,
}
use rules_forge.Prelude.Eq.{nat_eq}
use rules_forge.Prelude.Set

pub data PropagationType : Type 0 where
  assert : PropagationType
  retract : PropagationType
  modify : PropagationType

-- A right activation names a fact, a left activation a token.
pub record Message : Type 0 where
  pub subject : ℕ
  pub p_type : PropagationType

unfoldable pub tell : PropagationType → ℕ → List Message
tell p_type x = record { subject = x; p_type = p_type } ∷ []

unfoldable pub tell_all : PropagationType → List ℕ → List Message
unfolding tell
tell_all p_type [] = []
tell_all p_type (x ∷ xs) = tell p_type x ++ tell_all p_type xs

-- What a child knows of its parent from the messages alone. The joins and the conditions add a fact
-- that they are told is modified.
unfoldable pub receive : Message → List ℕ → List ℕ
receive message view = elim message.p_type [
  | assert ↦ Set.insert message.subject view
  | modify ↦ Set.insert message.subject view
  | retract ↦ Set.erase message.subject view
]

unfoldable pub receive_all : List Message → List ℕ → List ℕ
unfolding receive
receive_all [] view = view
receive_all (message ∷ messages) view = receive_all messages (receive message view)

-- A message to retract or to modify is about something that the child holds.
unfoldable pub is_expected : Message → List ℕ → Bool
is_expected message view = elim message.p_type [
  | assert ↦ true
  | modify ↦ Set.contains message.subject view
  | retract ↦ Set.contains message.subject view
]

unfoldable pub are_expected : List Message → List ℕ → Bool
unfolding is_expected receive
are_expected [] view = true
are_expected (message ∷ messages) view =
    let rest = are_expected messages (receive message view) in
    if is_expected message view then rest else false
