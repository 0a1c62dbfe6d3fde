-- ===== src/Facts.antt =====
-- The facts of a StatefulSession and the transaction around a right-hand side
-- (rulesforge/src/engine/stateful_session.cpp). A fact is named by its id, which it has; ids are numbers
-- here, and is_positive tells which are positive. What the network, the agenda and the truth
-- maintenance system do with a change is the record Network; the changes of facts that they make in
-- turn are effects. A call that may throw returns the session that it leaves, and false.
pub mod Derived
pub mod Within
pub mod Rollback
pub mod Undo
pub mod Restored
pub mod Commit
mod Tests
use rules_forge.Prelude.{
  ℕ, Bool, true, false, not, Option, none, some, List, [], ◌∷◌, ◌++◌, ◌==◌, ◌&&◌, ◌||◌,
  if◌then◌else◌, is_some,
}
use rules_forge.Prelude.Eq.{nat_eq}
use rules_forge.Prelude.Map.{Map}
use rules_forge.Prelude.Map
use rules_forge.Prelude.Set
use rules_forge.Rete.{PropagationType, assert, retract, modify}

-- What a propagation does to the facts: an accumulate node adds and updates its result, and truth
-- maintenance retracts what has lost its support. The calls stand in order, those that they lead to
-- included.
pub data Effect {ℓ} (F : Type ℓ) : Type ℓ where
  gains : ℕ → F → Effect F
  loses : ℕ → Effect F
  rewrites : ℕ → F → Effect F

abbrev pub changed {ℓ} : {F : Type ℓ} → Effect F → ℕ
changed (gains fact value) = fact
changed (loses fact) = fact
changed (rewrites fact value) = fact

pub record Network : Type 1 where
  pub World : Type 0
  -- The fields of a fact.
  pub Fields : Type 0
  -- `id > 0`
  pub is_positive : ℕ → Bool
  -- validate_fact_for_insert does not throw.
  pub is_valid : Fields → Bool
  -- The propagation of a change, with the facts that are live and their fields; false where it
  -- throws.
  pub propagate :
      PropagationType → ℕ → List ℕ → (ℕ → Fields) → World → World × List (Effect Fields) × Bool

unfoldable pub reverse : List ℕ → List ℕ
reverse [] = []
reverse (x ∷ xs) = reverse xs ++ x ∷ []

module _ (N : Network) where
  open N use {World, Fields}

  pub record FactSession : Type 0 where
    pub live : List ℕ
    pub fields : ℕ → Fields
    pub in_rhs_transaction : Bool
    pub inserted : List ℕ
    pub retracted : List ℕ
    pub updated_order : List ℕ
    pub snapshots : Map ℕ Fields
    pub is_consistent : Bool
    pub halt_requested : Bool
    pub world : World

  abbrev pub write : ℕ → Fields → (ℕ → Fields) → ℕ → Fields
  write fact value fields g = if fact == g then value else fields g

  unfoldable pub note_inserted : ℕ → FactSession → FactSession
  note_inserted fact s =
      if s.in_rhs_transaction then record s { inserted = s.inserted ++ fact ∷ [] } else s

  -- add_fact up to its propagation.
  unfoldable pub enter_fact : ℕ → FactSession → FactSession × Bool
  unfolding note_inserted
  enter_fact fact s =
      if not s.is_consistent
      then (s, false)
      else if not (N.is_valid (s.fields fact))
      then (s, false)
      else (record (note_inserted fact s) { live = Set.insert fact s.live }, true)

  -- retract_fact up to its propagation. In a transaction the retraction waits for its end.
  unfoldable pub lose_fact : ℕ → FactSession → FactSession × Bool
  lose_fact fact s =
      if not s.is_consistent
      then (s, false)
      else if not (Set.contains fact s.live)
      then (s, true)
      else if s.in_rhs_transaction
      then (record s { retracted = s.retracted ++ fact ∷ [] }, true)
      else (record s { live = Set.erase fact s.live }, true)

  unfoldable pub make_effect : Effect Fields → FactSession → FactSession × Bool
  unfolding enter_fact lose_fact
  make_effect (gains fact value) s =
      enter_fact fact (record s { fields = write fact value s.fields })
  make_effect (loses fact) s = lose_fact fact s
  make_effect (rewrites fact value) s =
      if not (Set.contains fact s.live)
      then (s, true)
      else if not s.is_consistent
      then (s, false)
      else (record s { fields = write fact value s.fields }, true)

  -- The effects until one throws.
  unfoldable pub make_effects : List (Effect Fields) → FactSession → FactSession × Bool
  unfolding make_effect
  make_effects [] s = (s, true)
  make_effects (e ∷ effects) s =
      let (s', fine) = make_effect e s in
      elim fine [ true ↦ make_effects effects s' | false ↦ (s', false) ]

  unfoldable pub tell : PropagationType → ℕ → FactSession → FactSession × Bool
  unfolding make_effects
  tell p_type fact s =
      let (world, effects, fine) = N.propagate p_type fact s.live s.fields s.world in
      let (s', applied) = make_effects effects (record s { world = world }) in (s', fine && applied)

  unfoldable pub add_fact : ℕ → FactSession → FactSession × Bool
  unfolding tell enter_fact
  add_fact fact s =
      let (s', fine) = enter_fact fact s in
      elim fine [ true ↦ tell assert fact s' | false ↦ (s', false) ]

  unfoldable pub retract_now : ℕ → FactSession → FactSession × Bool
  unfolding tell
  retract_now fact s = tell retract fact (record s { live = Set.erase fact s.live })

  unfoldable pub retract_fact : ℕ → FactSession → FactSession × Bool
  unfolding lose_fact retract_now
  retract_fact fact s =
      if s.is_consistent && (Set.contains fact s.live && not s.in_rhs_transaction)
      then retract_now fact s
      else lose_fact fact s

  -- The first snapshot of a fact stays.
  unfoldable pub track_rhs_update_snapshot : ℕ → FactSession → FactSession
  track_rhs_update_snapshot fact s =
      if not s.in_rhs_transaction || not (N.is_positive fact)
      then s
      else if is_some (Map.find fact s.snapshots)
      then s
      else record s {
        updated_order = s.updated_order ++ fact ∷ [];
        snapshots = Map.insert fact (s.fields fact) s.snapshots;
      }

  unfoldable pub propagate_modify : ℕ → FactSession → FactSession × Bool
  unfolding tell
  propagate_modify fact s = if Set.contains fact s.live then tell modify fact s else (s, true)

  unfoldable pub begin_rhs_transaction : FactSession → FactSession
  begin_rhs_transaction s = record s {
    in_rhs_transaction = true;
    inserted = [];
    retracted = [];
    updated_order = [];
    snapshots = [];
  }

  unfoldable pub close_transaction : FactSession → FactSession
  close_transaction s = record s {
    in_rhs_transaction = false;
    inserted = [];
    retracted = [];
    updated_order = [];
    snapshots = [];
  }

  -- The loop of the commit; an exception leaves it.
  unfoldable pub commit_loop : List ℕ → FactSession → FactSession × Bool
  unfolding retract_now
  commit_loop [] s = (s, true)
  commit_loop (fact ∷ facts) s =
      let (s', fine) = retract_now fact s in
      elim fine [ true ↦ commit_loop facts s' | false ↦ (s', false) ]

  unfoldable pub restore_one : Map ℕ Fields → ℕ → FactSession → FactSession × Bool
  unfolding propagate_modify
  restore_one snapshots fact s = elim (Map.find fact snapshots) [
    | none ↦ (s, true)
    | some value ↦
        if not (Set.contains fact s.live)
        then (s, true)
        else if not (N.is_valid (s.fields fact))
        then (s, false)
        else propagate_modify fact (record s { fields = write fact value s.fields })
  ]

  -- The three loops of the rollback: a failure is noted, and the loop goes on.
  unfoldable pub each :
      (ℕ → FactSession → FactSession × Bool) → List ℕ → FactSession → FactSession × Bool
  each step [] s = (s, true)
  each step (fact ∷ facts) s =
      let (s', fine) = step fact s in let (end, rest) = each step facts s' in (end, fine && rest)

  unfoldable pub retract_inserted : ℕ → FactSession → FactSession × Bool
  unfolding retract_fact
  retract_inserted fact s = if Set.contains fact s.live then retract_fact fact s else (s, true)

  unfoldable pub restore_retracted : ℕ → FactSession → FactSession × Bool
  unfolding add_fact
  restore_retracted fact s = if Set.contains fact s.live then (s, true) else add_fact fact s

  unfoldable pub undo : FactSession → FactSession × Bool
  unfolding each restore_one retract_inserted restore_retracted close_transaction reverse
  undo s =
      let (a, fine_a) =
        each (restore_one s.snapshots) (reverse s.updated_order) (close_transaction s) in
      let (b, fine_b) = each retract_inserted (reverse s.inserted) a in
      let (c, fine_c) = each restore_retracted (reverse s.retracted) b in
      (c, fine_a && (fine_b && fine_c))

  unfoldable pub settle : FactSession × Bool → FactSession
  settle (s, true) = record s { is_consistent = true }
  settle (s, false) = record s { is_consistent = false; halt_requested = true; live = [] }

  unfoldable pub end_rhs_transaction : Bool → FactSession → FactSession × Bool
  unfolding commit_loop undo settle close_transaction
  end_rhs_transaction commits s =
      if not s.in_rhs_transaction
      then (s, true)
      else if commits
      then commit_loop s.retracted (record (close_transaction s) { is_consistent = true })
      else (settle (undo s), true)

  -- What a right-hand side does to the facts.
  pub data Action : Type 0 where
    inserts : ℕ → Fields → Action
    retracts : ℕ → Action
    updates : ℕ → Fields → Action
    -- An update whose later assignment throws.
    breaks_off : ℕ → Fields → Action

  -- The assignments of an update; the snapshot is taken before the first.
  unfoldable pub overwrite : ℕ → Fields → FactSession → FactSession
  unfolding track_rhs_update_snapshot
  overwrite fact value s =
      let s' = track_rhs_update_snapshot fact s in record s' { fields = write fact value s'.fields }

  unfoldable pub act : Action → FactSession → FactSession × Bool
  unfolding add_fact retract_fact overwrite propagate_modify
  act (inserts fact value) s = add_fact fact (record s { fields = write fact value s.fields })
  act (retracts fact) s = retract_fact fact s
  act (updates fact value) s = propagate_modify fact (overwrite fact value s)
  act (breaks_off fact value) s = (overwrite fact value s, false)

  -- Actions until one throws.
  unfoldable pub act_all : List Action → FactSession → FactSession
  unfolding act
  act_all [] s = s
  act_all (a ∷ actions) s =
      let (s', fine) = act a s in elim fine [ true ↦ act_all actions s' | false ↦ s' ]
