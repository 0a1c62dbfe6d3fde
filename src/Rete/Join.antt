-- ===== src/Rete/Join.antt =====
-- BaseJoinNode, CrossProductJoinNode and HashedJoinNode (rulesforge/src/rete/rete_node.cpp). A
-- child token is named by its parent token and its fact, as get_or_create_wme finds it; for each parent
-- the node keeps the facts of its children (left_to_children).
pub mod Pairs
pub mod Runs
pub mod Cross
pub mod Told
pub mod CrossRuns
pub mod Batch
pub mod Hashed
pub mod HashedFacts
pub mod HashedRuns
mod Tests
use rules_forge.Prelude.{
  ℕ, Bool, true, false, not, Option, none, some, List, [], ◌∷◌, ◌++◌, ◌==◌, ◌&&◌, if◌then◌else◌,
  ◌+◌, ◌-◌,
}
use rules_forge.Prelude.Eq.{Eq, nat_eq}
use rules_forge.Prelude.Map.{Map}
use rules_forge.Prelude.Map
use rules_forge.Prelude.Set
use rules_forge.Prelude.Vector.{remove_from_vector}
use rules_forge.Rete.{PropagationType, assert, retract, modify, Message}
use rules_forge.Rete.Index.{row, store_row, leave_row}
use rules_forge.Rete.Condition.{Joins, is_retract}

pub record JoinMessage : Type 0 where
  pub parent : ℕ
  pub fact : ℕ
  pub p_type : PropagationType

abbrev pub Children : Type 0
Children = Map ℕ (List ℕ)

unfoldable pub propagate_assert : ℕ → ℕ → Children → Children × List JoinMessage
propagate_assert wme fact t = (
  Map.insert wme (row wme t ++ fact ∷ []) t,
  record { parent = wme; fact = fact; p_type = assert } ∷ [],
)

unfoldable pub propagate_retract : ℕ → ℕ → Children → Children × List JoinMessage
propagate_retract wme fact t = elim (Map.find wme t) [
  | none ↦ (t, [])
  | some facts ↦
      if Set.contains fact facts
      then (
        store_row wme (remove_from_vector fact facts) t,
        record { parent = wme; fact = fact; p_type = retract } ∷ [],
      )
      else (t, [])
]

-- The loops of the nodes go over the facts for one token, or over the tokens for one fact.
unfoldable pub with_token : ℕ → List ℕ → List (ℕ × ℕ)
with_token wme [] = []
with_token wme (fact ∷ facts) = (wme, fact) ∷ with_token wme facts

unfoldable pub with_fact : ℕ → List ℕ → List (ℕ × ℕ)
with_fact fact [] = []
with_fact fact (wme ∷ wmes) = (wme, fact) ∷ with_fact fact wmes

unfoldable pub retract_pairs : List (ℕ × ℕ) → Children → Children × List JoinMessage
unfolding propagate_retract
retract_pairs [] t = (t, [])
retract_pairs ((wme, fact) ∷ pairs) t =
    let (t', told) = propagate_retract wme fact t in
    let (end, rest) = retract_pairs pairs t' in (end, told ++ rest)

unfoldable pub assert_pairs : (ℕ → ℕ → Bool) → List (ℕ × ℕ) → Children → Children × List JoinMessage
unfolding propagate_assert
assert_pairs joins [] t = (t, [])
assert_pairs joins ((wme, fact) ∷ pairs) t = elim (joins wme fact) [
  | false ↦ assert_pairs joins pairs t
  | true ↦
      let (t', told) = propagate_assert wme fact t in
      let (end, rest) = assert_pairs joins pairs t' in (end, told ++ rest)
]

pub record CrossMem : Type 0 where
  pub left : List ℕ
  pub right : List ℕ
  pub children : Children
  pub pending_facts : List ℕ
  pub dirty : Bool

-- CrossProductJoinNode
-- MODIFY: the old matches are retracted first.
unfoldable pub cross_forget : ℕ → PropagationType → CrossMem → Children × List JoinMessage
unfolding retract_pairs with_fact
cross_forget fact assert mem = (mem.children, [])
cross_forget fact retract mem = retract_pairs (with_fact fact mem.left) mem.children
cross_forget fact modify mem =
    if Set.contains fact mem.right
    then retract_pairs (with_fact fact mem.left) mem.children
    else (mem.children, [])

unfoldable pub cross_remove : ℕ → CrossMem → CrossMem × List JoinMessage
unfolding cross_forget
cross_remove fact mem =
    let (t, told) = cross_forget fact retract mem in
    (record mem { right = Set.erase fact mem.right; children = t }, told)

module _ (joins : ℕ → ℕ → Bool) where
  unfoldable pub cross_left_activate : ℕ → Bool → CrossMem → CrossMem × List JoinMessage
  unfolding retract_pairs assert_pairs with_token
  cross_left_activate wme true mem = elim (Set.contains wme mem.left) [
    | true ↦
        let (t, told) = retract_pairs (with_token wme mem.right) mem.children in
        (record mem { left = Set.erase wme mem.left; children = t }, told)
    | false ↦ (mem, [])
  ]
  cross_left_activate wme false mem =
      let (t, told) = assert_pairs joins (with_token wme mem.right) mem.children in
      (record mem { left = Set.insert wme mem.left; children = t }, told)

  unfoldable pub cross_store : ℕ → PropagationType → CrossMem → CrossMem × List JoinMessage
  unfolding cross_forget assert_pairs with_fact
  cross_store fact p_type mem =
      let (t, told) = cross_forget fact p_type mem in
      let (end, rest) = assert_pairs joins (with_fact fact mem.left) t in
      (record mem { right = Set.insert fact mem.right; children = end }, told ++ rest)

  unfoldable pub cross_right_activate : ℕ → PropagationType → CrossMem → CrossMem × List JoinMessage
  unfolding cross_remove cross_store
  cross_right_activate fact assert mem = cross_store fact assert mem
  cross_right_activate fact modify mem = cross_store fact modify mem
  cross_right_activate fact retract mem =
      if Set.contains fact mem.right then cross_remove fact mem else (mem, [])

pub record HashedMem {ℓ} (K : Type ℓ) : Type ℓ where
  pub left : Map K (List ℕ)
  pub right : Map K (List ℕ)
  pub children : Children
  pub pending_facts : List ℕ
  pub dirty : Bool

-- HashedJoinNode
module _ {ℓ} {K : Type ℓ} ⦃e : Eq K⦄ (now : Joins K) where
  unfoldable pub hashed_leave : K → ℕ → HashedMem K → HashedMem K × List JoinMessage
  unfolding retract_pairs with_token row leave_row
  hashed_leave key wme mem =
      let (t, told) = retract_pairs (with_token wme (row key mem.right)) mem.children in
      (record mem { left = leave_row key wme mem.left; children = t }, told)

  unfoldable pub hashed_enter : K → ℕ → HashedMem K → HashedMem K × List JoinMessage
  unfolding assert_pairs with_token row
  hashed_enter key wme mem =
      let (t, told) = assert_pairs now.joins (with_token wme (row key mem.right)) mem.children in
      (
        record mem { left = Map.insert key (row key mem.left ++ wme ∷ []) mem.left; children = t },
        told,
      )

  unfoldable pub hashed_left_activate : ℕ → Bool → HashedMem K → HashedMem K × List JoinMessage
  unfolding hashed_leave hashed_enter
  hashed_left_activate wme retracts mem = elim (now.token_key wme) [
    | none ↦ (mem, [])
    | some key ↦ if retracts then hashed_leave key wme mem else hashed_enter key wme mem
  ]

  unfoldable pub hashed_remove : K → ℕ → HashedMem K → HashedMem K × List JoinMessage
  unfolding retract_pairs with_fact row leave_row
  hashed_remove key fact mem =
      let (t, told) = retract_pairs (with_fact fact (row key mem.left)) mem.children in
      (record mem { right = leave_row key fact mem.right; children = t }, told)

  -- MODIFY of a fact that its key's bucket holds: the old matches are retracted first.
  unfoldable pub hashed_forget :
      K → ℕ → PropagationType → HashedMem K → HashedMem K × List JoinMessage
  unfolding hashed_remove row
  hashed_forget key fact assert mem = (mem, [])
  hashed_forget key fact retract mem = hashed_remove key fact mem
  hashed_forget key fact modify mem =
      if Set.contains fact (row key mem.right) then hashed_remove key fact mem else (mem, [])

  unfoldable pub hashed_store : K → ℕ → HashedMem K → HashedMem K × List JoinMessage
  unfolding assert_pairs with_fact row
  hashed_store key fact mem =
      let (t, told) = assert_pairs now.joins (with_fact fact (row key mem.left)) mem.children in
      (
        record mem {
          right = Map.insert key (row key mem.right ++ fact ∷ []) mem.right;
          children = t;
        },
        told,
      )

  unfoldable pub hashed_change :
      K → ℕ → PropagationType → HashedMem K → HashedMem K × List JoinMessage
  unfolding hashed_forget hashed_store
  hashed_change key fact p_type mem =
      let (mem', told) = hashed_forget key fact p_type mem in
      let (end, rest) = hashed_store key fact mem' in (end, told ++ rest)

  unfoldable pub hashed_right_activate :
      ℕ → PropagationType → HashedMem K → HashedMem K × List JoinMessage
  unfolding hashed_forget hashed_change is_retract
  hashed_right_activate fact p_type mem = elim (now.fact_key fact) [
    | none ↦ (mem, [])
    | some key ↦
        if is_retract p_type
        then hashed_forget key fact p_type mem
        else hashed_change key fact p_type mem
  ]
