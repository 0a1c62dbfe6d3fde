-- ===== src/Rete/Condition.antt =====
-- BetaConditionNode, which NotNode and ExistsNode extend (rulesforge/src/rete/rete_node.cpp,
-- rulesforge/include/rete/rete_node_join.hpp): for each token the ids of the facts that join with it.
pub mod Matches
pub mod Steps
pub mod Facts
pub mod View
pub mod Runs
mod Tests
use rules_forge.Prelude.{
  ℕ, Bool, true, false, not, Option, none, some, List, [], ◌∷◌, ◌++◌, ◌&&◌, ◌==◌, ltb, length, map,
  if◌then◌else◌,
}
use rules_forge.Prelude.Eq.{Eq, nat_eq}
use rules_forge.Prelude.Map.{Map}
use rules_forge.Prelude.Map
use rules_forge.Prelude.Set
use rules_forge.Rete.{PropagationType, assert, retract, modify, Message, tell}
use rules_forge.Rete.Index.{Index}
use rules_forge.Rete.Index

pub data Kind : Type 0 where
  not_node : Kind
  exists_node : Kind

-- condition_passes and was_passing, which are the same.
unfoldable pub condition_passes : Kind → ℕ → Bool
condition_passes not_node match_count = match_count == 0
condition_passes exists_node match_count = ltb 0 match_count

-- What a node reads of a token and a fact as they are now: check_all_join_conditions and the
-- fields of the hash key.
pub record Joins {ℓ} (K : Type ℓ) : Type ℓ where
  pub joins : ℕ → ℕ → Bool
  pub token_key : ℕ → Option K
  pub fact_key : ℕ → Option K

pub record ConditionMem {ℓ} (K : Type ℓ) : Type ℓ where
  pub left : Map ℕ (List ℕ)
  pub right : List ℕ
  pub left_index : Index K
  pub right_index : Index K
  pub pending_facts : List ℕ
  pub dirty : Bool

abbrev pub empty {ℓ} : {K : Type ℓ} → ConditionMem K
empty = record {
  left = [];
  right = [];
  left_index = Index.empty;
  right_index = Index.empty;
  pending_facts = [];
  dirty = false;
}

-- The loops that call record_match.
unfoldable pub record_matches : (ℕ → Bool) → List ℕ → List ℕ → List ℕ
record_matches test [] ids = ids
record_matches test (f ∷ fs) ids = record_matches test fs (if test f then Set.insert f ids else ids)

-- `out.insert(first, last)`.
unfoldable pub collect : List ℕ → List ℕ → List ℕ
collect [] out = out
collect (x ∷ xs) out = collect xs (Set.insert x out)

unfoldable pub is_retract : PropagationType → Bool
is_retract assert = false
is_retract retract = true
is_retract modify = false

unfoldable pub tokens : Map ℕ (List ℕ) → List ℕ
tokens [] = []
tokens ((wme, item) ∷ left) = wme ∷ tokens left

-- The matches of one token after the change of a fact.
unfoldable pub rematch : ℕ → Bool → Bool → List ℕ → List ℕ
rematch fact existed joins_now ids =
    let rest = if existed then Set.erase fact ids else ids in
    if joins_now then Set.insert fact rest else rest

module _ (kind : Kind) where
  unfoldable pub propagate_condition_transition : ℕ → ℕ → ℕ → List Message
  unfolding condition_passes tell
  propagate_condition_transition wme old_match_count new_match_count =
      let passed_before = condition_passes kind old_match_count in
      let passes_now = condition_passes kind new_match_count in
      if passed_before && not passes_now
      then tell retract wme
      else if not passed_before && passes_now
      then tell assert wme
      else []

  -- The loop of right_activate over the affected tokens; `test` is whether the fact joins now.
  unfoldable pub visit :
      ℕ → Bool → (ℕ → Bool) → List ℕ → Map ℕ (List ℕ) → Map ℕ (List ℕ) × List Message
  unfolding rematch propagate_condition_transition
  visit fact existed test [] left = (left, [])
  visit fact existed test (wme ∷ wmes) left = elim (Map.find wme left) [
    | none ↦ visit fact existed test wmes left
    | some ids ↦
        let ids' = rematch fact existed (test wme) ids in
        let (end, told) = visit fact existed test wmes (Map.insert wme ids' left) in
        (end, propagate_condition_transition wme (length ids) (length ids') ++ told)
  ]

module _ {ℓ} {K : Type ℓ} ⦃e : Eq K⦄ (kind : Kind) (hashed : Bool) (now : Joins K) where
  unfoldable pub matches : ℕ → ConditionMem K → List ℕ
  unfolding record_matches
  matches wme mem =
      record_matches (now.joins wme)
        (Index.candidates hashed (now.token_key wme) mem.right mem.right_index) []

  unfoldable pub left_activate : Message → ConditionMem K → ConditionMem K × List Message
  unfolding matches condition_passes tell is_retract
  left_activate token mem =
      let wme = token.subject in
      if is_retract token.p_type
      then elim (Map.find wme mem.left) [
        | none ↦ (mem, [])
        | some item ↦ (
          record mem {
            left = Map.erase wme mem.left;
            left_index = Index.remove true wme mem.left_index;
          },
          tell retract wme,
        )
      ]
      else (
        record mem {
          left = Map.insert wme (matches wme mem) mem.left;
          left_index = Index.add hashed (now.token_key wme) wme mem.left_index;
        },
        if condition_passes kind (length (matches wme mem)) then tell token.p_type wme else [],
      )

  -- append_candidates
  unfoldable pub append_candidates : Option K → ConditionMem K → List ℕ → List ℕ
  unfolding collect tokens
  append_candidates key mem out =
      collect (Index.candidates hashed key (tokens mem.left) mem.left_index) out

  unfoldable pub old_candidates : ℕ → ConditionMem K → List ℕ
  unfolding append_candidates
  old_candidates fact mem =
      if Set.contains fact mem.right
      then append_candidates (Map.find fact mem.right_index.keys) mem []
      else []

  unfoldable pub new_candidates : ℕ → PropagationType → ConditionMem K → List ℕ
  unfolding append_candidates is_retract
  new_candidates fact p_type mem =
      if is_retract p_type then [] else append_candidates (now.fact_key fact) mem []

  unfoldable pub drop_fact : ℕ → ConditionMem K → ConditionMem K
  drop_fact fact mem =
      if Set.contains fact mem.right
      then record mem { right_index = Index.remove hashed fact mem.right_index }
      else mem

  unfoldable pub store_fact : ℕ → PropagationType → ConditionMem K → ConditionMem K
  unfolding is_retract
  store_fact fact p_type mem =
      if is_retract p_type then record mem { right = Set.erase fact mem.right } else record mem {
        right = Set.insert fact mem.right;
        right_index = Index.add hashed (now.fact_key fact) fact mem.right_index;
      }

  unfoldable pub joins_now : ℕ → PropagationType → ConditionMem K → ℕ → Bool
  unfolding new_candidates is_retract
  joins_now fact p_type mem wme =
      not (is_retract p_type)
      && (Set.contains wme (new_candidates fact p_type mem) && now.joins wme fact)

  unfoldable pub change_fact : ℕ → PropagationType → ConditionMem K → ConditionMem K × List Message
  unfolding visit joins_now old_candidates new_candidates collect drop_fact store_fact
  change_fact fact p_type mem =
      let affected = collect (new_candidates fact p_type mem) (old_candidates fact mem) in
      let (left, told) =
        visit kind fact (Set.contains fact mem.right) (joins_now fact p_type mem) affected
          mem.left in
      (store_fact fact p_type (drop_fact fact (record mem { left = left })), told)

  unfoldable pub right_activate :
      Option ℕ → PropagationType → ConditionMem K → ConditionMem K × List Message
  unfolding change_fact is_retract
  right_activate none p_type mem = (mem, [])
  right_activate (some fact) p_type mem =
      if is_retract p_type && not (Set.contains fact mem.right)
      then (mem, [])
      else change_fact fact p_type mem

  unfoldable pub right_activate_batch :
      List ℕ → PropagationType → ConditionMem K → ConditionMem K × List Message
  unfolding right_activate
  right_activate_batch [] p_type mem = (mem, [])
  right_activate_batch (fact ∷ facts) p_type mem =
      let (mem', told) = right_activate (some fact) p_type mem in
      let (end, rest) = right_activate_batch facts p_type mem' in (end, told ++ rest)

  unfoldable pub right_activate_deferred : ℕ → ConditionMem K → ConditionMem K
  right_activate_deferred fact mem = record mem {
    pending_facts = mem.pending_facts ++ fact ∷ [];
    dirty = true;
  }

  unfoldable pub right_activate_batch_deferred : List ℕ → ConditionMem K → ConditionMem K
  right_activate_batch_deferred facts mem = record mem {
    pending_facts = mem.pending_facts ++ facts;
    dirty = true;
  }

  unfoldable pub flush_pending : ConditionMem K → ConditionMem K × List Message × Bool
  unfolding right_activate_batch
  flush_pending mem =
      if not mem.dirty
      then (mem, [], false)
      else let (end, told) =
          right_activate_batch mem.pending_facts assert
            (record mem { dirty = false; pending_facts = [] }) in
        (end, told, true)
