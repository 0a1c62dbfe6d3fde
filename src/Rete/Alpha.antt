-- ===== src/Rete/Alpha.antt =====
-- AlphaNode and EntryPointNode (rulesforge/src/rete/rete_node.cpp). A node keeps the ids of the
-- facts that pass its constraint; `check` is check_constraint on the facts as they are now, and
-- `affected` whether the constraint reads a field that the update changed, true where the update
-- does not say which fields it changed.
pub mod View
pub mod Runs
pub mod Batch
use rules_forge.Prelude.{
  ℕ, Bool, true, false, Option, none, some, List, [], ◌∷◌, ◌++◌, if◌then◌else◌,
}
use rules_forge.Prelude.Eq.{nat_eq}
use rules_forge.Prelude.Set
use rules_forge.Rete.{PropagationType, assert, retract, modify, Message, tell}

unfoldable pub forwarded : PropagationType → Bool → PropagationType
forwarded assert was_passing = assert
forwarded retract was_passing = retract
forwarded modify was_passing = if was_passing then modify else assert

unfoldable pub leave : ℕ → List ℕ → List ℕ × List Message
unfolding tell
leave fact passing =
    if Set.contains fact passing then (Set.erase fact passing, tell retract fact) else (passing, [])

unfoldable pub recheck : (ℕ → Bool) → PropagationType → ℕ → List ℕ → List ℕ × List Message
unfolding tell forwarded leave
recheck check p_type fact passing =
    if check fact
    then (Set.insert fact passing, tell (forwarded p_type (Set.contains fact passing)) fact)
    else leave fact passing

-- none is nullptr.
unfoldable pub right_activate :
    (ℕ → Bool) → Bool → Option ℕ → PropagationType → List ℕ → List ℕ × List Message
unfolding tell recheck leave
right_activate check affected none p_type passing = (passing, [])
right_activate check affected (some fact) retract passing = leave fact passing
right_activate check affected (some fact) assert passing = recheck check assert fact passing
right_activate check affected (some fact) modify passing =
    if affected
    then recheck check modify fact passing
    else (passing, if Set.contains fact passing then tell modify fact else [])

-- The facts that pass, in order, which both loops of a batch keep.
unfoldable pub survivors : (ℕ → Bool) → List ℕ → List ℕ
survivors check [] = []
survivors check (fact ∷ facts) =
    let rest = survivors check facts in if check fact then fact ∷ rest else rest

unfoldable pub insert_all : List ℕ → List ℕ → List ℕ
insert_all [] passing = passing
insert_all (fact ∷ facts) passing = insert_all facts (Set.insert fact passing)

unfoldable pub activate_each :
    (ℕ → Bool) → Bool → PropagationType → List ℕ → List ℕ → List ℕ × List Message
unfolding right_activate
activate_each check affected p_type [] passing = (passing, [])
activate_each check affected p_type (fact ∷ facts) passing =
    let (passing', told) = right_activate check affected (some fact) p_type passing in
    let (end, rest) = activate_each check affected p_type facts passing' in (end, told ++ rest)

-- A batch goes to each child in turn, which may shorten the vector; a child is named by what it
-- leaves of it. `given` are the batches that the children get, `vector` what the last one leaves.
pub record Handed : Type 0 where
  pub given : List (List ℕ)
  pub vector : List ℕ

unfoldable pub hand_on : List (List ℕ → List ℕ) → List ℕ → Handed
hand_on [] facts = record { given = []; vector = facts }
hand_on (child ∷ children) facts =
    let rest = hand_on children (child facts) in
    record { given = facts ∷ rest.given; vector = rest.vector }

-- The vector of the caller is filtered in place where there is one child, and kept where there is
-- not; no child gets an empty batch.
unfoldable pub assert_batch : List (List ℕ → List ℕ) → List ℕ → List ℕ → Handed
unfolding hand_on
assert_batch children facts [] = record { given = []; vector = facts }
assert_batch [] facts (x ∷ xs) = record { given = []; vector = facts }
assert_batch (child ∷ []) facts (x ∷ xs) = hand_on (child ∷ []) (x ∷ xs)
assert_batch (child ∷ other ∷ children) facts (x ∷ xs) = record {
  given = (hand_on (child ∷ other ∷ children) (x ∷ xs)).given;
  vector = facts;
}

-- right_activate_batch: the node, what every child is told fact by fact, and the batches.
pub record Batched : Type 0 where
  pub passing : List ℕ
  pub told : List Message
  pub batch : Handed

unfoldable pub one_by_one : List ℕ → List ℕ × List Message → Batched
one_by_one facts (passing, told) = record {
  passing = passing;
  told = told;
  batch = record { given = []; vector = facts };
}

unfoldable pub right_activate_batch :
    List (List ℕ → List ℕ) → (ℕ → Bool) → Bool → PropagationType → List ℕ → List ℕ → Batched
unfolding activate_each survivors insert_all assert_batch one_by_one
right_activate_batch children check affected assert facts passing = record {
  passing = insert_all (survivors check facts) passing;
  told = [];
  batch = assert_batch children facts (survivors check facts);
}
right_activate_batch children check affected retract facts passing =
    one_by_one facts (activate_each check affected retract facts passing)
right_activate_batch children check affected modify facts passing =
    one_by_one facts (activate_each check affected modify facts passing)

-- EntryPointNode::right_activate.
unfoldable pub enter : ℕ → PropagationType → List Message
unfolding tell
enter fact p_type = tell p_type fact
