-- ===== src/Rete/Join/Tests.antt =====
-- Runs of the join nodes (rulesforge/src/rete/rete_node.cpp).
use rules_forge.Prelude.{
  ℕ, ◌≡◌, refl, Bool, true, false, some, none, List, [], ◌∷◌, ◌&&◌, ◌==◌, ==_iff, arith,
  if◌then◌else◌,
}
use rules_forge.Prelude.Eq.{nat_eq}
use rules_forge.Prelude.Map
use rules_forge.Prelude.Set
use rules_forge.Rete.Index.{row}
use rules_forge.Rete.Join.{
  CrossMem, cross_left_activate, cross_right_activate, hashed_left_activate, hashed_right_activate,
}
use rules_forge.Rete.{assert, modify}
use rules_forge.Rete.Condition.{Joins, is_retract}
use rules_forge.Rete.Condition.Steps.{nothing, present}
use rules_forge.Rete.Calls.{
  Call, token_enters, fact_changes, IsFair, blank, read, tokens_after, facts_after, all_tokens,
  all_facts, read_last,
}
use rules_forge.Rete.Join.Pairs.{held}
use rules_forge.Rete.Join.Runs.{HasEqualKeys, IsNew, KeepsKey, AreAllowed, run_calls}
use rules_forge.Rete.Join.CrossRuns.{CrossAllows, cross_call, empty_cross, cross_refines}
use rules_forge.Rete.Join.HashedRuns.{HashedAllows, hashed_call, empty_hashed, hashed_equiv_cross}

-- The token 1 has the key 10; the fact 5 has the key k, and a field that the other constraints read.
abbrev keyed : ℕ → Bool → Joins ℕ
keyed k other = record {
  joins = λ w f. (w == 1) && ((f == 5) && ((k == 10) && other));
  token_key = λ w. if w == 1 then some 10 else none;
  fact_key = λ f. if f == 5 then some k else none;
}

keyed-HasEqualKeys : (k : ℕ) (other : Bool) → HasEqualKeys (keyed k other)
keyed-HasEqualKeys k other = record {
  equal = λ w f j. (10, (ground (arith, j), ground (arith, j, ==_iff k 10)));
}

-- The fact joins, and after an update of the other field does not.
abbrev history : List (Call ℕ)
history =
    token_enters (keyed 10 true) 1
    ∷ fact_changes (keyed 10 true) 5 assert
    ∷ fact_changes (keyed 10 false) 5 modify
    ∷ []

history-AreAllowed : AreAllowed HashedAllows blank nothing nothing history
unfolding AreAllowed IsFair IsNew KeepsKey nothing present read tokens_after facts_after is_retract
history-AreAllowed = (
  record {
    cross = record {
      fair = (refl, record { token = λ w l x. cc; fact = λ f l x. cc; pair = λ w f l m x y. cc });
      new = tt;
    };
    kept = tt;
    keys = keyed-HasEqualKeys 10 true;
  },
  (
    record {
      cross = record {
        fair = record { token = λ w l x. refl; fact = λ f l x. cc; pair = λ w f l m x y. refl };
        new = refl;
      };
      kept = λ l. refl;
      keys = keyed-HasEqualKeys 10 true;
    },
    (
      record {
        cross = record {
          fair = record {
            token = λ w l x. refl;
            fact = λ f l x. refl;
            pair = λ w f l m x y. ground arith;
          };
          new = tt;
        };
        kept = λ l. refl;
        keys = keyed-HasEqualKeys 10 false;
      },
      tt,
    ),
  ),
)

hashed_equiv_cross_example :
    held (run_calls hashed_call history empty_hashed).1 1 5 0
    ≡ held (run_calls cross_call history empty_cross).1 1 5 0
hashed_equiv_cross_example = hashed_equiv_cross history 1 5 history-AreAllowed

cross_allowed : AreAllowed CrossAllows blank nothing nothing history
unfolding AreAllowed
cross_allowed = let (a, (b, (c, d))) = history-AreAllowed in (a.cross, (b.cross, (c.cross, tt)))

cross_refines_example : held (run_calls cross_call history empty_cross).1 1 5 0 ≡ (
    if all_tokens history nothing 1
      && (all_facts history nothing 5 && (read_last history blank).joins 1 5)
    then 1
    else 0)
cross_refines_example = cross_refines history 1 5 cross_allowed

-- The update changes the hash key: the hashed node keeps the child that the other one retracts.
abbrev moved : List (Call ℕ)
moved =
    token_enters (keyed 10 true) 1
    ∷ fact_changes (keyed 10 true) 5 assert
    ∷ fact_changes (keyed 11 true) 5 modify
    ∷ []

hashed_moved : held (run_calls hashed_call moved empty_hashed).1 1 5 0 ≡ 1
unfolding held run_calls hashed_call hashed_left_activate Map.find hashed_right_activate Map.insert
    Set.contains
hashed_moved = refl

cross_moved : held (run_calls cross_call moved empty_cross).1 1 5 0 ≡ 0
unfolding held run_calls cross_call cross_left_activate cross_right_activate Set.insert Map.find
    Map.insert row
cross_moved = refl

abbrev one_match : CrossMem
one_match = record {
  left = 1 ∷ 2 ∷ [];
  right = 5 ∷ [];
  children = (1, 5 ∷ []) ∷ [];
  pending_facts = [];
  dirty = false;
}
