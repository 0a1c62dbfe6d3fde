-- ===== src/Rete/Condition/Tests.antt =====
-- A run of a NotNode (rulesforge/src/rete/rete_node.cpp).
use rules_forge.Prelude.{
  ℕ, ◌≡◌, refl, true, some, none, List, [], ◌∷◌, ◌&&◌, ◌==◌, ◌↔◌, arith, if◌then◌else◌,
}
use rules_forge.Prelude.Eq.{nat_eq}
use rules_forge.Prelude.Set
use rules_forge.Rete.{assert, modify, receive_all}
use rules_forge.Rete.Condition.{not_node, Joins, empty}
use rules_forge.Rete.Condition.Steps.{nothing, HasKeys, present}
use rules_forge.Rete.Condition.View.{Satisfies}
use rules_forge.Rete.Calls.{
  Call, token_enters, fact_changes, AreFair, IsFair, read, tokens_after, facts_after, all_tokens,
  all_facts, read_last, blank,
}
use rules_forge.Rete.Condition.Runs.{run, run_refines_condition}

-- The token 1 has the key 10; the fact 5 has the key k.
abbrev keyed : ℕ → Joins ℕ
keyed k = record {
  joins = λ w f. (w == 1) && ((f == 5) && (k == 10));
  token_key = λ w. if w == 1 then some 10 else none;
  fact_key = λ f. if f == 5 then some k else none;
}

keyed-HasKeys : (k : ℕ) → HasKeys (keyed k)
unfolding HasKeys
keyed-HasKeys k w f a b h i j = ground arith

-- The fact is updated, and its key with it: from one that does not join to one that does.
abbrev history : List (Call ℕ)
history =
    fact_changes (keyed 11) 5 assert
    ∷ token_enters (keyed 11) 1
    ∷ fact_changes (keyed 10) 5 modify
    ∷ []

history-AreFair : AreFair blank nothing nothing history
unfolding AreFair IsFair nothing present read tokens_after facts_after
history-AreFair = (
  keyed-HasKeys 11,
  (
    record { token = λ w l x. cc; fact = λ f l x. cc; pair = λ w f l m x y. cc },
    (
      keyed-HasKeys 11,
      (
        (refl, record { token = λ w l x. cc; fact = λ f l x. refl; pair = λ w f l m x y. cc }),
        (
          keyed-HasKeys 10,
          (
            record {
              token = λ w l x. refl;
              fact = λ f l x. ground arith;
              pair = λ w f l m x y. ground arith;
            },
            tt,
          ),
        ),
      ),
    ),
  ),
)

run_refines_condition_example :
    (Set.contains 1 (receive_all (run not_node true history empty).1 []) ≡ true) ↔ (
      (all_tokens history nothing 1 ≡ true)
      × Satisfies not_node
          (λ f. all_facts history nothing f && (read_last history blank).joins 1 f))
run_refines_condition_example = run_refines_condition not_node true history 1 history-AreFair
