-- ===== src/Rete/Tests.antt =====
-- Runs of the network's nodes (rulesforge/src/rete/rete_node.cpp).
use rules_forge.Prelude.{
  ◌⊎◌, length, ◌≡◌, ℕ, Bool, true, false, List, [], ◌∷◌, All, ◌==◌, refl, arith,
}
use rules_forge.Prelude.Eq.{nat_eq}
use rules_forge.Prelude.Set
use rules_forge.Rete.{assert, modify, receive_all, are_expected, tell_all}
use rules_forge.Rete.Alpha.Batch.{AreGentle, IsOld, batch_equiv}
use rules_forge.Rete.Alpha.{right_activate_batch, activate_each}
use rules_forge.Rete.Alpha.View.{Change, Agrees, alive, is_modify}
use rules_forge.Rete.Alpha.Runs.{run, AreFair, live_after, check_after, run_refines}

abbrev nothing : ℕ → Bool
nothing g = false

-- The fact 5 is inserted and passes, is updated and does not pass, is updated and passes again.
abbrev history : List Change
history =
    record { fact = 5; p_type = assert; check = λ g. g == 5; affected = true }
    ∷ record { fact = 5; p_type = modify; check = nothing; affected = true }
    ∷ record { fact = 5; p_type = modify; check = λ g. g == 5; affected = true }
    ∷ []

history-AreFair : AreFair nothing nothing history
unfolding AreFair alive is_modify
history-AreFair = (
  record { frame = λ g h. ground arith; held = λ e. cc; unread = λ e. cc },
  (
    record { frame = λ g h. ground arith; held = λ e. refl; unread = λ e. cc },
    (record { frame = λ g h. ground arith; held = λ e. refl; unread = λ e. cc }, tt),
  ),
)

empty-Agrees : Agrees nothing nothing []
unfolding Agrees Set.contains
empty-Agrees g = refl

run_refines_example :
    (receive_all (run history []).1 [] ≡ (run history []).0)
    × (are_expected (run history []).1 [] ≡ true)
    × Agrees (live_after history nothing) (check_after history nothing) (run history []).0
run_refines_example = run_refines history nothing nothing [] history-AreFair empty-Agrees

olds : All (IsOld (λ g. g == 5) (5 ∷ [])) (4 ∷ 5 ∷ [])
unfolding IsOld Set.contains
olds = (λ e. refl, (λ e. cc, tt))

-- Two children that keep the vector, and a last one that empties it.
abbrev children : List (List ℕ → List ℕ)
children = (λ v. v) ∷ (λ v. v) ∷ (λ v. []) ∷ []

batch_equiv_example :
    let batched = right_activate_batch children (λ g. g == 5) true assert (4 ∷ 5 ∷ []) (5 ∷ []) in
    let each = activate_each (λ g. g == 5) true assert (4 ∷ 5 ∷ []) (5 ∷ []) in
    (batched.passing ≡ each.0)
    × (batched.told ≡ [])
    × All (λ v. tell_all assert v ≡ each.1) batched.batch.given
    × ((length batched.batch.given ≡ 3) ⊎ (each.1 ≡ []))
unfolding AreGentle
batch_equiv_example =
    batch_equiv children (λ g. g == 5) true (4 ∷ 5 ∷ []) (5 ∷ []) (λ v. refl, (λ v. refl, tt)) olds

-- An AlphaNode with one child that passes 5 alone stands before another: the second gets no 4.
shared_vector :
    (right_activate_batch
      ((λ v. (right_activate_batch ((λ x. x) ∷ []) (λ g. g == 5) true assert v []).batch.vector)
        ∷ (λ v. v)
        ∷ [])
      (λ g. true)
      true
      assert
      (4 ∷ 5 ∷ [])
      []).batch.given
    ≡ (4 ∷ 5 ∷ []) ∷ (5 ∷ []) ∷ []
unfolding right_activate_batch
shared_vector = refl
