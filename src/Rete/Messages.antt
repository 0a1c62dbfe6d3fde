-- ===== src/Rete/Messages.antt =====
-- About sequences of messages between nodes (rulesforge/src/rete/rete_node.cpp).
use rules_forge.Prelude.{ℕ, ◌≡◌, refl, true, List, [], ◌∷◌, ◌++◌, arith, Bool-cases, inl, inr}
use rules_forge.Rete.{Message, receive_all, are_expected, is_expected}

pub receive_all-append :
    (xs ys : List Message) (view : List ℕ)
    → receive_all (xs ++ ys) view ≡ receive_all ys (receive_all xs view)
unfolding receive_all
receive_all-append [] ys view = refl
receive_all-append (x ∷ xs) ys view = receive_all-append xs ys _

pub are_expected-append :
    (xs ys : List Message) (view : List ℕ)
    → are_expected xs view ≡ true
    → are_expected ys (receive_all xs view) ≡ true
    → are_expected (xs ++ ys) view ≡ true
unfolding receive_all are_expected
are_expected-append [] ys view h k = k
are_expected-append (x ∷ xs) ys view h k = elim (Bool-cases (is_expected x view)) [
  | inl e ↦ rw (e, are_expected, receive_all) (are_expected-append xs ys _ (ground (arith, h)) k)
  | inr e ↦ absurd (ground (arith, h))
]
