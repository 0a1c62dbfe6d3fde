-- ===== src/Rete/Alpha/Runs.antt =====
-- About an AlphaNode over whole histories and batches (rulesforge/src/rete/rete_node.cpp).
use rules_forge.Prelude.{ℕ, ◌≡◌, Bool, true, some, List, [], ◌∷◌, ◌++◌, refl, ap, sym, ◌∙◌}
use mathlib.Core.Path.{subst}
use rules_forge.Prelude.Eq.{nat_eq}
use rules_forge.Rete.{Message, receive_all, are_expected}
use rules_forge.Rete.Messages.{receive_all-append, are_expected-append}
use rules_forge.Rete.Alpha.{right_activate}
use rules_forge.Rete.Alpha.View.{
  Change, alive, IsFair, Agrees, right_activate-Agrees, right_activate-told,
}

unfoldable pub run : List Change → List ℕ → List ℕ × List Message
run [] passing = (passing, [])
run (c ∷ cs) passing =
    let (passing', told) = right_activate c.check c.affected (some c.fact) c.p_type passing in
    let (end, rest) = run cs passing' in (end, told ++ rest)

unfoldable pub live_after : List Change → (ℕ → Bool) → ℕ → Bool
live_after [] live = live
live_after (c ∷ cs) live = live_after cs (alive c.p_type c.fact live)

unfoldable pub check_after : List Change → (ℕ → Bool) → ℕ → Bool
check_after [] check = check
check_after (c ∷ cs) check = check_after cs c.check

unfoldable pub AreFair : (live check : ℕ → Bool) → List Change → Type 0
AreFair live check [] = Unit
AreFair live check (c ∷ cs) = IsFair live check c × AreFair (alive c.p_type c.fact live) c.check cs

-- What the children of an AlphaNode hold after a history of changes, if they held what the node
-- held before it: what the node holds, which is the facts that the engine holds and that pass the
-- check then. No child is told to retract or to modify a fact that it does not hold. Each change is
-- fair: it writes its own fact's fields only, an update is of a fact that is held, and a check that
-- reads no changed field stays.
pub run_refines :
    (cs : List Change) (live check : ℕ → Bool) (passing : List ℕ)
    → AreFair live check cs
    → Agrees live check passing
    → (receive_all (run cs passing).1 passing ≡ (run cs passing).0)
      × (are_expected (run cs passing).1 passing ≡ true)
      × Agrees (live_after cs live) (check_after cs check) (run cs passing).0
unfolding run AreFair live_after check_after receive_all are_expected
run_refines [] live check passing f h = (refl, refl, h)
run_refines (c ∷ cs) live check passing f h =
    let one = right_activate c.check c.affected (some c.fact) c.p_type passing in
    let rest = run cs one.0 in
    let (same, expected, agrees) =
      run_refines cs _ _ _ f.1 (right_activate-Agrees live check c passing f.0 h) in
    let (told, fine) = right_activate-told c.check c.affected (some c.fact) c.p_type passing in
    (
      receive_all-append one.1 rest.1 passing ∙ ap (receive_all rest.1) told ∙ same,
      are_expected-append one.1 rest.1 passing fine
          (subst (λ v. are_expected rest.1 v ≡ true) (sym told) expected),
      agrees,
    )
