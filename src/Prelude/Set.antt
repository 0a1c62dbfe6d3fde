-- ===== src/Prelude/Set.antt =====
-- std::set and std::unordered_set as lists: `contains` decides, `erase` removes every copy.
use mathlib.Core.Path.{◌≡◌}
use mathlib.Core.Bool.{Bool, true, false}
use mathlib.Core.List.{List, [], ◌∷◌}
use native.Mathlib.Omega.{arith}
use rules_forge.Prelude.Tests.{if◌then◌else◌}
use rules_forge.Prelude.Eq.{Eq}

module _ {ℓ} {A : Type ℓ} ⦃e : Eq A⦄ where
  unfoldable pub contains : A → List A → Bool
  contains a [] = false
  contains a (x ∷ xs) = if e.beq x a then true else contains a xs

  unfoldable pub insert : A → List A → List A
  unfolding contains
  insert a xs = if contains a xs then xs else a ∷ xs

  unfoldable pub erase : A → List A → List A
  erase a [] = []
  erase a (x ∷ xs) = let rest = erase a xs in if e.beq x a then rest else x ∷ rest

  pub contains-insert :
      (a b : A) (xs : List A)
      → contains b (insert a xs) ≡ (if e.beq a b then true else contains b xs)
  unfolding insert
  contains-insert a b xs = ground (arith, e.beq_iff a b)

  pub contains-erase :
      (a b : A) (xs : List A)
      → contains b (erase a xs) ≡ (if e.beq a b then false else contains b xs)
  unfolding contains erase
  contains-erase a b [] = ground arith
  contains-erase a b (x ∷ xs) =
      ground (arith, e.beq_iff a b, e.beq_iff x a, e.beq_iff x b, contains-erase a b xs)
