-- ===== src/Prelude/Vector.antt =====
-- Vectors whose order a caller does not rely on: how often an item stands in one, and the removal
-- of an item by putting the last one in its place (remove_from_vector of
-- rulesforge/src/rete/rete_node.cpp).
use Prim.Native.Nat.{ℕ, suc, ◌+◌, ◌-◌}
use mathlib.Core.Path.{◌≡◌}
use mathlib.Core.List.{List, [], ◌∷◌, ◌++◌}
use native.Mathlib.Omega.{arith}
use rules_forge.Prelude.Tests.{if◌then◌else◌, ◌==◌, ==_iff, ltb}
use rules_forge.Prelude.Eq.{nat_eq}
use rules_forge.Prelude.Set.{contains, insert, erase}

unfoldable pub count : ℕ → List ℕ → ℕ
count a [] = 0
count a (x ∷ xs) = let rest = count a xs in if x == a then suc rest else rest

-- `vec.back()` and the rest, of a vector that starts with x.
unfoldable pub back : ℕ → List ℕ → ℕ
back x [] = x
back x (y ∷ ys) = back y ys

unfoldable pub without_back : ℕ → List ℕ → List ℕ
without_back x [] = []
without_back x (y ∷ ys) = x ∷ without_back y ys

unfoldable pub refill : List ℕ → List ℕ
unfolding back without_back
refill [] = []
refill (y ∷ ys) = back y ys ∷ without_back y ys

unfoldable pub remove_from_vector : ℕ → List ℕ → List ℕ
unfolding refill
remove_from_vector a [] = []
remove_from_vector a (x ∷ xs) =
    let rest = remove_from_vector a xs in if x == a then refill xs else x ∷ rest

pub count-append : (a : ℕ) (xs ys : List ℕ) → count a (xs ++ ys) ≡ count a xs + count a ys
unfolding count
count-append a [] ys = omega arith
count-append a (x ∷ xs) ys = ground (arith, count-append a xs ys)

count-back : (a x : ℕ) (xs : List ℕ) → count a (back x xs ∷ without_back x xs) ≡ count a (x ∷ xs)
unfolding back without_back count
count-back a x [] = ground arith
count-back a x (y ∷ ys) = ground (arith, count-back a y ys)

count-refill : (a : ℕ) (xs : List ℕ) → count a (refill xs) ≡ count a xs
unfolding refill count
count-refill a [] = ground arith
count-refill a (y ∷ ys) = count-back a y ys

pub count-remove :
    (a b : ℕ) (xs : List ℕ)
    → count b (remove_from_vector a xs) ≡ (if a == b then count b xs - 1 else count b xs)
unfolding remove_from_vector count
count-remove a b [] = ground arith
count-remove a b (x ∷ xs) = ground (arith, count-refill b xs, count-remove a b xs)

pub contains-count : (a : ℕ) (xs : List ℕ) → contains a xs ≡ ltb 0 (count a xs)
unfolding count contains
contains-count a [] = ground arith
contains-count a (x ∷ xs) = ground (arith, contains-count a xs)

pub count-insert :
    (a b : ℕ) (xs : List ℕ)
    → count b (insert a xs)
      ≡ (if a == b then (if contains a xs then count b xs else 1) else count b xs)
unfolding count insert
count-insert a b xs = ground (arith, contains-count a xs, ==_iff a b)

pub count-erase :
    (a b : ℕ) (xs : List ℕ) → count b (erase a xs) ≡ (if a == b then 0 else count b xs)
unfolding count erase
count-erase a b [] = ground arith
count-erase a b (x ∷ xs) = ground (arith, count-erase a b xs)
