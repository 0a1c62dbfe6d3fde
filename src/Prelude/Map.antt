-- ===== src/Prelude/Map.antt =====
-- std::map and std::unordered_map as association lists: one entry for each key that was inserted.
use Prim.Native.Nat.{◌≤◌, ◌+◌}
use mathlib.Core.Path.{◌≡◌, refl, subst, subst₂}
use mathlib.Core.Logic.{inl, inr}
use mathlib.Core.List.{List, [], ◌∷◌}
use mathlib.Core.Option.{Option, none, some}
use native.Mathlib.Omega.{arith}
use rules_forge.Prelude.Tests.{if◌then◌else◌, Bool-cases}
use rules_forge.Prelude.Lists.{length, All}
use rules_forge.Prelude.Eq.{Eq}

abbrev pub Map {ℓ κ} : Type ℓ → Type κ → Type (ℓ ⊔ κ)
Map K V = List (K × V)

module _ {ℓ κ} {K : Type ℓ} {V : Type κ} ⦃e : Eq K⦄ where
  unfoldable pub find : K → Map K V → Option V
  find k [] = none
  find k ((j, v) ∷ m) = if e.beq j k then some v else find k m

  -- `m[k] = v`
  unfoldable pub insert : K → V → Map K V → Map K V
  insert k v [] = (k, v) ∷ []
  insert k v ((j, w) ∷ m) = if e.beq j k then (k, v) ∷ m else (j, w) ∷ insert k v m

  unfoldable pub erase : K → Map K V → Map K V
  erase k [] = []
  erase k ((j, w) ∷ m) = let rest = erase k m in if e.beq j k then rest else (j, w) ∷ rest

  pub find-insert :
      (k j : K) (v : V) (m : Map K V)
      → find j (insert k v m) ≡ (if e.beq k j then some v else find j m)
  unfolding find insert
  find-insert k j v [] = refl
  find-insert k j v ((i, w) ∷ m) =
      ground (arith, e.beq_iff k j, e.beq_iff i k, e.beq_iff i j, find-insert k j v m)

  pub find-erase :
      (k j : K) (m : Map K V) → find j (erase k m) ≡ (if e.beq k j then none else find j m)
  unfolding find erase
  find-erase k j [] = ground arith
  find-erase k j ((i, w) ∷ m) =
      ground (arith, e.beq_iff k j, e.beq_iff i k, e.beq_iff i j, find-erase k j m)

  pub length-erase-le : (k : K) (m : Map K V) → length (erase k m) ≤ length m
  unfolding erase
  length-erase-le k [] = omega arith
  length-erase-le k ((i, w) ∷ m) = ground (arith, length-erase-le k m)

  pub length-erase-lt :
      (k : K) (v : V) (m : Map K V) → find k m ≡ some v → length (erase k m) + 1 ≤ length m
  unfolding erase find
  length-erase-lt k v [] h = cc
  length-erase-lt k v ((i, w) ∷ m) h = ground (arith, length-erase-lt k v m, length-erase-le k m)

  pub All-insert {μ} :
      (P : K × V → Type μ) (k : K) (v : V) (m : Map K V) → P (k, v) → All P m → All P (insert k v m)
  unfolding insert
  All-insert P k v [] p a = (p, tt)
  All-insert P k v ((j, w) ∷ m) p a = ground (arith, All-insert P k v m p a.1)

  pub All-erase {μ} : (P : K × V → Type μ) (k : K) (m : Map K V) → All P m → All P (erase k m)
  unfolding erase
  All-erase P k [] a = tt
  All-erase P k ((j, w) ∷ m) a = ground (arith, All-erase P k m a.1)

  pub All-find {μ} :
      (P : K → V → Type μ) (k : K) (v : V) (m : Map K V)
      → All (λ (kv : K × V). P kv.0 kv.1) m
      → find k m ≡ some v
      → P k v
  unfolding find
  All-find P k v [] a h = cc
  All-find P k v ((j, w) ∷ m) a h = elim (Bool-cases (e.beq j k)) [
    | inl t ↦ let eq = (e.beq_iff j k).0 t in subst₂ P eq (ground (arith, eq)) a.0
    | inr f ↦ All-find P k v m a.1 (ground arith)
  ]

  -- No key stands twice.
  abbrev pub IsUnique : Map K V → Type κ
  IsUnique [] = Unit
  IsUnique ((k, v) ∷ m) = (find k m ≡ none) × IsUnique m

  pub IsUnique-insert : (k : K) (v : V) (m : Map K V) → IsUnique m → IsUnique (insert k v m)
  unfolding insert find
  IsUnique-insert k v [] u = (refl, tt)
  IsUnique-insert k v ((j, w) ∷ m) u = elim (Bool-cases (e.beq j k)) [
    | inl t ↦ rw t (subst (λ i. find i m ≡ none) ((e.beq_iff j k).0 t) u.0, u.1)
    | inr t ↦ rw t (
      ground (arith, find-insert k j v m, e.beq_iff j k, e.beq_iff k j),
      IsUnique-insert k v m u.1,
    )
  ]

  pub IsUnique-erase : (k : K) (m : Map K V) → IsUnique m → IsUnique (erase k m)
  unfolding erase
  IsUnique-erase k [] u = tt
  IsUnique-erase k ((j, w) ∷ m) u = elim (Bool-cases (e.beq j k)) [
    | inl t ↦ rw t (IsUnique-erase k m u.1)
    | inr t ↦ rw t (ground (arith, find-erase k j m), IsUnique-erase k m u.1)
  ]

  pub length-insert-le : (k : K) (v : V) (m : Map K V) → length (insert k v m) ≤ length m + 1
  unfolding insert
  length-insert-le k v [] = omega arith
  length-insert-le k v ((i, w) ∷ m) = ground (arith, length-insert-le k v m)
