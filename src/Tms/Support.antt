-- ===== src/Tms/Support.antt =====
-- About the facts that lose their support with a chain or an activation
-- (rulesforge/src/engine/tms.cpp).
use rules_forge.Prelude.{
  ℕ, ◌≡◌, refl, inl, inr, Bool, true, false, some, List, [], ◌∷◌, ◌==◌, if◌then◌else◌, arith, ◌&&◌,
  Bool-cases, Option-cases, is_some, ap, ◌↔◌,
}
use rules_forge.Prelude.Eq.{nat_eq}
use rules_forge.Prelude.Map.{find-insert}
use rules_forge.Prelude.Map
use rules_forge.Prelude.Set.{contains-erase}
use rules_forge.Prelude.Set
use rules_forge.Tms.{
  Tms, Table, row, erase_at, is_empty, unjustify_loop, remove_justifications_by_token,
  unsupport_loop, on_activation_retracted,
}
use rules_forge.Tms.Tables.{holds, row-insert, row-none, row-some}
use rules_forge.Tms.Mirror.{IsMirrored}

-- Nothing stands in the row of `k`.
abbrev pub IsBare : ℕ → Table → Type 0
IsBare k t = (x : ℕ) → holds k x t ≡ false

is_empty-contains : (xs : List ℕ) → is_empty xs ≡ true → (x : ℕ) → Set.contains x xs ≡ false
unfolding is_empty Set.contains
is_empty-contains [] e x = refl
is_empty-contains (y ∷ xs) e x = absurd (ground arith)

contains-is_empty : (xs : List ℕ) → ((x : ℕ) → Set.contains x xs ≡ false) → is_empty xs ≡ true
unfolding is_empty Set.contains
contains-is_empty [] e = refl
contains-is_empty (y ∷ xs) e = absurd (let h = e y in ground arith)

erase-erase : (x : ℕ) (xs : List ℕ) → Set.erase x (Set.erase x xs) ≡ Set.erase x xs
unfolding Set.erase
erase-erase x [] = refl
erase-erase x (y ∷ xs) = elim (Bool-cases (y == x)) [
  | inl e ↦ rw (e, Set.erase) (erase-erase x xs)
  | inr e ↦ ground (arith, erase-erase x xs)
]

same_find : (k j : ℕ) (t : Table) → (k == j) ≡ true → Map.find k t ≡ Map.find j t
same_find k j t e = let same : k ≡ j = ground arith in ap (λ i. Map.find i t) same

same_row_list : (k j : ℕ) (t : Table) → (k == j) ≡ true → row k t ≡ row j t
same_row_list k j t e = let same : k ≡ j = ground arith in ap (λ i. row i t) same

same_verdict :
    (known : ℕ → Bool) (k j : ℕ) (t : Table)
    → (k == j) ≡ true
    → (is_empty (row k t) && known k) ≡ (is_empty (row j t) && known j)
same_verdict known k j t e =
    let same : k ≡ j = ground arith in ap (λ i. is_empty (row i t) && known i) same

find-erase_at :
    (k x f : ℕ) (t : Table) → is_some (Map.find f (erase_at k x t)) ≡ is_some (Map.find f t)
unfolding erase_at
find-erase_at k x f t = elim (Option-cases (Map.find k t)) [
  | inl e ↦ rw (e, erase_at) refl
  | inr (xs, e) ↦
      rw (e, erase_at) (ground (arith, find-insert k f (Set.erase x xs) t, same_find k f t))
]

row-erase_at :
    (k x f : ℕ) (t : Table)
    → row f (erase_at k x t) ≡ (if k == f then Set.erase x (row f t) else row f t)
unfolding erase_at Set.erase
row-erase_at k x f t = elim (Option-cases (Map.find k t)) [
  | inl e ↦ rw (e, erase_at) (ground (arith, row-none k t e, same_find k f t, row-none f t))
  | inr (xs, e) ↦
      rw (e, erase_at)
        (ground (
          arith,
          row-insert k f (Set.erase x xs) t,
          row-some k xs t e,
          same_find k f t,
          row-some f xs t,
        ))
]

-- Which facts the loop over a token's facts collects, read from the table before it.
contains-unjustify_loop :
    (known : ℕ → Bool) (w : ℕ) (acts : Table) (facts : List ℕ) (f : ℕ) (t : Table)
    → Set.contains f (unjustify_loop known w acts facts t).1 ≡ (
        Set.contains f facts
        && (is_some (Map.find f t)
            && (is_empty (Set.erase w (row f t)) && (is_empty (row f acts) && known f))))
unfolding unjustify_loop Set.contains
contains-unjustify_loop known w acts [] f t = refl
contains-unjustify_loop known w acts (g ∷ gs) f t = elim (Option-cases (Map.find g t)) [
  | inl e ↦
      rw (e, unjustify_loop)
        (ground (
          arith,
          contains-unjustify_loop known w acts gs f (erase_at g w t),
          find-erase_at g w f t,
          row-erase_at g w f t,
          erase-erase w (row f t),
          same_find g f t,
        ))
  | inr (xs, e) ↦
      rw (e, unjustify_loop)
        (ground (
          arith,
          contains-unjustify_loop known w acts gs f (erase_at g w t),
          find-erase_at g w f t,
          row-erase_at g w f t,
          erase-erase w (row f t),
          same_find g f t,
          row-some g xs t e,
          row-some f xs t,
          same_verdict known g f acts,
        ))
]

is_some-row : (f x : ℕ) (t : Table) → holds f x t ≡ true → is_some (Map.find f t) ≡ true
unfolding row Set.contains
is_some-row f x t h = elim (Option-cases (Map.find f t)) [
  | inl e ↦ absurd (ground (arith, row-none f t e))
  | inr (xs, e) ↦ rw (e) refl
]

contains-remove_token :
    (known : ℕ → Bool) (w f : ℕ) (s : Tms)
    → IsMirrored s
    → Set.contains f (remove_justifications_by_token known (some w) s).1 ≡ (
        holds w f s.token_to_justified_facts
        && (is_empty (Set.erase w (row f s.justifications))
            && (is_empty (row f s.fact_to_activations) && known f)))
unfolding remove_justifications_by_token Set.contains
contains-remove_token known w f s v = elim (Option-cases (Map.find w s.token_to_justified_facts)) [
  | inl e ↦
      rw (e, remove_justifications_by_token)
        (ground (arith, row-none w s.token_to_justified_facts e))
  | inr (facts, e) ↦
      rw (e, remove_justifications_by_token)
        (ground (
          arith,
          contains-unjustify_loop known w s.fact_to_activations facts f s.justifications,
          ap (Set.contains f) (row-some w facts s.token_to_justified_facts e),
          v.tokens f w,
          is_some-row f w s.justifications,
        ))
]

contains-unsupport_loop :
    (known : ℕ → Bool) (h : ℕ) (just : Table) (facts : List ℕ) (f : ℕ) (t : Table)
    → Set.contains f (unsupport_loop known h just facts t).1 ≡ (
        Set.contains f facts
        && (is_empty (Set.erase h (row f t)) && (is_empty (row f just) && known f)))
unfolding unsupport_loop Set.contains
contains-unsupport_loop known h just [] f t = refl
contains-unsupport_loop known h just (g ∷ gs) f t = ground (
  arith,
  contains-unsupport_loop known h just gs f (Map.insert g (Set.erase h (row g t)) t),
  row-insert g f (Set.erase h (row g t)) t,
  erase-erase h (row f t),
  same_verdict known g f just,
  same_row_list g f t,
)

contains-activation_gone :
    (known : ℕ → Bool) (h f : ℕ) (s : Tms)
    → Set.contains f (on_activation_retracted known h s).1 ≡ (
        holds h f s.activation_to_facts
        && (is_empty (Set.erase h (row f s.fact_to_activations))
            && (is_empty (row f s.justifications) && known f)))
unfolding on_activation_retracted Set.contains
contains-activation_gone known h f s = elim (Option-cases (Map.find h s.activation_to_facts)) [
  | inl e ↦ rw (e, on_activation_retracted) (ground (arith, row-none h s.activation_to_facts e))
  | inr (facts, e) ↦
      rw (e, on_activation_retracted)
        (ground (
          arith,
          contains-unsupport_loop known h s.justifications facts f s.fact_to_activations,
          ap (Set.contains f) (row-some h facts s.activation_to_facts e),
        ))
]

-- `x` is the only support that the row of `k` may hold.
abbrev pub IsSole : ℕ → ℕ → Table → Type 0
IsSole x k t = (y : ℕ) → holds k y t ≡ true → y ≡ x

sole→is_empty : (x k : ℕ) (t : Table) → IsSole x k t → is_empty (Set.erase x (row k t)) ≡ true
sole→is_empty x k t sole =
    contains-is_empty (Set.erase x (row k t))
      (λ y. ground (arith, contains-erase x y (row k t), sole y))

is_empty→sole : (x k : ℕ) (t : Table) → is_empty (Set.erase x (row k t)) ≡ true → IsSole x k t
is_empty→sole x k t e y h =
    ground (arith, contains-erase x y (row k t), is_empty-contains (Set.erase x (row k t)) e y)

-- In a system whose tables agree, removing a chain hands a fact to the network exactly when the chain
-- justified it, nothing else does, no activation supports it, and the network still knows it.
pub remove_justifications_by_token_lem :
    (known : ℕ → Bool) (w f : ℕ) (s : Tms)
    → IsMirrored s
    → (Set.contains f (remove_justifications_by_token known (some w) s).1 ≡ true) ↔ (
        (holds w f s.token_to_justified_facts ≡ true)
        × IsSole w f s.justifications
        × IsBare f s.fact_to_activations
        × (known f ≡ true))
remove_justifications_by_token_lem known w f s v = (
  λ e. (
    ground (arith, contains-remove_token known w f s v),
    is_empty→sole w f s.justifications (ground (arith, contains-remove_token known w f s v)),
    is_empty-contains (row f s.fact_to_activations)
        (ground (arith, contains-remove_token known w f s v)),
    ground (arith, contains-remove_token known w f s v),
  ),
  λ (h, sole, bare, k). ground (
    arith,
    contains-remove_token known w f s v,
    sole→is_empty w f s.justifications sole,
    contains-is_empty (row f s.fact_to_activations) bare,
  ),
)

-- Retracting an activation hands a fact to the network exactly when the activation inserted it, no
-- other activation supports it, no chain justifies it, and the network still knows it.
pub on_activation_retracted_lem :
    (known : ℕ → Bool) (h f : ℕ) (s : Tms)
    → (Set.contains f (on_activation_retracted known h s).1 ≡ true) ↔ (
        (holds h f s.activation_to_facts ≡ true)
        × IsSole h f s.fact_to_activations
        × IsBare f s.justifications
        × (known f ≡ true))
on_activation_retracted_lem known h f s = (
  λ e. (
    ground (arith, contains-activation_gone known h f s),
    is_empty→sole h f s.fact_to_activations (ground (arith, contains-activation_gone known h f s)),
    is_empty-contains (row f s.justifications)
        (ground (arith, contains-activation_gone known h f s)),
    ground (arith, contains-activation_gone known h f s),
  ),
  λ (e, sole, bare, k). ground (
    arith,
    contains-activation_gone known h f s,
    sole→is_empty h f s.fact_to_activations sole,
    contains-is_empty (row f s.justifications) bare,
  ),
)
