-- ===== src/Tms/Tables.antt =====
-- What the updates of the support tables of rulesforge/src/engine/tms.cpp do to each row.
use rules_forge.Prelude.{
  ℕ, ◌≡◌, refl, inl, inr, Bool, true, false, none, some, List, [], ◌∷◌, ◌++◌, ◌==◌, if◌then◌else◌,
  arith, ◌&&◌, Option-cases, ap,
}
use rules_forge.Prelude.Eq.{nat_eq}
use rules_forge.Prelude.Map.{find-insert, find-erase}
use rules_forge.Prelude.Map
use rules_forge.Prelude.Set.{contains-insert, contains-erase}
use rules_forge.Prelude.Set
use rules_forge.Tms.{
  Table, row, insert_at, push_at, erase_at, unjustify_loop, unsupport_loop, store_row, drop_from,
  drop_loop,
}

-- `x` stands in the row of `k`.
abbrev pub holds : ℕ → ℕ → Table → Bool
holds k x t = Set.contains x (row k t)

contains-append :
    (x : ℕ) (xs ys : List ℕ)
    → Set.contains x (xs ++ ys) ≡ (if Set.contains x xs then true else Set.contains x ys)
unfolding Set.contains
contains-append x [] ys = refl
contains-append x (y ∷ xs) ys = ground (arith, contains-append x xs ys)

pub row-insert :
    (k j : ℕ) (xs : List ℕ) (t : Table)
    → row j (Map.insert k xs t) ≡ (if k == j then xs else row j t)
unfolding row
row-insert k j xs t = ground (arith, find-insert k j xs t)

pub row-erase : (k j : ℕ) (t : Table) → row j (Map.erase k t) ≡ (if k == j then [] else row j t)
unfolding row
row-erase k j t = ground (arith, find-erase k j t)

-- The row that an update leaves at `j`, read through `contains`.
holds-insert :
    (k j y : ℕ) (xs : List ℕ) (t : Table)
    → holds j y (Map.insert k xs t) ≡ (if k == j then Set.contains y xs else holds j y t)
holds-insert k j y xs t = ground (arith, row-insert k j xs t)

pub same_row : (k j y : ℕ) (t : Table) → (k == j) ≡ true → holds k y t ≡ holds j y t
same_row k j y t e = let same : k ≡ j = ground arith in ap (λ i. holds i y t) same

pub holds-insert_at :
    (k x j y : ℕ) (t : Table)
    → holds j y (insert_at k x t) ≡ (if k == j && x == y then true else holds j y t)
unfolding insert_at
holds-insert_at k x j y t = ground (
  arith,
  holds-insert k j y (Set.insert x (row k t)) t,
  contains-insert x y (row k t),
  same_row k j y t,
)

contains-one : (x y : ℕ) → Set.contains y (x ∷ []) ≡ (x == y)
unfolding Set.contains
contains-one x y = ground arith

pub holds-push_at :
    (k x j y : ℕ) (t : Table)
    → holds j y (push_at k x t) ≡ (if k == j && x == y then true else holds j y t)
unfolding push_at
holds-push_at k x j y t = ground (
  arith,
  holds-insert k j y (row k t ++ x ∷ []) t,
  contains-append y (row k t) (x ∷ []),
  contains-one x y,
  same_row k j y t,
)

pub holds-erase :
    (k j y : ℕ) (t : Table) → holds j y (Map.erase k t) ≡ (if k == j then false else holds j y t)
unfolding Set.contains
holds-erase k j y t = ground (arith, row-erase k j t)

pub row-none : (k : ℕ) (t : Table) → Map.find k t ≡ none → row k t ≡ []
unfolding row
row-none k t e = ground arith

pub row-some : (k : ℕ) (xs : List ℕ) (t : Table) → Map.find k t ≡ some xs → row k t ≡ xs
unfolding row
row-some k xs t e = ground arith

pub absent : (k y : ℕ) (t : Table) → Map.find k t ≡ none → holds k y t ≡ false
unfolding Set.contains
absent k y t e = ground (arith, row-none k t e)

pub present :
    (k y : ℕ) (xs : List ℕ) (t : Table) → Map.find k t ≡ some xs → holds k y t ≡ Set.contains y xs
present k y xs t e = ap (λ r. Set.contains y r) (row-some k xs t e)

pub holds-erase_at :
    (k x j y : ℕ) (t : Table)
    → holds j y (erase_at k x t) ≡ (if k == j && x == y then false else holds j y t)
unfolding erase_at
holds-erase_at k x j y t = elim (Option-cases (Map.find k t)) [
  | inl e ↦ rw (e, erase_at) (ground (arith, absent k y t e, same_row k j y t))
  | inr (xs, e) ↦
      rw (e, erase_at)
        (ground (
          arith,
          holds-insert k j y (Set.erase x xs) t,
          contains-erase x y xs,
          present k y xs t e,
          same_row k j y t,
        ))
]

holds-store_row :
    (k j y : ℕ) (xs : List ℕ) (t : Table)
    → holds j y (store_row k xs t) ≡ (if k == j then Set.contains y xs else holds j y t)
unfolding store_row Set.contains
holds-store_row k j y [] t = holds-erase k j y t
holds-store_row k j y (x ∷ xs) t = holds-insert k j y (x ∷ xs) t

pub holds-drop_from :
    (k x j y : ℕ) (t : Table)
    → holds j y (drop_from k x t) ≡ (if k == j && x == y then false else holds j y t)
unfolding drop_from
holds-drop_from k x j y t = elim (Option-cases (Map.find k t)) [
  | inl e ↦ rw (e, drop_from) (ground (arith, absent k y t e, same_row k j y t))
  | inr (xs, e) ↦
      rw (e, drop_from)
        (ground (
          arith,
          holds-store_row k j y (Set.erase x xs) t,
          contains-erase x y xs,
          present k y xs t e,
          same_row k j y t,
        ))
]

pub holds-drop_loop :
    (ks : List ℕ) (x j y : ℕ) (t : Table)
    → holds j y (drop_loop ks x t) ≡ (if Set.contains j ks && x == y then false else holds j y t)
unfolding drop_loop Set.contains
holds-drop_loop [] x j y t = refl
holds-drop_loop (k ∷ ks) x j y t =
    ground (arith, holds-drop_loop ks x j y (drop_from k x t), holds-drop_from k x j y t)

-- The loops take one chain (or activation) out of the rows of the facts that they visit.
pub holds-unjustify_loop :
    (known : ℕ → Bool) (wme : ℕ) (acts : Table) (facts : List ℕ) (j y : ℕ) (t : Table)
    → holds j y (unjustify_loop known wme acts facts t).0
      ≡ (if Set.contains j facts && wme == y then false else holds j y t)
unfolding unjustify_loop Set.contains
holds-unjustify_loop known wme acts [] j y t = refl
holds-unjustify_loop known wme acts (f ∷ fs) j y t = ground (
  arith,
  holds-unjustify_loop known wme acts fs j y (erase_at f wme t),
  holds-erase_at f wme j y t,
)

pub holds-unsupport_loop :
    (known : ℕ → Bool) (hash : ℕ) (just : Table) (facts : List ℕ) (j y : ℕ) (t : Table)
    → holds j y (unsupport_loop known hash just facts t).0
      ≡ (if Set.contains j facts && hash == y then false else holds j y t)
unfolding unsupport_loop Set.contains
holds-unsupport_loop known hash just [] j y t = refl
holds-unsupport_loop known hash just (f ∷ fs) j y t = ground (
  arith,
  holds-unsupport_loop known hash just fs j y (Map.insert f (Set.erase hash (row f t)) t),
  holds-insert f j y (Set.erase hash (row f t)) t,
  contains-erase hash y (row f t),
  same_row f j y t,
)
