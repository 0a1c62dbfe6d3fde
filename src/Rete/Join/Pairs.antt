-- ===== src/Rete/Join/Pairs.antt =====
-- About the loops that retract and assert the children of a join node
-- (rulesforge/src/rete/rete_node.cpp).
use rules_forge.Prelude.{
  ℕ, ◌+◌, ◌-◌, ◌≡◌, refl, Bool, false, some, List, [], ◌∷◌, ◌++◌, ◌==◌, ◌&&◌, if◌then◌else◌, arith,
  ==_iff, Option-cases, Bool-cases, inl, inr, ◌∙◌, ap, sym,
}
use rules_forge.Prelude.Eq.{nat_eq}
use rules_forge.Prelude.Map
use rules_forge.Prelude.Set
use rules_forge.Prelude.Vector.{
  count, remove_from_vector, count-append, count-remove, contains-count,
}
use rules_forge.Rete.{assert, retract, modify}
use rules_forge.Rete.Index.{row, row-insert, row-store_row, row-find, row-none, store_row}
use rules_forge.Rete.Join.{
  JoinMessage, Children, propagate_assert, propagate_retract, with_token, with_fact, retract_pairs,
  assert_pairs,
}

-- How many children a pair has.
unfoldable pub degree : ℕ → ℕ → Children → ℕ
degree w f t = count f (row w t)

-- How often a pair stands in a list.
unfoldable pub occurs : ℕ → ℕ → List (ℕ × ℕ) → ℕ
occurs w f [] = 0
occurs w f ((v, g) ∷ ps) =
    let rest = occurs w f ps in if (v == w) && (g == f) then 1 + rest else rest

pub occurs-with_token :
    (v w f : ℕ) (fs : List ℕ) → occurs w f (with_token v fs) ≡ (if v == w then count f fs else 0)
unfolding occurs with_token count
occurs-with_token v w f [] = ground arith
occurs-with_token v w f (g ∷ fs) = ground (arith, occurs-with_token v w f fs)

pub occurs-with_fact :
    (g w f : ℕ) (ws : List ℕ) → occurs w f (with_fact g ws) ≡ (if g == f then count w ws else 0)
unfolding occurs with_fact count
occurs-with_fact g w f [] = ground arith
occurs-with_fact g w f (v ∷ ws) = ground (arith, occurs-with_fact g w f ws)

-- What a child that counts each pair holds after messages.
unfoldable pub held : List JoinMessage → ℕ → ℕ → ℕ → ℕ
held [] w f n = n
held (m ∷ ms) w f n = held ms w f (
    if (m.parent == w) && (m.fact == f)
    then elim m.p_type [ assert ↦ n + 1 | modify ↦ n | retract ↦ n - 1 ]
    else n)

pub held-append :
    (xs ys : List JoinMessage) (w f n : ℕ) → held (xs ++ ys) w f n ≡ held ys w f (held xs w f n)
unfolding held
held-append [] ys w f n = refl
held-append (x ∷ xs) ys w f n = held-append xs ys w f _

degree-assert :
    (v g w f : ℕ) (t : Children)
    → degree w f (propagate_assert v g t).0
      ≡ (if (v == w) && (g == f) then degree w f t + 1 else degree w f t)
unfolding degree propagate_assert count
degree-assert v g w f t =
    ground
      (arith, row-insert v w (row v t ++ g ∷ []) t, count-append f (row v t) (g ∷ []), ==_iff v w)

held-assert :
    (v g w f : ℕ) (t : Children)
    → held (propagate_assert v g t).1 w f (degree w f t) ≡ degree w f (propagate_assert v g t).0
unfolding held propagate_assert
held-assert v g w f t = ground (arith, degree-assert v g w f t)

degree-remove :
    (v g w f : ℕ) (fs : List ℕ) (t : Children)
    → Map.find v t ≡ some fs
    → count f (row w (store_row v (remove_from_vector g fs) t))
      ≡ (if (v == w) && (g == f) then degree w f t - 1 else degree w f t)
unfolding degree
degree-remove v g w f fs t e = ground (
  arith,
  row-store_row v w (remove_from_vector g fs) t,
  count-remove g f fs,
  row-find v fs t e,
  ==_iff v w,
)

degree-absent :
    (v g w f : ℕ) (t : Children)
    → Set.contains g (row v t) ≡ false
    → degree w f t ≡ (if (v == w) && (g == f) then degree w f t - 1 else degree w f t)
unfolding degree
degree-absent v g w f t h = ground (arith, contains-count g (row v t), ==_iff v w, ==_iff g f)

degree-retract :
    (v g w f : ℕ) (t : Children)
    → (degree w f (propagate_retract v g t).0
        ≡ (if (v == w) && (g == f) then degree w f t - 1 else degree w f t))
      × (held (propagate_retract v g t).1 w f (degree w f t)
          ≡ degree w f (propagate_retract v g t).0)
unfolding degree propagate_retract held Set.contains
degree-retract v g w f t = elim (Option-cases (Map.find v t)) [
  | inl e ↦
      rw (e, propagate_retract)
        (degree-absent v g w f t (ap (Set.contains g) (row-none v t e)), refl)
  | inr (fs, e) ↦
      let same = degree-remove v g w f fs t e in
      elim (Bool-cases (Set.contains g fs)) [
        | inl k ↦ rw (e, k, propagate_retract) (same, sym same)
        | inr k ↦
            rw (e, k, propagate_retract)
              (degree-absent v g w f t (ap (Set.contains g) (row-find v fs t e) ∙ k), refl)
      ]
]

pub retract_pairs_lem :
    (ps : List (ℕ × ℕ)) (w f : ℕ) (t : Children)
    → (degree w f (retract_pairs ps t).0 ≡ degree w f t - occurs w f ps)
      × (held (retract_pairs ps t).1 w f (degree w f t) ≡ degree w f (retract_pairs ps t).0)
unfolding retract_pairs occurs held
retract_pairs_lem [] w f t = (omega arith, refl)
retract_pairs_lem ((v, g) ∷ ps) w f t =
    let one = propagate_retract v g t in
    let rest = retract_pairs ps one.0 in
    let (d, h) = degree-retract v g w f t in
    let (d', h') = retract_pairs_lem ps w f one.0 in
    (
      ground (arith, d, d'),
      held-append one.1 rest.1 w f (degree w f t) ∙ ap (held rest.1 w f) h ∙ h',
    )

pub assert_pairs_lem :
    (joins : ℕ → ℕ → Bool) (ps : List (ℕ × ℕ)) (w f : ℕ) (t : Children)
    → (degree w f (assert_pairs joins ps t).0
        ≡ (if joins w f then degree w f t + occurs w f ps else degree w f t))
      × (held (assert_pairs joins ps t).1 w f (degree w f t)
          ≡ degree w f (assert_pairs joins ps t).0)
unfolding assert_pairs occurs held
assert_pairs_lem joins [] w f t = (ground arith, refl)
assert_pairs_lem joins ((v, g) ∷ ps) w f t = elim (Bool-cases (joins v g)) [
  | inl j ↦
      let one = propagate_assert v g t in
      let rest = assert_pairs joins ps one.0 in
      let (d', h') = assert_pairs_lem joins ps w f one.0 in
      rw (j, assert_pairs)
        (
          ground (arith, degree-assert v g w f t, d', ==_iff v w, ==_iff g f),
          held-append one.1 rest.1 w f (degree w f t)
              ∙ ap (held rest.1 w f) (held-assert v g w f t)
              ∙ h',
        )
  | inr j ↦
      let (d', h') = assert_pairs_lem joins ps w f t in
      rw (j, assert_pairs) (ground (arith, d', ==_iff v w, ==_iff g f), h')
]
