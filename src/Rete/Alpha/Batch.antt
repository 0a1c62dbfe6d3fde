-- ===== src/Rete/Alpha/Batch.antt =====
-- About batches of facts for an AlphaNode (rulesforge/src/rete/rete_node.cpp).
use rules_forge.Prelude.{
  ℕ, ◌≡◌, Bool, true, false, List, [], ◌∷◌, ◌++◌, ==_iff, arith, refl, ap, All, Bool-cases, inl,
  inr, sym, ◌∙◌, All-map, length, ◌⊎◌,
}
use mathlib.Core.Path.{subst}
use rules_forge.Prelude.Eq.{nat_eq}
use rules_forge.Prelude.Set
use rules_forge.Prelude.Set.{contains-insert}
use rules_forge.Rete.{assert, tell, tell_all}
use rules_forge.Rete.Alpha.{
  right_activate, recheck, leave, forwarded, activate_each, right_activate_batch, survivors,
  insert_all, hand_on, assert_batch,
}

unfoldable pub IsOld : (check : ℕ → Bool) → List ℕ → ℕ → Type 0
IsOld check passing fact = check fact ≡ false → Set.contains fact passing ≡ false

IsOld-insert :
    (check : ℕ → Bool) (passing : List ℕ) (f g : ℕ)
    → check f ≡ true
    → IsOld check passing g
    → IsOld check (Set.insert f passing) g
unfolding IsOld
IsOld-insert check passing f g h o e = ground (arith, contains-insert f g passing, ==_iff f g, o e)

each_asserted :
    (check : ℕ → Bool) (affected : Bool) (facts passing : List ℕ)
    → All (IsOld check passing) facts
    → activate_each check affected assert facts passing
      ≡ (insert_all (survivors check facts) passing, tell_all assert (survivors check facts))
unfolding activate_each survivors insert_all tell_all right_activate recheck forwarded leave IsOld
each_asserted check affected [] passing o = refl
each_asserted check affected (f ∷ fs) passing o = elim (Bool-cases (check f)) [
  | inl t ↦
      let rest =
        each_asserted check affected fs (Set.insert f passing)
          (All-map _ _ (λ g. IsOld-insert check passing f g t) fs o.1) in
      rw (t, recheck) (ap (λ p. (p.0, tell assert f ++ p.1)) rest)
  | inr t ↦
      let rest = each_asserted check affected fs passing o.1 in rw (t, recheck, leave, o.0 t) rest
]

-- Every child but the last leaves the vector as it is, as the joins and conditions do.
unfoldable pub AreGentle : List (List ℕ → List ℕ) → Type 0
AreGentle [] = Unit
AreGentle (child ∷ []) = Unit
AreGentle (child ∷ other ∷ children) = ((v : List ℕ) → child v ≡ v) × AreGentle (other ∷ children)

handed :
    (children : List (List ℕ → List ℕ)) (facts : List ℕ)
    → AreGentle children
    → All (λ v. v ≡ facts) (hand_on children facts).given
unfolding hand_on AreGentle
handed [] facts g = tt
handed (child ∷ []) facts g = (refl, tt)
handed (child ∷ other ∷ children) facts g = (
  refl,
  subst (λ v. All (λ x. x ≡ facts) (hand_on (other ∷ children) v).given) (sym (g.0 facts))
      (handed (other ∷ children) facts g.1),
)

length-hand_on :
    (children : List (List ℕ → List ℕ)) (facts : List ℕ)
    → length (hand_on children facts).given ≡ length children
unfolding hand_on
length-hand_on [] facts = refl
length-hand_on (child ∷ children) facts = ground (arith, length-hand_on children (child facts))

given :
    (children : List (List ℕ → List ℕ)) (facts passed : List ℕ)
    → AreGentle children
    → All (λ v. v ≡ passed) (assert_batch children facts passed).given
      × ((length (assert_batch children facts passed).given ≡ length children) ⊎ (passed ≡ []))
unfolding assert_batch
given children facts [] g = (tt, inr refl)
given [] facts (x ∷ xs) g = (tt, inl refl)
given (child ∷ []) facts (x ∷ xs) g = (handed (child ∷ []) (x ∷ xs) g, inl refl)
given (child ∷ other ∷ children) facts (x ∷ xs) g = (
  handed (child ∷ other ∷ children) (x ∷ xs) g,
  inl (length-hand_on (child ∷ other ∷ children) (x ∷ xs)),
)

-- A batch of facts to assert does to an AlphaNode what the facts do one by one, and each child gets
-- one batch, of the facts that it would be told of one by one, or there are none, where the node holds
-- none of the facts that does not pass, and every child but the last leaves its vector as it is.
pub batch_equiv :
    (children : List (List ℕ → List ℕ)) (check : ℕ → Bool) (affected : Bool)
    (facts passing : List ℕ)
    → AreGentle children
    → All (IsOld check passing) facts
    → let batched = right_activate_batch children check affected assert facts passing in
      let each = activate_each check affected assert facts passing in
      (batched.passing ≡ each.0)
      × (batched.told ≡ [])
      × All (λ v. tell_all assert v ≡ each.1) batched.batch.given
      × ((length batched.batch.given ≡ length children) ⊎ (each.1 ≡ []))
unfolding right_activate_batch tell_all
batch_equiv children check affected facts passing g o =
    let same = each_asserted check affected facts passing o in
    let (got, count) = given children facts (survivors check facts) g in
    (
      sym (ap (λ p. p.0) same),
      refl,
      All-map _ _ (λ v e. ap (tell_all assert) e ∙ sym (ap (λ p. p.1) same)) _ got,
      elim count [ inl l ↦ inl l | inr e ↦ inr (ap (λ p. p.1) same ∙ ap (tell_all assert) e) ],
    )
