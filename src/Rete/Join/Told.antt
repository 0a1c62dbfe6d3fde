-- ===== src/Rete/Join/Told.antt =====
-- About what CrossProductJoinNode tells its children (rulesforge/src/rete/rete_node.cpp).
use rules_forge.Prelude.{ℕ, ◌≡◌, refl, Bool, true, false, Bool-cases, inl, inr, ◌∙◌, ap}
use rules_forge.Prelude.Eq.{nat_eq}
use rules_forge.Prelude.Set
use rules_forge.Rete.{PropagationType, assert, retract, modify}
use rules_forge.Rete.Join.{
  CrossMem, with_token, with_fact, assert_pairs, cross_left_activate, cross_right_activate,
  cross_forget, cross_remove, cross_store,
}
use rules_forge.Rete.Join.Pairs.{degree, held, held-append, retract_pairs_lem, assert_pairs_lem}

told_forget :
    (fact : ℕ) (p_type : PropagationType) (mem : CrossMem) (v g : ℕ)
    → held (cross_forget fact p_type mem).1 v g (degree v g mem.children)
      ≡ degree v g (cross_forget fact p_type mem).0
unfolding cross_forget held
told_forget fact assert mem v g = refl
told_forget fact retract mem v g = (retract_pairs_lem (with_fact fact mem.left) v g mem.children).1
told_forget fact modify mem v g = elim (Bool-cases (Set.contains fact mem.right)) [
  | inl q ↦ rw (q, cross_forget) (retract_pairs_lem (with_fact fact mem.left) v g mem.children).1
  | inr q ↦ rw (q, cross_forget) refl
]

told_store :
    (joins : ℕ → ℕ → Bool) (fact : ℕ) (p_type : PropagationType) (mem : CrossMem) (v g : ℕ)
    → held (cross_store joins fact p_type mem).1 v g (degree v g mem.children)
      ≡ degree v g (cross_store joins fact p_type mem).0.children
unfolding cross_store
told_store joins fact p_type mem v g =
    let one = cross_forget fact p_type mem in
    let two = assert_pairs joins (with_fact fact mem.left) one.0 in
    held-append one.1 two.1 v g (degree v g mem.children)
    ∙ ap (held two.1 v g) (told_forget fact p_type mem v g)
    ∙ (assert_pairs_lem joins (with_fact fact mem.left) v g one.0).1

pub told_left :
    (joins : ℕ → ℕ → Bool) (w : ℕ) (retracts : Bool) (mem : CrossMem) (v g : ℕ)
    → held (cross_left_activate joins w retracts mem).1 v g (degree v g mem.children)
      ≡ degree v g (cross_left_activate joins w retracts mem).0.children
unfolding cross_left_activate held
told_left joins w false mem v g =
    (assert_pairs_lem joins (with_token w mem.right) v g mem.children).1
told_left joins w true mem v g = elim (Bool-cases (Set.contains w mem.left)) [
  | inl q ↦
      rw (q, cross_left_activate) (retract_pairs_lem (with_token w mem.right) v g mem.children).1
  | inr q ↦ rw (q, cross_left_activate) refl
]

pub told_right :
    (joins : ℕ → ℕ → Bool) (fact : ℕ) (p_type : PropagationType) (mem : CrossMem) (v g : ℕ)
    → held (cross_right_activate joins fact p_type mem).1 v g (degree v g mem.children)
      ≡ degree v g (cross_right_activate joins fact p_type mem).0.children
unfolding cross_right_activate cross_remove held
told_right joins fact assert mem v g = told_store joins fact assert mem v g
told_right joins fact modify mem v g = told_store joins fact modify mem v g
told_right joins fact retract mem v g = elim (Bool-cases (Set.contains fact mem.right)) [
  | inl q ↦ rw (q, cross_right_activate) (told_forget fact retract mem v g)
  | inr q ↦ rw (q, cross_right_activate) refl
]
