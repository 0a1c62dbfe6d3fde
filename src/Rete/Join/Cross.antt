-- ===== src/Rete/Join/Cross.antt =====
-- About CrossProductJoinNode (rulesforge/src/rete/rete_node.cpp).
use rules_forge.Prelude.{
  ℕ, ◌≡◌, ◌≢◌, Bool, true, false, ◌==◌, ◌&&◌, if◌then◌else◌, arith, ==_iff, Bool-cases, inl, inr,
}
use rules_forge.Prelude.Eq.{nat_eq}
use rules_forge.Prelude.Set
use rules_forge.Prelude.Vector.{count, count-insert, count-erase, contains-count}
use rules_forge.Rete.{PropagationType, assert, retract, modify}
use rules_forge.Rete.Condition.{Joins, is_retract}
use rules_forge.Rete.Condition.Steps.{present, nothing, Frame}
use rules_forge.Rete.Join.{
  CrossMem, with_token, with_fact, cross_left_activate, cross_right_activate, cross_forget,
  cross_remove, cross_store,
}
use rules_forge.Rete.Join.Pairs.{
  degree, occurs-with_token, occurs-with_fact, retract_pairs_lem, assert_pairs_lem,
}

retract≢assert : retract ≢ assert
retract≢assert e = cc

module _ {ℓ} {K : Type ℓ} where
  -- Each live pair that joins has one child, every other pair none.
  pub record IsCross (now : Joins K) (live_tokens live_facts : ℕ → Bool) (mem : CrossMem)
      : Type ℓ where
    pub left : (w : ℕ) → count w mem.left ≡ (if live_tokens w then 1 else 0)
    pub right : (f : ℕ) → count f mem.right ≡ (if live_facts f then 1 else 0)
    pub joined :
        (w f : ℕ)
        → degree w f mem.children
          ≡ (if live_tokens w && (live_facts f && now.joins w f) then 1 else 0)

  pub enters :
      (before now : Joins K) (lt lf : ℕ → Bool) (w : ℕ) (mem : CrossMem)
      → lt w ≡ false
      → Frame before now lt lf (λ x. w == x) nothing
      → IsCross before lt lf mem
      → IsCross now (present assert w lt) lf (cross_left_activate now.joins w false mem).0
  unfolding cross_left_activate present is_retract nothing
  enters before now lt lf w mem n f c = record {
    left = λ v.
        ground (arith, c.left v, count-insert w v mem.left, contains-count w mem.left, ==_iff w v);
    right = c.right;
    joined = λ v g. ground (
      arith,
      (assert_pairs_lem now.joins (with_token w mem.right) v g mem.children).0,
      occurs-with_token w v g mem.right,
      c.right g,
      c.joined v g,
      f.pair v g,
      ==_iff w v,
    );
  }

  pub leaves :
      (before now : Joins K) (lt lf : ℕ → Bool) (w : ℕ) (mem : CrossMem)
      → Frame before now lt lf (λ x. w == x) nothing
      → IsCross before lt lf mem
      → IsCross now (present retract w lt) lf (cross_left_activate now.joins w true mem).0
  unfolding cross_left_activate present is_retract nothing
  leaves before now lt lf w mem f c = elim (Bool-cases (Set.contains w mem.left)) [
    | inl q ↦
        rw (q, cross_left_activate)
          (record {
            left = λ v. ground (arith, c.left v, count-erase w v mem.left);
            right = c.right;
            joined = λ v g. ground (
              arith,
              (retract_pairs_lem (with_token w mem.right) v g mem.children).0,
              occurs-with_token w v g mem.right,
              c.right g,
              c.joined v g,
              f.pair v g,
              ==_iff w v,
            );
          })
    | inr q ↦
        rw (q, cross_left_activate)
          (record {
            left = λ v. ground (arith, c.left v, contains-count w mem.left, ==_iff w v);
            right = c.right;
            joined = λ v g.
                ground (
                  arith,
                  c.joined v g,
                  c.left w,
                  contains-count w mem.left,
                  f.pair v g,
                  ==_iff w v,
                );
          })
  ]

  -- The children after the old matches of a fact are retracted.
  forgotten :
      (before : Joins K) (lt lf : ℕ → Bool) (fact : ℕ) (p_type : PropagationType) (mem : CrossMem)
      (v g : ℕ)
      → ((fact == g) ≡ true → p_type ≡ assert → lf g ≡ false)
      → IsCross before lt lf mem
      → degree v g (cross_forget fact p_type mem).0
        ≡ (if fact == g then 0 else degree v g mem.children)
  unfolding cross_forget
  forgotten before lt lf fact assert mem v g n c = ground (arith, c.joined v g, n)
  forgotten before lt lf fact retract mem v g n c = ground (
    arith,
    (retract_pairs_lem (with_fact fact mem.left) v g mem.children).0,
    occurs-with_fact fact v g mem.left,
    c.left v,
    c.joined v g,
  )
  forgotten before lt lf fact modify mem v g n c = ground (
    arith,
    (retract_pairs_lem (with_fact fact mem.left) v g mem.children).0,
    occurs-with_fact fact v g mem.left,
    c.left v,
    c.joined v g,
    c.right fact,
    contains-count fact mem.right,
    ==_iff fact g,
  )

  pub stores :
      (before now : Joins K) (lt lf : ℕ → Bool) (fact : ℕ) (p_type : PropagationType)
      (mem : CrossMem)
      → is_retract p_type ≡ false
      → ((g : ℕ) → (fact == g) ≡ true → p_type ≡ assert → lf g ≡ false)
      → Frame before now lt lf nothing (λ x. fact == x)
      → IsCross before lt lf mem
      → IsCross now lt (present p_type fact lf) (cross_store now.joins fact p_type mem).0
  unfolding cross_store present nothing
  stores before now lt lf fact p_type mem r n f c = record {
    left = c.left;
    right = λ g. ground (
      arith,
      c.right g,
      count-insert fact g mem.right,
      contains-count fact mem.right,
      c.right fact,
      ==_iff fact g,
    );
    joined = λ v g. ground (
      arith,
      (assert_pairs_lem now.joins (with_fact fact mem.left) v g (cross_forget fact p_type mem).0).0,
      occurs-with_fact fact v g mem.left,
      forgotten before lt lf fact p_type mem v g (n g) c,
      c.left v,
      c.joined v g,
      f.pair v g,
      ==_iff fact g,
    );
  }

  pub removes :
      (before now : Joins K) (lt lf : ℕ → Bool) (fact : ℕ) (mem : CrossMem)
      → Frame before now lt lf nothing (λ x. fact == x)
      → IsCross before lt lf mem
      → IsCross now lt (present retract fact lf) (cross_right_activate now.joins fact retract mem).0
  unfolding cross_right_activate cross_remove present is_retract nothing
  removes before now lt lf fact mem f c = elim (Bool-cases (Set.contains fact mem.right)) [
    | inl q ↦
        rw (q, cross_right_activate)
          (record {
            left = c.left;
            right = λ g. ground (arith, c.right g, count-erase fact g mem.right);
            joined = λ v g. ground (
              arith,
              forgotten before lt lf fact retract mem v g (λ e k. absurd (retract≢assert k)) c,
              c.joined v g,
              f.pair v g,
            );
          })
    | inr q ↦
        rw (q, cross_right_activate)
          (record {
            left = c.left;
            right = λ g. ground (arith, c.right g, contains-count fact mem.right, ==_iff fact g);
            joined = λ v g. ground (
              arith,
              c.joined v g,
              c.right fact,
              contains-count fact mem.right,
              f.pair v g,
              ==_iff fact g,
            );
          })
  ]
