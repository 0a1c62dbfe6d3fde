-- ===== src/Rete/Join/HashedFacts.antt =====
-- About the change of a fact in HashedJoinNode (rulesforge/src/rete/rete_node.cpp).
use rules_forge.Prelude.{
  ℕ, ◌≡◌, refl, Bool, true, false, none, some, ◌==◌, if◌then◌else◌, arith, ==_iff, Bool-cases,
  Option-cases, inl, inr, ◌∙◌, ap, sym,
}
use rules_forge.Prelude.Eq.{Eq, nat_eq}
use rules_forge.Prelude.Set
use rules_forge.Prelude.Vector.{count, contains-count}
use rules_forge.Rete.{PropagationType, assert, retract, modify}
use rules_forge.Rete.Index.{row, is_key}
use rules_forge.Rete.Condition.{Joins, is_retract}
use rules_forge.Rete.Condition.Steps.{present, nothing, Frame}
use rules_forge.Rete.Join.{
  HashedMem, with_fact, hashed_remove, hashed_forget, hashed_store, hashed_change,
  hashed_right_activate,
}
use rules_forge.Rete.Join.Pairs.{degree, occurs-with_fact, retract_pairs_lem, assert_pairs_lem}
use rules_forge.Rete.Join.Runs.{HasEqualKeys}
use rules_forge.Rete.Join.Hashed.{
  IsBucketed, IsHashed, IsBucketed-same, entered, left_bucket, unkeyed, unkeyed_fact, keyed_token,
  same_tokens, other_facts,
}

module _ {ℓ} {K : Type ℓ} ⦃e : Eq K⦄ (before now : Joins K) (lt lf : ℕ → Bool) (mem : HashedMem K)
    (old : HasEqualKeys before) (new : HasEqualKeys now) (c : IsHashed before lt lf mem) (fact : ℕ)
    (kept : lf fact ≡ true → now.fact_key fact ≡ before.fact_key fact)
    (f : Frame before now lt lf nothing (λ x. fact == x)) where
  -- The memory without the fact.
  record Forgot (m : HashedMem K) : Type ℓ where
    left : m.left ≡ mem.left
    right : IsBucketed (λ x. if fact == x then false else lf x) now.fact_key m.right
    degrees : (v g : ℕ) → degree v g m.children ≡ (if fact == g then 0 else degree v g mem.children)

  current : IsBucketed lf now.fact_key mem.right
  current = other_facts before now lt lf mem old new c fact kept f

  tokens_now : IsBucketed lt now.token_key mem.left
  tokens_now = same_tokens before now lt lf mem old new c _ f

  removed : (k : K) → now.fact_key fact ≡ some k → Forgot (hashed_remove now k fact mem).0
  unfolding hashed_remove nothing
  removed k q = record {
    left = refl;
    right = left_bucket lf now.fact_key fact k mem.right q current;
    degrees = λ v g. ground (
      arith,
      (retract_pairs_lem (with_fact fact (row k mem.left)) v g mem.children).0,
      occurs-with_fact fact v g (row k mem.left),
      c.left.bucket v k,
      c.joined v g,
      kept,
      keyed_token before v g k old,
      ==_iff fact g,
    );
  }

  skipped : lf fact ≡ false → Forgot mem
  unfolding nothing
  skipped n = record {
    left = refl;
    right = record { bucket = λ x k. ground (arith, current.bucket x k, n, ==_iff fact x) };
    degrees = λ v g. ground (arith, c.joined v g, n, ==_iff fact g);
  }

  held_there : (k : K) → now.fact_key fact ≡ some k → Set.contains fact (row k mem.right) ≡ lf fact
  unfolding is_key
  held_there k q =
      ground (arith, contains-count fact (row k mem.right), current.bucket fact k, q, e.beq_iff k k)

  forgot :
      (p_type : PropagationType) (k : K)
      → now.fact_key fact ≡ some k
      → (p_type ≡ assert → lf fact ≡ false)
      → Forgot (hashed_forget now k fact p_type mem).0
  unfolding hashed_forget
  forgot assert k q n = skipped (n refl)
  forgot retract k q n = removed k q
  forgot modify k q n = elim (Bool-cases (Set.contains fact (row k mem.right))) [
    | inl i ↦ rw (i, hashed_forget) (removed k q)
    | inr i ↦ rw (i, hashed_forget) (skipped (sym (held_there k q) ∙ i))
  ]

  stored :
      (p_type : PropagationType) (k : K) (m : HashedMem K)
      → is_retract p_type ≡ false
      → now.fact_key fact ≡ some k
      → Forgot m
      → IsHashed now lt (present p_type fact lf) (hashed_store now k fact m).0
  unfolding hashed_store present nothing
  stored p_type k m r q o = record {
    keys = new;
    left = rw o.left tokens_now;
    right =
        IsBucketed-same _ _ now.fact_key now.fact_key _ (λ x. ground arith) (λ x l. refl)
          (entered (λ x. if fact == x then false else lf x) now.fact_key fact k m.right q
            (ground arith) o.right);
    joined = λ v g. ground (
      arith,
      (assert_pairs_lem now.joins (with_fact fact (row k m.left)) v g m.children).0,
      occurs-with_fact fact v g (row k m.left),
      ap (λ x. count v (row k x)) o.left,
      tokens_now.bucket v k,
      o.degrees v g,
      c.joined v g,
      f.pair v g,
      keyed_token now v g k new,
      ==_iff fact g,
    );
  }

  gone : (m : HashedMem K) → Forgot m → IsHashed now lt (present retract fact lf) m
  unfolding present nothing is_retract
  gone m o = record {
    keys = new;
    left = rw o.left tokens_now;
    right =
        IsBucketed-same _ _ now.fact_key now.fact_key _ (λ x. ground arith) (λ x l. refl) o.right;
    joined = λ v g. ground (arith, o.degrees v g, c.joined v g, f.pair v g);
  }

  -- A fact without a key.
  passed_over :
      (p_type : PropagationType)
      → now.fact_key fact ≡ none
      → IsHashed now lt (present p_type fact lf) mem
  unfolding present nothing
  passed_over p_type q = record {
    keys = new;
    left = tokens_now;
    right = unkeyed lf _ now.fact_key fact mem.right q (λ y d. ground arith) current;
    joined = λ v g. ground (
      arith,
      c.joined v g,
      f.pair v g,
      unkeyed_fact now v fact new q,
      λ (l : lf fact ≡ true). unkeyed_fact before v fact old (sym (kept l) ∙ q),
      ==_iff fact g,
    );
  }

  changed :
      (p_type : PropagationType) (k : K)
      → now.fact_key fact ≡ some k
      → (p_type ≡ assert → lf fact ≡ false)
      → IsHashed now lt
          (present p_type fact lf)
          (if is_retract p_type
            then hashed_forget now k fact p_type mem
            else hashed_change now k fact p_type mem).0
  unfolding is_retract hashed_change
  changed assert k q n = stored assert k _ refl q (forgot assert k q n)
  changed retract k q n = gone _ (forgot retract k q n)
  changed modify k q n = stored modify k _ refl q (forgot modify k q n)

  pub changes :
      (p_type : PropagationType)
      → (p_type ≡ assert → lf fact ≡ false)
      → IsHashed now lt (present p_type fact lf) (hashed_right_activate now fact p_type mem).0
  unfolding hashed_right_activate
  changes p_type n = elim (Option-cases (now.fact_key fact)) [
    | inl q ↦ rw (q, hashed_right_activate) (passed_over p_type q)
    | inr (k, q) ↦ rw (q, hashed_right_activate) (changed p_type k q n)
  ]
