-- ===== src/Facts/Undo.antt =====
-- About the loops that undo a transaction (rulesforge/src/engine/stateful_session.cpp,
-- end_rhs_transaction).
use rules_forge.Prelude.{
  ℕ, ◌≡◌, refl, Bool, true, false, not, none, some, List, [], ◌∷◌, ◌==◌, ◌&&◌, if◌then◌else◌, arith,
  ==_iff, Bool-cases, Option-cases, inl, inr, ◌∙◌,
}
use rules_forge.Prelude.Eq.{nat_eq}
use rules_forge.Prelude.Map.{Map}
use rules_forge.Prelude.Map
use rules_forge.Prelude.Set
use rules_forge.Prelude.Set.{contains-erase}
use rules_forge.Rete.{assert, retract, modify}
use rules_forge.Facts.{
  Network, FactSession, tell, enter_fact, add_fact, retract_now, retract_fact, write,
  propagate_modify, restore_one, each, retract_inserted, restore_retracted,
}
use rules_forge.Facts.Derived.{
  Agrees, same, Agrees-trans, OnlyDerived, tell-Agrees, enter_fact-Agrees,
}

module _ (N : Network) (derived : ℕ → Bool) (only : OnlyDerived N derived) where
  open N use {Fields}

  abbrev pub saved_or : Map ℕ Fields → (ℕ → Fields) → ℕ → Fields
  saved_or snapshots fields g = elim (Map.find g snapshots) [ none ↦ fields g | some v ↦ v ]

  -- What a restoring step leaves of the facts that are not derived: the snapshot where there is one.
  pub record Restored (snapshots : Map ℕ Fields) (touched : ℕ → Bool) (s : FactSession N)
      (r : FactSession N × Bool) : Type 0 where
    pub live : (g : ℕ) → derived g ≡ false → Set.contains g r.0.live ≡ Set.contains g s.live
    pub consistent : r.0.is_consistent ≡ s.is_consistent
    pub idle : r.0.in_rhs_transaction ≡ s.in_rhs_transaction
    pub fields :
        r.1 ≡ true
        → (g : ℕ) → derived g ≡ false
        → r.0.fields g ≡ (
            if touched g && Set.contains g s.live
            then saved_or snapshots s.fields g
            else s.fields g)

  no_snapshot :
      (snapshots : Map ℕ Fields) (fact : ℕ) (s : FactSession N)
      → Map.find fact snapshots ≡ none
      → Restored snapshots (λ g. fact == g) s (s, true)
  no_snapshot snapshots fact s q = record {
    live = λ g d. refl;
    consistent = refl;
    idle = refl;
    fields = λ h g d. ground (arith, q, ==_iff fact g);
  }

  not_live :
      (snapshots : Map ℕ Fields) (fact : ℕ) (s : FactSession N)
      → Set.contains fact s.live ≡ false
      → Restored snapshots (λ g. fact == g) s (s, true)
  not_live snapshots fact s q = record {
    live = λ g d. refl;
    consistent = refl;
    idle = refl;
    fields = λ h g d. ground (arith, q, ==_iff fact g);
  }

  written_back :
      (snapshots : Map ℕ Fields) (fact : ℕ) (v : Fields) (s : FactSession N)
      → Set.contains fact s.live ≡ true
      → Map.find fact snapshots ≡ some v
      → N.is_valid (s.fields fact) ≡ true
      → restore_one N snapshots fact s
        ≡ tell N modify fact (record s { fields = write N fact v s.fields })
  unfolding restore_one propagate_modify
  written_back snapshots fact v s l q i = simp (l, q, i, restore_one, propagate_modify) refl

  rewritten :
      (snapshots : Map ℕ Fields) (fact : ℕ) (v : Fields) (s : FactSession N)
      → Set.contains fact s.live ≡ true
      → Map.find fact snapshots ≡ some v
      → Restored snapshots
          (λ g. fact == g)
          s
          (tell N modify fact (record s { fields = write N fact v s.fields }))
  rewritten snapshots fact v s l q =
      let a =
        tell-Agrees N derived only modify fact (record s { fields = write N fact v s.fields }) in
      record {
        live = a.live;
        consistent = a.is_consistent;
        idle = a.in_rhs_transaction;
        fields = λ h g d. a.fields g d ∙ ground (arith, q, l, ==_iff fact g);
      }

  refused :
      (snapshots : Map ℕ Fields) (fact : ℕ) (v : Fields) (s : FactSession N)
      → Restored snapshots (λ g. fact == g) s (s, false)
  refused snapshots fact v s = record {
    live = λ g d. refl;
    consistent = refl;
    idle = refl;
    fields = λ h g d. cc;
  }

  restore_one-Restored :
      (snapshots : Map ℕ Fields) (fact : ℕ) (s : FactSession N)
      → Restored snapshots (λ g. fact == g) s (restore_one N snapshots fact s)
  unfolding restore_one
  restore_one-Restored snapshots fact s = elim (Option-cases (Map.find fact snapshots)) [
    | inl q ↦ simp (q, restore_one) (no_snapshot snapshots fact s q)
    | inr (v, q) ↦ elim (Bool-cases (Set.contains fact s.live)) [
      | inr l ↦ simp (q, l, restore_one) (not_live snapshots fact s l)
      | inl l ↦ elim (Bool-cases (N.is_valid (s.fields fact))) [
        | inl i ↦ rw (written_back snapshots fact v s l q i) (rewritten snapshots fact v s l q)
        | inr i ↦ simp (q, l, i, restore_one) (refused snapshots fact v s)
      ]
    ]
  ]

  pub each-Restored :
      (snapshots : Map ℕ Fields) (facts : List ℕ) (s : FactSession N)
      → Restored snapshots (λ g. Set.contains g facts) s (each N (restore_one N snapshots) facts s)
  unfolding each Set.contains
  each-Restored snapshots [] s = record {
    live = λ g d. refl;
    consistent = refl;
    idle = refl;
    fields = λ h g d. refl;
  }
  each-Restored snapshots (fact ∷ facts) s =
      let one = restore_one-Restored snapshots fact s in
      let rest = each-Restored snapshots facts (restore_one N snapshots fact s).0 in
      record {
        live = λ g d. rest.live g d ∙ one.live g d;
        consistent = rest.consistent ∙ one.consistent;
        idle = rest.idle ∙ one.idle;
        fields = λ h g d. ground (
          arith,
          one.fields (ground (arith, h)) g d,
          rest.fields (ground (arith, h)) g d,
          one.live g d,
          ==_iff fact g,
        );
      }

  -- What the second loop leaves of them, outside a transaction.
  pub record Cleared (ids : List ℕ) (s : FactSession N) (r : FactSession N) : Type 0 where
    pub live :
        (g : ℕ)
        → derived g ≡ false
        → Set.contains g r.live ≡ (Set.contains g s.live && not (Set.contains g ids))
    pub consistent : r.is_consistent ≡ s.is_consistent
    pub idle : r.in_rhs_transaction ≡ s.in_rhs_transaction
    pub fields : (g : ℕ) → derived g ≡ false → r.fields g ≡ s.fields g

  at_once :
      (fact : ℕ) (s : FactSession N)
      → s.is_consistent ≡ true
      → s.in_rhs_transaction ≡ false
      → Set.contains fact s.live ≡ true
      → retract_inserted N fact s ≡ retract_now N fact s
  unfolding retract_inserted retract_fact
  at_once fact s c i l = simp (c, i, l, retract_inserted, retract_fact) refl

  passed :
      (fact : ℕ) (s : FactSession N)
      → Set.contains fact s.live ≡ false
      → retract_inserted N fact s ≡ (s, true)
  unfolding retract_inserted
  passed fact s l = ground (arith, l)

  pub retract_now-Cleared :
      (fact : ℕ) (s : FactSession N) → Cleared (fact ∷ []) s (retract_now N fact s).0
  unfolding retract_now Set.contains
  retract_now-Cleared fact s =
      let a = tell-Agrees N derived only retract fact (record s { live = Set.erase fact s.live }) in
      record {
        live = λ g d. ground (arith, a.live g d, contains-erase fact g s.live);
        consistent = a.is_consistent;
        idle = a.in_rhs_transaction;
        fields = a.fields;
      }

  retract_inserted-Cleared :
      (fact : ℕ) (s : FactSession N)
      → s.is_consistent ≡ true
      → s.in_rhs_transaction ≡ false
      → Cleared (fact ∷ []) s (retract_inserted N fact s).0
  unfolding Set.contains
  retract_inserted-Cleared fact s c i = elim (Bool-cases (Set.contains fact s.live)) [
    | inl l ↦ rw (at_once fact s c i l) (retract_now-Cleared fact s)
    | inr l ↦ rw (passed fact s l) (record {
      live = λ g d. ground (arith, l, ==_iff fact g);
      consistent = refl;
      idle = refl;
      fields = λ g d. refl;
    })
  ]

  pub each-Cleared :
      (ids : List ℕ) (s : FactSession N)
      → s.is_consistent ≡ true
      → s.in_rhs_transaction ≡ false
      → Cleared ids s (each N (retract_inserted N) ids s).0
  unfolding each Set.contains
  each-Cleared [] s c i = record {
    live = λ g d. ground arith;
    consistent = refl;
    idle = refl;
    fields = λ g d. refl;
  }
  each-Cleared (fact ∷ ids) s c i =
      let one = retract_inserted-Cleared fact s c i in
      let rest =
        each-Cleared ids (retract_inserted N fact s).0 (one.consistent ∙ c) (one.idle ∙ i) in
      record {
        live = λ g d. ground (arith, one.live g d, rest.live g d);
        consistent = rest.consistent ∙ one.consistent;
        idle = rest.idle ∙ one.idle;
        fields = λ g d. rest.fields g d ∙ one.fields g d;
      }

  add_fact-Agrees :
      (fact : ℕ) (s : FactSession N)
      → derived fact ≡ true
      → Agrees N derived s (add_fact N fact s).0
  unfolding add_fact
  add_fact-Agrees fact s h =
      let one = enter_fact-Agrees N derived fact s h in
      elim (Bool-cases (enter_fact N fact s).1) [
        | inl q ↦
            rw (q, add_fact)
              (Agrees-trans N derived s _ _ one (tell-Agrees N derived only assert fact _))
        | inr q ↦ rw (q, add_fact) one
      ]

  restore_retracted-Agrees :
      (fact : ℕ) (s : FactSession N)
      → (derived fact ≡ false → Set.contains fact s.live ≡ true)
      → Agrees N derived s (restore_retracted N fact s).0
  unfolding restore_retracted
  restore_retracted-Agrees fact s h = elim (Bool-cases (Set.contains fact s.live)) [
    | inl l ↦ simp (l, restore_retracted) (same N derived s)
    | inr l ↦ simp (l, restore_retracted) (add_fact-Agrees fact s (ground (arith, h, l)))
  ]

  -- The third loop finds every fact that is not derived where it was.
  pub each-Agrees :
      (facts : List ℕ) (s : FactSession N)
      → ((g : ℕ) → derived g ≡ false → Set.contains g facts ≡ true → Set.contains g s.live ≡ true)
      → Agrees N derived s (each N (restore_retracted N) facts s).0
  unfolding each Set.contains
  each-Agrees [] s h = same N derived s
  each-Agrees (fact ∷ facts) s h =
      let one =
        restore_retracted-Agrees fact s (λ d. h fact d (ground (arith, ==_iff fact fact))) in
      Agrees-trans N derived s _ _ one
        (each-Agrees facts _ (λ g d k. one.live g d ∙ h g d (ground (arith, k))))
