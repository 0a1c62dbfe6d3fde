-- ===== src/Facts/Derived.antt =====
-- About the facts that a propagation changes (rulesforge/src/engine/stateful_session.cpp).
use rules_forge.Prelude.{
  ℕ, ◌≡◌, refl, Bool, true, false, List, [], ◌∷◌, ◌++◌, if◌then◌else◌, All, arith, ==_iff,
  Bool-cases, inl, inr, ◌∙◌,
}
use rules_forge.Prelude.Eq.{nat_eq}
use rules_forge.Prelude.Set
use rules_forge.Prelude.Set.{contains-insert, contains-erase}
use rules_forge.Rete.{PropagationType}
use rules_forge.Facts.{
  Effect, gains, loses, rewrites, changed, Network, FactSession, write, note_inserted, enter_fact,
  lose_fact, make_effect, make_effects, tell, reverse,
}

pub contains-append :
    (g : ℕ) (xs ys : List ℕ)
    → Set.contains g (xs ++ ys) ≡ (if Set.contains g xs then true else Set.contains g ys)
unfolding Set.contains
contains-append g [] ys = refl
contains-append g (x ∷ xs) ys = ground (arith, contains-append g xs ys)

pub contains-reverse : (g : ℕ) (xs : List ℕ) → Set.contains g (reverse xs) ≡ Set.contains g xs
unfolding reverse Set.contains
contains-reverse g [] = refl
contains-reverse g (x ∷ xs) =
    ground (arith, contains-reverse g xs, contains-append g (reverse xs) (x ∷ []))

-- A propagation changes derived facts alone: the results of accumulations, and the facts that truth
-- maintenance has justifications for.
unfoldable pub OnlyDerived : Network → (ℕ → Bool) → Type 0
OnlyDerived N derived =
    (p_type : PropagationType) (fact : ℕ) (live : List ℕ) (fields : ℕ → N.Fields) (w : N.World)
    → All (λ e. derived (changed e) ≡ true) (N.propagate p_type fact live fields w).1

module _ (N : Network) (derived : ℕ → Bool) where
  open N use {Fields}

  -- The sessions agree on the facts that are not derived.
  pub record Agrees (s r : FactSession N) : Type 0 where
    pub in_rhs_transaction : r.in_rhs_transaction ≡ s.in_rhs_transaction
    pub is_consistent : r.is_consistent ≡ s.is_consistent
    pub snapshots : r.snapshots ≡ s.snapshots
    pub updated_order : r.updated_order ≡ s.updated_order
    pub live : (g : ℕ) → derived g ≡ false → Set.contains g r.live ≡ Set.contains g s.live
    pub inserted :
        (g : ℕ) → derived g ≡ false → Set.contains g r.inserted ≡ Set.contains g s.inserted
    pub retracted :
        (g : ℕ) → derived g ≡ false → Set.contains g r.retracted ≡ Set.contains g s.retracted
    pub fields : (g : ℕ) → derived g ≡ false → r.fields g ≡ s.fields g

  pub same : (s : FactSession N) → Agrees s s
  same s = record {
    in_rhs_transaction = refl;
    is_consistent = refl;
    snapshots = refl;
    updated_order = refl;
    live = λ g d. refl;
    inserted = λ g d. refl;
    retracted = λ g d. refl;
    fields = λ g d. refl;
  }

  pub Agrees-trans : (s r t : FactSession N) → Agrees s r → Agrees r t → Agrees s t
  Agrees-trans s r t a b = record {
    in_rhs_transaction = b.in_rhs_transaction ∙ a.in_rhs_transaction;
    is_consistent = b.is_consistent ∙ a.is_consistent;
    snapshots = b.snapshots ∙ a.snapshots;
    updated_order = b.updated_order ∙ a.updated_order;
    live = λ g d. b.live g d ∙ a.live g d;
    inserted = λ g d. b.inserted g d ∙ a.inserted g d;
    retracted = λ g d. b.retracted g d ∙ a.retracted g d;
    fields = λ g d. b.fields g d ∙ a.fields g d;
  }

  write-Agrees :
      (fact : ℕ) (value : Fields) (s : FactSession N)
      → derived fact ≡ true
      → Agrees s (record s { fields = write N fact value s.fields })
  write-Agrees fact value s h = record {
    in_rhs_transaction = refl;
    is_consistent = refl;
    snapshots = refl;
    updated_order = refl;
    live = λ g d. refl;
    inserted = λ g d. refl;
    retracted = λ g d. refl;
    fields = λ g d. ground (arith, h, d, ==_iff fact g);
  }

  pub enter_fact-Agrees :
      (fact : ℕ) (s : FactSession N) → derived fact ≡ true → Agrees s (enter_fact N fact s).0
  unfolding enter_fact note_inserted Set.contains
  enter_fact-Agrees fact s h = record {
    in_rhs_transaction = ground arith;
    is_consistent = ground arith;
    snapshots = ground arith;
    updated_order = ground arith;
    live = λ g d. ground (arith, h, d, ==_iff fact g, contains-insert fact g s.live);
    inserted = λ g d. ground (arith, h, d, ==_iff fact g, contains-append g s.inserted (fact ∷ []));
    retracted = λ g d. ground arith;
    fields = λ g d. ground arith;
  }

  lose_fact-Agrees :
      (fact : ℕ) (s : FactSession N) → derived fact ≡ true → Agrees s (lose_fact N fact s).0
  unfolding lose_fact Set.contains
  lose_fact-Agrees fact s h = record {
    in_rhs_transaction = ground arith;
    is_consistent = ground arith;
    snapshots = ground arith;
    updated_order = ground arith;
    live = λ g d. ground (arith, h, d, ==_iff fact g, contains-erase fact g s.live);
    inserted = λ g d. ground arith;
    retracted =
        λ g d. ground (arith, h, d, ==_iff fact g, contains-append g s.retracted (fact ∷ []));
    fields = λ g d. ground arith;
  }

  make_effect-Agrees :
      (e : Effect Fields) (s : FactSession N)
      → derived (changed e) ≡ true
      → Agrees s (make_effect N e s).0
  unfolding make_effect
  make_effect-Agrees (gains fact value) s h =
      Agrees-trans s _ _ (write-Agrees fact value s h) (enter_fact-Agrees fact _ h)
  make_effect-Agrees (loses fact) s h = lose_fact-Agrees fact s h
  make_effect-Agrees (rewrites fact value) s h = record {
    in_rhs_transaction = ground arith;
    is_consistent = ground arith;
    snapshots = ground arith;
    updated_order = ground arith;
    live = λ g d. ground arith;
    inserted = λ g d. ground arith;
    retracted = λ g d. ground arith;
    fields = λ g d. ground (arith, h, d, ==_iff fact g);
  }

  make_effects-Agrees :
      (effects : List (Effect Fields)) (s : FactSession N)
      → All (λ e. derived (changed e) ≡ true) effects
      → Agrees s (make_effects N effects s).0
  unfolding make_effects
  make_effects-Agrees [] s h = same s
  make_effects-Agrees (e ∷ effects) s h =
      let one = make_effect-Agrees e s h.0 in
      elim (Bool-cases (make_effect N e s).1) [
        | inl q ↦
            rw (q, make_effects)
              (Agrees-trans s _ _ one (make_effects-Agrees effects (make_effect N e s).0 h.1))
        | inr q ↦ rw (q, make_effects) one
      ]

  pub tell-Agrees :
      (only : OnlyDerived N derived) (p_type : PropagationType) (fact : ℕ) (s : FactSession N)
      → Agrees s (tell N p_type fact s).0
  unfolding tell OnlyDerived
  tell-Agrees only p_type fact s =
      let told = N.propagate p_type fact s.live s.fields s.world in
      let r =
        make_effects-Agrees told.1 (record s { world = told.0 })
          (only p_type fact s.live s.fields s.world) in
      record {
        in_rhs_transaction = r.in_rhs_transaction;
        is_consistent = r.is_consistent;
        snapshots = r.snapshots;
        updated_order = r.updated_order;
        live = r.live;
        inserted = r.inserted;
        retracted = r.retracted;
        fields = r.fields;
      }
