-- ===== src/Facts/Within.antt =====
-- About a transaction that is open (rulesforge/src/engine/stateful_session.cpp): the session
-- against the one it began at.
use rules_forge.Prelude.{
  ℕ, ◌≡◌, refl, Bool, true, false, none, some, List, [], ◌∷◌, ◌++◌, ◌||◌, is_some, arith, ==_iff,
  Bool-cases, inl, inr, ◌∙◌, ap, sym,
}
use rules_forge.Prelude.Eq.{nat_eq}
use rules_forge.Prelude.Map.{Map, find-insert}
use rules_forge.Prelude.Map
use rules_forge.Prelude.Set
use rules_forge.Prelude.Set.{contains-insert}
use rules_forge.Rete.{assert}
use rules_forge.Facts.{
  Network, FactSession, tell, note_inserted, enter_fact, add_fact, write, begin_rhs_transaction,
  Action, inserts, retracts, updates, breaks_off, act,
}
use rules_forge.Facts.Derived.{Agrees, OnlyDerived, tell-Agrees, contains-append}

module _ (N : Network) where
  -- A fact is inserted while it is out, and one that the transaction inserted is not retracted.
  unfoldable pub IsProper : FactSession N → Action N → Type 0
  IsProper s (inserts fact value) = Set.contains fact s.live ≡ false
  IsProper s (retracts fact) = Set.contains fact s.inserted ≡ false
  IsProper s (updates fact value) = Unit
  IsProper s (breaks_off fact value) = Unit

  unfoldable pub AreProper : List (Action N) → FactSession N → Type 0
  AreProper [] s = Unit
  AreProper (a ∷ actions) s = IsProper s a × AreProper actions (act N a s).0

module _ (N : Network) (derived : ℕ → Bool) where
  open N use {Fields}

  -- The session in a transaction that began at `start`, on the facts that are not derived.
  pub record Within (start s : FactSession N) : Type 0 where
    pub active : s.in_rhs_transaction ≡ true
    pub consistent : s.is_consistent ≡ true
    pub live :
        (g : ℕ)
        → derived g ≡ false
        → Set.contains g s.live ≡ (Set.contains g start.live || Set.contains g s.inserted)
    pub fresh :
        (g : ℕ)
        → derived g ≡ false
        → Set.contains g s.inserted ≡ true
        → Set.contains g start.live ≡ false
    pub held :
        (g : ℕ)
        → derived g ≡ false
        → Set.contains g s.retracted ≡ true
        → Set.contains g start.live ≡ true
    pub kept :
        (g : ℕ)
        → derived g ≡ false
        → Set.contains g start.live ≡ true
        → Map.find g s.snapshots ≡ none
        → s.fields g ≡ start.fields g
    pub saved :
        (g : ℕ) (v : Fields)
        → derived g ≡ false
        → Set.contains g start.live ≡ true
        → Map.find g s.snapshots ≡ some v
        → (v ≡ start.fields g) × (Set.contains g s.updated_order ≡ true)
    pub positive : (g : ℕ) → Set.contains g start.live ≡ true → N.is_positive g ≡ true

  pub Agrees-Within :
      (start s r : FactSession N) → Within start s → Agrees N derived s r → Within start r
  Agrees-Within start s r w a = record {
    active = a.in_rhs_transaction ∙ w.active;
    consistent = a.is_consistent ∙ w.consistent;
    live = λ g d. ground (arith, a.live g d, a.inserted g d, w.live g d);
    fresh = λ g d h. w.fresh g d (sym (a.inserted g d) ∙ h);
    held = λ g d h. w.held g d (sym (a.retracted g d) ∙ h);
    kept = λ g d l e. a.fields g d ∙ w.kept g d l (ap (λ m. Map.find g m) (sym a.snapshots) ∙ e);
    saved = λ g v d l e.
        let (v', o) = w.saved g v d l (ap (λ m. Map.find g m) (sym a.snapshots) ∙ e) in
        (v', ap (λ xs. Set.contains g xs) a.updated_order ∙ o);
    positive = w.positive;
  }

  pub written-Within :
      (start s : FactSession N) (fact : ℕ) (value : Fields)
      → (derived fact ≡ false
          → Set.contains fact start.live ≡ true
          → is_some (Map.find fact s.snapshots) ≡ true)
      → Within start s
      → Within start (record s { fields = write N fact value s.fields })
  written-Within start s fact value n w = record {
    active = w.active;
    consistent = w.consistent;
    live = w.live;
    fresh = w.fresh;
    held = w.held;
    kept = λ g d l e. ground (arith, w.kept g d l e, n, d, l, e, ==_iff fact g);
    saved = w.saved;
    positive = w.positive;
  }

  entered-Within :
      (start s : FactSession N) (fact : ℕ)
      → Set.contains fact s.live ≡ false
      → Within start s
      → Within start
          (record s { inserted = s.inserted ++ fact ∷ []; live = Set.insert fact s.live })
  unfolding Set.contains
  entered-Within start s fact n w = record {
    active = w.active;
    consistent = w.consistent;
    live = λ g d. ground (
      arith,
      w.live g d,
      contains-insert fact g s.live,
      contains-append g s.inserted (fact ∷ []),
    );
    fresh = λ g d h. ground (
      arith,
      w.fresh g d,
      w.live g d,
      n,
      h,
      contains-append g s.inserted (fact ∷ []),
      ==_iff fact g,
    );
    held = w.held;
    kept = w.kept;
    saved = w.saved;
    positive = w.positive;
  }

  added :
      (fact : ℕ) (s : FactSession N)
      → s.is_consistent ≡ true
      → s.in_rhs_transaction ≡ true
      → N.is_valid (s.fields fact) ≡ true
      → add_fact N fact s
        ≡ tell N assert fact
            (record s { inserted = s.inserted ++ fact ∷ []; live = Set.insert fact s.live })
  unfolding add_fact enter_fact note_inserted
  added fact s c t v = simp (c, v, t, add_fact, enter_fact, note_inserted) refl

  refused :
      (fact : ℕ) (s : FactSession N)
      → s.is_consistent ≡ true
      → N.is_valid (s.fields fact) ≡ false
      → add_fact N fact s ≡ (s, false)
  unfolding add_fact enter_fact
  refused fact s c v = simp (c, v, add_fact, enter_fact) refl

  pub add_fact-Within :
      (only : OnlyDerived N derived) (start s : FactSession N) (fact : ℕ)
      → Set.contains fact s.live ≡ false
      → Within start s
      → Within start (add_fact N fact s).0
  add_fact-Within only start s fact n w = elim (Bool-cases (N.is_valid (s.fields fact))) [
    | inl q ↦ rw (added fact s w.consistent w.active q) (
        Agrees-Within start _ _ (entered-Within start s fact n w)
          (tell-Agrees N derived only assert fact _))
    | inr q ↦ rw (refused fact s w.consistent q) w
  ]

  pub begin-Within :
      (start : FactSession N)
      → start.is_consistent ≡ true
      → ((g : ℕ) → Set.contains g start.live ≡ true → N.is_positive g ≡ true)
      → Within start (begin_rhs_transaction N start)
  unfolding begin_rhs_transaction Set.contains Map.find
  begin-Within start c z = record {
    active = refl;
    consistent = c;
    live = λ g d. ground arith;
    fresh = λ g d h. cc;
    held = λ g d h. cc;
    kept = λ g d l e. refl;
    saved = λ g v d l e. cc;
    positive = z;
  }
