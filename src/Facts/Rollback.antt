-- ===== src/Facts/Rollback.antt =====
-- About the actions of a transaction (rulesforge/src/engine/stateful_session.cpp).
use rules_forge.Prelude.{
  ℕ, ◌≡◌, refl, Bool, true, false, none, List, [], ◌∷◌, ◌++◌, is_some, arith, ==_iff, Bool-cases,
  Option-cases, inl, inr, ap,
}
use rules_forge.Prelude.Eq.{nat_eq}
use rules_forge.Prelude.Map.{Map, find-insert}
use rules_forge.Prelude.Map
use rules_forge.Prelude.Set
use rules_forge.Rete.{modify}
use rules_forge.Facts.{
  Network, FactSession, lose_fact, retract_fact, track_rhs_update_snapshot, propagate_modify,
  overwrite, Action, inserts, retracts, updates, breaks_off, act, act_all,
}
use rules_forge.Facts.Derived.{OnlyDerived, tell-Agrees, contains-append}
use rules_forge.Facts.Within.{
  Within, IsProper, AreProper, Agrees-Within, written-Within, add_fact-Within,
}

module _ (N : Network) (derived : ℕ → Bool) where
  open N use {Fields}

  deferred :
      (fact : ℕ) (s : FactSession N)
      → s.is_consistent ≡ true
      → s.in_rhs_transaction ≡ true
      → Set.contains fact s.live ≡ true
      → retract_fact N fact s ≡ (record s { retracted = s.retracted ++ fact ∷ [] }, true)
  unfolding retract_fact lose_fact
  deferred fact s c t l = simp (c, l, t, retract_fact, lose_fact) refl

  absent :
      (fact : ℕ) (s : FactSession N)
      → Set.contains fact s.live ≡ false
      → (retract_fact N fact s).0 ≡ s
  unfolding retract_fact lose_fact
  absent fact s l = ground (arith, l)

  waiting-Within :
      (start s : FactSession N) (fact : ℕ)
      → Set.contains fact s.live ≡ true
      → Set.contains fact s.inserted ≡ false
      → Within N derived start s
      → Within N derived start (record s { retracted = s.retracted ++ fact ∷ [] })
  unfolding Set.contains
  waiting-Within start s fact q n w = record {
    active = w.active;
    consistent = w.consistent;
    live = w.live;
    fresh = w.fresh;
    held = λ g d h. ground (
      arith,
      w.held g d,
      w.live g d,
      q,
      n,
      h,
      contains-append g s.retracted (fact ∷ []),
      ==_iff fact g,
    );
    kept = w.kept;
    saved = w.saved;
    positive = w.positive;
  }

  retract_fact-Within :
      (start s : FactSession N) (fact : ℕ)
      → Set.contains fact s.inserted ≡ false
      → Within N derived start s
      → Within N derived start (retract_fact N fact s).0
  retract_fact-Within start s fact n w = elim (Bool-cases (Set.contains fact s.live)) [
    | inr q ↦ rw (absent fact s q) w
    | inl q ↦ rw (deferred fact s w.consistent w.active q) (waiting-Within start s fact q n w)
  ]

  noted-Within :
      (start s : FactSession N) (fact : ℕ)
      → Map.find fact s.snapshots ≡ none
      → Within N derived start s
      → Within N derived start (record s {
        updated_order = s.updated_order ++ fact ∷ [];
        snapshots = Map.insert fact (s.fields fact) s.snapshots;
      })
  unfolding Set.contains
  noted-Within start s fact q w = record {
    active = w.active;
    consistent = w.consistent;
    live = w.live;
    fresh = w.fresh;
    held = w.held;
    kept =
        λ g d l e. w.kept g d l (ground (arith, e, find-insert fact g (s.fields fact) s.snapshots));
    saved = λ g v d l e. ground (
      arith,
      w.saved g v d l,
      w.kept g d l,
      find-insert fact g (s.fields fact) s.snapshots,
      contains-append g s.updated_order (fact ∷ []),
      ==_iff fact g,
      e,
      q,
    );
    positive = w.positive;
  }

  untracked :
      (fact : ℕ) (s : FactSession N)
      → N.is_positive fact ≡ false
      → track_rhs_update_snapshot N fact s ≡ s
  unfolding track_rhs_update_snapshot
  untracked fact s z = ground (arith, z)

  tracked_before :
      (fact : ℕ) (s : FactSession N)
      → is_some (Map.find fact s.snapshots) ≡ true
      → track_rhs_update_snapshot N fact s ≡ s
  unfolding track_rhs_update_snapshot
  tracked_before fact s t = ground (arith, t)

  newly_tracked :
      (fact : ℕ) (s : FactSession N)
      → s.in_rhs_transaction ≡ true
      → N.is_positive fact ≡ true
      → Map.find fact s.snapshots ≡ none
      → track_rhs_update_snapshot N fact s ≡ record s {
        updated_order = s.updated_order ++ fact ∷ [];
        snapshots = Map.insert fact (s.fields fact) s.snapshots;
      }
  unfolding track_rhs_update_snapshot
  newly_tracked fact s a z q = simp (a, z, q, track_rhs_update_snapshot) refl

  track-Within :
      (start s : FactSession N) (fact : ℕ)
      → Within N derived start s
      → Within N derived start (track_rhs_update_snapshot N fact s)
        × (Set.contains fact start.live ≡ true
            → is_some (Map.find fact (track_rhs_update_snapshot N fact s).snapshots) ≡ true)
  track-Within start s fact w = elim (Bool-cases (N.is_positive fact)) [
    | inr z ↦ rw (untracked fact s z) (w, λ l. absurd (ground (arith, z, w.positive fact l)))
    | inl z ↦ elim (Option-cases (Map.find fact s.snapshots)) [
      | inr (v, q) ↦
          let t : is_some (Map.find fact s.snapshots) ≡ true = ap is_some q in
          rw (tracked_before fact s t) (w, λ l. t)
      | inl q ↦ rw (newly_tracked fact s w.active z q) (
        noted-Within start s fact q w,
        λ l. ground (arith, find-insert fact fact (s.fields fact) s.snapshots, ==_iff fact fact),
      )
    ]
  ]

  overwrite-Within :
      (start s : FactSession N) (fact : ℕ) (value : Fields)
      → Within N derived start s
      → Within N derived start (overwrite N fact value s)
  unfolding overwrite
  overwrite-Within start s fact value w =
      let (t, n) = track-Within start s fact w in
      written-Within N derived start _ fact value (λ d. n) t

  module _ (only : OnlyDerived N derived) where
    modify-Within :
        (start s : FactSession N) (fact : ℕ)
        → Within N derived start s
        → Within N derived start (propagate_modify N fact s).0
    unfolding propagate_modify
    modify-Within start s fact w = elim (Bool-cases (Set.contains fact s.live)) [
      | inl q ↦
          simp (q, propagate_modify)
            (Agrees-Within N derived start _ _ w (tell-Agrees N derived only modify fact s))
      | inr q ↦ simp (q, propagate_modify) w
    ]

    act-Within :
        (start s : FactSession N) (a : Action N)
        → IsProper N s a
        → Within N derived start s
        → Within N derived start (act N a s).0
    unfolding act IsProper
    act-Within start s (inserts fact value) p w = add_fact-Within N derived only start _ fact p (
        written-Within N derived start s fact value
          (λ d l. absurd (ground (arith, l, p, w.live fact d))) w)
    act-Within start s (retracts fact) p w = retract_fact-Within start s fact p w
    act-Within start s (updates fact value) p w =
        modify-Within start _ fact (overwrite-Within start s fact value w)
    act-Within start s (breaks_off fact value) p w = overwrite-Within start s fact value w

    pub act_all-Within :
        (start : FactSession N) (actions : List (Action N)) (s : FactSession N)
        → AreProper N actions s
        → Within N derived start s
        → Within N derived start (act_all N actions s)
    unfolding act_all AreProper
    act_all-Within start [] s p w = w
    act_all-Within start (a ∷ actions) s p w =
        let w' = act-Within start s a p.0 w in
        elim (Bool-cases (act N a s).1) [
          | inl q ↦ rw (q, act_all) (act_all-Within start actions (act N a s).0 p.1 w')
          | inr q ↦ rw (q, act_all) w'
        ]
