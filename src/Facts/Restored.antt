-- ===== src/Facts/Restored.antt =====
-- About the session after a rolled back transaction
-- (rulesforge/src/engine/stateful_session.cpp, end_rhs_transaction).
use rules_forge.Prelude.{
  ℕ, ◌≡◌, refl, Bool, true, false, List, [], arith, Option-cases, inl, inr, sym, ◌∙◌, ◌⊎◌,
}
use rules_forge.Prelude.Eq.{nat_eq}
use rules_forge.Prelude.Map
use rules_forge.Prelude.Set
use rules_forge.Facts.{
  Network, FactSession, begin_rhs_transaction, close_transaction, restore_one, each,
  retract_inserted, restore_retracted, reverse, undo, settle, end_rhs_transaction, Action, act_all,
}
use rules_forge.Facts.Derived.{Agrees, OnlyDerived, contains-reverse}
use rules_forge.Facts.Within.{Within, AreProper, begin-Within}
use rules_forge.Facts.Rollback.{act_all-Within}
use rules_forge.Facts.Undo.{Restored, Cleared, each-Restored, each-Cleared, each-Agrees}

module _ (N : Network) (derived : ℕ → Bool) where
  -- The session after the rollback: the facts that are not derived as they were, or no facts and no
  -- more work.
  unfoldable pub IsRestored : FactSession N → FactSession N → Type 0
  IsRestored start s =
      (s.in_rhs_transaction ≡ false)
      × (((s.is_consistent ≡ true)
            × ((g : ℕ) → derived g ≡ false → Set.contains g s.live ≡ Set.contains g start.live)
            × ((g : ℕ)
                → derived g ≡ false
                → Set.contains g start.live ≡ true
                → s.fields g ≡ start.fields g))
          ⊎ ((s.is_consistent ≡ false) × (s.halt_requested ≡ true) × (s.live ≡ [])))

  -- What the three loops leave.
  record Undone (start : FactSession N) (r : FactSession N × Bool) : Type 0 where
    pub idle : r.0.in_rhs_transaction ≡ false
    pub live : (g : ℕ) → derived g ≡ false → Set.contains g r.0.live ≡ Set.contains g start.live
    pub fields :
        r.1 ≡ true
        → (g : ℕ) → derived g ≡ false
        → Set.contains g start.live ≡ true
        → r.0.fields g ≡ start.fields g

  module _ (only : OnlyDerived N derived) (start s : FactSession N)
      (w : Within N derived start s) where
    abbrev first : FactSession N × Bool
    first = each N (restore_one N s.snapshots) (reverse s.updated_order) (close_transaction N s)

    abbrev second : FactSession N × Bool
    second = each N (retract_inserted N) (reverse s.inserted) first.0

    first-Restored :
        Restored N derived only s.snapshots
          (λ g. Set.contains g (reverse s.updated_order))
          (close_transaction N s)
          first
    first-Restored =
        each-Restored N derived only s.snapshots (reverse s.updated_order) (close_transaction N s)

    second-Cleared : Cleared N derived only (reverse s.inserted) first.0 second.0
    unfolding close_transaction
    second-Cleared =
        each-Cleared N derived only (reverse s.inserted) first.0
          (first-Restored.consistent ∙ w.consistent) first-Restored.idle

    second_live :
        (g : ℕ) → derived g ≡ false → Set.contains g second.0.live ≡ Set.contains g start.live
    unfolding close_transaction
    second_live g d = ground (
      arith,
      second-Cleared.live g d,
      first-Restored.live g d,
      contains-reverse g s.inserted,
      w.live g d,
      w.fresh g d,
    )

    second_fields :
        first.1 ≡ true
        → (g : ℕ) → derived g ≡ false
        → Set.contains g start.live ≡ true
        → second.0.fields g ≡ start.fields g
    unfolding close_transaction
    second_fields h g d l =
        second-Cleared.fields g d ∙ elim (Option-cases (Map.find g s.snapshots)) [
          | inl q ↦ ground (arith, first-Restored.fields h g d, w.kept g d l q, q)
          | inr (v, q) ↦ ground (
            arith,
            first-Restored.fields h g d,
            w.saved g v d l q,
            contains-reverse g s.updated_order,
            w.live g d,
            q,
            l,
          )
        ]

    third_loop :
        Agrees N derived second.0 (each N (restore_retracted N) (reverse s.retracted) second.0).0
    third_loop =
        each-Agrees N derived only (reverse s.retracted) second.0
          (λ g d h. second_live g d ∙ w.held g d (sym (contains-reverse g s.retracted) ∙ h))

    undo-Undone : Undone start (undo N s)
    unfolding undo close_transaction
    undo-Undone = record {
      idle = third_loop.in_rhs_transaction ∙ second-Cleared.idle ∙ first-Restored.idle;
      live = λ g d. third_loop.live g d ∙ second_live g d;
      fields = λ h g d l. third_loop.fields g d ∙ second_fields (ground (arith, h)) g d l;
    }

  settled :
      (start : FactSession N) (r : FactSession N × Bool)
      → Undone start r
      → IsRestored start (settle N r)
  unfolding settle IsRestored
  settled start (s, true) u = (u.idle, inl (refl, u.live, u.fields refl))
  settled start (s, false) u = (u.idle, inr (refl, refl, refl))

  -- Where propagations change derived facts alone: after a rolled back transaction of insertions,
  -- retractions and updates, one of which may have thrown, the session is consistent again, and the
  -- facts that are not derived are live if they were when it began, each with the fields it had
  -- then; or the session is inconsistent and halted with no facts. It was consistent when the
  -- transaction began, its facts have positive ids, a fact is inserted only while it is out, and none
  -- is retracted that the transaction inserted.
  pub rollback_restores :
      (only : OnlyDerived N derived) (start : FactSession N) (actions : List (Action N))
      → start.is_consistent ≡ true
      → ((g : ℕ) → Set.contains g start.live ≡ true → N.is_positive g ≡ true)
      → AreProper N actions (begin_rhs_transaction N start)
      → IsRestored start
          (end_rhs_transaction N false (act_all N actions (begin_rhs_transaction N start))).0
  unfolding end_rhs_transaction
  rollback_restores only start actions c z p =
      let w = act_all-Within N derived only start actions _ p (begin-Within N derived start c z) in
      simp (w.active, end_rhs_transaction) (settled start _ (undo-Undone only start _ w))
