-- ===== src/Facts/Commit.antt =====
-- About the commit of a transaction (rulesforge/src/engine/stateful_session.cpp,
-- end_rhs_transaction).
use rules_forge.Prelude.{ℕ, ◌≡◌, refl, Bool, true, false, not, List, [], ◌∷◌, ◌&&◌, arith, ◌∙◌}
use rules_forge.Prelude.Eq.{nat_eq}
use rules_forge.Prelude.Set
use rules_forge.Rete.{retract}
use rules_forge.Facts.{
  Network, FactSession, tell, retract_now, close_transaction, commit_loop, end_rhs_transaction,
}
use rules_forge.Facts.Derived.{OnlyDerived}
use rules_forge.Facts.Undo.{Cleared, retract_now-Cleared}

module _ (N : Network) (derived : ℕ → Bool) where
  -- The session after a commit.
  unfoldable pub IsCommitted : FactSession N → FactSession N × Bool → Type 0
  IsCommitted s r =
      (r.1 ≡ true)
      × (r.0.in_rhs_transaction ≡ false)
      × (r.0.is_consistent ≡ true)
      × ((g : ℕ)
          → derived g ≡ false
          → Set.contains g r.0.live ≡ (Set.contains g s.live && not (Set.contains g s.retracted)))
      × ((g : ℕ) → derived g ≡ false → r.0.fields g ≡ s.fields g)

  -- The propagation of a retraction does not throw.
  abbrev pub IsCalm : Type 0
  IsCalm =
      (fact : ℕ) (s : FactSession N) → s.is_consistent ≡ true → (tell N retract fact s).1 ≡ true

  module _ (only : OnlyDerived N derived) (calm : IsCalm) where
    commit_loop-Cleared :
        (facts : List ℕ) (s : FactSession N)
        → s.is_consistent ≡ true
        → ((commit_loop N facts s).1 ≡ true)
          × Cleared N derived only facts s (commit_loop N facts s).0
    unfolding commit_loop retract_now Set.contains
    commit_loop-Cleared [] s c = (
      refl,
      record { live = λ g d. ground arith; consistent = refl; idle = refl; fields = λ g d. refl },
    )
    commit_loop-Cleared (fact ∷ facts) s c =
        let one = retract_now-Cleared N derived only fact s in
        let (fine, rest) =
          commit_loop-Cleared facts (retract_now N fact s).0 (one.consistent ∙ c) in
        rw (calm fact (record s { live = Set.erase fact s.live }) c, commit_loop)
          (
            fine,
            record {
              live = λ g d. ground (arith, rest.live g d, one.live g d);
              consistent = rest.consistent ∙ one.consistent;
              idle = rest.idle ∙ one.idle;
              fields = λ g d. rest.fields g d ∙ one.fields g d;
            },
          )

    -- Where propagations change derived facts alone, and that of a retraction does not throw: the
    -- commit of an open transaction succeeds and leaves a consistent session without a transaction,
    -- in which a fact that is not derived is live just if it was and its retraction was not deferred,
    -- with its fields unchanged.
    pub commit_retracts :
        (s : FactSession N)
        → s.in_rhs_transaction ≡ true
        → IsCommitted s (end_rhs_transaction N true s)
    unfolding end_rhs_transaction close_transaction IsCommitted
    commit_retracts s a =
        let (fine, done) =
          commit_loop-Cleared s.retracted (record (close_transaction N s) { is_consistent = true })
            refl in
        simp (a, end_rhs_transaction) (fine, done.idle, done.consistent, done.live, done.fields)
