-- ===== src/Session/Sound.antt =====
-- The agenda's well-formedness together with the delayed activations, through the calls that
-- firing makes (rulesforge/include/engine/agenda.hpp).
use rules_forge.Prelude.{
  String, ℕ, zero, suc, ◌≡◌, refl, inl, inr, List, [], ◌∷◌, arith, Option-cases, All, ◌∙◌, sym,
}
use mathlib.Core.Path.{subst}
use rules_forge.Prelude.Int.{ℤ}
use rules_forge.Prelude.Eq.{nat_eq, string_eq}
use rules_forge.Prelude.Map
use rules_forge.Agenda.{
  Agenda, DelayedActivation, PoppedActivationItem, remove, remove_all, compact_if_needed,
  flush_ready_delayed,
}
use rules_forge.Agenda.Pop.{pop_next_batch_activations, requeue}
use rules_forge.Agenda.Blocks.{
  block_noloop, cancel_activation_group, drop_except, seed_lock_on_active_for_focus,
}
use rules_forge.Agenda.Invariant.{
  Fits, IsWellFormed, remove_all-IsWellFormed, flush_ready_delayed-IsWellFormed,
  flush_ready_delayed-AreFit,
}
use rules_forge.Agenda.Batch.{pop_next_batch_activations-IsWellFormed}
use rules_forge.Agenda.Requeue.{ItemFits, requeue-IsWellFormed}

module _ (sal : ℕ → ℤ) where
  abbrev pub AreFit : List DelayedActivation → Type 0
  AreFit ds = All (λ d. Fits sal d.activation) ds

  pub record IsSound (a : Agenda) : Type 0 where
    pub well_formed : IsWellFormed sal a
    pub delayed : AreFit a.delayed_activations

  -- Fields of the agenda that the invariant does not read.
  same_parts :
      (a b : Agenda)
      → a.agenda_map ≡ b.agenda_map
      → a.agenda_queue ≡ b.agenda_queue
      → IsWellFormed sal a
      → IsWellFormed sal b
  same_parts a b m q w = record {
    entries = rw⁻¹ q w.entries;
    acts = rw⁻¹ m w.acts;
    covered = rw⁻¹ (m, q) w.covered;
    sorted = rw⁻¹ q w.sorted;
    unique = rw⁻¹ m w.unique;
  }

  pub block_noloop-IsSound : (key : ℕ) (a : Agenda) → IsSound a → IsSound (block_noloop key a)
  unfolding block_noloop
  block_noloop-IsSound key a s = record {
    well_formed = same_parts a _ refl refl s.well_formed;
    delayed = s.delayed;
  }

  pub seed-IsSound : (a : Agenda) → IsSound a → IsSound (seed_lock_on_active_for_focus a)
  unfolding seed_lock_on_active_for_focus
  seed-IsSound a s = record {
    well_formed = same_parts a _ refl refl s.well_formed;
    delayed = s.delayed;
  }

  delayed-remove : (h : ℕ) (a : Agenda) → (remove h a).0.delayed_activations ≡ a.delayed_activations
  unfolding remove
  delayed-remove h a = elim (Option-cases (Map.find h a.agenda_map)) [
    | inl e ↦ rw (e, remove) refl
    | inr (act, e) ↦ rw (e, remove) refl
  ]

  delayed-remove_all :
      (hs : List ℕ) (a : Agenda) → (remove_all hs a).delayed_activations ≡ a.delayed_activations
  unfolding remove_all
  delayed-remove_all [] a = refl
  delayed-remove_all (h ∷ hs) a = delayed-remove_all hs (remove h a).0 ∙ delayed-remove h a

  drop_except-IsSound :
      (group : String) (h : ℕ) (a : Agenda) → IsSound a → IsSound (drop_except group h a)
  unfolding drop_except
  drop_except-IsSound group h a s = elim (Option-cases (Map.find group a.activation_group_map)) [
    | inl e ↦ rw (e, drop_except) s
    | inr (hs, e) ↦
        rw (e, drop_except)
          (record { well_formed = same_parts a _ refl refl s.well_formed; delayed = s.delayed })
  ]

  pub cancel_activation_group-IsSound :
      (group : String) (h : ℕ) (a : Agenda)
      → IsSound a
      → IsSound (cancel_activation_group group h a)
  unfolding cancel_activation_group
  cancel_activation_group-IsSound group h a s =
      elim (Option-cases (Map.find group a.activation_group_map)) [
        | inl e ↦ rw (e, cancel_activation_group) s
        | inr (hs, e) ↦
            rw (e, cancel_activation_group)
              (drop_except-IsSound group h _ (record {
                well_formed = remove_all-IsWellFormed sal _ a s.well_formed;
                delayed = subst AreFit (sym (delayed-remove_all _ a)) s.delayed;
              }))
      ]

  delayed-requeue :
      (items : List PoppedActivationItem) (a : Agenda)
      → (requeue items a).delayed_activations ≡ a.delayed_activations
  unfolding requeue
  delayed-requeue [] a = refl
  delayed-requeue (item ∷ items) a = delayed-requeue items _

  pub requeue-IsSound :
      (items : List PoppedActivationItem) (a : Agenda)
      → All (ItemFits sal) items
      → IsSound a
      → IsSound (requeue items a)
  requeue-IsSound items a f s = record {
    well_formed = requeue-IsWellFormed sal items a f s.well_formed;
    delayed = subst AreFit (sym (delayed-requeue items a)) s.delayed;
  }

  delayed-pop :
      (n : ℕ) (a : Agenda)
      → (pop_next_batch_activations n a).0.delayed_activations ≡ a.delayed_activations
  unfolding pop_next_batch_activations compact_if_needed
  delayed-pop zero a = refl
  delayed-pop (suc n) a = ground arith

  pub pop-IsSound : (n : ℕ) (a : Agenda) → IsSound a → IsSound (pop_next_batch_activations n a).0
  pop-IsSound n a s = record {
    well_formed = pop_next_batch_activations-IsWellFormed sal n a s.well_formed;
    delayed = subst AreFit (sym (delayed-pop n a)) s.delayed;
  }

  pub flush-IsSound : (now : ℕ) (a : Agenda) → IsSound a → IsSound (flush_ready_delayed now a)
  flush-IsSound now a s = record {
    well_formed = flush_ready_delayed-IsWellFormed sal now a s.delayed s.well_formed;
    delayed = flush_ready_delayed-AreFit sal now a s.delayed;
  }
