-- ===== src/Agenda/Flush.antt =====
-- About flush_ready_delayed (rulesforge/include/engine/agenda.hpp): what enters and what still waits.
use rules_forge.Prelude.{
  ℕ, ◌≡◌, refl, true, false, Option, some, List, [], ◌∷◌, ◌++◌, Bool-cases, inl, inr, All, leb,
  ◌==◌, if◌then◌else◌, ap, ◌∙◌,
}
use rules_forge.Prelude.Int.{ℤ}
use rules_forge.Prelude.Eq.{nat_eq}
use rules_forge.Prelude.Map.{find-insert}
use rules_forge.Prelude.Map
use rules_forge.Rule.{Activation}
use rules_forge.Agenda.{Agenda, DelayedActivation, add, flush_loop, flush_ready_delayed}
use rules_forge.Agenda.Invariant.{Fits, IsWellFormed, flush_ready_delayed-IsWellFormed}

-- The activation under a hash after those of the list have entered in turn.
unfoldable pub latest : ℕ → List DelayedActivation → Option Activation → Option Activation
latest h [] old = old
latest h (d ∷ ds) old =
    latest h ds (if d.activation.hash_value == h then some d.activation else old)

unfoldable pub IsFirstLater : ℕ → List DelayedActivation → Type 0
IsFirstLater now [] = Unit
IsFirstLater now (d ∷ ds) = leb d.fire_time now ≡ false

-- The waiting activations up to the first that is not due have left, and are in the map.
pub record Flushed (now : ℕ) (ds : List DelayedActivation) (a a' : Agenda) : Type 0 where
  pub due : List DelayedActivation
  pub split : ds ≡ due ++ a'.delayed_activations
  pub all_due : All (λ d. leb d.fire_time now ≡ true) due
  pub first_later : IsFirstLater now a'.delayed_activations
  pub entered : (h : ℕ) → Map.find h a'.agenda_map ≡ latest h due (Map.find h a.agenda_map)

flush_loop-Flushed :
    (now : ℕ) (ds : List DelayedActivation) (a : Agenda) → Flushed now ds a (flush_loop now ds a)
unfolding flush_loop IsFirstLater latest add
flush_loop-Flushed now [] a = record {
  due = [];
  split = refl;
  all_due = tt;
  first_later = tt;
  entered = λ h. refl;
}
flush_loop-Flushed now (d ∷ ds) a = elim (Bool-cases (leb d.fire_time now)) [
  | inl q ↦
      let rest = flush_loop-Flushed now ds (add d.activation a) in
      rw (q, flush_loop)
        (record {
          due = d ∷ rest.due;
          split = ap (λ xs. d ∷ xs) rest.split;
          all_due = (q, rest.all_due);
          first_later = rest.first_later;
          entered = λ h.
              rest.entered h
              ∙ ap (latest h rest.due)
                  (find-insert d.activation.hash_value h d.activation a.agenda_map);
        })
  | inr q ↦
      rw (q, flush_loop)
        (record { due = []; split = refl; all_due = tt; first_later = q; entered = λ h. refl })
]

-- A flush takes the waiting activations up to the first that is not due, and puts exactly these into
-- the map, the last of one hash staying; and where the agenda is well formed and each waiting
-- activation has the salience that its hash stands for, it is well formed after.
pub flush_ready_delayed-Flushed :
    (sal : ℕ → ℤ) (now : ℕ) (a : Agenda)
    → All (λ d. Fits sal d.activation) a.delayed_activations
    → IsWellFormed sal a
    → Flushed now a.delayed_activations a (flush_ready_delayed now a)
      × IsWellFormed sal (flush_ready_delayed now a)
unfolding flush_ready_delayed
flush_ready_delayed-Flushed sal now a f w =
    (flush_loop-Flushed now a.delayed_activations a, flush_ready_delayed-IsWellFormed sal now a f w)
