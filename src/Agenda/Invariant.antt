-- ===== src/Agenda/Invariant.antt =====
-- The invariant of the agenda of rulesforge/include/engine/agenda.hpp.
use rules_forge.Prelude.{
  ℕ, ◌≡◌, refl, true, some, List, [], ◌∷◌, arith, Bool-cases, leb, Option-cases, inl, inr, All,
}
use rules_forge.Prelude.Int.{ℤ}
use rules_forge.Prelude.Eq.{nat_eq}
use rules_forge.Prelude.Map.{
  Map, find-insert, find-erase, All-insert, All-erase, IsUnique, IsUnique-insert, IsUnique-erase,
}
use rules_forge.Prelude.Map
use rules_forge.Rule.{Activation}
use rules_forge.Agenda.{
  Agenda, DelayedActivation, empty, add, add_batch, flush_loop, flush_ready_delayed, remove,
  remove_all, entries_of, compact_if_needed,
}
use rules_forge.Agenda.Queue.{Entry, has, IsSorted, has-push, All-push, push-IsSorted}

-- An activation carries the salience that its hash stands for.
abbrev pub Fits : (ℕ → ℤ) → Activation → Type 0
Fits sal act = act.rule.salience ≡ sal act.hash_value

abbrev pub FitsAt : (ℕ → ℤ) → ℕ → Activation → Type 0
FitsAt sal h act = (act.hash_value ≡ h) × (act.rule.salience ≡ sal h)

abbrev pub EntryFits : (ℕ → ℤ) → Entry → Type 0
EntryFits sal e = e.salience ≡ sal e.hash

-- `sal` gives the salience of the rule that each hash belongs to. Every activation of the map has
-- an entry in the queue: none is forgotten. An entry may be stale.
pub record IsWellFormed (sal : ℕ → ℤ) (a : Agenda) : Type 0 where
  pub entries : All (EntryFits sal) a.agenda_queue
  pub acts : All (λ (kv : ℕ × Activation). FitsAt sal kv.0 kv.1) a.agenda_map
  pub covered :
      (h : ℕ) (x : Activation) → Map.find h a.agenda_map ≡ some x → has h a.agenda_queue ≡ true
  pub sorted : IsSorted a.agenda_queue
  pub unique : IsUnique a.agenda_map

module _ (sal : ℕ → ℤ) where
  pub empty-IsWellFormed : IsWellFormed sal empty
  unfolding Map.find
  empty-IsWellFormed = record {
    entries = tt;
    acts = tt;
    covered = λ h x e. cc;
    sorted = tt;
    unique = tt;
  }

  pub add-IsWellFormed :
      (act : Activation) (a : Agenda)
      → Fits sal act
      → IsWellFormed sal a
      → IsWellFormed sal (add act a)
  unfolding add
  add-IsWellFormed act a f w = record {
    entries = All-push (EntryFits sal) _ a.agenda_queue f w.entries;
    acts = All-insert _ act.hash_value act a.agenda_map (refl, f) w.acts;
    covered = λ h x e. ground (
      arith,
      find-insert act.hash_value h act a.agenda_map,
      w.covered h x,
      has-push (record { salience = act.rule.salience; hash = act.hash_value }) h a.agenda_queue,
    );
    sorted = push-IsSorted _ a.agenda_queue w.sorted;
    unique = IsUnique-insert act.hash_value act a.agenda_map w.unique;
  }

  pub add_batch-IsWellFormed :
      (acts : List Activation) (a : Agenda)
      → All (Fits sal) acts
      → IsWellFormed sal a
      → IsWellFormed sal (add_batch acts a)
  unfolding add_batch
  add_batch-IsWellFormed [] a f w = w
  add_batch-IsWellFormed (act ∷ acts) a f w =
      add_batch-IsWellFormed acts (add act a) f.1 (add-IsWellFormed act a f.0 w)

  pub remove-IsWellFormed :
      (hash : ℕ) (a : Agenda) → IsWellFormed sal a → IsWellFormed sal (remove hash a).0
  unfolding remove
  remove-IsWellFormed hash a w = elim (Option-cases (Map.find hash a.agenda_map)) [
    | inl e ↦ rw (e, remove) w
    | inr (act, e) ↦
        rw (e, remove)
          (record {
            entries = w.entries;
            acts = All-erase _ hash a.agenda_map w.acts;
            covered = λ h x f. w.covered h x (ground (arith, find-erase hash h a.agenda_map));
            sorted = w.sorted;
            unique = IsUnique-erase hash a.agenda_map w.unique;
          })
  ]

  pub remove_all-IsWellFormed :
      (hashes : List ℕ) (a : Agenda) → IsWellFormed sal a → IsWellFormed sal (remove_all hashes a)
  unfolding remove_all
  remove_all-IsWellFormed [] a w = w
  remove_all-IsWellFormed (h ∷ hs) a w =
      remove_all-IsWellFormed hs (remove h a).0 (remove-IsWellFormed h a w)

  -- The rebuilt queue: every activation of the map has an entry again.
  has-entries_of :
      (m : Map ℕ Activation) (h : ℕ) (x : Activation)
      → Map.find h m ≡ some x
      → has h (entries_of m) ≡ true
  unfolding entries_of Map.find
  has-entries_of [] h x e = cc
  has-entries_of ((k, act) ∷ m) h x e = ground (
    arith,
    has-entries_of m h x,
    has-push (record { salience = act.rule.salience; hash = k }) h (entries_of m),
  )

  entries_of-IsSorted : (m : Map ℕ Activation) → IsSorted (entries_of m)
  unfolding entries_of
  entries_of-IsSorted [] = tt
  entries_of-IsSorted ((k, act) ∷ m) = push-IsSorted _ (entries_of m) (entries_of-IsSorted m)

  All-entries_of :
      (m : Map ℕ Activation)
      → All (λ (kv : ℕ × Activation). FitsAt sal kv.0 kv.1) m
      → All (EntryFits sal) (entries_of m)
  unfolding entries_of
  All-entries_of [] a = tt
  All-entries_of ((k, act) ∷ m) a =
      All-push (EntryFits sal) _ (entries_of m) a.0.1 (All-entries_of m a.1)

  pub compact_if_needed-IsWellFormed :
      (stale : ℕ) (a : Agenda) → IsWellFormed sal a → IsWellFormed sal (compact_if_needed stale a)
  unfolding compact_if_needed
  compact_if_needed-IsWellFormed stale a w = ground (arith, w, rebuilt)
    where
      rebuilt : IsWellFormed sal (record a { agenda_queue = entries_of a.agenda_map })
      rebuilt = record {
        entries = All-entries_of a.agenda_map w.acts;
        acts = w.acts;
        covered = λ h x. has-entries_of a.agenda_map h x;
        sorted = entries_of-IsSorted a.agenda_map;
        unique = w.unique;
      }

  flush_loop-IsWellFormed :
      (now : ℕ) (ds : List DelayedActivation) (a : Agenda)
      → All (λ d. Fits sal d.activation) ds
      → IsWellFormed sal a
      → IsWellFormed sal (flush_loop now ds a)
  unfolding flush_loop
  flush_loop-IsWellFormed now [] a f w = record {
    entries = w.entries;
    acts = w.acts;
    covered = w.covered;
    sorted = w.sorted;
    unique = w.unique;
  }
  flush_loop-IsWellFormed now (d ∷ ds) a f w = elim (Bool-cases (leb d.fire_time now)) [
    | inl due ↦
        rw (due, flush_loop)
          (flush_loop-IsWellFormed now ds (add d.activation a) f.1
            (add-IsWellFormed d.activation a f.0 w))
    | inr later ↦
        rw (later, flush_loop)
          (record {
            entries = w.entries;
            acts = w.acts;
            covered = w.covered;
            sorted = w.sorted;
            unique = w.unique;
          })
  ]

  pub flush_ready_delayed-IsWellFormed :
      (now : ℕ) (a : Agenda)
      → All (λ d. Fits sal d.activation) a.delayed_activations
      → IsWellFormed sal a
      → IsWellFormed sal (flush_ready_delayed now a)
  unfolding flush_ready_delayed
  flush_ready_delayed-IsWellFormed now a f w =
      flush_loop-IsWellFormed now a.delayed_activations a f w

  flush_loop-AreFit :
      (now : ℕ) (ds : List DelayedActivation) (a : Agenda)
      → All (λ d. Fits sal d.activation) ds
      → All (λ d. Fits sal d.activation) (flush_loop now ds a).delayed_activations
  unfolding flush_loop
  flush_loop-AreFit now [] a f = tt
  flush_loop-AreFit now (d ∷ ds) a f = elim (Bool-cases (leb d.fire_time now)) [
    | inl due ↦ rw (due, flush_loop) (flush_loop-AreFit now ds (add d.activation a) f.1)
    | inr later ↦ rw (later, flush_loop) f
  ]

  -- What stays delayed after a flush fits as before.
  pub flush_ready_delayed-AreFit :
      (now : ℕ) (a : Agenda)
      → All (λ d. Fits sal d.activation) a.delayed_activations
      → All (λ d. Fits sal d.activation) (flush_ready_delayed now a).delayed_activations
  unfolding flush_ready_delayed
  flush_ready_delayed-AreFit now a f = flush_loop-AreFit now a.delayed_activations a f
