-- ===== src/Agenda/Requeue.antt =====
-- About requeue_batch_activations after pop_next_batch_activations
-- (rulesforge/include/engine/agenda.hpp).
use rules_forge.Prelude.{
  ℕ, zero, suc, ◌<◌, length, ◌≡◌, refl, true, Option, none, some, List, [], ◌∷◌, arith, Bool-cases,
  Option-cases, inl, inr, if◌then◌else◌, All, String, ◌==◌, ◌∙◌, ap, sym,
}
use rules_forge.Prelude.Int.{ℤ}
use rules_forge.Prelude.Eq.{nat_eq}
use rules_forge.Prelude.Map.{
  Map, find-insert, find-erase, All-insert, All-erase, All-find, IsUnique-insert,
}
use rules_forge.Prelude.Map
use rules_forge.Rule.{Activation}
use rules_forge.Agenda.{Agenda, Groups, PoppedActivationItem, in_focus, get_focus}
use rules_forge.Agenda.Pop.{pop_loop, pop_next_batch_activations, requeue}
use rules_forge.Agenda.Queue.{Entry, has-push, All-push, push-IsSorted}
use rules_forge.Agenda.Invariant.{Fits, FitsAt, EntryFits, IsWellFormed}
use rules_forge.Agenda.Search.{pop_loop_induction}
use rules_forge.Agenda.Batch.{
  agenda_map-compact, pop_next_batch_activations-IsWellFormed, pop_next_batch_activations_order,
}

-- The activation that the items give for a hash: the last one wins.
abbrev pub lookup_items : ℕ → List PoppedActivationItem → Option Activation
lookup_items h [] = none
lookup_items h (item ∷ items) = elim (lookup_items h items) [
  | some act ↦ some act
  | none ↦ if item.activation.hash_value == h then some item.activation else none
]

abbrev or_else : Option Activation → Option Activation → Option Activation
or_else none b = b
or_else (some x) b = some x

find-requeue :
    (items : List PoppedActivationItem) (a : Agenda) (h : ℕ)
    → Map.find h (requeue items a).agenda_map
      ≡ or_else (lookup_items h items) (Map.find h a.agenda_map)
unfolding requeue
find-requeue [] a h = refl
find-requeue (item ∷ items) a h = find-requeue items _ h ∙ split (lookup_items h items)
  where
    split :
        (o : Option Activation)
        → or_else o
            (Map.find h (Map.insert item.activation.hash_value item.activation a.agenda_map))
          ≡ or_else
              (elim o [
                | some act ↦ some act
                | none ↦ if item.activation.hash_value == h then some item.activation else none
              ])
              (Map.find h a.agenda_map)
    split none =
        ground (arith, find-insert item.activation.hash_value h item.activation a.agenda_map)
    split (some x) = refl

-- An item that was popped under a well-formed agenda.
abbrev pub ItemFits : (ℕ → ℤ) → PoppedActivationItem → Type 0
ItemFits sal item = Fits sal item.activation × (item.salience ≡ sal item.activation.hash_value)

module _ (sal : ℕ → ℤ) where
  -- Putting back items that carry their hash's salience keeps the agenda well formed.
  pub requeue-IsWellFormed :
      (items : List PoppedActivationItem) (a : Agenda)
      → All (ItemFits sal) items
      → IsWellFormed sal a
      → IsWellFormed sal (requeue items a)
  unfolding requeue
  requeue-IsWellFormed [] a f w = w
  requeue-IsWellFormed (item ∷ items) a f w = requeue-IsWellFormed items _ f.1 (record {
    entries = All-push (EntryFits sal) _ a.agenda_queue f.0.1 w.entries;
    acts =
        All-insert _ item.activation.hash_value item.activation a.agenda_map (refl, f.0.0) w.acts;
    covered = λ h x e. ground (
      arith,
      find-insert item.activation.hash_value h item.activation a.agenda_map,
      w.covered h x,
      has-push (record { salience = item.salience; hash = item.activation.hash_value }) h
          a.agenda_queue,
    );
    sorted = push-IsSorted _ a.agenda_queue w.sorted;
    unique = IsUnique-insert item.activation.hash_value item.activation a.agenda_map w.unique;
  })

  module _ (focus : String) where
    pop_loop_conserves :
        (room : ℕ) (q : List Entry) (m : Map ℕ Activation) (g : Groups) (h : ℕ)
        → All (λ (kv : ℕ × Activation). FitsAt sal kv.0 kv.1) m
        → or_else
            (lookup_items h (pop_loop focus room q m g).out)
            (Map.find h (pop_loop focus room q m g).agenda_map)
          ≡ Map.find h m
    pop_loop_conserves =
        pop_loop_induction focus
          (λ room q m p.
            (h : ℕ)
            → All (λ (kv : ℕ × Activation). FitsAt sal kv.0 kv.1) m
            → or_else (lookup_items h p.out) (Map.find h p.agenda_map) ≡ Map.find h m)
          (λ room m g h a. unfold pop_loop in refl) (λ e q m g h a. unfold pop_loop in refl)
          (λ room e q m g n ih h a. ih h a)
          (λ room e q m g act n t ih h a.
            let fits = All-find (FitsAt sal) e.hash act m a n in
            taken_case (lookup_items h (pop_loop focus room q (Map.erase e.hash m) g).out) _ e.hash
              m act h fits.0 n (ih h (All-erase _ e.hash m a)))
          (λ room e q m g act n t ih h a. ih h a)
      where
        taken_case :
            (o found : Option Activation) (k : ℕ) (m : Map ℕ Activation) (act : Activation) (h : ℕ)
            → act.hash_value ≡ k
            → Map.find k m ≡ some act
            → or_else o found ≡ Map.find h (Map.erase k m)
            → or_else
                (elim o [ some x ↦ some x | none ↦ if act.hash_value == h then some act else none ])
                found
              ≡ Map.find h m
        taken_case none found k m act h e n r = elim (Bool-cases (act.hash_value == h)) [
          | inl t ↦ ground (arith, find-erase k h m)
          | inr t ↦ ground (arith, find-erase k h m)
        ]
        taken_case (some x) found k m act h e n r = ground (arith, find-erase k h m)

    pop_loop-ItemFits :
        (room : ℕ) (q : List Entry) (m : Map ℕ Activation) (g : Groups)
        → All (EntryFits sal) q
        → All (λ (kv : ℕ × Activation). FitsAt sal kv.0 kv.1) m
        → All (ItemFits sal) (pop_loop focus room q m g).out
    pop_loop-ItemFits =
        pop_loop_induction focus
          (λ room q m p.
            All (EntryFits sal) q
            → All (λ (kv : ℕ × Activation). FitsAt sal kv.0 kv.1) m
            → All (ItemFits sal) p.out)
          (λ room m g f a. unfold pop_loop in tt) (λ e q m g f a. unfold pop_loop in tt)
          (λ room e q m g n ih f a. ih f.1 a)
          (λ room e q m g act n t ih f a.
            let fits = All-find (FitsAt sal) e.hash act m a n in
            (
              (fits.1 ∙ ap sal (sym fits.0), f.0 ∙ ap sal (sym fits.0)),
              ih f.1 (All-erase _ e.hash m a),
            ))
          (λ room e q m g act n t ih f a. ih f.1 a)

  -- The items of a batch carry the salience of their hash, as requeue needs it.
  pub pop_next_batch_activations-ItemFits :
      (max_items : ℕ) (a : Agenda)
      → IsWellFormed sal a
      → All (ItemFits sal) (pop_next_batch_activations max_items a).1
  unfolding pop_next_batch_activations
  pop_next_batch_activations-ItemFits zero a w = tt
  pop_next_batch_activations-ItemFits (suc n) a w =
      pop_loop-ItemFits (get_focus a) (suc n) a.agenda_queue a.agenda_map a.activation_group_map
        w.entries w.acts

  batch_conserves :
      (max_items : ℕ) (a : Agenda) (h : ℕ)
      → IsWellFormed sal a
      → or_else
          (lookup_items h (pop_next_batch_activations max_items a).1)
          (Map.find h (pop_next_batch_activations max_items a).0.agenda_map)
        ≡ Map.find h a.agenda_map
  unfolding pop_next_batch_activations
  batch_conserves zero a h w = refl
  batch_conserves (suc n) a h w = rw agenda_map-compact (
      pop_loop_conserves (get_focus a) (suc n) a.agenda_queue a.agenda_map a.activation_group_map h
        w.acts)

  -- A batch that is popped from a well-formed agenda and put back whole leaves every hash with the
  -- activation that it had, and the agenda well formed.
  pub requeue-pop_next_batch_activations :
      (max_items : ℕ) (a : Agenda)
      → IsWellFormed sal a
      → ((h : ℕ)
          → Map.find h
              (requeue
                (pop_next_batch_activations max_items a).1
                (pop_next_batch_activations max_items a).0).agenda_map
            ≡ Map.find h a.agenda_map)
        × IsWellFormed sal (
            requeue
              (pop_next_batch_activations max_items a).1
              (pop_next_batch_activations max_items a).0)
  requeue-pop_next_batch_activations n a w = (
    λ h. find-requeue _ _ h ∙ batch_conserves n a h w,
    requeue-IsWellFormed _ _ (pop_next_batch_activations-ItemFits n a w)
        (pop_next_batch_activations-IsWellFormed sal n a w),
  )

  -- A batch with room left holds every live activation of the focus group, so also all those of
  -- one activation group together.
  pub batch_takes_all :
      (max_items : ℕ) (a : Agenda) (h : ℕ) (x : Activation)
      → IsWellFormed sal a
      → length (pop_next_batch_activations max_items a).1 < max_items
      → Map.find h a.agenda_map ≡ some x
      → in_focus (get_focus a) x.rule ≡ true
      → lookup_items h (pop_next_batch_activations max_items a).1 ≡ some x
  batch_takes_all n a h x w room live t =
      elim (Option-cases (lookup_items h (pop_next_batch_activations n a).1)) [
        | inr (y, e) ↦ e ∙ ground (arith, batch_conserves n a h w)
        | inl e ↦
            let stays : Map.find h (pop_next_batch_activations n a).0.agenda_map ≡ some x =
              ground (arith, batch_conserves n a h w) in
            absurd (omega (arith, ((pop_next_batch_activations_order sal n a w).3 h x stays t).0))
      ]
