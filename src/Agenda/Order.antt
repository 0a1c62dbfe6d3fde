-- ===== src/Agenda/Order.antt =====
-- About the order of the activations that the loop of
-- pop_next_batch_activations takes (rulesforge/include/engine/agenda.hpp).
use rules_forge.Prelude.{
  ℕ, suc, ◌≡◌, refl, true, none, some, List, [], ◌∷◌, arith, ◌==◌, Bool-cases, Option-cases, inl,
  inr, All, String, length, All-map, sym,
}
use mathlib.Core.Path.{subst}
use rules_forge.Prelude.Int.{ℤ, ◌≤ℤ◌}
use rules_forge.Prelude.Eq.{nat_eq}
use rules_forge.Prelude.Map.{Map, find-insert, find-erase, All-insert, All-erase, All-find}
use rules_forge.Prelude.Map
use rules_forge.Rule.{Activation}
use rules_forge.Agenda.{Groups, PoppedActivationItem, in_focus}
use rules_forge.Agenda.Pop.{pop_loop}
use rules_forge.Agenda.Queue.{Entry, has, IsSorted}
use rules_forge.Agenda.Invariant.{FitsAt, EntryFits}
use rules_forge.Agenda.Search.{pop_loop_induction, pop_loop-kept}

abbrev ItemLe : ℤ → PoppedActivationItem → Type 0
ItemLe s item = item.salience ≤ℤ s

-- Items from the highest salience down.
abbrev pub IsDescending : List PoppedActivationItem → Type 0
IsDescending [] = Unit {0}
IsDescending (item ∷ items) = All (ItemLe item.salience) items × IsDescending items

-- A taken item: live before in the map, of the focus group, and no longer in the map after.
abbrev pub IsTaken : String → Map ℕ Activation → Map ℕ Activation → PoppedActivationItem → Type 0
IsTaken focus before after item =
    (Map.find item.activation.hash_value before ≡ some item.activation)
    × (in_focus focus item.activation.rule ≡ true)
    × (Map.find item.activation.hash_value after ≡ none)

module _ (sal : ℕ → ℤ) where
  -- An entry that is in the queue is not above its head.
  pub has-le :
      (e : Entry) (q : List Entry) (h : ℕ)
      → All (EntryFits sal) q
      → All (λ x. x.salience ≤ℤ e.salience) q
      → has h q ≡ true
      → sal h ≤ℤ e.salience
  unfolding has
  has-le e [] h f s c = cc
  has-le e (x ∷ q) h f s c = elim (Bool-cases (x.hash == h)) [
    | inl t ↦ let eq : x.hash ≡ h = ground arith in rw (← eq) (rw (← f.0) s.0)
    | inr t ↦ has-le e q h f.1 s.1 (ground arith)
  ]

  module _ (focus : String) where
    -- What stays behind in focus stays because the batch is full, and is not above a taken item.
    pub pop_loop_complete :
        (room : ℕ) (q : List Entry) (m : Map ℕ Activation) (g : Groups) (h : ℕ) (x : Activation)
        → All (EntryFits sal) q
        → IsSorted q
        → Map.find h (pop_loop focus room q m g).agenda_map ≡ some x
        → in_focus focus x.rule ≡ true
        → has h q ≡ true
        → (length (pop_loop focus room q m g).out ≡ room)
          × All (λ item. sal h ≤ℤ item.salience) (pop_loop focus room q m g).out
    unfolding has
    pop_loop_complete =
        pop_loop_induction focus
          (λ room q m p.
            (h : ℕ) (x : Activation)
            → All (EntryFits sal) q
            → IsSorted q
            → Map.find h p.agenda_map ≡ some x
            → in_focus focus x.rule ≡ true
            → has h q ≡ true
            → (length p.out ≡ room) × All (λ item. sal h ≤ℤ item.salience) p.out)
          (λ room m g h x f s k t c. cc) (λ e q m g h x f s k t c. unfold pop_loop in (refl, tt))
          (λ room e q m g n ih h x f s k t c.
            let other : has h q ≡ true =
              ground (arith, pop_loop-kept focus (suc room) q m g h x k) in
            ih h x f.1 s.1 k t other)
          (λ room e q m g act n t' ih h x f s k t c.
            let gone : Map.find h (Map.erase e.hash m) ≡ some x =
              pop_loop-kept focus room q (Map.erase e.hash m) g h x k in
            let other : has h q ≡ true = ground (arith, gone, find-erase e.hash h m) in
            let r = ih h x f.1 s.1 k t other in
            (omega (arith, r.0), (has-le e q h f.1 s.0 other, r.1)))
          (λ room e q m g act n t' ih h x f s k t c.
            let other : has h q ≡ true =
              ground (arith, pop_loop-kept focus (suc room) q m g h x k) in
            ih h x f.1 s.1 k t other)

    pop_loop_below :
        (room : ℕ) (q : List Entry) (m : Map ℕ Activation) (g : Groups) (s : ℤ)
        → All (λ x. x.salience ≤ℤ s) q
        → All (ItemLe s) (pop_loop focus room q m g).out
    pop_loop_below =
        pop_loop_induction focus
          (λ room q m p. (s : ℤ) → All (λ x. x.salience ≤ℤ s) q → All (ItemLe s) p.out)
          (λ room m g s a. unfold pop_loop in tt) (λ e q m g s a. unfold pop_loop in tt)
          (λ room e q m g n ih s a. ih s a.1) (λ room e q m g act n t ih s a. (a.0, ih s a.1))
          (λ room e q m g act n t ih s a. ih s a.1)

    pub pop_loop-IsDescending :
        (room : ℕ) (q : List Entry) (m : Map ℕ Activation) (g : Groups)
        → IsSorted q
        → IsDescending (pop_loop focus room q m g).out
    pop_loop-IsDescending =
        pop_loop_induction focus (λ room q m p. IsSorted q → IsDescending p.out)
          (λ room m g s. unfold pop_loop in tt) (λ e q m g s. unfold pop_loop in tt)
          (λ room e q m g n ih s. ih s.1)
          (λ room e q m g act n t ih s.
            (pop_loop_below room q (Map.erase e.hash m) g e.salience s.0, ih s.1))
          (λ room e q m g act n t ih s. ih s.1)

    -- Every taken item was live, is in focus and has left the map.
    pub pop_loop-IsTaken :
        (room : ℕ) (q : List Entry) (m : Map ℕ Activation) (g : Groups)
        → All (λ (kv : ℕ × Activation). FitsAt sal kv.0 kv.1) m
        → All
            (IsTaken focus m (pop_loop focus room q m g).agenda_map)
            (pop_loop focus room q m g).out
    pop_loop-IsTaken =
        pop_loop_induction focus
          (λ room q m p.
            All (λ (kv : ℕ × Activation). FitsAt sal kv.0 kv.1) m
            → All (IsTaken focus m p.agenda_map) p.out)
          (λ room m g a. unfold pop_loop in tt) (λ e q m g a. unfold pop_loop in tt)
          (λ room e q m g n ih a. ih a)
          (λ room e q m g act n t ih a.
            let fits = All-find (FitsAt sal) e.hash act m a n in
            (
              (
                subst (λ j. Map.find j m ≡ some act) (sym fits.0) n,
                t,
                subst
                    (λ j.
                      Map.find j (pop_loop focus room q (Map.erase e.hash m) g).agenda_map ≡ none)
                    (sym fits.0) (gone room q m g e.hash),
              ),
              All-map _ _
                  (λ item d.
                    (ground (arith, d.0, find-erase e.hash item.activation.hash_value m), d.1, d.2))
                  _ (ih (All-erase _ e.hash m a)),
            ))
          (λ room e q m g act n t ih a. ih a)
      where
        gone :
            (room : ℕ) (q : List Entry) (m : Map ℕ Activation) (g : Groups) (h : ℕ)
            → Map.find h (pop_loop focus room q (Map.erase h m) g).agenda_map ≡ none
        gone room q m g h =
            elim (Option-cases (Map.find h (pop_loop focus room q (Map.erase h m) g).agenda_map)) [
              | inl e ↦ e
              | inr (x, e) ↦
                  ground
                    (arith, pop_loop-kept focus room q (Map.erase h m) g h x e, find-erase h h m)
            ]
