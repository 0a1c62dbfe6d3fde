-- ===== src/Agenda/Search.antt =====
-- About the loop of pop_next_batch_activations in rulesforge/include/engine/agenda.hpp.
use rules_forge.Prelude.{
  ℕ, zero, suc, ◌+◌, ◌≤◌, ◌≡◌, ◌⊎◌, true, false, none, some, List, [], ◌∷◌, arith, Bool-cases,
  Option-cases, inl, inr, All, String, length,
}
use rules_forge.Prelude.Eq.{nat_eq}
use rules_forge.Prelude.Map.{Map, find-insert, find-erase, All-insert, All-erase, All-find}
use rules_forge.Prelude.Map
use rules_forge.Rule.{Activation}
use rules_forge.Agenda.{Groups, in_focus}
use rules_forge.Agenda.Pop.{Popped, pop_loop}
use rules_forge.Agenda.Queue.{Entry, has, IsSorted}

-- The three ways in which one entry changes the result of the rest.
abbrev skip_stale : Popped → Popped
skip_stale p = record p { stale_skipped = p.stale_skipped + 1 }

abbrev take_item : Entry → Activation → Popped → Popped
take_item e act p = record p { out = record { salience = e.salience; activation = act } ∷ p.out }

abbrev defer : Entry → Popped → Popped
defer e p = record p { deferred = e ∷ p.deferred }

-- One rule for every fact about the loop that follows its four branches: `Q` relates the arguments
-- and the result.
module _ {ℓ} (focus : String) (Q : ℕ → List Entry → Map ℕ Activation → Popped → Type ℓ)
    (at_end : (room : ℕ) (m : Map ℕ Activation) (g : Groups)
      → Q room [] m (pop_loop focus room [] m g))
    (full : (e : Entry) (q : List Entry) (m : Map ℕ Activation) (g : Groups)
      → Q zero (e ∷ q) m (pop_loop focus zero (e ∷ q) m g))
    (stale : (room : ℕ) (e : Entry) (q : List Entry) (m : Map ℕ Activation) (g : Groups)
      → Map.find e.hash m ≡ none
      → Q (suc room) q m (pop_loop focus (suc room) q m g)
      → Q (suc room) (e ∷ q) m (skip_stale (pop_loop focus (suc room) q m g)))
    (taken : (room : ℕ) (e : Entry) (q : List Entry) (m : Map ℕ Activation) (g : Groups)
        (act : Activation)
      → Map.find e.hash m ≡ some act
      → in_focus focus act.rule ≡ true
      → Q room q (Map.erase e.hash m) (pop_loop focus room q (Map.erase e.hash m) g)
      → Q (suc room) (e ∷ q) m (take_item e act (pop_loop focus room q (Map.erase e.hash m) g)))
    (deferred : (room : ℕ) (e : Entry) (q : List Entry) (m : Map ℕ Activation) (g : Groups)
        (act : Activation)
      → Map.find e.hash m ≡ some act
      → in_focus focus act.rule ≡ false
      → Q (suc room) q m (pop_loop focus (suc room) q m g)
      → Q (suc room) (e ∷ q) m (defer e (pop_loop focus (suc room) q m g))) where
  pub pop_loop_induction :
      (room : ℕ) (q : List Entry) (m : Map ℕ Activation) (g : Groups)
      → Q room q m (pop_loop focus room q m g)
  unfolding pop_loop
  pop_loop_induction room [] m g = at_end room m g
  pop_loop_induction zero (e ∷ q) m g = full e q m g
  pop_loop_induction (suc room) (e ∷ q) m g = elim (Option-cases (Map.find e.hash m)) [
    | inl f ↦ rw (f, pop_loop) (stale room e q m g f (pop_loop_induction (suc room) q m g))
    | inr (act, f) ↦ elim (Bool-cases (in_focus focus act.rule)) [
      | inl t ↦ rw (f, t, pop_loop) (taken room e q m _ act f t (pop_loop_induction room q _ _))
      | inr t ↦
          rw (f, t, pop_loop) (deferred room e q m g act f t (pop_loop_induction (suc room) q m g))
    ]
  ]

module _ (focus : String) where
  -- No more than `room` activations are taken.
  pub pop_loop-length :
      (room : ℕ) (q : List Entry) (m : Map ℕ Activation) (g : Groups)
      → length (pop_loop focus room q m g).out ≤ room
  pop_loop-length =
      pop_loop_induction focus (λ room q m p. length p.out ≤ room)
        (λ room m g. unfold pop_loop in omega arith) (λ e q m g. unfold pop_loop in omega arith)
        (λ room e q m g f ih. ih) (λ room e q m g act f t ih. omega arith)
        (λ room e q m g act f t ih. ih)

  -- What is left was there.
  pub pop_loop-kept :
      (room : ℕ) (q : List Entry) (m : Map ℕ Activation) (g : Groups) (h : ℕ) (x : Activation)
      → Map.find h (pop_loop focus room q m g).agenda_map ≡ some x
      → Map.find h m ≡ some x
  pop_loop-kept =
      pop_loop_induction focus
        (λ room q m p.
          (h : ℕ) (x : Activation) → Map.find h p.agenda_map ≡ some x → Map.find h m ≡ some x)
        (λ room m g h x k. unfold pop_loop in k) (λ e q m g h x k. unfold pop_loop in k)
        (λ room e q m g f ih. ih)
        (λ room e q m g act f t ih h x k. ground (arith, ih h x, find-erase e.hash h m))
        (λ room e q m g act f t ih. ih)

  -- Every entry of the queue that is put back or left satisfies what all entries satisfied.
  pub pop_loop-entries {ℓ} :
      (P : Entry → Type ℓ) (room : ℕ) (q : List Entry) (m : Map ℕ Activation) (g : Groups)
      → All P q
      → All P (pop_loop focus room q m g).deferred × All P (pop_loop focus room q m g).rest
  pop_loop-entries P =
      pop_loop_induction focus (λ room q m p. All P q → All P p.deferred × All P p.rest)
        (λ room m g a. unfold pop_loop in (tt, tt)) (λ e q m g a. unfold pop_loop in (tt, a))
        (λ room e q m g f ih a. ih a.1) (λ room e q m g act f t ih a. ih a.1)
        (λ room e q m g act f t ih a. ((a.0, (ih a.1).0), (ih a.1).1))

  pub pop_loop-IsSorted :
      (room : ℕ) (q : List Entry) (m : Map ℕ Activation) (g : Groups)
      → IsSorted q
      → IsSorted (pop_loop focus room q m g).rest
  pop_loop-IsSorted =
      pop_loop_induction focus (λ room q m p. IsSorted q → IsSorted p.rest)
        (λ room m g a. unfold pop_loop in tt) (λ e q m g a. unfold pop_loop in a)
        (λ room e q m g f ih a. ih a.1) (λ room e q m g act f t ih a. ih a.1)
        (λ room e q m g act f t ih a. ih a.1)

  -- An activation that stays in the map keeps an entry.
  pub pop_loop-covered :
      (room : ℕ) (q : List Entry) (m : Map ℕ Activation) (g : Groups) (h : ℕ) (x : Activation)
      → Map.find h (pop_loop focus room q m g).agenda_map ≡ some x
      → has h q ≡ true
      → (has h (pop_loop focus room q m g).deferred ≡ true)
        ⊎ (has h (pop_loop focus room q m g).rest ≡ true)
  unfolding has
  pop_loop-covered =
      pop_loop_induction focus
        (λ room q m p.
          (h : ℕ) (x : Activation)
          → Map.find h p.agenda_map ≡ some x
          → has h q ≡ true
          → (has h p.deferred ≡ true) ⊎ (has h p.rest ≡ true))
        (λ room m g h x k c. unfold pop_loop in inr c) (λ e q m g h x k c. unfold pop_loop in inr c)
        (λ room e q m g f ih h x k c.
          ground (arith, ih h x k, pop_loop-kept (suc room) q m g h x k))
        (λ room e q m g act f t ih h x k c. ground (
          arith,
          ih h x k,
          pop_loop-kept room q (Map.erase e.hash m) g h x k,
          find-erase e.hash h m,
        ))
        (λ room e q m g act f t ih h x k c. ground (arith, ih h x k))
