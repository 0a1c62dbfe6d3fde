-- ===== src/Agenda/Next.antt =====
-- About pop_next of rulesforge/include/engine/agenda.hpp.
use mathlib.Core.Path.{subst}
use rules_forge.Prelude.{
  ℕ, ◌≡◌, refl, true, false, Option, none, some, List, [], ◌∷◌, arith, Bool-cases, Option-cases,
  inl, inr, All, String, ◌==◌, sym, ap,
}
use rules_forge.Prelude.Int.{ℤ, ◌≤ℤ◌, int_laws}
use rules_forge.Prelude.Eq.{nat_eq}
use rules_forge.Prelude.Map.{Map, find-erase, All-erase, All-find}
use rules_forge.Prelude.Map
use rules_forge.Rule.{Activation}
use rules_forge.Agenda.{Agenda, in_focus, get_focus}
use rules_forge.Agenda.Pop.{next_loop, pop_next}
use rules_forge.Agenda.Queue.{Entry, has, IsSorted}
use rules_forge.Agenda.Invariant.{FitsAt, EntryFits, IsWellFormed}
use rules_forge.Agenda.Order.{has-le}
use rules_forge.Agenda.Batch.{agenda_map-compact}

-- What the search found, under the map before it.
abbrev pub IsNext : String → Map ℕ Activation → Map ℕ Activation → Option Activation → Type 0
IsNext focus before after none =
    (after ≡ before)
    × ((h : ℕ) (x : Activation) → Map.find h before ≡ some x → in_focus focus x.rule ≡ false)
IsNext focus before after (some act) =
    (after ≡ Map.erase act.hash_value before)
    × (Map.find act.hash_value before ≡ some act)
    × (in_focus focus act.rule ≡ true)
    × ((h : ℕ) (x : Activation)
        → Map.find h before ≡ some x
        → in_focus focus x.rule ≡ true
        → x.rule.salience ≤ℤ act.rule.salience)

module _ (sal : ℕ → ℤ) (focus : String) (m : Map ℕ Activation)
    (acts : All (λ (kv : ℕ × Activation). FitsAt sal kv.0 kv.1) m) where
  -- What the search found, over the activations that have an entry in `q`.
  abbrev Partial : List Entry → Map ℕ Activation → Option Activation → Type 0
  Partial q after none =
      (after ≡ m)
      × ((h : ℕ) (x : Activation)
          → Map.find h m ≡ some x
          → has h q ≡ true
          → in_focus focus x.rule ≡ false)
  Partial q after (some act) =
      (after ≡ Map.erase act.hash_value m)
      × (Map.find act.hash_value m ≡ some act)
      × (in_focus focus act.rule ≡ true)
      × ((h : ℕ) (x : Activation)
          → Map.find h m ≡ some x
          → has h q ≡ true
          → in_focus focus x.rule ≡ true
          → x.rule.salience ≤ℤ act.rule.salience)

  -- An entry whose hash is not live in focus does not count.
  Partial-skip :
      (e : Entry) (q : List Entry) (after : Map ℕ Activation) (o : Option Activation)
      → ((x : Activation) → Map.find e.hash m ≡ some x → in_focus focus x.rule ≡ false)
      → Partial q after o
      → Partial (e ∷ q) after o
  unfolding has
  Partial-skip e q after none skip p = (
    p.0,
    λ h x k c. elim (Bool-cases (e.hash == h)) [
      | inl t ↦ skip x (subst (λ j. Map.find j m ≡ some x) (ground arith) k)
      | inr t ↦ p.1 h x k (ground arith)
    ],
  )
  Partial-skip e q after (some act) skip p = (
    p.0,
    p.1,
    p.2,
    λ h x k c t. elim (Bool-cases (e.hash == h)) [
      | inl s ↦ absurd (cc (skip x (subst (λ j. Map.find j m ≡ some x) (ground arith) k)))
      | inr s ↦ p.3 h x k (ground arith) t
    ],
  )

  next_loop-Partial :
      (q : List Entry)
      → All (EntryFits sal) q
      → IsSorted q
      → Partial q (next_loop focus q m).agenda_map (next_loop focus q m).out
  unfolding next_loop has
  next_loop-Partial [] f s = (refl, λ h x k c. cc)
  next_loop-Partial (e ∷ q) f s = elim (Option-cases (Map.find e.hash m)) [
    | inl n ↦ rw (n, next_loop) (Partial-skip e q _ _ (λ x k. cc) (next_loop-Partial q f.1 s.1))
    | inr (act, n) ↦ elim (Bool-cases (in_focus focus act.rule)) [
      | inl t ↦ rw (n, t, next_loop) (first act n t (All-find (FitsAt sal) e.hash act m acts n))
      | inr t ↦
          rw (n, t, next_loop)
            (Partial-skip e q _ _ (λ x k. ground arith) (next_loop-Partial q f.1 s.1))
    ]
  ]
    where
      first :
          (act : Activation)
          → Map.find e.hash m ≡ some act
          → in_focus focus act.rule ≡ true
          → FitsAt sal e.hash act
          → Partial (e ∷ q) (Map.erase e.hash m) (some act)
      first act n t fits = (
        ap (λ j. Map.erase j m) (sym fits.0),
        subst (λ j. Map.find j m ≡ some act) (sym fits.0) n,
        t,
        λ h x k c t'.
            rw (fits.1, (All-find (FitsAt sal) h x m acts k).1, ← f.0)
              (has-le sal e (e ∷ q) h f (omega int_laws, s.0) c),
      )

module _ (sal : ℕ → ℤ) where
  -- From a well-formed agenda pop_next returns a live activation of the focus group, removes just
  -- it from the map, and none of the focus group has a higher salience; it returns nothing exactly
  -- when no live activation is in focus, and then the map stays as it was.
  pub pop_next-IsNext :
      (a : Agenda)
      → IsWellFormed sal a
      → IsNext (get_focus a) a.agenda_map (pop_next a).0.agenda_map (pop_next a).1
  unfolding pop_next
  pop_next-IsNext a w = rw agenda_map-compact (
      all (next_loop (get_focus a) a.agenda_queue a.agenda_map).out _
        (next_loop-Partial sal (get_focus a) a.agenda_map w.acts a.agenda_queue w.entries w.sorted))
    where
      all :
          (o : Option Activation) (after : Map ℕ Activation)
          → Partial sal (get_focus a) a.agenda_map w.acts a.agenda_queue after o
          → IsNext (get_focus a) a.agenda_map after o
      all none after p = (p.0, λ h x k. p.1 h x k (w.covered h x k))
      all (some act) after p = (p.0, p.1, p.2, λ h x k t. p.3 h x k (w.covered h x k) t)
