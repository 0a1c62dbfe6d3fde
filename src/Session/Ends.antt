-- ===== src/Session/Ends.antt =====
-- About the end of the firing loop (rulesforge/src/engine/stateful_session.cpp,
-- fire_all_rules_impl).
use rules_forge.Prelude.{
  ℕ, zero, suc, ◌≤◌, ◌<◌, ◌+◌, ◌-◌, ◌≡◌, refl, ◌⊎◌, inl, inr, Bool, true, false, List, [], ◌∷◌,
  arith, Bool-cases, length, ◌∙◌,
}
use rules_forge.Prelude.Eq.{nat_eq}
use rules_forge.Prelude.Int.{ℤ, pos}
use rules_forge.Agenda.{PoppedActivationItem, flush_ready_delayed}
use rules_forge.Agenda.Pop.{pop_next_batch_activations, requeue}
use rules_forge.Session.Waiting.{waiting, flush-waiting, pop-waiting}
use rules_forge.Session.{
  FireOps, Firing, Turn, again, ends, escapes, is_activation_valid, fire_activation, is_full,
  is_over, budget, fire_batch, close, fire_items, pop_and_fire, with_agenda, turn, turns,
}

module _ (F : FireOps) where
  -- Nothing fired and the loop over the batch goes on: the firing is as it was.
  abbrev Progress : ℤ → Firing F → Firing F → Type 0
  Progress limit before f =
      (before.total_fired_count < f.total_fired_count)
      ⊎ ((f.total_fired_count ≡ before.total_fired_count)
          × ((is_over F limit f ≡ true) ⊎ (f ≡ before)))

  requeued :
      (limit : ℤ) (items : List PoppedActivationItem) (f : Firing F)
      → is_over F limit f ≡ true
      → is_over F limit
          (record f { live = record (f.live) { agenda = requeue items f.live.agenda } })
        ≡ true
  unfolding is_over
  requeued limit items f o = o

  at_least :
      (limit : ℤ) (before f : Firing F)
      → Progress limit before f
      → before.total_fired_count ≤ f.total_fired_count
  at_least limit before f (inl p) = omega (arith, p)
  at_least limit before f (inr (p, q)) = omega (arith, p)

  fire_batch-Progress :
      (limit : ℤ) (items : List PoppedActivationItem) (f : Firing F)
      → Progress limit f (fire_batch F limit items f).0
  unfolding fire_batch
  fire_batch-Progress limit [] f = inr (refl, inr refl)
  fire_batch-Progress limit (item ∷ items) f = elim (Bool-cases (is_over F limit f)) [
    | inl o ↦ rw (o, fire_batch) (inr (refl, inl (requeued limit (item ∷ items) f o)))
    | inr o ↦ elim (Bool-cases (is_activation_valid F item.activation f.live.world)) [
      | inr v ↦ rw (o, v, fire_batch) (fire_batch-Progress limit items f)
      | inl v ↦ elim (Bool-cases (fire_activation F item.activation f.live).1) [
        | inr r ↦ rw (o, v, r, fire_batch) (inl (omega arith))
        | inl r ↦
            rw (o, v, r, fire_batch)
              (inl (
                omega (
                  arith,
                  at_least limit _ _ (
                      fire_batch-Progress limit items (record {
                        live = (fire_activation F item.activation f.live).0;
                        total_fired_count = f.total_fired_count + 1;
                      })),
                )))
      ]
    ]
  ]

  -- A turn that goes on fired a rule, or left fewer activations waiting.
  abbrev Smaller : Firing F → Firing F → Type 0
  Smaller before f =
      (before.total_fired_count < f.total_fired_count)
      ⊎ ((f.total_fired_count ≡ before.total_fired_count)
          × (waiting f.live.agenda < waiting before.live.agenda))

  abbrev Goes : ℤ → Firing F → Turn F → Type 0
  Goes limit before (again f) =
      (is_full F limit before.total_fired_count ≡ false) × Smaller before f
  Goes limit before (ends f) = Unit
  Goes limit before (escapes f) = Unit

  close-Goes :
      (limit : ℤ) (before popped : Firing F) (r : Firing F × Bool)
      → is_full F limit before.total_fired_count ≡ false
      → popped.total_fired_count ≡ before.total_fired_count
      → waiting popped.live.agenda < waiting before.live.agenda
      → Progress limit popped r.0
      → Goes limit before (close F limit r)
  unfolding close
  close-Goes limit before popped (f, false) n e w p = tt
  close-Goes limit before popped (f, true) n e w p = elim (Bool-cases (is_over F limit f)) [
    | inl o ↦ rw (o, close) tt
    | inr o ↦
        rw (o, close)
          (
            n,
            elim p [
              | inl q ↦ inl (omega (arith, q, e))
              | inr (q, inl x) ↦ absurd (ground (arith, x, o))
              | inr (q, inr x) ↦ inr (q ∙ e, rw x w)
            ],
          )
  ]

  fire_items-Goes :
      (limit : ℤ) (before popped : Firing F) (items : List PoppedActivationItem)
      → is_full F limit before.total_fired_count ≡ false
      → popped.total_fired_count ≡ before.total_fired_count
      → length items + waiting popped.live.agenda ≤ waiting before.live.agenda
      → Goes limit before (fire_items F limit items popped)
  unfolding fire_items
  fire_items-Goes limit before popped [] n e w = tt
  fire_items-Goes limit before popped (item ∷ items) n e w =
      close-Goes limit before popped _ n e (omega (arith, w))
        (fire_batch-Progress limit (item ∷ items) popped)

  turn-Goes : (limit : ℤ) (now : ℕ) (f : Firing F) → Goes limit f (turn F limit now f)
  unfolding turn pop_and_fire is_over
  turn-Goes limit now f =
      let a = flush_ready_delayed now f.live.agenda in
      let f' = with_agenda F a f in
      let room = budget F limit f.total_fired_count in
      let popped = pop_next_batch_activations room a in
      let fewer : length popped.1 + waiting popped.0 ≤ waiting f.live.agenda =
        omega (arith, flush-waiting now f.live.agenda, pop-waiting room a) in
      elim (Bool-cases (is_over F limit f')) [
        | inl o ↦ rw (o, turn) tt
        | inr o ↦
            rw (o, turn)
              (fire_items-Goes limit f (with_agenda F popped.0 f') popped.1 (ground (arith, o)) refl
                fewer)
      ]

  unfoldable pub is_again : Turn F → Bool
  is_again (again f) = true
  is_again (ends f) = false
  is_again (escapes f) = false

  -- The first n readings of the clock.
  unfoldable pub readings : (ℕ → ℕ) → ℕ → List ℕ
  readings clock zero = []
  readings clock (suc n) = clock 0 ∷ readings (λ i. clock (suc i)) n

  abbrev Stops : ℕ → (ℕ → ℕ) → Firing F → Type 0
  Stops limit clock f = (n : ℕ) × (is_again (turns F (pos limit) (readings clock n) f) ≡ false)

  open_at : (limit fired : ℕ) → is_full F (pos limit) fired ≡ false → fired < limit
  unfolding is_full
  open_at limit fired o = ground (arith, o)

  after_turn :
      (limit : ℕ) (clock : ℕ → ℕ) (f : Firing F)
      → ((g : Firing F)
          → f.total_fired_count < limit
          → Smaller f g
          → Stops limit (λ i. clock (suc i)) g)
      → Stops limit clock f
  unfolding turns readings is_again
  after_turn limit clock f next =
      let (n, q) = split (turn F (pos limit) (clock 0) f) (turn-Goes (pos limit) (clock 0) f) in
      (suc n, q)
    where
      split :
          (t : Turn F)
          → Goes (pos limit) f t
          → (n : ℕ) × (is_again (elim t [
            | again f' ↦ turns F (pos limit) (readings (λ i. clock (suc i)) n) f'
            | ends f' ↦ ends f'
            | escapes f' ↦ escapes f'
          ])
              ≡ false)
      split (again g) (o, s) = next g (open_at limit f.total_fired_count o) s
      split (ends g) s = (0, refl)
      split (escapes g) s = (0, refl)

  turns-Stops :
      (limit room size : ℕ) (clock : ℕ → ℕ) (f : Firing F)
      → limit - f.total_fired_count ≤ room
      → waiting f.live.agenda ≤ size
      → Stops limit clock f
  turns-Stops limit zero size clock f r s =
      after_turn limit clock f (λ g o x. absurd (omega (arith, r, o)))
  turns-Stops limit (suc room) zero clock f r s = after_turn limit clock f λ g o x. elim x [
    | inl fired ↦
        turns-Stops limit room (waiting g.live.agenda) _ g (omega (arith, fired, r, o))
          (omega arith)
    | inr (same, fewer) ↦ absurd (omega (arith, fewer, s))
  ]
  turns-Stops limit (suc room) (suc size) clock f r s = after_turn limit clock f λ g o x. elim x [
    | inl fired ↦
        turns-Stops limit room (waiting g.live.agenda) _ g (omega (arith, fired, r, o))
          (omega arith)
    | inr (same, fewer) ↦
        turns-Stops limit (suc room) size _ g (omega (arith, same, r)) (omega (arith, fewer, s))
  ]

  -- With a limit on the rules to fire, the loop ends: whatever the clock reads, and whatever the
  -- right-hand sides do to the agenda, after some number of turns it does not go on.
  pub turns_terminate :
      (limit : ℕ) (clock : ℕ → ℕ) (f : Firing F)
      → (n : ℕ) × (is_again (turns F (pos limit) (readings clock n) f) ≡ false)
  turns_terminate limit clock f =
      turns-Stops limit (limit - f.total_fired_count) (waiting f.live.agenda) clock f (omega arith)
        (omega arith)
