-- ===== src/Rete/Condition/View.antt =====
-- About what the children of a BetaConditionNode hold after a history of calls
-- (rulesforge/src/rete/rete_node.cpp).
use rules_forge.Prelude.{
  ℕ, ◌≡◌, refl, Bool, true, false, not, some, List, [], ◌∷◌, ◌&&◌, length, arith, ==_iff, is_some,
  Option-cases, Bool-cases, inl, inr, ◌∙◌, sym, ap, ◌↔◌,
}
use rules_forge.Prelude.Eq.{Eq, nat_eq}
use rules_forge.Prelude.Map
use rules_forge.Prelude.Set
use rules_forge.Prelude.Set.{contains-insert, contains-erase}
use rules_forge.Rete.{PropagationType, assert, retract, modify, receive_all, receive, tell}
use rules_forge.Rete.Condition.{
  Kind, not_node, exists_node, condition_passes, Joins, ConditionMem, matches, left_activate,
  is_retract, right_activate, change_fact, store_fact, drop_fact,
}
use rules_forge.Rete.Condition.Matches.{
  has-some, passing, passing-some, not_passing, passing-insert, passing-erase, visit-told,
}
use rules_forge.Rete.Condition.Steps.{IsConsistent}

-- What the rule asks of a live token.
unfoldable pub Satisfies : Kind → (ℕ → Bool) → Type 0
Satisfies not_node joins = (f : ℕ) → joins f ≡ false
Satisfies exists_node joins = (f : ℕ) × (joins f ≡ true)

some_item :
    (ids : List ℕ)
    → condition_passes exists_node (length ids) ≡ true
    → (f : ℕ) × (Set.contains f ids ≡ true)
unfolding condition_passes Set.contains
some_item [] h = absurd (ground (arith, h))
some_item (f ∷ ids) h = (f, ground (arith, ==_iff f f))

no_item :
    (ids : List ℕ)
    → condition_passes not_node (length ids) ≡ true
    → (f : ℕ) → Set.contains f ids ≡ false
unfolding condition_passes Set.contains
no_item [] h f = refl
no_item (g ∷ ids) h f = absurd (ground (arith, h))

item_passes :
    (ids : List ℕ) (f : ℕ)
    → Set.contains f ids ≡ true
    → condition_passes exists_node (length ids) ≡ true
unfolding condition_passes Set.contains
item_passes [] f h = absurd (ground (arith, h))
item_passes (g ∷ ids) f h = ground arith

none_passes :
    (ids : List ℕ)
    → ((f : ℕ) → Set.contains f ids ≡ false)
    → condition_passes not_node (length ids) ≡ true
unfolding condition_passes Set.contains
none_passes [] h = refl
none_passes (g ∷ ids) h = absurd (ground (arith, h g, ==_iff g g))

passes_iff :
    (kind : Kind) (ids : List ℕ) (test : ℕ → Bool)
    → ((f : ℕ) → Set.contains f ids ≡ test f)
    → (condition_passes kind (length ids) ≡ true) ↔ Satisfies kind test
unfolding Satisfies
passes_iff not_node ids test h =
    (λ p f. sym (h f) ∙ no_item ids p f, λ s. none_passes ids (λ f. h f ∙ s f))
passes_iff exists_node ids test h = (
  λ p. let (f, q) = some_item ids p in (f, sym (h f) ∙ q),
  λ s. item_passes ids s.0 (h s.0 ∙ s.1),
)

module _ {ℓ} {K : Type ℓ} ⦃e : Eq K⦄ (kind : Kind) (hashed : Bool) where
  pub passing_iff :
      (now : Joins K) (live_tokens live_facts : ℕ → Bool) (mem : ConditionMem K) (w : ℕ)
      → IsConsistent hashed now live_tokens live_facts mem
      → (passing kind w mem.left ≡ true)
        ↔ ((live_tokens w ≡ true) × Satisfies kind (λ f. live_facts f && now.joins w f))
  passing_iff now live_tokens live_facts mem w c = elim (Option-cases (Map.find w mem.left)) [
    | inl q ↦
        let dead : live_tokens w ≡ false = sym (c.left w) ∙ ap is_some q in
        let silent : passing kind w mem.left ≡ false = not_passing kind w mem.left q in
        (λ p. absurd (ground arith), λ s. absurd (ground (arith, s.0)))
    | inr (ids, q) ↦
        let live : live_tokens w ≡ true = sym (c.left w) ∙ ap is_some q in
        let iff =
          passes_iff kind ids (λ f. live_facts f && now.joins w f)
            (λ f. ground (arith, has-some w f ids mem.left q, c.matched w f)) in
        let same = passing-some kind w ids mem.left q in
        (λ p. (live, iff.0 (sym same ∙ p)), λ s. same ∙ iff.1 s.1)
  ]

  abbrev pub Tracks : List ℕ → ConditionMem K → Type 0
  Tracks view mem = (w : ℕ) → Set.contains w view ≡ passing kind w mem.left

  pub left_assert-Tracks :
      (now : Joins K) (w : ℕ) (mem : ConditionMem K) (view : List ℕ)
      → is_some (Map.find w mem.left) ≡ false
      → Tracks view mem
      → Tracks
          (receive_all
            (left_activate kind hashed now (record { subject = w; p_type = assert }) mem).1
            view)
          (left_activate kind hashed now (record { subject = w; p_type = assert }) mem).0
  unfolding left_activate is_retract receive_all receive tell passing
  left_assert-Tracks now w mem view n t x = ground (
    arith,
    passing-insert kind w x (matches kind hashed now w mem) mem.left,
    contains-insert w x view,
    t x,
    t w,
    ==_iff w x,
  )

  pub left_retract-Tracks :
      (now : Joins K) (w : ℕ) (mem : ConditionMem K) (view : List ℕ)
      → Tracks view mem
      → Tracks
          (receive_all
            (left_activate kind hashed now (record { subject = w; p_type = retract }) mem).1
            view)
          (left_activate kind hashed now (record { subject = w; p_type = retract }) mem).0
  unfolding left_activate is_retract receive_all receive tell
  left_retract-Tracks now w mem view t x = elim (Option-cases (Map.find w mem.left)) [
    | inl q ↦ rw (q, left_activate, is_retract) (t x)
    | inr (ids, q) ↦
        rw (q, left_activate, is_retract)
          (ground (arith, passing-erase kind w x mem.left, contains-erase w x view, t x))
  ]

  store_fact-left :
      (now : Joins K) (fact : ℕ) (p_type : PropagationType) (m : ConditionMem K)
      → (store_fact kind hashed now fact p_type m).left ≡ m.left
  unfolding store_fact is_retract
  store_fact-left now fact assert m = refl
  store_fact-left now fact retract m = refl
  store_fact-left now fact modify m = refl

  drop_fact-left :
      (now : Joins K) (fact : ℕ) (m : ConditionMem K)
      → (drop_fact kind hashed now fact m).left ≡ m.left
  unfolding drop_fact
  drop_fact-left now fact m = ground arith

  change_fact-Tracks :
      (now : Joins K) (fact : ℕ) (p_type : PropagationType) (mem : ConditionMem K) (view : List ℕ)
      → Tracks view mem
      → Tracks
          (receive_all (change_fact kind hashed now fact p_type mem).1 view)
          (change_fact kind hashed now fact p_type mem).0
  unfolding change_fact
  change_fact-Tracks now fact p_type mem view t x =
      visit-told kind fact _ _ _ mem.left view t x
      ∙ ap (passing kind x) (sym (store_fact-left now fact p_type _ ∙ drop_fact-left now fact _))

  pub right_activate-Tracks :
      (now : Joins K) (fact : ℕ) (p_type : PropagationType) (mem : ConditionMem K) (view : List ℕ)
      → Tracks view mem
      → Tracks
          (receive_all (right_activate kind hashed now (some fact) p_type mem).1 view)
          (right_activate kind hashed now (some fact) p_type mem).0
  unfolding right_activate receive_all
  right_activate-Tracks now fact p_type mem view t x =
      elim (Bool-cases (is_retract p_type && not (Set.contains fact mem.right))) [
        | inl q ↦ rw (q, right_activate) (t x)
        | inr q ↦ rw (q, right_activate) (change_fact-Tracks now fact p_type mem view t x)
      ]
