-- ===== src/Rete/Condition/Runs.antt =====
-- About a BetaConditionNode over whole histories of calls (rulesforge/src/rete/rete_node.cpp).
use rules_forge.Prelude.{
  ℕ, ◌≡◌, refl, Bool, true, not, some, List, [], ◌∷◌, ◌++◌, ◌&&◌, ◌==◌, arith, ==_iff, Bool-cases,
  inl, inr, ◌∙◌, sym, ap, ◌↔◌,
}
use rules_forge.Prelude.Eq.{Eq, nat_eq}
use rules_forge.Prelude.Map
use rules_forge.Prelude.Set
use rules_forge.Rete.{PropagationType, assert, retract, Message, receive_all}
use rules_forge.Rete.Messages.{receive_all-append}
use rules_forge.Rete.Index.{IsIndex-same, empty-IsIndex}
use rules_forge.Rete.Condition.{
  Kind, Joins, ConditionMem, empty, left_activate, is_retract, right_activate,
}
use rules_forge.Rete.Condition.Matches.{has, passing}
use rules_forge.Rete.Condition.Steps.{
  present, nothing, HasKeys, IsConsistent, Frame, left_assert, left_retract,
}
use rules_forge.Rete.Condition.Facts.{change_fact-IsConsistent}
use rules_forge.Rete.Calls.{
  Call, token_enters, token_leaves, fact_changes, blank, read, tokens_after, facts_after, read_last,
  all_tokens, all_facts, IsFair, AreFair,
}
use rules_forge.Rete.Condition.View.{
  Satisfies, passing_iff, Tracks, left_assert-Tracks, left_retract-Tracks, right_activate-Tracks,
}

module _ {ℓ} {K : Type ℓ} ⦃e : Eq K⦄ (kind : Kind) (hashed : Bool) where
  unfoldable pub call : Call K → ConditionMem K → ConditionMem K × List Message
  call (token_enters now w) mem =
      left_activate kind hashed now (record { subject = w; p_type = assert }) mem
  call (token_leaves now w) mem =
      left_activate kind hashed now (record { subject = w; p_type = retract }) mem
  call (fact_changes now f p_type) mem = right_activate kind hashed now (some f) p_type mem

  unfoldable pub run : List (Call K) → ConditionMem K → ConditionMem K × List Message
  unfolding call
  run [] mem = (mem, [])
  run (c ∷ cs) mem =
      let (mem', told) = call c mem in let (end, rest) = run cs mem' in (end, told ++ rest)

  -- A fact that is not held is retracted.
  skipped-IsConsistent :
      (before now : Joins K) (live_tokens live_facts : ℕ → Bool) (fact : ℕ)
      (p_type : PropagationType) (mem : ConditionMem K)
      → Frame before now live_tokens live_facts nothing (λ x. fact == x)
      → (is_retract p_type && not (Set.contains fact mem.right)) ≡ true
      → IsConsistent hashed before live_tokens live_facts mem
      → IsConsistent hashed now live_tokens (present p_type fact live_facts) mem
  unfolding present nothing
  skipped-IsConsistent before now live_tokens live_facts fact p_type mem f q c = record {
    left = c.left;
    right = λ g. ground (arith, c.right g, c.right fact, ==_iff fact g);
    left_index =
        IsIndex-same hashed live_tokens live_tokens before.token_key now.token_key mem.left_index
          (λ x. refl) (λ x l. f.token x l refl) c.left_index;
    right_index =
        IsIndex-same hashed live_facts (present p_type fact live_facts) before.fact_key now.fact_key
          mem.right_index (λ x. ground (arith, c.right fact, ==_iff fact x))
          (λ x l. f.fact x l (ground (arith, c.right fact, ==_iff fact x))) c.right_index;
    matched = λ w g. ground (arith, c.matched w g, f.pair w g, c.right fact, ==_iff fact g);
  }

  call-IsConsistent :
      (before : Joins K) (live_tokens live_facts : ℕ → Bool) (c : Call K) (mem : ConditionMem K)
      → HasKeys before
      → HasKeys (read c)
      → IsFair before live_tokens live_facts c
      → IsConsistent hashed before live_tokens live_facts mem
      → IsConsistent hashed
          (read c)
          (tokens_after c live_tokens)
          (facts_after c live_facts)
          (call c mem).0
  unfolding read IsFair tokens_after facts_after call right_activate
  call-IsConsistent before live_tokens live_facts (token_enters now w) mem o l f k =
      left_assert hashed kind before now live_tokens live_facts w mem l f.1 f.0 k
  call-IsConsistent before live_tokens live_facts (token_leaves now w) mem o l f k =
      left_retract hashed kind before now live_tokens live_facts w mem f k
  call-IsConsistent before live_tokens live_facts (fact_changes now fact p_type) mem o l f k =
      elim (Bool-cases (is_retract p_type && not (Set.contains fact mem.right))) [
        | inl q ↦
            rw (q, right_activate)
              (skipped-IsConsistent before now live_tokens live_facts fact p_type mem f q k)
        | inr q ↦
            rw (q, right_activate)
              (change_fact-IsConsistent kind hashed before now live_tokens live_facts fact p_type
                mem o l f k)
      ]

  call-Tracks :
      (before : Joins K) (live_tokens live_facts : ℕ → Bool) (c : Call K) (mem : ConditionMem K)
      (view : List ℕ)
      → IsFair before live_tokens live_facts c
      → IsConsistent hashed before live_tokens live_facts mem
      → Tracks kind hashed view mem
      → Tracks kind hashed (receive_all (call c mem).1 view) (call c mem).0
  unfolding IsFair call
  call-Tracks before live_tokens live_facts (token_enters now w) mem view f k t =
      left_assert-Tracks kind hashed now w mem view (k.left w ∙ f.0) t
  call-Tracks before live_tokens live_facts (token_leaves now w) mem view f k t =
      left_retract-Tracks kind hashed now w mem view t
  call-Tracks before live_tokens live_facts (fact_changes now fact p_type) mem view f k t =
      right_activate-Tracks kind hashed now fact p_type mem view t

  run_lem :
      (cs : List (Call K)) (before : Joins K) (live_tokens live_facts : ℕ → Bool)
      (mem : ConditionMem K) (view : List ℕ)
      → HasKeys before
      → AreFair before live_tokens live_facts cs
      → IsConsistent hashed before live_tokens live_facts mem
      → Tracks kind hashed view mem
      → IsConsistent hashed
          (read_last cs before)
          (all_tokens cs live_tokens)
          (all_facts cs live_facts)
          (run cs mem).0
        × Tracks kind hashed (receive_all (run cs mem).1 view) (run cs mem).0
  unfolding run AreFair read_last all_tokens all_facts receive_all
  run_lem [] before live_tokens live_facts mem view o f k t = (k, t)
  run_lem (c ∷ cs) before live_tokens live_facts mem view o f k t =
      let one = call c mem in
      let rest = run cs one.0 in
      let (k', t') =
        run_lem cs (read c) (tokens_after c live_tokens) (facts_after c live_facts) one.0
          (receive_all one.1 view) f.0 f.1.1
          (call-IsConsistent before live_tokens live_facts c mem o f.0 f.1.0 k)
          (call-Tracks before live_tokens live_facts c mem view f.1.0 k t) in
      (k', λ w. ap (Set.contains w) (receive_all-append one.1 rest.1 view) ∙ t' w)

  -- After every fair history of calls on an empty NotNode or ExistsNode, its children hold exactly
  -- the live tokens that no live fact joins with (NotNode) or that some live fact joins with
  -- (ExistsNode), as the tokens and facts were at the last call. A history is fair where a call
  -- changes nothing of the other live tokens and facts, a token enters only while it is out, and a
  -- token and a fact that join have equal hash keys where both have one.
  pub run_refines_condition :
      (cs : List (Call K)) (w : ℕ)
      → AreFair blank nothing nothing cs
      → (Set.contains w (receive_all (run cs empty).1 []) ≡ true) ↔ (
          (all_tokens cs nothing w ≡ true)
          × Satisfies kind (λ f. all_facts cs nothing f && (read_last cs blank).joins w f))
  unfolding Set.contains nothing has Map.find passing HasKeys
  run_refines_condition cs w f =
      let (k, t) =
        run_lem cs blank nothing nothing empty [] (λ w f k j h. cc) f
          (record {
            left = λ w. refl;
            right = λ f. refl;
            left_index = empty-IsIndex hashed _;
            right_index = empty-IsIndex hashed _;
            matched = λ w f. refl;
          })
          (λ w. refl) in
      let iff = passing_iff kind hashed _ _ _ _ w k in
      (λ p. iff.0 (sym (t w) ∙ p), λ s. t w ∙ iff.1 s)
