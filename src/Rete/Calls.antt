-- ===== src/Rete/Calls.antt =====
-- Histories of calls of a node that joins tokens with facts (rulesforge/src/rete/rete_node.cpp), and
-- the tokens and facts that are live after them.
use rules_forge.Prelude.{ℕ, ◌≡◌, Bool, false, none, List, [], ◌∷◌, ◌==◌}
use rules_forge.Rete.{PropagationType, assert, retract}
use rules_forge.Rete.Condition.{Joins}
use rules_forge.Rete.Condition.Steps.{present, nothing, HasKeys, Frame}

-- A call of the node, with what it reads of the tokens and facts as they are at that time.
pub data Call {ℓ} (K : Type ℓ) : Type ℓ where
  token_enters : Joins K → ℕ → Call K
  token_leaves : Joins K → ℕ → Call K
  fact_changes : Joins K → ℕ → PropagationType → Call K

module _ {ℓ} {K : Type ℓ} where
  abbrev pub blank : Joins K
  blank = record { joins = λ w f. false; token_key = λ w. none; fact_key = λ f. none }

  unfoldable pub read : Call K → Joins K
  read (token_enters now w) = now
  read (token_leaves now w) = now
  read (fact_changes now f p_type) = now

  unfoldable pub tokens_after : Call K → (ℕ → Bool) → ℕ → Bool
  unfolding present
  tokens_after (token_enters now w) live = present assert w live
  tokens_after (token_leaves now w) live = present retract w live
  tokens_after (fact_changes now f p_type) live = live

  unfoldable pub facts_after : Call K → (ℕ → Bool) → ℕ → Bool
  unfolding present
  facts_after (token_enters now w) live = live
  facts_after (token_leaves now w) live = live
  facts_after (fact_changes now f p_type) live = present p_type f live

  -- The last of a history; `now` and `live` before it.
  unfoldable pub read_last : List (Call K) → Joins K → Joins K
  unfolding read
  read_last [] now = now
  read_last (c ∷ cs) now = read_last cs (read c)

  unfoldable pub all_tokens : List (Call K) → (ℕ → Bool) → ℕ → Bool
  unfolding tokens_after
  all_tokens [] live = live
  all_tokens (c ∷ cs) live = all_tokens cs (tokens_after c live)

  unfoldable pub all_facts : List (Call K) → (ℕ → Bool) → ℕ → Bool
  unfolding facts_after
  all_facts [] live = live
  all_facts (c ∷ cs) live = all_facts cs (facts_after c live)

module _ {ℓ} {K : Type ℓ} where
  -- A call reads other live items as they were before it; a token enters once.
  unfoldable pub IsFair : Joins K → (live_tokens live_facts : ℕ → Bool) → Call K → Type ℓ
  IsFair before live_tokens live_facts (token_enters now w) =
      (live_tokens w ≡ false) × Frame before now live_tokens live_facts (λ x. w == x) nothing
  IsFair before live_tokens live_facts (token_leaves now w) =
      Frame before now live_tokens live_facts (λ x. w == x) nothing
  IsFair before live_tokens live_facts (fact_changes now f p_type) =
      Frame before now live_tokens live_facts nothing (λ x. f == x)

  unfoldable pub AreFair : Joins K → (live_tokens live_facts : ℕ → Bool) → List (Call K) → Type ℓ
  AreFair before live_tokens live_facts [] = Unit
  AreFair before live_tokens live_facts (c ∷ cs) =
      HasKeys (read c)
      × (IsFair before live_tokens live_facts c
          × AreFair (read c) (tokens_after c live_tokens) (facts_after c live_facts) cs)
