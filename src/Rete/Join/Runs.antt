-- ===== src/Rete/Join/Runs.antt =====
-- Histories of calls of a join node, and what they ask of the calls
-- (rulesforge/src/rete/rete_node.cpp).
use rules_forge.Prelude.{ℕ, ◌≡◌, refl, Bool, true, false, some, List, [], ◌∷◌, ◌++◌, ◌∙◌, ap}
use rules_forge.Rete.{assert, retract, modify}
use rules_forge.Rete.Condition.{Joins}
use rules_forge.Rete.Calls.{
  Call, token_enters, token_leaves, fact_changes, read, tokens_after, facts_after, read_last,
  all_tokens, all_facts,
}
use rules_forge.Rete.Join.{JoinMessage, Children}
use rules_forge.Rete.Join.Pairs.{degree, held, held-append}

-- A fact is asserted once.
unfoldable pub IsNew {ℓ} : {K : Type ℓ} → (ℕ → Bool) → Call K → Type 0
IsNew live_facts (token_enters now w) = Unit
IsNew live_facts (token_leaves now w) = Unit
IsNew live_facts (fact_changes now f assert) = live_facts f ≡ false
IsNew live_facts (fact_changes now f retract) = Unit
IsNew live_facts (fact_changes now f modify) = Unit

-- The hash key of what is changed is the one that it was stored under.
unfoldable pub KeepsKey {ℓ} : {K : Type ℓ} → Joins K → (ℕ → Bool) → Call K → Type ℓ
KeepsKey before live_facts (token_enters now w) = Unit
KeepsKey before live_facts (token_leaves now w) = now.token_key w ≡ before.token_key w
KeepsKey before live_facts (fact_changes now f p_type) =
    live_facts f ≡ true → now.fact_key f ≡ before.fact_key f

-- The key is of an equality among the constraints, which a missing field does not meet.
pub record HasEqualKeys {ℓ} {K : Type ℓ} (now : Joins K) : Type ℓ where
  pub equal :
      (w f : ℕ)
      → now.joins w f ≡ true
      → (k : K) × ((now.token_key w ≡ some k) × (now.fact_key f ≡ some k))

module _ {ℓ κ} {K : Type ℓ} {M : Type κ} (call : Call K → M → M × List JoinMessage) where
  unfoldable pub run_calls : List (Call K) → M → M × List JoinMessage
  run_calls [] m = (m, [])
  run_calls (c ∷ cs) m =
      let (m', told) = call c m in let (end, rest) = run_calls cs m' in (end, told ++ rest)

-- Each call of a history is allowed by P.
unfoldable pub AreAllowed {ℓ μ} :
    {K : Type ℓ} (P : Joins K → (ℕ → Bool) → (ℕ → Bool) → Call K → Type μ)
    → Joins K
    → (live_tokens live_facts : ℕ → Bool) → List (Call K)
    → Type μ
AreAllowed P before live_tokens live_facts [] = Unit
AreAllowed P before live_tokens live_facts (c ∷ cs) =
    P before live_tokens live_facts c
    × AreAllowed P (read c) (tokens_after c live_tokens) (facts_after c live_facts) cs

-- From one call to a history.
pub run_calls-induction {ℓ κ μ ν} :
    {K : Type ℓ} {M : Type κ} (call : Call K → M → M × List JoinMessage) (children : M → Children)
    (P : Joins K → (ℕ → Bool) → (ℕ → Bool) → Call K → Type μ)
    (Inv : Joins K → (ℕ → Bool) → (ℕ → Bool) → M → Type ν)
    → ((before : Joins K) (lt lf : ℕ → Bool) (c : Call K) (m : M)
        → P before lt lf c
        → Inv before lt lf m
        → Inv (read c) (tokens_after c lt) (facts_after c lf) (call c m).0
          × ((w f : ℕ)
              → held (call c m).1 w f (degree w f (children m))
                ≡ degree w f (children (call c m).0)))
    → (cs : List (Call K)) (before : Joins K) (lt lf : ℕ → Bool) (m : M)
    → AreAllowed P before lt lf cs
    → Inv before lt lf m
    → Inv (read_last cs before) (all_tokens cs lt) (all_facts cs lf) (run_calls call cs m).0
      × ((w f : ℕ)
          → held (run_calls call cs m).1 w f (degree w f (children m))
            ≡ degree w f (children (run_calls call cs m).0))
unfolding run_calls AreAllowed read_last all_tokens all_facts held
run_calls-induction call children P Inv step [] before lt lf m a i = (i, λ w f. refl)
run_calls-induction call children P Inv step (c ∷ cs) before lt lf m a i =
    let one = call c m in
    let rest = run_calls call cs one.0 in
    let (i', h) = step before lt lf c m a.0 i in
    let (i'', h') = run_calls-induction call children P Inv step cs _ _ _ one.0 a.1 i' in
    (
      i'',
      λ w f.
          held-append one.1 rest.1 w f (degree w f (children m))
          ∙ ap (held rest.1 w f) (h w f)
          ∙ h' w f,
    )
