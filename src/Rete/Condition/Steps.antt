-- ===== src/Rete/Condition/Steps.antt =====
-- About what one call does to a BetaConditionNode and its children
-- (rulesforge/src/rete/rete_node.cpp).
use rules_forge.Prelude.{
  ℕ, ◌≡◌, refl, Bool, true, false, not, Option, none, some, [], ◌&&◌, ◌==◌, if◌then◌else◌, arith,
  ==_iff, is_some, Option-cases, inl, inr, sym,
}
use rules_forge.Prelude.Eq.{Eq, nat_eq}
use rules_forge.Prelude.Map.{find-insert, find-erase}
use rules_forge.Prelude.Map
use rules_forge.Prelude.Set
use rules_forge.Prelude.Set.{contains-insert, contains-erase}
use rules_forge.Rete.{PropagationType, assert, retract}
use rules_forge.Rete.Index.{
  candidates, is_candidate, IsIndex, contains-candidates, add-IsIndex, remove-IsIndex, IsIndex-same,
}
use rules_forge.Rete.Condition.{Kind, Joins, ConditionMem, matches, left_activate, is_retract}
use rules_forge.Rete.Condition.Matches.{contains-record_matches, has, has-insert, has-erase}

unfoldable pub nothing : ℕ → Bool
nothing x = false

-- What is live after a change of one item.
unfoldable pub present : PropagationType → ℕ → (ℕ → Bool) → ℕ → Bool
present p_type x live y = if x == y then not (is_retract p_type) else live y

module _ {ℓ} {K : Type ℓ} where
  -- A token and a fact that join have equal keys where both have one: the key is of an equality
  -- among the constraints.
  unfoldable pub HasKeys : Joins K → Type ℓ
  HasKeys now =
      (w f : ℕ) (k j : K)
      → now.joins w f ≡ true
      → now.token_key w ≡ some k
      → now.fact_key f ≡ some j
      → j ≡ k

  -- What a change leaves as it was: live items other than the exempt ones.
  pub record Frame (before now : Joins K)
      (live_tokens live_facts exempt_token exempt_fact : ℕ → Bool) : Type ℓ where
    pub token :
        (w : ℕ)
        → live_tokens w ≡ true
        → exempt_token w ≡ false
        → now.token_key w ≡ before.token_key w
    pub fact :
        (f : ℕ) → live_facts f ≡ true → exempt_fact f ≡ false → now.fact_key f ≡ before.fact_key f
    pub pair :
        (w f : ℕ)
        → live_tokens w ≡ true
        → live_facts f ≡ true
        → exempt_token w ≡ false
        → exempt_fact f ≡ false
        → now.joins w f ≡ before.joins w f

module _ {ℓ} {K : Type ℓ} ⦃e : Eq K⦄ (hashed : Bool) where
  equal_keys :
      (strict : Bool) (a b : Option K)
      → ((k j : K) → a ≡ some k → b ≡ some j → j ≡ k)
      → (is_candidate strict a b ≡ true) × (is_candidate strict b a ≡ true)
  unfolding is_candidate
  equal_keys false a b h = (refl, refl)
  equal_keys true none none h = (refl, refl)
  equal_keys true none (some j) h = (refl, refl)
  equal_keys true (some k) none h = (refl, refl)
  equal_keys true (some k) (some j) h =
      ((e.beq_iff j k).1 (h k j refl refl), (e.beq_iff k j).1 (sym (h k j refl refl)))

  pub joins_candidates :
      (now : Joins K) (w f : ℕ)
      → HasKeys now
      → now.joins w f ≡ true
      → (is_candidate hashed (now.token_key w) (now.fact_key f) ≡ true)
        × (is_candidate hashed (now.fact_key f) (now.token_key w) ≡ true)
  unfolding HasKeys
  joins_candidates now w f l h =
      equal_keys hashed (now.token_key w) (now.fact_key f) (λ k j. l w f k j h)

  -- The memory is what a comparison of every live token with every live fact gives.
  pub record IsConsistent (now : Joins K) (live_tokens live_facts : ℕ → Bool) (mem : ConditionMem K)
      : Type ℓ where
    pub left : (w : ℕ) → is_some (Map.find w mem.left) ≡ live_tokens w
    pub right : (f : ℕ) → Set.contains f mem.right ≡ live_facts f
    pub left_index : IsIndex hashed live_tokens now.token_key mem.left_index
    pub right_index : IsIndex hashed live_facts now.fact_key mem.right_index
    pub matched : (w f : ℕ) → has w f mem.left ≡ (live_tokens w && (live_facts f && now.joins w f))

  contains-matches :
      (kind : Kind) (before now : Joins K) (live_tokens live_facts : ℕ → Bool) (w g : ℕ)
      (mem : ConditionMem K)
      → HasKeys now
      → Frame before now live_tokens live_facts (λ x. w == x) nothing
      → IsConsistent before live_tokens live_facts mem
      → Set.contains g (matches kind hashed now w mem) ≡ (live_facts g && now.joins w g)
  unfolding matches Set.contains nothing
  contains-matches kind before now live_tokens live_facts w g mem l f c = ground (
    arith,
    contains-record_matches (now.joins w)
        (candidates hashed (now.token_key w) mem.right mem.right_index) [] g,
    contains-candidates hashed live_facts before.fact_key mem.right_index (now.token_key w)
        mem.right g c.right_index (c.right g),
    f.fact g,
    joins_candidates now w g l,
  )

  -- The right index through a change that leaves the facts as they were.
  pub right_same :
      (before now : Joins K) (live_tokens live_facts exempt : ℕ → Bool) (mem : ConditionMem K)
      → Frame before now live_tokens live_facts exempt nothing
      → IsConsistent before live_tokens live_facts mem
      → IsIndex hashed live_facts now.fact_key mem.right_index
  unfolding nothing
  right_same before now live_tokens live_facts exempt mem f c =
      IsIndex-same hashed live_facts live_facts before.fact_key now.fact_key mem.right_index
        (λ x. refl) (λ x l. f.fact x l refl) c.right_index

  pub left_assert :
      (kind : Kind) (before now : Joins K) (live_tokens live_facts : ℕ → Bool) (w : ℕ)
      (mem : ConditionMem K)
      → HasKeys now
      → Frame before now live_tokens live_facts (λ x. w == x) nothing
      → live_tokens w ≡ false
      → IsConsistent before live_tokens live_facts mem
      → IsConsistent now
          (present assert w live_tokens)
          live_facts
          (left_activate kind hashed now (record { subject = w; p_type = assert }) mem).0
  unfolding left_activate present is_retract nothing
  left_assert kind before now live_tokens live_facts w mem l f n c = record {
    left = λ v. ground (arith, c.left v, find-insert w v (matches kind hashed now w mem) mem.left);
    right = c.right;
    left_index =
        add-IsIndex hashed live_tokens now.token_key w mem.left_index
          (IsIndex-same hashed live_tokens live_tokens before.token_key now.token_key mem.left_index
            (λ x. refl) (λ x lv. f.token x lv (ground (arith, ==_iff w x))) c.left_index)
          n;
    right_index = right_same before now live_tokens live_facts _ mem f c;
    matched = λ v g. ground (
      arith,
      has-insert w v g (matches kind hashed now w mem) mem.left,
      contains-matches kind before now live_tokens live_facts w g mem l f c,
      c.matched v g,
      f.pair v g,
      ==_iff w v,
    );
  }

  pub left_retract :
      (kind : Kind) (before now : Joins K) (live_tokens live_facts : ℕ → Bool) (w : ℕ)
      (mem : ConditionMem K)
      → Frame before now live_tokens live_facts (λ x. w == x) nothing
      → IsConsistent before live_tokens live_facts mem
      → IsConsistent now
          (present retract w live_tokens)
          live_facts
          (left_activate kind hashed now (record { subject = w; p_type = retract }) mem).0
  unfolding left_activate present is_retract nothing
  left_retract kind before now live_tokens live_facts w mem f c =
      elim (Option-cases (Map.find w mem.left)) [
        | inl q ↦
            rw (q, left_activate)
              (record {
                left = λ v. ground (arith, c.left v, c.left w, ==_iff w v);
                right = c.right;
                left_index =
                    IsIndex-same hashed live_tokens (present retract w live_tokens) before.token_key
                      now.token_key mem.left_index (λ x. ground (arith, c.left w, ==_iff w x))
                      (λ x l. f.token x l (ground (arith, c.left w, ==_iff w x))) c.left_index;
                right_index = right_same before now live_tokens live_facts _ mem f c;
                matched = λ v g. ground (arith, c.matched v g, c.left w, f.pair v g, ==_iff w v);
              })
        | inr (ids, q) ↦
            rw (q, left_activate)
              (record {
                left = λ v. ground (arith, c.left v, find-erase w v mem.left);
                right = c.right;
                left_index =
                    IsIndex-same hashed (present retract w live_tokens)
                      (present retract w live_tokens) before.token_key now.token_key _ (λ x. refl)
                      (λ x l. f.token x (ground arith) (ground arith))
                      (remove-IsIndex true hashed live_tokens before.token_key w mem.left_index
                        c.left_index (ground (arith, c.left w)) (λ h. refl));
                right_index = right_same before now live_tokens live_facts _ mem f c;
                matched = λ v g.
                    ground (arith, c.matched v g, has-erase w v g mem.left, f.pair v g, ==_iff w v);
              })
      ]
