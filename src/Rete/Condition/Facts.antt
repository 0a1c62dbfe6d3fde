-- ===== src/Rete/Condition/Facts.antt =====
-- About what the change of a fact does to a BetaConditionNode
-- (rulesforge/src/rete/rete_node.cpp).
use rules_forge.Prelude.{
  ℕ, ◌≡◌, refl, Bool, true, false, not, List, [], ◌&&◌, ◌==◌, if◌then◌else◌, arith, ==_iff, is_some,
  Bool-cases, inl, inr, ◌∙◌, sym, ap,
}
use mathlib.Core.Path.{subst}
use rules_forge.Prelude.Eq.{Eq, nat_eq}
use rules_forge.Prelude.Map
use rules_forge.Prelude.Set
use rules_forge.Prelude.Set.{contains-insert, contains-erase}
use rules_forge.Rete.{PropagationType, assert, retract, modify, Message}
use rules_forge.Rete.Index
use rules_forge.Rete.Index.{
  Index, candidates, is_candidate, IsIndex, contains-candidates, add-IsIndex, remove-IsIndex,
  IsIndex-same,
}
use rules_forge.Rete.Condition.{
  Kind, Joins, ConditionMem, is_retract, change_fact, drop_fact, store_fact, joins_now,
  new_candidates, old_candidates, append_candidates, collect, tokens, visit,
}
use rules_forge.Rete.Condition.Matches.{
  contains-collect, contains-tokens, has, stored-visit, has-visit,
}
use rules_forge.Rete.Condition.Steps.{
  present, nothing, HasKeys, joins_candidates, IsConsistent, Frame,
}

module _ {ℓ} {K : Type ℓ} ⦃e : Eq K⦄ (hashed : Bool) where
  contains-old_candidates :
      (kind : Kind) (before now : Joins K) (live_tokens live_facts : ℕ → Bool) (fact w : ℕ)
      (mem : ConditionMem K)
      → IsConsistent hashed before live_tokens live_facts mem
      → Set.contains w (old_candidates kind hashed now fact mem) ≡ (
          live_facts fact
          && (live_tokens w && is_candidate hashed (before.fact_key fact) (before.token_key w)))
  unfolding old_candidates append_candidates Set.contains is_candidate
  contains-old_candidates kind before now live_tokens live_facts fact w mem c = ground (
    arith,
    c.right fact,
    c.right_index.under fact,
    contains-collect
        (candidates hashed (Map.find fact mem.right_index.keys) (tokens mem.left) mem.left_index) []
        w,
    contains-candidates hashed live_tokens before.token_key mem.left_index
        (Map.find fact mem.right_index.keys) (tokens mem.left) w c.left_index
        (contains-tokens mem.left w ∙ c.left w),
  )

  contains-new_candidates :
      (kind : Kind) (before now : Joins K) (live_tokens live_facts : ℕ → Bool)
      (p_type : PropagationType) (fact w : ℕ) (mem : ConditionMem K)
      → IsConsistent hashed before live_tokens live_facts mem
      → Set.contains w (new_candidates kind hashed now fact p_type mem) ≡ (
          not (is_retract p_type)
          && (live_tokens w && is_candidate hashed (now.fact_key fact) (before.token_key w)))
  unfolding new_candidates append_candidates Set.contains
  contains-new_candidates kind before now live_tokens live_facts p_type fact w mem c = ground (
    arith,
    contains-collect (candidates hashed (now.fact_key fact) (tokens mem.left) mem.left_index) [] w,
    contains-candidates hashed live_tokens before.token_key mem.left_index (now.fact_key fact)
        (tokens mem.left) w c.left_index (contains-tokens mem.left w ∙ c.left w),
  )

  put_back :
      (now : Joins K) (live_facts : ℕ → Bool) (fact : ℕ) (ix : Index K)
      → IsIndex hashed (λ x. if fact == x then false else live_facts x) now.fact_key ix
      → IsIndex hashed
          (λ x. if fact == x then true else live_facts x)
          now.fact_key
          (Index.add hashed (now.fact_key fact) fact ix)
  put_back now live_facts fact ix i =
      IsIndex-same hashed _ _ now.fact_key now.fact_key _ (λ x. ground arith) (λ x l. refl)
        (add-IsIndex hashed (λ x. if fact == x then false else live_facts x) now.fact_key fact ix i
          (ground arith))

  -- The last part of the change: the memory `m` no longer has the fact in its right index.
  store_fact-IsConsistent :
      (kind : Kind) (now : Joins K) (live_tokens live_facts : ℕ → Bool) (fact : ℕ)
      (p_type : PropagationType) (m : ConditionMem K)
      → ((w : ℕ) → is_some (Map.find w m.left) ≡ live_tokens w)
      → ((g : ℕ) → Set.contains g m.right ≡ live_facts g)
      → IsIndex hashed live_tokens now.token_key m.left_index
      → IsIndex hashed (λ x. if fact == x then false else live_facts x) now.fact_key m.right_index
      → ((w g : ℕ)
          → has w g m.left ≡ (live_tokens w && (present p_type fact live_facts g && now.joins w g)))
      → IsConsistent hashed now live_tokens
          (present p_type fact live_facts)
          (store_fact kind hashed now fact p_type m)
  unfolding store_fact present is_retract
  store_fact-IsConsistent kind now live_tokens live_facts fact retract m l r li ri mm = record {
    left = l;
    right = λ g. ground (arith, r g, contains-erase fact g m.right);
    left_index = li;
    right_index = ri;
    matched = mm;
  }
  store_fact-IsConsistent kind now live_tokens live_facts fact assert m l r li ri mm = record {
    left = l;
    right = λ g. ground (arith, r g, contains-insert fact g m.right);
    left_index = li;
    right_index = put_back now live_facts fact m.right_index ri;
    matched = mm;
  }
  store_fact-IsConsistent kind now live_tokens live_facts fact modify m l r li ri mm = record {
    left = l;
    right = λ g. ground (arith, r g, contains-insert fact g m.right);
    left_index = li;
    right_index = put_back now live_facts fact m.right_index ri;
    matched = mm;
  }

module _ {ℓ} {K : Type ℓ} ⦃e : Eq K⦄ (kind : Kind) (hashed : Bool) (before now : Joins K)
    (live_tokens live_facts : ℕ → Bool) (fact : ℕ) (p_type : PropagationType) (mem : ConditionMem K)
    (old_keys : HasKeys before) (new_keys : HasKeys now)
    (f : Frame before now live_tokens live_facts nothing (λ x. fact == x))
    (c : IsConsistent hashed before live_tokens live_facts mem) where
  affected : List ℕ
  affected =
      collect (new_candidates kind hashed now fact p_type mem)
        (old_candidates kind hashed now fact mem)

  visited : Map.Map ℕ (List ℕ) × List Message
  visited =
      visit kind fact (Set.contains fact mem.right) (joins_now kind hashed now fact p_type mem)
        affected mem.left

  contains-affected :
      (w : ℕ)
      → Set.contains w affected ≡ (
          if Set.contains w (old_candidates kind hashed now fact mem)
          then true
          else Set.contains w (new_candidates kind hashed now fact p_type mem))
  unfolding affected
  contains-affected w = contains-collect _ (old_candidates kind hashed now fact mem) w

  joins_now_lem :
      (w : ℕ)
      → live_tokens w ≡ true
      → joins_now kind hashed now fact p_type mem w ≡ (not (is_retract p_type) && now.joins w fact)
  unfolding joins_now nothing
  joins_now_lem w l = ground (
    arith,
    contains-new_candidates hashed kind before now live_tokens live_facts p_type fact w mem c,
    joins_candidates hashed now w fact new_keys,
    f.token w l,
  )

  matched-visited :
      (w g : ℕ)
      → has w g visited.0 ≡ (live_tokens w && (present p_type fact live_facts g && now.joins w g))
  unfolding visited present nothing
  matched-visited w g = ground (
    arith,
    has-visit kind fact (Set.contains fact mem.right) (joins_now kind hashed now fact p_type mem)
        affected mem.left w g fresh,
    contains-affected w,
    contains-old_candidates hashed kind before now live_tokens live_facts fact w mem c,
    contains-new_candidates hashed kind before now live_tokens live_facts p_type fact w mem c,
    joins_candidates hashed now w fact new_keys,
    joins_candidates hashed before w fact old_keys,
    joins_now_lem w,
    c.matched w g,
    c.left w,
    f.token w,
    f.pair w g,
    ==_iff fact g,
  )
    where
      fresh :
          Set.contains fact mem.right ≡ false
          → has w fact mem.left ≡ true
          → joins_now kind hashed now fact p_type mem w ≡ true
      fresh n h = ground (arith, c.matched w fact, c.right fact)

  abbrev emptied : ℕ → Bool
  emptied x = if fact == x then false else live_facts x

  abbrev after_visit : ConditionMem K
  after_visit = record mem { left = visited.0 }

  abbrev dropped : ConditionMem K
  dropped = drop_fact kind hashed now fact after_visit

  dropped-same : (x : ℕ) → emptied x ≡ true → now.fact_key x ≡ before.fact_key x
  dropped-same x l = f.fact x (ground arith) (ground arith)

  dropped-IsIndex : IsIndex hashed emptied now.fact_key dropped.right_index
  unfolding drop_fact
  dropped-IsIndex = elim (Bool-cases (Set.contains fact mem.right)) [
    | inl l ↦
        rw (l, drop_fact)
          (IsIndex-same hashed emptied emptied before.fact_key now.fact_key _ (λ x. refl)
            dropped-same
            (remove-IsIndex hashed hashed live_facts before.fact_key fact mem.right_index
              c.right_index (sym (c.right fact) ∙ l) (λ h. h)))
    | inr l ↦
        rw (l, drop_fact)
          (IsIndex-same hashed live_facts emptied before.fact_key now.fact_key _
            (λ x. ground (arith, c.right fact, ==_iff fact x))
            (λ x v. dropped-same x (ground (arith, c.right fact, ==_iff fact x))) c.right_index)
  ]

  dropped-rest :
      (dropped.left ≡ visited.0)
      × (dropped.right ≡ mem.right)
      × (dropped.left_index ≡ mem.left_index)
  unfolding drop_fact
  dropped-rest = elim (Bool-cases (Set.contains fact mem.right)) [
    | inl l ↦ rw (l, drop_fact) (refl, refl, refl)
    | inr l ↦ rw (l, drop_fact) (refl, refl, refl)
  ]

  left_dropped : (w : ℕ) → is_some (Map.find w dropped.left) ≡ live_tokens w
  unfolding visited
  left_dropped w =
      ap (λ m. is_some (Map.find w m)) dropped-rest.0
      ∙ stored-visit kind fact _ (joins_now kind hashed now fact p_type mem) affected mem.left w
      ∙ c.left w

  matched_dropped :
      (w g : ℕ)
      → has w g dropped.left
        ≡ (live_tokens w && (present p_type fact live_facts g && now.joins w g))
  matched_dropped w g = ap (λ m. has w g m) dropped-rest.0 ∙ matched-visited w g

  right_dropped : (g : ℕ) → Set.contains g dropped.right ≡ live_facts g
  right_dropped g = ap (λ xs. Set.contains g xs) dropped-rest.1 ∙ c.right g

  left_index_dropped : IsIndex hashed live_tokens now.token_key dropped.left_index
  unfolding nothing
  left_index_dropped =
      IsIndex-same hashed live_tokens live_tokens before.token_key now.token_key _ (λ x. refl)
        (λ x l. f.token x l refl)
        (subst (λ ix. IsIndex hashed live_tokens before.token_key ix) (sym dropped-rest.2)
          c.left_index)

  pub change_fact-IsConsistent :
      IsConsistent hashed now live_tokens
        (present p_type fact live_facts)
        (change_fact kind hashed now fact p_type mem).0
  unfolding change_fact visited affected
  change_fact-IsConsistent =
      store_fact-IsConsistent hashed kind now live_tokens live_facts fact p_type dropped
        left_dropped right_dropped left_index_dropped dropped-IsIndex matched_dropped
