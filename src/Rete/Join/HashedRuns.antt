-- ===== src/Rete/Join/HashedRuns.antt =====
-- About HashedJoinNode over whole histories of calls (rulesforge/src/rete/rete_node.cpp).
use rules_forge.Prelude.{
  ℕ, ◌≡◌, ◌≢◌, refl, Bool, true, false, List, [], ◌∷◌, ◌&&◌, if◌then◌else◌, Bool-cases,
  Option-cases, inl, inr, ◌∙◌, ap, sym,
}
use rules_forge.Prelude.Eq.{Eq, nat_eq}
use rules_forge.Prelude.Map.{Map}
use rules_forge.Prelude.Map
use rules_forge.Prelude.Set
use rules_forge.Prelude.Vector.{count}
use rules_forge.Rete.{PropagationType, assert, retract, modify}
use rules_forge.Rete.Index.{row}
use rules_forge.Rete.Condition.{Joins, is_retract}
use rules_forge.Rete.Condition.Steps.{nothing}
use rules_forge.Rete.Join.{
  JoinMessage, HashedMem, with_token, with_fact, assert_pairs, hashed_leave, hashed_enter,
  hashed_left_activate, hashed_remove, hashed_forget, hashed_store, hashed_change,
  hashed_right_activate,
}
use rules_forge.Rete.Join.Pairs.{degree, held, held-append, retract_pairs_lem, assert_pairs_lem}
use rules_forge.Rete.Join.Runs.{
  HasEqualKeys, KeepsKey, IsNew, AreAllowed, run_calls, run_calls-induction,
}
use rules_forge.Rete.Join.Hashed.{IsHashed, enters, leaves}
use rules_forge.Rete.Join.HashedFacts.{changes}
use rules_forge.Rete.Join.CrossRuns.{CrossAllows, cross_call, empty_cross, cross_refines}
use rules_forge.Rete.Calls.{
  Call, token_enters, token_leaves, fact_changes, read, tokens_after, facts_after, read_last,
  all_tokens, all_facts, IsFair, blank,
}

modify≢assert : modify ≢ assert
modify≢assert e = cc

retract≢assert : retract ≢ assert
retract≢assert e = cc

module _ {ℓ} {K : Type ℓ} ⦃e : Eq K⦄ where
  abbrev pub empty_hashed : HashedMem K
  empty_hashed = record { left = []; right = []; children = []; pending_facts = []; dirty = false }

  unfoldable pub hashed_call : Call K → HashedMem K → HashedMem K × List JoinMessage
  hashed_call (token_enters now w) mem = hashed_left_activate now w false mem
  hashed_call (token_leaves now w) mem = hashed_left_activate now w true mem
  hashed_call (fact_changes now f p_type) mem = hashed_right_activate now f p_type mem

  told_left :
      (now : Joins K) (w : ℕ) (retracts : Bool) (mem : HashedMem K) (v g : ℕ)
      → held (hashed_left_activate now w retracts mem).1 v g (degree v g mem.children)
        ≡ degree v g (hashed_left_activate now w retracts mem).0.children
  unfolding hashed_left_activate hashed_leave hashed_enter held
  told_left now w true mem v g = elim (Option-cases (now.token_key w)) [
    | inl q ↦ rw (q, hashed_left_activate) refl
    | inr (k, q) ↦
        rw (q, hashed_left_activate)
          (retract_pairs_lem (with_token w (row k mem.right)) v g mem.children).1
  ]
  told_left now w false mem v g = elim (Option-cases (now.token_key w)) [
    | inl q ↦ rw (q, hashed_left_activate) refl
    | inr (k, q) ↦
        rw (q, hashed_left_activate)
          (assert_pairs_lem now.joins (with_token w (row k mem.right)) v g mem.children).1
  ]

  told_forget :
      (now : Joins K) (k : K) (fact : ℕ) (p_type : PropagationType) (mem : HashedMem K) (v g : ℕ)
      → held (hashed_forget now k fact p_type mem).1 v g (degree v g mem.children)
        ≡ degree v g (hashed_forget now k fact p_type mem).0.children
  unfolding hashed_forget hashed_remove held
  told_forget now k fact assert mem v g = refl
  told_forget now k fact retract mem v g =
      (retract_pairs_lem (with_fact fact (row k mem.left)) v g mem.children).1
  told_forget now k fact modify mem v g = elim (Bool-cases (Set.contains fact (row k mem.right))) [
    | inl q ↦
        rw (q, hashed_forget)
          (retract_pairs_lem (with_fact fact (row k mem.left)) v g mem.children).1
    | inr q ↦ rw (q, hashed_forget) refl
  ]

  told_change :
      (now : Joins K) (k : K) (fact : ℕ) (p_type : PropagationType) (mem : HashedMem K) (v g : ℕ)
      → held (hashed_change now k fact p_type mem).1 v g (degree v g mem.children)
        ≡ degree v g (hashed_change now k fact p_type mem).0.children
  unfolding hashed_change hashed_store
  told_change now k fact p_type mem v g =
      let one = hashed_forget now k fact p_type mem in
      let two = assert_pairs now.joins (with_fact fact (row k one.0.left)) one.0.children in
      held-append one.1 two.1 v g (degree v g mem.children)
      ∙ ap (held two.1 v g) (told_forget now k fact p_type mem v g)
      ∙ (assert_pairs_lem now.joins (with_fact fact (row k one.0.left)) v g one.0.children).1

  told_right :
      (now : Joins K) (fact : ℕ) (p_type : PropagationType) (mem : HashedMem K) (v g : ℕ)
      → held (hashed_right_activate now fact p_type mem).1 v g (degree v g mem.children)
        ≡ degree v g (hashed_right_activate now fact p_type mem).0.children
  unfolding hashed_right_activate held is_retract
  told_right now fact p_type mem v g = elim (Option-cases (now.fact_key fact)) [
    | inl q ↦ rw (q, hashed_right_activate) refl
    | inr (k, q) ↦ elim (Bool-cases (is_retract p_type)) [
      | inl r ↦ rw (q, r, hashed_right_activate) (told_forget now k fact p_type mem v g)
      | inr r ↦ rw (q, r, hashed_right_activate) (told_change now k fact p_type mem v g)
    ]
  ]

  -- A call that a CrossProductJoinNode allows, whose hash keys stay and decide what joins.
  pub record HashedAllows (before : Joins K) (lt lf : ℕ → Bool) (c : Call K) : Type ℓ where
    pub cross : CrossAllows before lt lf c
    pub kept : KeepsKey before lf c
    pub keys : HasEqualKeys (read c)

  hashed_call-IsHashed :
      (before : Joins K) (lt lf : ℕ → Bool) (c : Call K) (mem : HashedMem K)
      → HashedAllows before lt lf c
      → IsHashed before lt lf mem
      → IsHashed (read c) (tokens_after c lt) (facts_after c lf) (hashed_call c mem).0
        × ((w f : ℕ)
            → held (hashed_call c mem).1 w f (degree w f mem.children)
              ≡ degree w f (hashed_call c mem).0.children)
  unfolding hashed_call IsFair IsNew KeepsKey read tokens_after facts_after
  hashed_call-IsHashed before lt lf (token_enters now w) mem a c = (
    enters before now lt lf mem c.keys a.keys c w a.cross.fair.0 a.cross.fair.1,
    λ v g. told_left now w false mem v g,
  )
  hashed_call-IsHashed before lt lf (token_leaves now w) mem a c = (
    leaves before now lt lf mem c.keys a.keys c w a.kept a.cross.fair,
    λ v g. told_left now w true mem v g,
  )
  hashed_call-IsHashed before lt lf (fact_changes now f assert) mem a c = (
    changes before now lt lf mem c.keys a.keys c f a.kept a.cross.fair assert (λ k. a.cross.new),
    λ v g. told_right now f assert mem v g,
  )
  hashed_call-IsHashed before lt lf (fact_changes now f retract) mem a c = (
    changes before now lt lf mem c.keys a.keys c f a.kept a.cross.fair retract
        (λ k. absurd (retract≢assert k)),
    λ v g. told_right now f retract mem v g,
  )
  hashed_call-IsHashed before lt lf (fact_changes now f modify) mem a c = (
    changes before now lt lf mem c.keys a.keys c f a.kept a.cross.fair modify
        (λ k. absurd (modify≢assert k)),
    λ v g. told_right now f modify mem v g,
  )

  empty-IsHashed : IsHashed blank nothing nothing empty_hashed
  unfolding count degree row Map.find nothing
  empty-IsHashed = record {
    keys = record { equal = λ w f j. cc };
    left = record { bucket = λ x k. refl };
    right = record { bucket = λ x k. refl };
    joined = λ w f. refl;
  }

  hashed_refines :
      (cs : List (Call K)) (w f : ℕ)
      → AreAllowed HashedAllows blank nothing nothing cs
      → held (run_calls hashed_call cs empty_hashed).1 w f 0 ≡ (
          if all_tokens cs nothing w && (all_facts cs nothing f && (read_last cs blank).joins w f)
          then 1
          else 0)
  unfolding degree count row Map.find
  hashed_refines cs w f a =
      let (c, h) =
        run_calls-induction hashed_call (λ m. m.children) HashedAllows IsHashed hashed_call-IsHashed
          cs blank nothing nothing empty_hashed a empty-IsHashed in
      h w f ∙ c.joined w f

  cross_allowed :
      (cs : List (Call K)) (before : Joins K) (lt lf : ℕ → Bool)
      → AreAllowed HashedAllows before lt lf cs
      → AreAllowed CrossAllows before lt lf cs
  unfolding AreAllowed
  cross_allowed [] before lt lf a = tt
  cross_allowed (c ∷ cs) before lt lf a = (a.0.cross, cross_allowed cs _ _ _ a.1)

  -- After every history of calls on empty nodes that HashedAllows allows, the children of a
  -- HashedJoinNode hold the same tokens, and as often, as those of a CrossProductJoinNode. It allows
  -- a history where a call leaves other live items as they were, a token enters and a fact is
  -- asserted only while it is out, what is changed keeps the hash key that it was stored under, and
  -- a token and a fact that join have a hash key and the same one.
  pub hashed_equiv_cross :
      (cs : List (Call K)) (w f : ℕ)
      → AreAllowed HashedAllows blank nothing nothing cs
      → held (run_calls hashed_call cs empty_hashed).1 w f 0
        ≡ held (run_calls cross_call cs empty_cross).1 w f 0
  hashed_equiv_cross cs w f a =
      hashed_refines cs w f a
      ∙ sym (cross_refines cs w f (cross_allowed cs blank nothing nothing a))
