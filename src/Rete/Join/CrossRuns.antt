-- ===== src/Rete/Join/CrossRuns.antt =====
-- About CrossProductJoinNode over whole histories of calls
-- (rulesforge/src/rete/rete_node.cpp).
use rules_forge.Prelude.{
  ℕ, ◌≡◌, ◌≢◌, refl, Bool, true, false, List, [], ◌&&◌, if◌then◌else◌, arith, ==_iff, ◌∙◌,
}
use rules_forge.Prelude.Eq.{nat_eq}
use rules_forge.Prelude.Map
use rules_forge.Rete.Index.{row}
use rules_forge.Prelude.Vector.{count}
use rules_forge.Rete.{assert, retract, modify}
use rules_forge.Rete.Condition.{Joins, is_retract}
use rules_forge.Rete.Condition.Steps.{nothing}
use rules_forge.Rete.Calls.{
  Call, token_enters, token_leaves, fact_changes, read, tokens_after, facts_after, read_last,
  all_tokens, all_facts, IsFair, blank,
}
use rules_forge.Rete.Join.{JoinMessage, CrossMem, cross_left_activate, cross_right_activate}
use rules_forge.Rete.Join.Pairs.{degree, held}
use rules_forge.Rete.Join.Runs.{IsNew, AreAllowed, run_calls, run_calls-induction}
use rules_forge.Rete.Join.Cross.{IsCross, enters, leaves, stores, removes}
use rules_forge.Rete.Join.Told.{told_left, told_right}

modify≢assert : modify ≢ assert
modify≢assert e = cc

abbrev pub empty_cross : CrossMem
empty_cross = record { left = []; right = []; children = []; pending_facts = []; dirty = false }

module _ {ℓ} {K : Type ℓ} where
  unfoldable pub cross_call : Call K → CrossMem → CrossMem × List JoinMessage
  cross_call (token_enters now w) mem = cross_left_activate now.joins w false mem
  cross_call (token_leaves now w) mem = cross_left_activate now.joins w true mem
  cross_call (fact_changes now f p_type) mem = cross_right_activate now.joins f p_type mem

  -- A call that leaves other live items as they were; a token enters, and a fact is asserted, only
  -- while it is out.
  pub record CrossAllows (before : Joins K) (lt lf : ℕ → Bool) (c : Call K) : Type ℓ where
    pub fair : IsFair before lt lf c
    pub new : IsNew lf c

  cross_call-IsCross :
      (before : Joins K) (lt lf : ℕ → Bool) (c : Call K) (mem : CrossMem)
      → CrossAllows before lt lf c
      → IsCross before lt lf mem
      → IsCross (read c) (tokens_after c lt) (facts_after c lf) (cross_call c mem).0
        × ((w f : ℕ)
            → held (cross_call c mem).1 w f (degree w f mem.children)
              ≡ degree w f (cross_call c mem).0.children)
  unfolding cross_call IsFair IsNew read tokens_after facts_after cross_right_activate is_retract
  cross_call-IsCross before lt lf (token_enters now w) mem a c = (
    enters before now lt lf w mem a.fair.0 a.fair.1 c,
    λ v g. told_left now.joins w false mem v g,
  )
  cross_call-IsCross before lt lf (token_leaves now w) mem a c =
      (leaves before now lt lf w mem a.fair c, λ v g. told_left now.joins w true mem v g)
  cross_call-IsCross before lt lf (fact_changes now f assert) mem a c = (
    stores before now lt lf f assert mem refl (λ g e k. ground (arith, a.new, ==_iff f g)) a.fair c,
    λ v g. told_right now.joins f assert mem v g,
  )
  cross_call-IsCross before lt lf (fact_changes now f retract) mem a c =
      (removes before now lt lf f mem a.fair c, λ v g. told_right now.joins f retract mem v g)
  cross_call-IsCross before lt lf (fact_changes now f modify) mem a c = (
    stores before now lt lf f modify mem refl (λ g e k. absurd (modify≢assert k)) a.fair c,
    λ v g. told_right now.joins f modify mem v g,
  )

  empty-IsCross : IsCross {K = K} blank nothing nothing empty_cross
  unfolding count degree row Map.find nothing
  empty-IsCross = record { left = λ w. refl; right = λ f. refl; joined = λ w f. refl }

  -- After every history of calls on an empty CrossProductJoinNode that CrossAllows allows, a child
  -- that counts the tokens that it is told holds one token for each live token and live fact that
  -- join, as they were at the last call, and none for any other pair.
  pub cross_refines :
      (cs : List (Call K)) (w f : ℕ)
      → AreAllowed CrossAllows blank nothing nothing cs
      → held (run_calls cross_call cs empty_cross).1 w f 0 ≡ (
          if all_tokens cs nothing w && (all_facts cs nothing f && (read_last cs blank).joins w f)
          then 1
          else 0)
  unfolding degree count row Map.find
  cross_refines cs w f a =
      let (c, h) =
        run_calls-induction cross_call (λ m. m.children) CrossAllows IsCross cross_call-IsCross cs
          blank nothing nothing empty_cross a empty-IsCross in
      h w f ∙ c.joined w f
