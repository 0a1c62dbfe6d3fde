-- ===== src/Rete/Join/Hashed.antt =====
-- About HashedJoinNode (rulesforge/src/rete/rete_node.cpp).
use rules_forge.Prelude.{
  ℕ, ◌≡◌, refl, Bool, true, false, Option, none, some, List, [], ◌∷◌, ◌==◌, ◌&&◌, ◌++◌,
  if◌then◌else◌, arith, ==_iff, Bool-cases, Option-cases, inl, inr, ◌∙◌, sym,
}
use rules_forge.Prelude.Eq.{Eq, nat_eq}
use rules_forge.Prelude.Map.{Map}
use rules_forge.Prelude.Map
use rules_forge.Prelude.Vector.{count, count-append, count-remove}
use rules_forge.Rete.{assert, retract}
use rules_forge.Rete.Index.{row, leave_row, is_key, row-insert, row-leave_row}
use rules_forge.Rete.Condition.{Joins, is_retract}
use rules_forge.Rete.Condition.Steps.{present, nothing, Frame}
use rules_forge.Rete.Join.{HashedMem, with_token, hashed_leave, hashed_enter, hashed_left_activate}
use rules_forge.Rete.Join.Pairs.{degree, occurs-with_token, retract_pairs_lem, assert_pairs_lem}
use rules_forge.Rete.Join.Runs.{HasEqualKeys}

module _ {ℓ} {K : Type ℓ} ⦃e : Eq K⦄ where
  -- Each live item stands once in the bucket of its key, and in no other bucket.
  pub record IsBucketed (live : ℕ → Bool) (key : ℕ → Option K) (m : Map K (List ℕ)) : Type ℓ where
    pub bucket : (x : ℕ) (k : K) → count x (row k m) ≡ (if live x && is_key k (key x) then 1 else 0)

  pub entered :
      (live : ℕ → Bool) (key : ℕ → Option K) (x : ℕ) (k : K) (m : Map K (List ℕ))
      → key x ≡ some k
      → live x ≡ false
      → IsBucketed live key m
      → IsBucketed (λ y. if x == y then true else live y) key (Map.insert k (row k m ++ x ∷ []) m)
  unfolding is_key count
  entered live key x k m q n b = record {
    bucket = λ y j. ground (
      arith,
      b.bucket y j,
      b.bucket y k,
      row-insert k j (row k m ++ x ∷ []) m,
      count-append y (row k m) (x ∷ []),
      e.beq_iff k j,
      ==_iff x y,
    );
  }

  pub left_bucket :
      (live : ℕ → Bool) (key : ℕ → Option K) (x : ℕ) (k : K) (m : Map K (List ℕ))
      → key x ≡ some k
      → IsBucketed live key m
      → IsBucketed (λ y. if x == y then false else live y) key (leave_row k x m)
  unfolding is_key
  left_bucket live key x k m q b = record {
    bucket = λ y j. ground (
      arith,
      b.bucket y j,
      b.bucket y k,
      row-leave_row k j x m,
      count-remove x y (row k m),
      e.beq_iff k j,
      ==_iff x y,
    );
  }

  pub IsBucketed-same :
      (live live' : ℕ → Bool) (key key' : ℕ → Option K) (m : Map K (List ℕ))
      → ((x : ℕ) → live' x ≡ live x)
      → ((x : ℕ) → live x ≡ true → key' x ≡ key x)
      → IsBucketed live key m
      → IsBucketed live' key' m
  unfolding is_key
  IsBucketed-same live live' key key' m s k b = record {
    bucket = λ x j. ground (arith, b.bucket x j, s x, k x);
  }

  -- Each live pair that joins has one child, every other pair none.
  pub record IsHashed (now : Joins K) (live_tokens live_facts : ℕ → Bool) (mem : HashedMem K)
      : Type ℓ where
    pub keys : HasEqualKeys now
    pub left : IsBucketed live_tokens now.token_key mem.left
    pub right : IsBucketed live_facts now.fact_key mem.right
    pub joined :
        (w f : ℕ)
        → degree w f mem.children
          ≡ (if live_tokens w && (live_facts f && now.joins w f) then 1 else 0)

  -- An item without a key joins with nothing, and stands in no bucket.
  pub unkeyed_token :
      (now : Joins K) (w f : ℕ) → HasEqualKeys now → now.token_key w ≡ none → now.joins w f ≡ false
  unkeyed_token now w f h n = elim (Bool-cases (now.joins w f)) [
    | inl j ↦ let (k, q) = h.equal w f j in cc
    | inr j ↦ j
  ]

  pub unkeyed_fact :
      (now : Joins K) (w f : ℕ) → HasEqualKeys now → now.fact_key f ≡ none → now.joins w f ≡ false
  unkeyed_fact now w f h n = elim (Bool-cases (now.joins w f)) [
    | inl j ↦ let (k, q) = h.equal w f j in cc
    | inr j ↦ j
  ]

  -- A pair that joins is found in the bucket of the other's key.
  pub keyed_fact :
      (now : Joins K) (w f : ℕ) (i : K)
      → HasEqualKeys now
      → now.token_key w ≡ some i
      → now.joins w f ≡ true
      → is_key i (now.fact_key f) ≡ true
  unfolding is_key
  keyed_fact now w f i h p j = let (k, q) = h.equal w f j in ground (arith, q.0, q.1, e.beq_iff k i)

  pub keyed_token :
      (now : Joins K) (w f : ℕ) (i : K)
      → HasEqualKeys now
      → now.fact_key f ≡ some i
      → now.joins w f ≡ true
      → is_key i (now.token_key w) ≡ true
  unfolding is_key
  keyed_token now w f i h p j =
      let (k, q) = h.equal w f j in ground (arith, q.0, q.1, e.beq_iff k i)

  pub unkeyed :
      (live live' : ℕ → Bool) (key : ℕ → Option K) (x : ℕ) (m : Map K (List ℕ))
      → key x ≡ none
      → ((y : ℕ) → (x == y) ≡ false → live' y ≡ live y)
      → IsBucketed live key m
      → IsBucketed live' key m
  unfolding is_key
  unkeyed live live' key x m q s b = record {
    bucket = λ y j. ground (arith, b.bucket y j, s y, ==_iff x y);
  }

  module _ (before now : Joins K) (lt lf : ℕ → Bool) (mem : HashedMem K) (old : HasEqualKeys before)
      (new : HasEqualKeys now) (c : IsHashed before lt lf mem) where
    pub same_facts :
        (exempt : ℕ → Bool)
        → Frame before now lt lf exempt nothing
        → IsBucketed lf now.fact_key mem.right
    unfolding nothing
    same_facts exempt f =
        IsBucketed-same lf lf before.fact_key now.fact_key mem.right (λ x. refl)
          (λ x l. f.fact x l refl) c.right

    pub same_tokens :
        (exempt : ℕ → Bool)
        → Frame before now lt lf nothing exempt
        → IsBucketed lt now.token_key mem.left
    unfolding nothing
    same_tokens exempt f =
        IsBucketed-same lt lt before.token_key now.token_key mem.left (λ x. refl)
          (λ x l. f.token x l refl) c.left

    -- A live item that may have changed, under the key that it has now.
    other_tokens :
        (w : ℕ)
        → (lt w ≡ true → now.token_key w ≡ before.token_key w)
        → Frame before now lt lf (λ x. w == x) nothing
        → IsBucketed lt now.token_key mem.left
    other_tokens w s f =
        IsBucketed-same lt lt before.token_key now.token_key mem.left (λ x. refl)
          (λ x l. ground (arith, s, f.token x l, l, ==_iff w x)) c.left

    pub other_facts :
        (g : ℕ)
        → (lf g ≡ true → now.fact_key g ≡ before.fact_key g)
        → Frame before now lt lf nothing (λ x. g == x)
        → IsBucketed lf now.fact_key mem.right
    other_facts g s f =
        IsBucketed-same lf lf before.fact_key now.fact_key mem.right (λ x. refl)
          (λ x l. ground (arith, s, f.fact x l, l, ==_iff g x)) c.right

    pub enters :
        (w : ℕ)
        → lt w ≡ false
        → Frame before now lt lf (λ x. w == x) nothing
        → IsHashed now (present assert w lt) lf (hashed_left_activate now w false mem).0
    unfolding hashed_left_activate hashed_enter present is_retract nothing
    enters w n f = elim (Option-cases (now.token_key w)) [
      | inl q ↦
          rw (q, hashed_left_activate)
            (record {
              keys = new;
              left =
                  unkeyed lt _ now.token_key w mem.left q (λ y d. ground arith)
                    (other_tokens w (λ l. absurd (ground (arith, l))) f);
              right = same_facts _ f;
              joined = λ v g.
                  ground (arith, c.joined v g, f.pair v g, unkeyed_token now w g new q, ==_iff w v);
            })
      | inr (k, q) ↦
          rw (q, hashed_left_activate)
            (record {
              keys = new;
              left =
                  entered lt now.token_key w k mem.left q n
                    (other_tokens w (λ l. absurd (ground (arith, l))) f);
              right = same_facts _ f;
              joined = λ v g. ground (
                arith,
                (assert_pairs_lem now.joins (with_token w (row k mem.right)) v g mem.children).0,
                occurs-with_token w v g (row k mem.right),
                (same_facts _ f).bucket g k,
                c.joined v g,
                f.pair v g,
                keyed_fact now w g k new q,
                ==_iff w v,
              );
            })
    ]

    pub leaves :
        (w : ℕ)
        → now.token_key w ≡ before.token_key w
        → Frame before now lt lf (λ x. w == x) nothing
        → IsHashed now (present retract w lt) lf (hashed_left_activate now w true mem).0
    unfolding hashed_left_activate hashed_leave present is_retract nothing
    leaves w s f = elim (Option-cases (now.token_key w)) [
      | inl q ↦
          rw (q, hashed_left_activate)
            (record {
              keys = new;
              left =
                  unkeyed lt _ now.token_key w mem.left q (λ y d. ground arith)
                    (other_tokens w (λ l. s) f);
              right = same_facts _ f;
              joined = λ v g. ground (
                arith,
                c.joined v g,
                f.pair v g,
                unkeyed_token before w g old (sym s ∙ q),
                ==_iff w v,
              );
            })
      | inr (k, q) ↦
          rw (q, hashed_left_activate)
            (record {
              keys = new;
              left = left_bucket lt now.token_key w k mem.left q (other_tokens w (λ l. s) f);
              right = same_facts _ f;
              joined = λ v g. ground (
                arith,
                (retract_pairs_lem (with_token w (row k mem.right)) v g mem.children).0,
                occurs-with_token w v g (row k mem.right),
                c.right.bucket g k,
                c.joined v g,
                f.pair v g,
                keyed_fact before w g k old (sym s ∙ q),
                ==_iff w v,
              );
            })
    ]
