-- ===== src/Rete/Join/Batch.antt =====
-- About CrossProductJoinNode::right_activate_batch and its deferral until flush_pending
-- (rulesforge/src/rete/rete_node.cpp).
use rules_forge.Prelude.{
  ℕ, zero, suc, ◌+◌, ◌≡◌, Bool, true, false, not, List, [], ◌∷◌, ◌++◌, if◌then◌else◌,
}
use rules_forge.Prelude.Eq.{nat_eq}
use rules_forge.Prelude.Map
use rules_forge.Prelude.Vector.{count}
use rules_forge.Rete.{assert}
use rules_forge.Rete.Index.{row}
use rules_forge.Rete.Alpha.{insert_all}
use rules_forge.Rete.Join.{
  JoinMessage, Children, CrossMem, with_token, assert_pairs, cross_right_activate,
}
use rules_forge.Rete.Join.Pairs.{degree, held}

-- `mem.left_to_children[token.wme]`, which makes the row.
unfoldable pub make_row : ℕ → Children → Children
make_row wme t = Map.insert wme (row wme t) t

unfoldable pub cross_batch_loop :
    (ℕ → ℕ → Bool) → List ℕ → List ℕ → Children → Children × List JoinMessage
unfolding make_row
cross_batch_loop joins facts [] t = (t, [])
cross_batch_loop joins facts (wme ∷ wmes) t =
    let (t', told) = assert_pairs joins (with_token wme facts) (make_row wme t) in
    let (end, rest) = cross_batch_loop joins facts wmes t' in (end, told ++ rest)

unfoldable pub cross_right_activate_batch :
    (ℕ → ℕ → Bool) → List ℕ → CrossMem → CrossMem × List JoinMessage
unfolding cross_batch_loop
cross_right_activate_batch joins facts mem =
    let (t, told) = cross_batch_loop joins facts mem.left mem.children in
    (record mem { right = insert_all facts mem.right; children = t }, told)

unfoldable pub cross_right_activate_batch_deferred : List ℕ → CrossMem → CrossMem
cross_right_activate_batch_deferred facts mem = record mem {
  pending_facts = mem.pending_facts ++ facts;
  dirty = true;
}

unfoldable pub cross_flush_pending : (ℕ → ℕ → Bool) → CrossMem → CrossMem × List JoinMessage
unfolding cross_right_activate_batch
cross_flush_pending joins mem =
    if not mem.dirty
    then (mem, [])
    else cross_right_activate_batch joins mem.pending_facts
        (record mem { pending_facts = []; dirty = false })

-- The facts one by one.
unfoldable pub assert_each : (ℕ → ℕ → Bool) → List ℕ → CrossMem → CrossMem × List JoinMessage
assert_each joins [] mem = (mem, [])
assert_each joins (fact ∷ facts) mem =
    let (mem', told) = cross_right_activate joins fact assert mem in
    let (end, rest) = assert_each joins facts mem' in (end, told ++ rest)

times : ℕ → ℕ → ℕ
times zero n = 0
times (suc m) n = n + times m n

-- What a loop does to the children of a pair, and tells of it.
abbrev Adds : (ℕ → ℕ → Bool) → ℕ → ℕ → ℕ → Children → Children → List JoinMessage → Type 0
Adds joins w f n t end told =
    (degree w f end ≡ (if joins w f then degree w f t + n else degree w f t))
    × (held told w f (degree w f t) ≡ degree w f end)

record Told (joins : ℕ → ℕ → Bool) (facts : List ℕ) (mem end : CrossMem) (told : List JoinMessage)
    : Type 0 where
  pub left : end.left ≡ mem.left
  pub right : end.right ≡ insert_all facts mem.right
  pub adds :
      (w f : ℕ)
      → Adds joins w f (times (count w mem.left) (count f facts)) mem.children end.children told

-- Two ways to the same memory: its rows as they count, and a child that held each pair as often
-- as the node did.
unfoldable pub AreAlike :
    Children → CrossMem × List JoinMessage → CrossMem × List JoinMessage → Type 0
AreAlike t x y =
    (x.0.left ≡ y.0.left)
    × (x.0.right ≡ y.0.right)
    × ((w f : ℕ) → degree w f x.0.children ≡ degree w f y.0.children)
    × ((w f : ℕ) → held x.1 w f (degree w f t) ≡ held y.1 w f (degree w f t))
