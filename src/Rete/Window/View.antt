-- ===== src/Rete/Window/View.antt =====
-- About the facts of a WindowNode and what its children hold (rulesforge/src/rete/rete_node.cpp).
use rules_forge.Prelude.{
  ℕ, ◌+◌, ◌-◌, ◌≤◌, ◌≡◌, refl, Bool, true, false, List, [], ◌∷◌, ◌++◌, ◌==◌, ◌&&◌, ltb,
  if◌then◌else◌, arith, ==_iff, Option-cases, inl, inr, ◌∙◌, ap,
}
use rules_forge.Prelude.Int.{ℤ}
use rules_forge.Prelude.Eq.{nat_eq}
use rules_forge.Prelude.Set.{contains-insert, contains-erase}
use rules_forge.Prelude.Set
use rules_forge.Prelude.Vector.{count, count-append, contains-count}
use rules_forge.Rete.{
  PropagationType, assert, retract, modify, Message, tell, tell_all, receive, receive_all,
}
use rules_forge.Rete.Messages.{receive_all-append}
use rules_forge.Rete.Window.{
  ParsedWindow, length_window, time_window, Times, insert_by_time, place, expire_length,
  expire_time, expire, evaluate_expiration, erase_first, enter, leave, refresh, right_activate,
}

count-insert_by_time :
    (t : Times) (fact g : ℕ) (facts : List ℕ)
    → count g (insert_by_time t fact facts) ≡ count g (fact ∷ facts)
unfolding insert_by_time count
count-insert_by_time t fact g [] = refl
count-insert_by_time t fact g (x ∷ xs) = ground (arith, count-insert_by_time t fact g xs)

count-place :
    (w : ParsedWindow) (t : Times) (fact g : ℕ) (facts : List ℕ)
    → count g (place w t fact facts) ≡ count g (fact ∷ facts)
unfolding place count
count-place (length_window size) t fact g facts = ground (arith, count-append g facts (fact ∷ []))
count-place (time_window size) t fact g facts = count-insert_by_time t fact g facts

count-expire_length :
    (size g : ℕ) (facts : List ℕ)
    → count g (expire_length size facts).0 + count g (expire_length size facts).1 ≡ count g facts
unfolding expire_length count
count-expire_length size g [] = omega arith
count-expire_length size g (x ∷ xs) = ground (arith, count-expire_length size g xs)

count-expire_time :
    (size now : ℤ) (t : Times) (g : ℕ) (facts : List ℕ)
    → count g (expire_time size now t facts).0 + count g (expire_time size now t facts).1
      ≡ count g facts
unfolding expire_time count
count-expire_time size now t g [] = omega arith
count-expire_time size now t g (x ∷ xs) = ground (arith, count-expire_time size now t g xs)

count-expire :
    (w : ParsedWindow) (t : Times) (g : ℕ) (facts : List ℕ)
    → count g (expire w t facts).0 + count g (expire w t facts).1 ≡ count g facts
unfolding expire count
count-expire (length_window size) t g facts = count-expire_length size g facts
count-expire (time_window size) t g facts = elim (Option-cases t.current_time) [
  | inl q ↦ rw (q, expire) (omega arith)
  | inr (now, q) ↦ rw (q, expire) (count-expire_time size now t g facts)
]

receive-tell_all :
    (xs view : List ℕ) (g : ℕ)
    → Set.contains g (receive_all (tell_all retract xs) view)
      ≡ (if ltb 0 (count g xs) then false else Set.contains g view)
unfolding receive_all tell_all tell receive count
receive-tell_all [] view g = ground arith
receive-tell_all (x ∷ xs) view g =
    ground (arith, receive-tell_all xs (Set.erase x view) g, contains-erase x g view)

count-erase_first :
    (a g : ℕ) (xs : List ℕ)
    → count g (erase_first a xs) ≡ (if a == g then count g xs - 1 else count g xs)
unfolding erase_first count
count-erase_first a g [] = ground arith
count-erase_first a g (x ∷ xs) = ground (arith, count-erase_first a g xs, ==_iff a g, ==_iff x a)

-- The child holds the facts of the window, each of which stands once.
pub record Tracks (view facts : List ℕ) : Type 0 where
  pub same : (g : ℕ) → Set.contains g view ≡ Set.contains g facts
  pub once : (g : ℕ) → count g facts ≤ 1

receive-tell :
    (b : Bool) (fact g : ℕ) (view : List ℕ)
    → Set.contains g (receive_all (if b then tell assert fact else []) view)
      ≡ (if b && (fact == g) then true else Set.contains g view)
unfolding receive_all tell receive
receive-tell b fact g view = ground (arith, contains-insert fact g view, ==_iff fact g)

enter-same :
    (w : ParsedWindow) (t : Times) (fact : ℕ) (facts view : List ℕ) (g : ℕ)
    → Set.contains fact facts ≡ false
    → Tracks view facts
    → Set.contains g (receive_all (enter w t fact facts).1 view)
      ≡ Set.contains g (enter w t fact facts).0
unfolding enter evaluate_expiration count
enter-same w t fact facts view g n k =
    let out = expire w t (place w t fact facts) in
    let tail = (if Set.contains fact out.0 then tell assert fact else []) in
    ap (λ v. Set.contains g v) (receive_all-append (tell_all retract out.1) tail view)
    ∙ ground (
      arith,
      receive-tell (Set.contains fact out.0) fact g (receive_all (tell_all retract out.1) view),
      receive-tell_all out.1 view g,
      count-expire w t g (place w t fact facts),
      count-place w t fact g facts,
      contains-count g out.0,
      contains-count g facts,
      k.same g,
      k.once g,
      ==_iff fact g,
    )

enter-Tracks :
    (w : ParsedWindow) (t : Times) (fact : ℕ) (facts view : List ℕ)
    → Set.contains fact facts ≡ false
    → Tracks view facts
    → Tracks (receive_all (enter w t fact facts).1 view) (enter w t fact facts).0
unfolding enter evaluate_expiration count
enter-Tracks w t fact facts view n k = record {
  same = λ g. enter-same w t fact facts view g n k;
  once = λ g. ground (
    arith,
    count-expire w t g (place w t fact facts),
    count-place w t fact g facts,
    contains-count fact facts,
    k.once g,
    ==_iff fact g,
  );
}

leave-Tracks :
    (fact : ℕ) (facts view : List ℕ)
    → Tracks view facts
    → Tracks (receive_all (leave fact facts).1 view) (leave fact facts).0
unfolding leave receive_all receive tell
leave-Tracks fact facts view k = record {
  same = λ g. ground (
    arith,
    k.same g,
    k.once g,
    contains-erase fact g view,
    count-erase_first fact g facts,
    contains-count g facts,
    contains-count g (erase_first fact facts),
    ==_iff fact g,
  );
  once = λ g. ground (arith, k.once g, count-erase_first fact g facts);
}

expire-Tracks :
    (w : ParsedWindow) (t : Times) (facts view : List ℕ)
    → Tracks view facts
    → Tracks (receive_all (evaluate_expiration w t facts).1 view) (evaluate_expiration w t facts).0
unfolding evaluate_expiration
expire-Tracks w t facts view k = record {
  same = λ g. ground (
    arith,
    receive-tell_all (expire w t facts).1 view g,
    count-expire w t g facts,
    contains-count g (expire w t facts).0,
    contains-count g facts,
    k.same g,
    k.once g,
  );
  once = λ g. ground (arith, count-expire w t g facts, k.once g);
}

modified-Tracks :
    (fact : ℕ) (view facts : List ℕ)
    → Set.contains fact facts ≡ true
    → Tracks view facts
    → Tracks (receive_all (tell modify fact) view) facts
unfolding receive_all tell receive
modified-Tracks fact view facts l k = record {
  same = λ g. ground (arith, k.same g, l, contains-insert fact g view, ==_iff fact g);
  once = k.once;
}

refresh-Tracks :
    (w : ParsedWindow) (t : Times) (fact : ℕ) (facts view : List ℕ)
    → Set.contains fact (refresh w t fact facts).0 ≡ true
    → Tracks view facts
    → Tracks (receive_all (refresh w t fact facts).1 view) (refresh w t fact facts).0
unfolding refresh
refresh-Tracks w t fact facts view l k =
    let one = evaluate_expiration w t facts in
    rw (receive_all-append one.1 (tell modify fact) view)
      (modified-Tracks fact _ _ l (expire-Tracks w t facts view k))

-- A call of the node with the times at that point.
pub record WindowCall : Type 0 where
  pub times : Times
  pub fact : ℕ
  pub p_type : PropagationType

unfoldable pub run : ParsedWindow → List WindowCall → List ℕ → List ℕ × List Message
run w [] facts = (facts, [])
run w (c ∷ cs) facts =
    let (facts', told) = right_activate w c.times c.fact c.p_type facts in
    let (end, rest) = run w cs facts' in (end, told ++ rest)

-- A fact is asserted only while it is not in the window, and updated only while it stays in it.
unfoldable pub Suits : ParsedWindow → Times → ℕ → PropagationType → List ℕ → Type 0
Suits w t fact assert facts = Set.contains fact facts ≡ false
Suits w t fact retract facts = Unit
Suits w t fact modify facts = Set.contains fact (refresh w t fact facts).0 ≡ true

unfoldable pub AreSuited : ParsedWindow → List WindowCall → List ℕ → Type 0
AreSuited w [] facts = Unit
AreSuited w (c ∷ cs) facts =
    Suits w c.times c.fact c.p_type facts
    × AreSuited w cs (right_activate w c.times c.fact c.p_type facts).0

right_activate-Tracks :
    (w : ParsedWindow) (t : Times) (fact : ℕ) (p_type : PropagationType) (facts view : List ℕ)
    → Suits w t fact p_type facts
    → Tracks view facts
    → Tracks
        (receive_all (right_activate w t fact p_type facts).1 view)
        (right_activate w t fact p_type facts).0
unfolding right_activate Suits
right_activate-Tracks w t fact assert facts view n k = enter-Tracks w t fact facts view n k
right_activate-Tracks w t fact retract facts view n k = leave-Tracks fact facts view k
right_activate-Tracks w t fact modify facts view n k = refresh-Tracks w t fact facts view n k

-- After any calls on a WindowNode, where a fact is asserted only while it is not in the window and
-- updated only while it stays in it, a child that held the facts of the window, and that adds a fact
-- that it is told is modified, holds them still, and each stands in the window once.
pub run-Tracks :
    (w : ParsedWindow) (cs : List WindowCall) (facts view : List ℕ)
    → AreSuited w cs facts
    → Tracks view facts
    → Tracks (receive_all (run w cs facts).1 view) (run w cs facts).0
unfolding run AreSuited receive_all
run-Tracks w [] facts view n k = k
run-Tracks w (c ∷ cs) facts view n k =
    let one = right_activate w c.times c.fact c.p_type facts in
    rw (receive_all-append one.1 (run w cs one.0).1 view) (
      run-Tracks w cs one.0 (receive_all one.1 view) n.1
        (right_activate-Tracks w c.times c.fact c.p_type facts view n.0 k))
