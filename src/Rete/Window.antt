-- ===== src/Rete/Window.antt =====
-- WindowNode (rulesforge/src/rete/rete_node.cpp): the facts of a sliding window, the oldest first.
-- Times are integers, and their difference wraps to 64 bits; a negative length stands for the large one that
-- its cast gives. The memory slot is initialized. std::upper_bound is the first place that its test holds at.
pub mod View
pub mod Bounds
mod Tests
use rules_forge.Prelude.{
  ℕ, suc, ◌+◌, Bool, true, false, Option, none, some, List, [], ◌∷◌, ◌++◌, ◌==◌, ltb, length,
  if◌then◌else◌,
}
use rules_forge.Prelude.Int.{ℤ, pos, ltb_ℤ, ◌-ℤ◌, wrap_int64}
use rules_forge.Prelude.Eq.{nat_eq}
use rules_forge.Prelude.Set
use rules_forge.Rete.{PropagationType, assert, retract, modify, Message, tell, tell_all}

pub data ParsedWindow : Type 0 where
  length_window : ℕ → ParsedWindow
  time_window : ℤ → ParsedWindow

-- What the node reads: fact_event_time, an integer field "timestamp", and the time now, none where
-- the session is in event-time mode and has no watermark.
pub record Times : Type 0 where
  pub event_time : ℕ → Option ℤ
  pub timestamp : ℕ → Option ℤ
  pub current_time : Option ℤ

-- std::numeric_limits<int64_t>::max()
abbrev pub int64_max : ℤ
int64_max = pos 9_223_372_036_854_775_807

unfoldable pub time_or : ℤ → Times → ℕ → ℤ
time_or absent t fact = elim (t.event_time fact) [
  | some time ↦ time
  | none ↦ elim (t.timestamp fact) [ some time ↦ time | none ↦ absent ]
]

unfoldable pub insert_by_time : Times → ℕ → List ℕ → List ℕ
unfolding time_or
insert_by_time t fact [] = fact ∷ []
insert_by_time t fact (x ∷ xs) =
    let rest = insert_by_time t fact xs in
    if ltb_ℤ (time_or int64_max t fact) (time_or int64_max t x) then fact ∷ x ∷ xs else x ∷ rest

unfoldable pub place : ParsedWindow → Times → ℕ → List ℕ → List ℕ
unfolding insert_by_time
place (length_window size) t fact facts = facts ++ fact ∷ []
place (time_window size) t fact facts = insert_by_time t fact facts

-- The facts that stay, and those that expire, in order.
unfoldable pub expire_length : ℕ → List ℕ → List ℕ × List ℕ
expire_length size [] = ([], [])
expire_length size (x ∷ xs) =
    let (kept, expired) = expire_length size xs in
    if ltb size (length (x ∷ xs)) then (kept, x ∷ expired) else (x ∷ xs, [])

unfoldable pub is_expired : ℤ → ℤ → Times → ℕ → Bool
unfolding time_or
is_expired size now t x = ltb_ℤ size (wrap_int64 (now -ℤ time_or now t x))

unfoldable pub expire_time : ℤ → ℤ → Times → List ℕ → List ℕ × List ℕ
unfolding is_expired
expire_time size now t [] = ([], [])
expire_time size now t (x ∷ xs) =
    let (kept, expired) = expire_time size now t xs in
    if is_expired size now t x then (kept, x ∷ expired) else (x ∷ xs, [])

unfoldable pub expire : ParsedWindow → Times → List ℕ → List ℕ × List ℕ
unfolding expire_length expire_time
expire (length_window size) t facts = expire_length size facts
expire (time_window size) t facts = elim t.current_time [
  | none ↦ (facts, [])
  | some now ↦ expire_time size now t facts
]

-- evaluate_expiration: the facts that stay, the messages, and the count.
unfoldable pub evaluate_expiration : ParsedWindow → Times → List ℕ → List ℕ × List Message × ℕ
unfolding expire tell_all
evaluate_expiration w t facts =
    let (kept, expired) = expire w t facts in (kept, tell_all retract expired, length expired)

-- `mem.facts.erase(position)`, the first.
unfoldable pub erase_first : ℕ → List ℕ → List ℕ
erase_first a [] = []
erase_first a (x ∷ xs) = let rest = erase_first a xs in if x == a then xs else x ∷ rest

unfoldable pub enter : ParsedWindow → Times → ℕ → List ℕ → List ℕ × List Message
unfolding place evaluate_expiration tell
enter w t fact facts =
    let (kept, told, expired) = evaluate_expiration w t (place w t fact facts) in
    (kept, told ++ (if Set.contains fact kept then tell assert fact else []))

unfoldable pub leave : ℕ → List ℕ → List ℕ × List Message
unfolding erase_first tell
leave fact facts =
    if Set.contains fact facts then (erase_first fact facts, tell retract fact) else (facts, [])

unfoldable pub refresh : ParsedWindow → Times → ℕ → List ℕ → List ℕ × List Message
unfolding evaluate_expiration tell
refresh w t fact facts =
    let (kept, told, expired) = evaluate_expiration w t facts in (kept, told ++ tell modify fact)

unfoldable pub right_activate :
    ParsedWindow → Times → ℕ → PropagationType → List ℕ → List ℕ × List Message
unfolding enter leave refresh
right_activate w t fact assert facts = enter w t fact facts
right_activate w t fact retract facts = leave fact facts
right_activate w t fact modify facts = refresh w t fact facts
