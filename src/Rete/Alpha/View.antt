-- ===== src/Rete/Alpha/View.antt =====
-- About what an AlphaNode's children hold over a sequence of changes to the facts
-- (rulesforge/src/rete/rete_node.cpp).
use rules_forge.Prelude.{
  ℕ, ◌≡◌, Bool, true, false, Option, none, some, List, ◌&&◌, ◌==◌, ==_iff, if◌then◌else◌, arith,
  refl,
}
use rules_forge.Prelude.Eq.{nat_eq}
use rules_forge.Prelude.Set
use rules_forge.Prelude.Set.{contains-insert, contains-erase}
use rules_forge.Rete.{
  PropagationType, assert, retract, modify, receive_all, receive, is_expected, are_expected, tell,
}
use rules_forge.Rete.Alpha.{right_activate, recheck, leave, forwarded}

-- One activation of the node, with the check on the facts as they are at that time.
pub record Change : Type 0 where
  pub fact : ℕ
  pub p_type : PropagationType
  pub check : ℕ → Bool
  pub affected : Bool

-- The facts that the engine holds, after a change.
unfoldable pub alive : PropagationType → ℕ → (ℕ → Bool) → ℕ → Bool
alive assert fact live g = if fact == g then true else live g
alive retract fact live g = if fact == g then false else live g
alive modify fact live g = live g

unfoldable pub is_modify : PropagationType → Bool
is_modify assert = false
is_modify retract = false
is_modify modify = true

unfoldable pub is_retract : PropagationType → Bool
is_retract assert = false
is_retract retract = true
is_retract modify = false

-- A change writes the fields of its own fact only; an update is of a fact that is held; and the
-- check of a fact stays as it was where the update changed no field that it reads.
pub record IsFair (live check : ℕ → Bool) (c : Change) : Type 0 where
  pub frame : (g : ℕ) → (c.fact == g) ≡ false → c.check g ≡ check g
  pub held : is_modify c.p_type ≡ true → live c.fact ≡ true
  pub unread : c.affected ≡ false → c.check c.fact ≡ check c.fact

-- The node holds the facts that are live and pass.
unfoldable pub Agrees : (live check : ℕ → Bool) → List ℕ → Type 0
Agrees live check passing = (g : ℕ) → Set.contains g passing ≡ (live g && check g)

recheck-passing :
    (check : ℕ → Bool) (p_type : PropagationType) (fact g : ℕ) (passing : List ℕ)
    → Set.contains g (recheck check p_type fact passing).0
      ≡ (if fact == g then check g else Set.contains g passing)
unfolding recheck leave
recheck-passing check p_type fact g passing =
    ground (arith, contains-insert fact g passing, contains-erase fact g passing, ==_iff fact g)

leave-passing :
    (fact g : ℕ) (passing : List ℕ)
    → Set.contains g (leave fact passing).0 ≡ (if fact == g then false else Set.contains g passing)
unfolding leave
leave-passing fact g passing = ground (arith, contains-erase fact g passing, ==_iff fact g)

activated :
    (live check : ℕ → Bool) (p_type : PropagationType) (fact : ℕ) (check' : ℕ → Bool)
    (affected : Bool) (passing : List ℕ) (g : ℕ)
    → ((fact == g) ≡ false → check' g ≡ check g)
    → (is_modify p_type ≡ true → live fact ≡ true)
    → (affected ≡ false → check' fact ≡ check fact)
    → Set.contains g passing ≡ (live g && check g)
    → Set.contains g (right_activate check' affected (some fact) p_type passing).0
      ≡ (alive p_type fact live g && check' g)
unfolding alive right_activate is_modify
activated live check assert fact check' affected passing g frame held unread h =
    ground (arith, recheck-passing check' assert fact g passing, ==_iff fact g)
activated live check retract fact check' affected passing g frame held unread h =
    ground (arith, leave-passing fact g passing, ==_iff fact g)
activated live check modify fact check' affected passing g frame held unread h =
    ground (arith, recheck-passing check' modify fact g passing, ==_iff fact g)

pub right_activate-Agrees :
    (live check : ℕ → Bool) (c : Change) (passing : List ℕ)
    → IsFair live check c
    → Agrees live check passing
    → Agrees
        (alive c.p_type c.fact live)
        c.check
        (right_activate c.check c.affected (some c.fact) c.p_type passing).0
unfolding Agrees
right_activate-Agrees live check c passing f h g =
    activated live check c.p_type c.fact c.check c.affected passing g (f.frame g) f.held f.unread
      (h g)

recheck-told :
    (check : ℕ → Bool) (p_type : PropagationType) (fact : ℕ) (passing : List ℕ)
    → is_retract p_type ≡ false
    → (receive_all (recheck check p_type fact passing).1 passing
        ≡ (recheck check p_type fact passing).0)
      × (are_expected (recheck check p_type fact passing).1 passing ≡ true)
unfolding recheck leave receive_all receive are_expected is_expected tell forwarded Set.insert
    is_retract
recheck-told check assert fact passing h = ground arith
recheck-told check retract fact passing h = cc
recheck-told check modify fact passing h = ground arith

-- A child that held what passes holds what passes, and expects each message.
pub right_activate-told :
    (check : ℕ → Bool) (affected : Bool) (fact : Option ℕ) (p_type : PropagationType)
    (passing : List ℕ)
    → (receive_all (right_activate check affected fact p_type passing).1 passing
        ≡ (right_activate check affected fact p_type passing).0)
      × (are_expected (right_activate check affected fact p_type passing).1 passing ≡ true)
unfolding right_activate leave receive_all receive are_expected is_expected tell is_retract
    Set.insert
right_activate-told check affected none p_type passing = (refl, refl)
right_activate-told check affected (some fact) assert passing =
    recheck-told check assert fact passing refl
right_activate-told check affected (some fact) retract passing = ground arith
right_activate-told check affected (some fact) modify passing =
    ground (arith, recheck-told check modify fact passing refl)
