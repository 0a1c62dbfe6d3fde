-- ===== src/Prelude/Int.antt =====
-- Signed integers over the native numbers. Sums and orders go through the two parts of an
-- integer, which are numbers that `omega` reads.
use Prim.Native.Nat.{ℕ, suc, ◌+◌, ◌-◌, ◌≤◌, ◌<◌}
use mathlib.Core.Path.{◌≡◌}
use mathlib.Core.Bool.{Bool, true, ◌&&◌}
use mathlib.Core.Logic.{◌↔◌}
use native.Mathlib.Omega.{arith}
use rules_forge.Prelude.Tests.{ltb, leb, if◌then◌else◌}
use rules_forge.Prelude.Eq.{Eq}

-- `negsuc n` is -(n + 1).
pub data ℤ : Type 0 where
  pos : ℕ → ℤ
  negsuc : ℕ → ℤ

abbrev pub pos_part : ℤ → ℕ
pos_part (pos n) = n
pos_part (negsuc n) = 0

abbrev pub neg_part : ℤ → ℕ
neg_part (pos n) = 0
neg_part (negsuc n) = suc n

-- a - b, as an integer.
abbrev pub sub_ℕ : ℕ → ℕ → ℤ
sub_ℕ a b = if leb b a then pos (a - b) else negsuc (b - a - 1)

infixl 65 ◌+ℤ◌ ◌-ℤ◌
infix 50 ◌≤ℤ◌
unfoldable pub ◌+ℤ◌ : ℤ → ℤ → ℤ
a +ℤ b = sub_ℕ (pos_part a + pos_part b) (neg_part a + neg_part b)

unfoldable pub ◌-ℤ◌ : ℤ → ℤ → ℤ
a -ℤ b = sub_ℕ (pos_part a + neg_part b) (neg_part a + pos_part b)

abbrev pub ◌≤ℤ◌ : ℤ → ℤ → Type 0
a ≤ℤ b = pos_part a + neg_part b ≤ pos_part b + neg_part a

abbrev pub ltb_ℤ : ℤ → ℤ → Bool
ltb_ℤ a b = ltb (pos_part a + neg_part b) (pos_part b + neg_part a)

abbrev pub leb_ℤ : ℤ → ℤ → Bool
leb_ℤ a b = leb (pos_part a + neg_part b) (pos_part b + neg_part a)

-- One lemma for each operation lets `omega` work with the operations shut.
pub +ℤ_parts :
    (a b : ℤ)
    → pos_part (a +ℤ b) + neg_part a + neg_part b ≡ neg_part (a +ℤ b) + pos_part a + pos_part b
unfolding ◌+ℤ◌
+ℤ_parts a b = ground arith

pub -ℤ_parts :
    (a b : ℤ)
    → pos_part (a -ℤ b) + neg_part a + pos_part b ≡ neg_part (a -ℤ b) + pos_part a + neg_part b
unfolding ◌-ℤ◌
-ℤ_parts a b = ground arith

pub eq_of_parts : (a b : ℤ) → pos_part a + neg_part b ≡ pos_part b + neg_part a → a ≡ b
eq_of_parts a b h = ground arith

pub leb_ℤ_iff : (a b : ℤ) → ((leb_ℤ a b && leb_ℤ b a) ≡ true) ↔ (a ≡ b)
leb_ℤ_iff a b = (λ h. eq_of_parts a b (ground (arith, h)), λ h. ground (arith, h))

instance abbrev pub int_eq : Eq ℤ
int_eq = record { beq = λ a b. leb_ℤ a b && leb_ℤ b a; beq_iff = leb_ℤ_iff }

-- The values of int64_t, and what the sum or the difference of two of them wraps to.
abbrev pub int64_limit : ℕ
int64_limit = 9_223_372_036_854_775_808

abbrev pub IsInt64 : ℤ → Type 0
IsInt64 a = (pos_part a < int64_limit) × (neg_part a ≤ int64_limit)

unfoldable pub wrap_int64 : ℤ → ℤ
wrap_int64 (pos n) = if ltb n int64_limit then pos n else sub_ℕ n (int64_limit + int64_limit)
wrap_int64 (negsuc n) =
    if ltb n int64_limit then negsuc n else sub_ℕ (int64_limit + int64_limit) (suc n)

pub wrap_int64_lem : (a : ℤ) → IsInt64 a → wrap_int64 a ≡ a
unfolding wrap_int64
wrap_int64_lem (pos n) h = ground (arith, h)
wrap_int64_lem (negsuc n) h = ground (arith, h)

-- The increment of an int64_t.
unfoldable pub next_int64 : ℤ → ℤ
unfolding wrap_int64 ◌+ℤ◌
next_int64 a = wrap_int64 (a +ℤ pos 1)

pub next_int64_lem :
    (a : ℤ)
    → neg_part a ≡ 0
    → pos_part a + 1 < int64_limit
    → (pos_part (next_int64 a) ≡ pos_part a + 1) × (neg_part (next_int64 a) ≡ 0)
unfolding next_int64 wrap_int64 ◌+ℤ◌
next_int64_lem (pos n) z h = (ground (arith, h), ground (arith, h))
next_int64_lem (negsuc n) z h = absurd (omega (arith, z))

pub ruleset int_laws = (arith, +ℤ_parts, -ℤ_parts, eq_of_parts)
