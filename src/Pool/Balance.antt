-- ===== src/Pool/Balance.antt =====
-- About the sessions that are available and those with a client
-- (rulesforge/include/engine/session_pool.hpp).
use rules_forge.Prelude.{
  ℕ, ◌+◌, ◌≡◌, refl, true, Option, none, some, List, [], ◌∷◌, ◌++◌, length, length-append, ◌==◌,
  if◌then◌else◌, arith, ap, ◌∙◌,
}
use rules_forge.Prelude.Eq.{nat_eq}
use rules_forge.Prelude.Set
use rules_forge.Rule.{Ptr}
use rules_forge.Pool.{
  SessionPool, created, create, acquire_from, acquire, replace, give_back, release, in_use_count,
}

unfoldable pub count : Ptr → List Ptr → ℕ
count x [] = 0
count x (s ∷ rest) = let n = count x rest in if s == x then n + 1 else n

-- The clients' sessions without one copy of `s`.
unfoldable pub without : Ptr → List Ptr → List Ptr
without s [] = []
without s (x ∷ held) = let rest = without s held in if x == s then held else x ∷ rest

count-append : (x : Ptr) (xs ys : List Ptr) → count x (xs ++ ys) ≡ count x xs + count x ys
unfolding count
count-append x [] ys = omega arith
count-append x (s ∷ xs) ys = ground (arith, count-append x xs ys)

count-without :
    (s x : Ptr) (held : List Ptr)
    → Set.contains s held ≡ true
    → count x held ≡ count x (without s held) + (if s == x then 1 else 0)
unfolding count without Set.contains
count-without s x [] h = cc
count-without s x (y ∷ held) h = ground (arith, count-without s x held)

length-without :
    (s : Ptr) (held : List Ptr)
    → Set.contains s held ≡ true
    → length held ≡ length (without s held) + 1
unfolding without Set.contains
length-without s [] h = cc
length-without s (y ∷ held) h = ground (arith, length-without s held)

count→contains : (s : Ptr) (xs : List Ptr) (n : ℕ) → count s xs ≡ n + 1 → Set.contains s xs ≡ true
unfolding count Set.contains
count→contains s [] n e = absurd (omega (arith, e))
count→contains s (x ∷ xs) n e = ground (arith, count→contains s xs n)

replace-found : (s fresh : Ptr) (xs : List Ptr) → (replace s fresh xs).1 ≡ Set.contains s xs
unfolding replace Set.contains
replace-found s fresh [] = refl
replace-found s fresh (x ∷ xs) = ground (arith, replace-found s fresh xs)

length-replace : (s fresh : Ptr) (xs : List Ptr) → length (replace s fresh xs).0 ≡ length xs
unfolding replace
length-replace s fresh [] = refl
length-replace s fresh (x ∷ xs) = ground (arith, length-replace s fresh xs)

count-replace :
    (s fresh x : Ptr) (xs : List Ptr)
    → Set.contains s xs ≡ true
    → count x (replace s fresh xs).0 + (if s == x then 1 else 0)
      ≡ count x xs + (if fresh == x then 1 else 0)
unfolding replace count Set.contains
count-replace s fresh x [] h = cc
count-replace s fresh x (y ∷ xs) h = ground (arith, count-replace s fresh x xs)

pub record IsBalanced (p : SessionPool) (held : List Ptr) : Type 0 where
  pub each : (x : Ptr) → count x p.available + count x held ≡ count x p.pool
  pub all : length p.available + length held ≡ length p.pool

created-IsBalanced : (ss : List Ptr) → IsBalanced (record { pool = ss; available = ss }) []
unfolding count
created-IsBalanced ss = record { each = λ x. omega arith; all = omega arith }

give_back-IsBalanced :
    (s : Ptr) (p : SessionPool) (held : List Ptr)
    → Set.contains s held ≡ true
    → IsBalanced p held
    → IsBalanced (give_back s p) (without s held)
unfolding give_back count
give_back-IsBalanced s p held h b = record {
  each =
      λ x. ground (arith, b.each x, count-append x p.available (s ∷ []), count-without s x held h);
  all = omega (arith, b.all, length-append p.available (s ∷ []), length-without s held h);
}

held-in-pool :
    (s : Ptr) (p : SessionPool) (held : List Ptr)
    → Set.contains s held ≡ true
    → IsBalanced p held
    → Set.contains s p.pool ≡ true
held-in-pool s p held h b =
    count→contains s p.pool (count s p.available + count s (without s held))
      (ground (arith, b.each s, count-without s s held h))

release-IsBalanced :
    (fresh : Option Ptr) (s : Ptr) (p : SessionPool) (held : List Ptr)
    → Set.contains s held ≡ true
    → IsBalanced p held
    → IsBalanced (release fresh (some s) p).0 (without s held)
unfolding release give_back count
release-IsBalanced none s p held h b = give_back-IsBalanced s p held h b
release-IsBalanced (some fresh) s p held h b =
    let found : (replace s fresh p.pool).1 ≡ true =
      replace-found s fresh p.pool ∙ held-in-pool s p held h b in
    rw (found, release)
      (record {
        each = λ x. ground (
          arith,
          b.each x,
          count-append x p.available (fresh ∷ []),
          count-without s x held h,
          count-replace s fresh x p.pool (held-in-pool s p held h b),
        );
        all = omega (
          arith,
          b.all,
          length-append p.available (fresh ∷ []),
          length-without s held h,
          length-replace s fresh p.pool,
        );
      })

-- A client's call, with the sessions that the clients hold. A client releases what it holds.
pub data Step : SessionPool → List Ptr → SessionPool → List Ptr → Type 0 where
  acquires :
      {p : SessionPool} {held : List Ptr} (s : Ptr)
      → (acquire p).1 ≡ some s
      → Step p held (acquire p).0 (s ∷ held)
  refused :
      {p : SessionPool} {held : List Ptr} → (acquire p).1 ≡ none → Step p held (acquire p).0 held
  releases :
      {p : SessionPool} {held : List Ptr} (fresh : Option Ptr) (s : Ptr)
      → Set.contains s held ≡ true
      → Step p held (release fresh (some s) p).0 (without s held)

pub data Reachable (attempts : List (Option Ptr)) : SessionPool → List Ptr → Type 0 where
  starts : {p : SessionPool} → create attempts ≡ some p → Reachable attempts p []
  steps :
      {p p' : SessionPool} {held held' : List Ptr}
      → Reachable attempts p held
      → Step p held p' held'
      → Reachable attempts p' held'

taken-IsBalanced :
    (ss : List Ptr) (p : SessionPool) (held : List Ptr) (s : Ptr)
    → ss ≡ p.available
    → (acquire_from ss p).1 ≡ some s
    → IsBalanced p held
    → IsBalanced (acquire_from ss p).0 (s ∷ held)
unfolding acquire_from count
taken-IsBalanced [] p held s e t b = cc
taken-IsBalanced (y ∷ ys) p held s e t b = record {
  each = λ x. ground (arith, b.each x, ap (count x) e);
  all = omega (arith, b.all, ap length e);
}

refused-IsBalanced :
    (ss : List Ptr) (p : SessionPool) (held : List Ptr)
    → (acquire_from ss p).1 ≡ none
    → IsBalanced p held
    → IsBalanced (acquire_from ss p).0 held
unfolding acquire_from
refused-IsBalanced [] p held t b = b
refused-IsBalanced (y ∷ ys) p held t b = cc

Step-IsBalanced :
    {p p' : SessionPool} {held held' : List Ptr}
    → Step p held p' held'
    → IsBalanced p held
    → IsBalanced p' held'
unfolding acquire
Step-IsBalanced {p} {held = held} (acquires s e) b = taken-IsBalanced p.available p held s refl e b
Step-IsBalanced {p} {held = held} (refused e) b = refused-IsBalanced p.available p held e b
Step-IsBalanced {p} {held = held} (releases fresh s h) b = release-IsBalanced fresh s p held h b

create-IsBalanced :
    (attempts : List (Option Ptr)) (p : SessionPool) → create attempts ≡ some p → IsBalanced p []
unfolding create count
create-IsBalanced attempts p e =
    let pools : p.pool ≡ created attempts = ground arith in
    let queues : p.available ≡ created attempts = ground arith in
    record {
      each = λ x. ground (arith, ap (count x) pools, ap (count x) queues);
      all = omega (arith, ap length pools, ap length queues);
    }

-- In every pool that clients' calls reach, each session of the pool is either available or with a
-- client, once each; and in_use_count is the number that clients hold.
pub Reachable-IsBalanced :
    (attempts : List (Option Ptr)) (p : SessionPool) (held : List Ptr)
    → Reachable attempts p held
    → IsBalanced p held × (in_use_count p ≡ length held)
unfolding in_use_count
Reachable-IsBalanced attempts p held r = let b = balanced r in (b, omega (arith, b.all))
  where
    balanced : {p : SessionPool} {held : List Ptr} → Reachable attempts p held → IsBalanced p held
    balanced (starts {p = p} e) = create-IsBalanced attempts p e
    balanced (steps r s) = Step-IsBalanced s (balanced r)
