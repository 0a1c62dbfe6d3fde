-- ===== src/Agenda/Queue.antt =====
-- agenda_queue_ of rulesforge/include/engine/agenda.hpp, a std::priority_queue of pairs of a
-- salience and an activation's hash. The list holds the heap's pairs from the greatest down:
-- `top` is its head. Equal pairs are not told apart.
use rules_forge.Prelude.{
  ℕ, ◌≡◌, refl, Bool, true, false, List, [], ◌∷◌, arith, ltb, ◌==◌, if◌then◌else◌, All,
}
use rules_forge.Prelude.Int.{ℤ, ◌≤ℤ◌, ltb_ℤ}

pub record Entry : Type 0 where
  pub salience : ℤ
  pub hash : ℕ

-- operator< of std::pair<int, size_t>.
unfoldable pub entry_lt : Entry → Entry → Bool
entry_lt a b =
    if ltb_ℤ a.salience b.salience
    then true
    else if ltb_ℤ b.salience a.salience
    then false
    else ltb a.hash b.hash

unfoldable pub push : Entry → List Entry → List Entry
push e [] = e ∷ []
push e (x ∷ q) = if entry_lt x e then e ∷ x ∷ q else x ∷ push e q

unfoldable pub push_all : List Entry → List Entry → List Entry
push_all [] q = q
push_all (e ∷ es) q = push_all es (push e q)

-- Some entry of the queue carries this hash.
unfoldable pub has : ℕ → List Entry → Bool
has h [] = false
has h (e ∷ q) = if e.hash == h then true else has h q

-- No entry is below a later one in salience.
abbrev pub IsSorted : List Entry → Type 0
IsSorted [] = Unit {0}
IsSorted (e ∷ q) = All (λ x. x.salience ≤ℤ e.salience) q × IsSorted q

pub has-push :
    (e : Entry) (h : ℕ) (q : List Entry)
    → has h (push e q) ≡ (if e.hash == h then true else has h q)
unfolding has push
has-push e h [] = refl
has-push e h (x ∷ q) = ground (arith, has-push e h q)

pub All-push {ℓ} :
    (P : Entry → Type ℓ) (e : Entry) (q : List Entry) → P e → All P q → All P (push e q)
unfolding push
All-push P e [] p a = (p, a)
All-push P e (x ∷ q) p a = ground (arith, All-push P e q p a.1)

All-le :
    (a b : Entry) (q : List Entry)
    → a.salience ≤ℤ b.salience
    → All (λ x. x.salience ≤ℤ a.salience) q
    → All (λ x. x.salience ≤ℤ b.salience) q
All-le a b [] h s = tt
All-le a b (x ∷ q) h s = (omega arith, All-le a b q h s.1)

entry_lt-le : (a b : Entry) → entry_lt a b ≡ true → a.salience ≤ℤ b.salience
unfolding entry_lt
entry_lt-le a b h = ground arith

entry_lt_false-le : (a b : Entry) → entry_lt a b ≡ false → b.salience ≤ℤ a.salience
unfolding entry_lt
entry_lt_false-le a b h = ground arith

pub push-IsSorted : (e : Entry) (q : List Entry) → IsSorted q → IsSorted (push e q)
unfolding push
push-IsSorted e [] s = (tt, tt)
push-IsSorted e (x ∷ q) s = ground (
  arith,
  push-IsSorted e q s.1,
  All-push (λ y. y.salience ≤ℤ x.salience) e q,
  entry_lt-le x e,
  entry_lt_false-le x e,
  All-le x e q,
  s.0,
)

pub has-push_all :
    (es : List Entry) (h : ℕ) (q : List Entry)
    → has h (push_all es q) ≡ (if has h es then true else has h q)
unfolding push_all has
has-push_all [] h q = refl
has-push_all (e ∷ es) h q = ground (arith, has-push_all es h (push e q), has-push e h q)

pub All-push_all {ℓ} :
    (P : Entry → Type ℓ) (es q : List Entry) → All P es → All P q → All P (push_all es q)
unfolding push_all
All-push_all P [] q pe pq = pq
All-push_all P (e ∷ es) q pe pq = All-push_all P es (push e q) pe.1 (All-push P e q pe.0 pq)

pub push_all-IsSorted : (es q : List Entry) → IsSorted q → IsSorted (push_all es q)
unfolding push_all
push_all-IsSorted [] q s = s
push_all-IsSorted (e ∷ es) q s = push_all-IsSorted es (push e q) (push-IsSorted e q s)
