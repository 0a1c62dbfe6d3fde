-- ===== src/Pool.antt =====
-- SessionPool (rulesforge/include/engine/session_pool.hpp). A session is its address; what the
-- knowledge base creates is an argument, none where create_session throws or returns nothing. A
-- blocking acquire waits until one is available and then does what the other does.
pub mod Balance
mod Tests
use rules_forge.Prelude.{
  ℕ, ◌-◌, Bool, true, false, Option, none, some, List, [], ◌∷◌, ◌++◌, length, ◌==◌, if◌then◌else◌,
}
use rules_forge.Rule.{Ptr}

pub record SessionPool : Type 0 where
  pub pool : List Ptr
  -- The front of the queue first.
  pub available : List Ptr

-- The sessions that the constructor got out of its attempts.
unfoldable pub created : List (Option Ptr) → List Ptr
created [] = []
created (none ∷ attempts) = created attempts
created (some s ∷ attempts) = s ∷ created attempts

unfoldable pub is_empty : List Ptr → Bool
is_empty [] = true
is_empty (s ∷ rest) = false

-- The constructor; none where it throws.
unfoldable pub create : List (Option Ptr) → Option SessionPool
unfolding created is_empty
create attempts =
    if is_empty (created attempts)
    then none
    else some (record { pool = created attempts; available = created attempts })

unfoldable pub acquire_from : List Ptr → SessionPool → SessionPool × Option Ptr
acquire_from [] p = (p, none)
acquire_from (s ∷ rest) p = (record p { available = rest }, some s)

-- acquire(false): none is nullptr.
unfoldable pub acquire : SessionPool → SessionPool × Option Ptr
unfolding acquire_from
acquire p = acquire_from p.available p

-- The loop of release over the pool: the pool after it, and whether the session was found.
unfoldable pub replace : Ptr → Ptr → List Ptr → List Ptr × Bool
replace session fresh [] = ([], false)
replace session fresh (s ∷ rest) =
    let (after, found) = replace session fresh rest in
    if s == session then (fresh ∷ rest, true) else (s ∷ after, found)

-- The end of release; the last component is the session that is reset.
unfoldable pub give_back : Ptr → SessionPool → SessionPool
give_back s p = record p { available = p.available ++ s ∷ [] }

unfoldable pub release : Option Ptr → Option Ptr → SessionPool → SessionPool × Option Ptr
unfolding replace give_back
release replacement none p = (p, none)
release none (some session) p = (give_back session p, some session)
release (some fresh) (some session) p =
    let (after, replaced) = replace session fresh p.pool in
    elim replaced [
      | true ↦ (give_back fresh (record p { pool = after }), none)
      | false ↦ (give_back session (record p { pool = after }), some session)
    ]

unfoldable pub total_size : SessionPool → ℕ
total_size p = length p.pool

unfoldable pub available_count : SessionPool → ℕ
available_count p = length p.available

unfoldable pub in_use_count : SessionPool → ℕ
in_use_count p = length p.pool - length p.available

-- SessionGuard: its constructor without waiting, its destructor, and its move constructor, which
-- gives the new guard's session and the old one's.
unfoldable pub open_guard : SessionPool → SessionPool × Option Ptr
unfolding acquire
open_guard p = acquire p

unfoldable pub close_guard : Option Ptr → Option Ptr → SessionPool → SessionPool × Option Ptr
unfolding release
close_guard replacement none p = (p, none)
close_guard replacement (some session) p = release replacement (some session) p

unfoldable pub move_guard : Option Ptr → Option Ptr × Option Ptr
move_guard session = (session, none)
