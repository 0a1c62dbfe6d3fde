-- ===== src/Memory.antt =====
-- WorkingMemory (rulesforge/include/engine/working_memory.hpp): the facts by id, and the ids that
-- it gives out. A fact is its address; its id is a field that insertion may write, so the ids of
-- the facts are part of the state. Ids are int64_t, negative ones included; the increments wrap.
-- Nested facts are left out.
pub mod Ids
mod Tests
use rules_forge.Prelude.{
  ℕ, zero, suc, ◌+◌, Bool, true, false, Option, none, some, List, [], ◌∷◌, length, leb, ◌==◌,
  if◌then◌else◌, is_some,
}
use rules_forge.Prelude.Eq.{nat_eq}
use rules_forge.Prelude.Int.{ℤ, pos, leb_ℤ, int_eq, next_int64}
use rules_forge.Prelude.Map.{Map}
use rules_forge.Prelude.Map
use rules_forge.Rule.{Ptr}

pub record WorkingMemory : Type 0 where
  pub next_id : ℤ
  pub facts : Map ℤ Ptr
  -- `fact->id` of each fact.
  pub ids : Ptr → ℤ

abbrev pub write_id : Ptr → ℤ → (Ptr → ℤ) → Ptr → ℤ
write_id fact id ids p = if fact == p then id else ids p

unfoldable pub assign_id : Ptr → WorkingMemory → WorkingMemory
assign_id fact m =
    if int_eq.beq (m.ids fact) (pos 0)
    then record m { ids = write_id fact m.next_id m.ids; next_id = next_int64 m.next_id }
    else if leb_ℤ m.next_id (m.ids fact)
    then record m { next_id = next_int64 (m.ids fact) }
    else m

unfoldable pub store : Ptr → WorkingMemory → WorkingMemory
store fact m = record m { facts = Map.insert (m.ids fact) fact m.facts }

-- insert; none is nullptr.
unfoldable pub insert : Option Ptr → WorkingMemory → WorkingMemory
unfolding assign_id store
insert none m = m
insert (some fact) m = store fact (assign_id fact m)

unfoldable pub insert_batch : List (Option Ptr) → WorkingMemory → WorkingMemory
unfolding insert
insert_batch [] m = m
insert_batch (fact ∷ facts) m = insert_batch facts (insert fact m)

unfoldable pub remove : ℤ → WorkingMemory → WorkingMemory
remove id m = record m { facts = Map.erase id m.facts }

unfoldable pub get : ℤ → WorkingMemory → Option Ptr
get id m = Map.find id m.facts

unfoldable pub contains : ℤ → WorkingMemory → Bool
contains id m = is_some (Map.find id m.facts)

unfoldable pub clear : Bool → WorkingMemory → WorkingMemory
clear reset_next_id m = record m {
  facts = [];
  next_id = if reset_next_id then pos 1 else m.next_id;
}

-- reserve_next_id: the id, and the memory after it.
unfoldable pub reserve_next_id : WorkingMemory → ℤ × WorkingMemory
reserve_next_id m = (m.next_id, record m { next_id = next_int64 m.next_id })

unfoldable pub fact_count : WorkingMemory → ℕ
fact_count m = length m.facts
