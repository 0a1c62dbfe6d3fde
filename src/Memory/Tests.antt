-- ===== src/Memory/Tests.antt =====
-- A run of working memory (rulesforge/include/engine/working_memory.hpp).
use rules_forge.Prelude.{◌≡◌, refl, ◌==◌, if◌then◌else◌, some, [], arith}
use rules_forge.Prelude.Eq.{nat_eq}
use rules_forge.Prelude.Int.{pos, negsuc, int_eq, wrap_int64, next_int64, ◌+ℤ◌}
use rules_forge.Prelude.Map
use rules_forge.Memory.{WorkingMemory, assign_id, insert, store, get}
use rules_forge.Memory.Ids.{IsValid, Inserted, insert-Inserted}

-- The fact 7 comes with the id 5 and the fact 6 with the id -3, all others with none.
abbrev start : WorkingMemory
start = record {
  next_id = pos 1;
  facts = [];
  ids = λ p. if p == 7 then pos 5 else if p == 6 then negsuc 2 else pos 0;
}

start-IsValid : IsValid start
unfolding Map.find
start-IsValid = record {
  positive = (omega arith, refl);
  own_id = λ id p e. cc;
  given = λ id p e. cc;
}

one : Inserted 7 start (insert (some 7) start)
one = insert-Inserted 7 start start-IsValid (omega arith, omega arith)

-- The next fact has no id.
insert-Inserted_example :
    Inserted 8 (insert (some 7) start) (insert (some 8) (insert (some 7) start))
unfolding insert store assign_id next_int64 wrap_int64 ◌+ℤ◌
insert-Inserted_example =
    insert-Inserted 8 (insert (some 7) start) one.valid (omega arith, omega arith)

-- A negative id stays.
negative_id : get (negsuc 2) (insert (some 6) start) ≡ some 6
unfolding get insert store assign_id Map.insert Map.find
negative_id = refl
