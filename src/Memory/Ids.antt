-- ===== src/Memory/Ids.antt =====
-- About the ids that working memory gives to facts (rulesforge/include/engine/working_memory.hpp).
use rules_forge.Prelude.{
  ◌<◌, ◌+◌, ◌≡◌, refl, inl, inr, true, false, none, some, arith, ◌==◌, Bool-cases, Option-cases,
  ==_iff, ap, sym, ◌≤◌, ◌∙◌,
}
use rules_forge.Prelude.Eq.{nat_eq}
use rules_forge.Prelude.Int.{
  ℤ, pos, pos_part, neg_part, leb_ℤ, int_eq, int64_limit, next_int64, next_int64_lem,
}
use rules_forge.Prelude.Map.{find-insert, find-erase}
use rules_forge.Prelude.Map
use rules_forge.Rule.{Ptr}
use rules_forge.Memory.{WorkingMemory, assign_id, store, insert, write_id}

-- Less, where the second number is not negative.
abbrev pub IsBelow : ℤ → ℤ → Type 0
IsBelow id next = pos_part id < pos_part next + neg_part id

-- Every stored fact carries the id that it is stored under, which is not zero and below the next one.
pub record IsValid (m : WorkingMemory) : Type 0 where
  pub positive : (0 < pos_part m.next_id) × (neg_part m.next_id ≡ 0)
  pub own_id : (id : ℤ) (fact : Ptr) → Map.find id m.facts ≡ some fact → m.ids fact ≡ id
  pub given :
      (id : ℤ) (fact : Ptr)
      → Map.find id m.facts ≡ some fact
      → (int_eq.beq id (pos 0) ≡ false) × IsBelow id m.next_id

-- Neither the next id nor the fact's own is the largest int64_t.
abbrev pub HasRoom : Ptr → WorkingMemory → Type 0
HasRoom fact m = (pos_part m.next_id + 1 < int64_limit) × (pos_part (m.ids fact) + 1 < int64_limit)

-- Inserting a fact: memory is valid after, and finds the fact under its id, which is the one it had, or
-- else a positive one under which no fact was stored; and every other id is as before.
pub record Inserted (fact : Ptr) (m m' : WorkingMemory) : Type 0 where
  pub valid : IsValid m'
  pub found : Map.find (m'.ids fact) m'.facts ≡ some fact
  pub others :
      (id : ℤ) → int_eq.beq (m'.ids fact) id ≡ false → Map.find id m'.facts ≡ Map.find id m.facts
  pub own : int_eq.beq (m.ids fact) (pos 0) ≡ false → m'.ids fact ≡ m.ids fact
  pub fresh :
      int_eq.beq (m.ids fact) (pos 0) ≡ true
      → (0 < pos_part (m'.ids fact)) × (Map.find (m'.ids fact) m.facts ≡ none)

-- The memory with a fact's id settled.
record Ready (fact : Ptr) (m m' : WorkingMemory) : Type 0 where
  valid : IsValid m'
  nonzero : int_eq.beq (m'.ids fact) (pos 0) ≡ false
  below : IsBelow (m'.ids fact) m'.next_id
  same : m'.facts ≡ m.facts
  own : int_eq.beq (m.ids fact) (pos 0) ≡ false → m'.ids fact ≡ m.ids fact
  fresh :
      int_eq.beq (m.ids fact) (pos 0) ≡ true
      → (0 < pos_part (m'.ids fact)) × (Map.find (m'.ids fact) m.facts ≡ none)

unused : (m : WorkingMemory) → IsValid m → Map.find m.next_id m.facts ≡ none
unused m v = elim (Option-cases (Map.find m.next_id m.facts)) [
  | inl e ↦ e
  | inr (fact, e) ↦ absurd (omega (arith, (v.given m.next_id fact e).1, v.positive.1))
]

-- No stored fact has the id zero, so that writing the id of a fact that has leaves the others'.
own_after :
    (fact : Ptr) (m : WorkingMemory) (id next : ℤ) (p : Ptr)
    → IsValid m
    → int_eq.beq (m.ids fact) (pos 0) ≡ true
    → Map.find id m.facts ≡ some p
    → write_id fact next m.ids p ≡ id
own_after fact m id next p v z e = elim (Bool-cases (fact == p)) [
  | inl t ↦
      let same : fact ≡ p = ground (arith, t) in
      let q : m.ids fact ≡ id = ap m.ids same ∙ v.own_id id p e in
      let zero : int_eq.beq id (pos 0) ≡ true = rw (← q) z in
      absurd (ground (arith, zero, (v.given id p e).0))
  | inr t ↦ rw t (v.own_id id p e)
]

assigned-Ready :
    (fact : Ptr) (m : WorkingMemory)
    → IsValid m
    → HasRoom fact m
    → int_eq.beq (m.ids fact) (pos 0) ≡ true
    → Ready fact m
        (record m { ids = write_id fact m.next_id m.ids; next_id = next_int64 m.next_id })
assigned-Ready fact m v r z =
    let up = next_int64_lem m.next_id v.positive.1 r.0 in
    let self : write_id fact m.next_id m.ids fact ≡ m.next_id = ground (arith, ==_iff fact fact) in
    record {
      valid = record {
        positive = (omega (arith, up.0), up.1);
        own_id = λ id p e. own_after fact m id m.next_id p v z e;
        given = λ id p e. ((v.given id p e).0, omega (arith, up.0, (v.given id p e).1));
      };
      nonzero = rw self (ground (arith, v.positive.0, v.positive.1));
      below = rw self (omega (arith, up.0, v.positive.1));
      same = refl;
      own = λ n. absurd (ground (arith, n, z));
      fresh = λ n. rw self (v.positive.0, unused m v);
    }

raised-Ready :
    (fact : Ptr) (m : WorkingMemory)
    → IsValid m
    → HasRoom fact m
    → int_eq.beq (m.ids fact) (pos 0) ≡ false
    → leb_ℤ m.next_id (m.ids fact) ≡ true
    → Ready fact m (record m { next_id = next_int64 (m.ids fact) })
raised-Ready fact m v r z b =
    let big : pos_part m.next_id + neg_part (m.ids fact)
        ≤ pos_part (m.ids fact) + neg_part m.next_id =
      ground (arith, b) in
    let plus : neg_part (m.ids fact) ≡ 0 =
      not_negative (m.ids fact) (omega (arith, big, v.positive.0, v.positive.1)) in
    let up = next_int64_lem (m.ids fact) plus r.1 in
    record {
      valid = record {
        positive = (omega (arith, up.0), up.1);
        own_id = v.own_id;
        given = λ id p e.
            ((v.given id p e).0, omega (arith, up.0, (v.given id p e).1, big, plus, v.positive.1));
      };
      nonzero = z;
      below = omega (arith, up.0, plus);
      same = refl;
      own = λ n. refl;
      fresh = λ n. absurd (ground (arith, n, z));
    }
  where
    not_negative : (a : ℤ) → 0 < pos_part a → neg_part a ≡ 0
    not_negative a h = ground (arith, h)

kept-Ready :
    (fact : Ptr) (m : WorkingMemory)
    → IsValid m
    → int_eq.beq (m.ids fact) (pos 0) ≡ false
    → leb_ℤ m.next_id (m.ids fact) ≡ false
    → Ready fact m m
kept-Ready fact m v z b = record {
  valid = v;
  nonzero = z;
  below = ground (arith, b, v.positive.1);
  same = refl;
  own = λ n. refl;
  fresh = λ n. absurd (ground (arith, n, z));
}

assign_id-Ready :
    (fact : Ptr) (m : WorkingMemory) → IsValid m → HasRoom fact m → Ready fact m (assign_id fact m)
unfolding assign_id
assign_id-Ready fact m v r = elim (Bool-cases (int_eq.beq (m.ids fact) (pos 0))) [
  | inl z ↦ rw (z, assign_id) (assigned-Ready fact m v r z)
  | inr z ↦ elim (Bool-cases (leb_ℤ m.next_id (m.ids fact))) [
    | inl b ↦ rw (z, b, assign_id) (raised-Ready fact m v r z b)
    | inr b ↦ rw (z, b, assign_id) (kept-Ready fact m v z b)
  ]
]

-- From a valid memory, where neither the next id nor the fact's own is the largest one, inserting a
-- fact keeps the memory valid and stores the fact under its id, at which nothing else changes: the
-- id that it had, also a negative one, or, if that was zero, a positive one under which no fact was
-- stored.
pub insert-Inserted :
    (fact : Ptr) (m : WorkingMemory)
    → IsValid m
    → HasRoom fact m
    → Inserted fact m (insert (some fact) m)
unfolding insert store
insert-Inserted fact m v room = stored (assign_id fact m) (assign_id-Ready fact m v room)
  where
    stored : (r : WorkingMemory) → Ready fact m r → Inserted fact m (store fact r)
    stored r h = record {
      valid = record {
        positive = h.valid.positive;
        own_id = λ id p e. elim (Bool-cases (int_eq.beq (r.ids fact) id)) [
          | inl t ↦
              let same : r.ids fact ≡ id = (int_eq.beq_iff (r.ids fact) id).0 t in
              let held : fact ≡ p =
                ground (arith, t, e, find-insert (r.ids fact) id fact r.facts) in
              ap r.ids (sym held) ∙ same
          | inr t ↦
              h.valid.own_id id p (ground (arith, t, e, find-insert (r.ids fact) id fact r.facts))
        ];
        given = λ id p e. elim (Bool-cases (int_eq.beq (r.ids fact) id)) [
          | inl t ↦
              let same : r.ids fact ≡ id = (int_eq.beq_iff (r.ids fact) id).0 t in
              rw (← same) (h.nonzero, h.below)
          | inr t ↦
              h.valid.given id p (ground (arith, t, e, find-insert (r.ids fact) id fact r.facts))
        ];
      };
      found =
          find-insert (r.ids fact) (r.ids fact) fact r.facts
          ∙ rw ((int_eq.beq_iff (r.ids fact) (r.ids fact)).1 refl) refl;
      others = λ id e. find-insert (r.ids fact) id fact r.facts ∙ rw e (ap (Map.find id) h.same);
      own = h.own;
      fresh = h.fresh;
    }
