-- ===== src/Rete/Index.antt =====
-- The hash indexes of a join node's memories (rulesforge/include/rete/network_memory.hpp, and
-- their updates in BetaConditionNode of rulesforge/src/rete/rete_node.cpp): items by key, the key that each was
-- put under, and those that have none. A node without a hash key keeps them empty. The keys are
-- values up to ConstraintValueEquals.
use rules_forge.Prelude.{
  ℕ, ◌≡◌, refl, Bool, true, false, Option, none, some, List, [], ◌∷◌, ◌++◌, ◌&&◌, ◌==◌, not,
  is_some, if◌then◌else◌, arith, ==_iff, Option-cases, inl, inr,
}
use rules_forge.Prelude.Eq.{Eq, nat_eq}
use rules_forge.Prelude.Map.{Map, find-insert, find-erase}
use rules_forge.Prelude.Map
use rules_forge.Prelude.Set
use rules_forge.Prelude.Vector.{
  count, remove_from_vector, count-append, count-remove, contains-count,
}

pub record Index {ℓ} (K : Type ℓ) : Type ℓ where
  pub rows : Map K (List ℕ)
  pub keys : Map ℕ K
  pub unindexed : List ℕ

abbrev pub empty {ℓ} : {K : Type ℓ} → Index K
empty = record { rows = []; keys = []; unindexed = [] }

module _ {ℓ} {K : Type ℓ} ⦃e : Eq K⦄ where
  unfoldable pub row : K → Map K (List ℕ) → List ℕ
  row k m = elim (Map.find k m) [ none ↦ [] | some xs ↦ xs ]

  -- A bucket that becomes empty is erased.
  unfoldable pub store_row : K → List ℕ → Map K (List ℕ) → Map K (List ℕ)
  store_row k [] m = Map.erase k m
  store_row k (x ∷ xs) m = Map.insert k (x ∷ xs) m

  unfoldable pub leave_row : K → ℕ → Map K (List ℕ) → Map K (List ℕ)
  unfolding store_row
  leave_row k x m = elim (Map.find k m) [
    | none ↦ m
    | some xs ↦ store_row k (remove_from_vector x xs) m
  ]

  -- std::unordered_map::emplace, which leaves an entry that is there.
  unfoldable pub emplace : ℕ → K → Map ℕ K → Map ℕ K
  emplace x k m = elim (Map.find x m) [ none ↦ Map.insert x k m | some k' ↦ m ]

  -- `hashed` is left_hash_key_.has_value().
  unfoldable pub add : Bool → Option K → ℕ → Index K → Index K
  unfolding row emplace
  add false key x ix = ix
  add true none x ix = record ix { unindexed = ix.unindexed ++ x ∷ [] }
  add true (some k) x ix = record ix {
    rows = Map.insert k (row k ix.rows ++ x ∷ []) ix.rows;
    keys = emplace x k ix.keys;
  }

  unfoldable pub remove : Bool → ℕ → Index K → Index K
  unfolding leave_row
  remove hashed x ix = elim (Map.find x ix.keys) [
    | some k ↦ record ix { rows = leave_row k x ix.rows; keys = Map.erase x ix.keys }
    | none ↦ if hashed then record ix { unindexed = remove_from_vector x ix.unindexed } else ix
  ]

  -- The items that may match a key: its bucket and those without a key; all where there is no key.
  unfoldable pub candidates : Bool → Option K → List ℕ → Index K → List ℕ
  unfolding row
  candidates false key all ix = all
  candidates true none all ix = all
  candidates true (some k) all ix = row k ix.rows ++ ix.unindexed

  pub row-none : (k : K) (m : Map K (List ℕ)) → Map.find k m ≡ none → row k m ≡ []
  unfolding row
  row-none k m h = rw (row, h) refl

  pub row-find : (k : K) (xs : List ℕ) (m : Map K (List ℕ)) → Map.find k m ≡ some xs → row k m ≡ xs
  unfolding row
  row-find k xs m h = rw (row, h) refl

  pub row-insert :
      (k j : K) (xs : List ℕ) (m : Map K (List ℕ))
      → row j (Map.insert k xs m) ≡ (if e.beq k j then xs else row j m)
  unfolding row
  row-insert k j xs m = ground (arith, find-insert k j xs m)

  pub row-store_row :
      (k j : K) (xs : List ℕ) (m : Map K (List ℕ))
      → row j (store_row k xs m) ≡ (if e.beq k j then xs else row j m)
  unfolding row store_row
  row-store_row k j [] m = ground (arith, find-erase k j m)
  row-store_row k j (x ∷ xs) m = ground (arith, find-insert k j (x ∷ xs) m)

  pub row-leave_row :
      (k j : K) (x : ℕ) (m : Map K (List ℕ))
      → row j (leave_row k x m) ≡ (if e.beq k j then remove_from_vector x (row k m) else row j m)
  unfolding leave_row row remove_from_vector
  row-leave_row k j x m = elim (Option-cases (Map.find k m)) [
    | inl h ↦ rw (h, leave_row) (ground (arith, e.beq_iff k j))
    | inr (xs, h) ↦
        rw (h, leave_row)
          (ground (arith, row-store_row k j (remove_from_vector x xs) m, row-find k xs m h))
  ]

  unfoldable pub is_key : K → Option K → Bool
  is_key k none = false
  is_key k (some j) = e.beq j k

  -- What an index holds when it holds the items that `stored` tells, each under its key.
  pub record IsIndex (hashed : Bool) (stored : ℕ → Bool) (key : ℕ → Option K) (ix : Index K)
      : Type ℓ where
    pub under : (x : ℕ) → Map.find x ix.keys ≡ (if hashed && stored x then key x else none)
    pub rows :
        (x : ℕ) (k : K)
        → count x (row k ix.rows) ≡ (if hashed && (stored x && is_key k (key x)) then 1 else 0)
    pub unindexed :
        (x : ℕ)
        → count x ix.unindexed ≡ (if hashed && (stored x && not (is_some (key x))) then 1 else 0)

  pub empty-IsIndex : (hashed : Bool) (key : ℕ → Option K) → IsIndex hashed (λ x. false) key empty
  unfolding count row Map.find
  empty-IsIndex hashed key = record {
    under = λ x. ground arith;
    rows = λ x k. ground arith;
    unindexed = λ x. ground arith;
  }

  -- Membership in the candidates for a key.
  unfoldable pub is_candidate : Bool → Option K → Option K → Bool
  is_candidate false key own = true
  is_candidate true none own = true
  is_candidate true (some k) none = true
  is_candidate true (some k) (some j) = e.beq j k

  pub contains-candidates :
      (hashed : Bool) (stored : ℕ → Bool) (key : ℕ → Option K) (ix : Index K) (wanted : Option K)
      (all : List ℕ) (x : ℕ)
      → IsIndex hashed stored key ix
      → Set.contains x all ≡ stored x
      → Set.contains x (candidates hashed wanted all ix)
        ≡ (stored x && is_candidate hashed wanted (key x))
  unfolding candidates is_candidate is_key
  contains-candidates false stored key ix wanted all x i h = ground arith
  contains-candidates true stored key ix none all x i h = ground arith
  contains-candidates true stored key ix (some k) all x i h = ground (
    arith,
    contains-count x (row k ix.rows ++ ix.unindexed),
    count-append x (row k ix.rows) ix.unindexed,
    i.rows x k,
    i.unindexed x,
  )

  add_own :
      (hashed : Bool) (stored : ℕ → Bool) (key : ℕ → Option K) (x : ℕ) (ix : Index K)
      (own : Option K)
      → key x ≡ own
      → IsIndex hashed stored key ix
      → stored x ≡ false
      → IsIndex hashed (λ y. if x == y then true else stored y) key (add hashed own x ix)
  unfolding add emplace is_key count
  add_own false stored key x ix own q i h = record {
    under = λ y. ground (arith, i.under y);
    rows = λ y k. ground (arith, i.rows y k);
    unindexed = λ y. ground (arith, i.unindexed y);
  }
  add_own true stored key x ix none q i h = record {
    under = λ y. ground (arith, i.under y, ==_iff x y);
    rows = λ y k. ground (arith, i.rows y k, ==_iff x y);
    unindexed =
        λ y. ground (arith, i.unindexed y, ==_iff x y, count-append y ix.unindexed (x ∷ []));
  }
  add_own true stored key x ix (some k) q i h = record {
    under = λ y. ground (arith, i.under y, i.under x, ==_iff x y, find-insert x y k ix.keys);
    rows = λ y j. ground (
      arith,
      i.rows y j,
      ==_iff x y,
      e.beq_iff k j,
      row-insert k j (row k ix.rows ++ x ∷ []) ix.rows,
      count-append y (row k ix.rows) (x ∷ []),
    );
    unindexed = λ y. ground (arith, i.unindexed y, ==_iff x y);
  }

  pub add-IsIndex :
      (hashed : Bool) (stored : ℕ → Bool) (key : ℕ → Option K) (x : ℕ) (ix : Index K)
      → IsIndex hashed stored key ix
      → stored x ≡ false
      → IsIndex hashed (λ y. if x == y then true else stored y) key (add hashed (key x) x ix)
  add-IsIndex hashed stored key x ix i h = add_own hashed stored key x ix (key x) refl i h

  -- Only an index of a node with a hash key has items without a key to look through.
  pub remove-IsIndex :
      (strict hashed : Bool) (stored : ℕ → Bool) (key : ℕ → Option K) (x : ℕ) (ix : Index K)
      → IsIndex hashed stored key ix
      → stored x ≡ true
      → (hashed ≡ true → strict ≡ true)
      → IsIndex hashed (λ y. if x == y then false else stored y) key (remove strict x ix)
  unfolding remove is_key
  remove-IsIndex strict hashed stored key x ix i h s = elim (Option-cases (Map.find x ix.keys)) [
    | inl n ↦
        rw (n, remove)
          (record {
            under = λ y. ground (arith, i.under y, i.under x, ==_iff x y);
            rows = λ y k. ground (arith, i.rows y k, i.under x, ==_iff x y);
            unindexed = λ y.
                ground (arith, i.unindexed y, i.under x, ==_iff x y, count-remove x y ix.unindexed);
          })
    | inr (k, n) ↦
        rw (n, remove)
          (record {
            under = λ y. ground (arith, i.under y, i.under x, ==_iff x y, find-erase x y ix.keys);
            rows = λ y j. ground (
              arith,
              i.rows y j,
              i.under x,
              ==_iff x y,
              e.beq_iff k j,
              row-leave_row k j x ix.rows,
              count-remove x y (row k ix.rows),
            );
            unindexed = λ y. ground (arith, i.unindexed y, i.under x, ==_iff x y);
          })
  ]

  -- The same items under the same keys.
  pub IsIndex-same :
      (hashed : Bool) (stored stored' : ℕ → Bool) (key key' : ℕ → Option K) (ix : Index K)
      → ((x : ℕ) → stored' x ≡ stored x)
      → ((x : ℕ) → stored x ≡ true → key' x ≡ key x)
      → IsIndex hashed stored key ix
      → IsIndex hashed stored' key' ix
  unfolding is_key
  IsIndex-same hashed stored stored' key key' ix s k i = record {
    under = λ x. ground (arith, i.under x, s x, k x);
    rows = λ x j. ground (arith, i.rows x j, s x, k x);
    unindexed = λ x. ground (arith, i.unindexed x, s x, k x);
  }
