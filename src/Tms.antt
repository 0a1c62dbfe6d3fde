-- ===== src/Tms.antt =====
-- TruthMaintenanceSystem (rulesforge/src/engine/tms.cpp, rulesforge/include/engine/tms.hpp): which
-- tokens and activations support a derived fact. A chain is named by its address. The facts that
-- a method hands to the network for retraction are its result, in order; the network's own calls
-- back come after, as separate calls.
pub mod Tables
pub mod Mirror
pub mod Support
mod Tests
use rules_forge.Prelude.{
  ℕ, Bool, true, false, Option, none, some, List, [], ◌∷◌, ◌++◌, ◌==◌, if◌then◌else◌, ◌&&◌,
}
use rules_forge.Prelude.Eq.{nat_eq}
use rules_forge.Prelude.Map.{Map}
use rules_forge.Prelude.Map
use rules_forge.Prelude.Set
use rules_forge.Rule.{Ptr}

abbrev pub Table : Type 0
Table = Map ℕ (List ℕ)

pub record Tms : Type 0 where
  -- fact id to the chains that justify it, and back
  pub justifications : Table
  pub token_to_justified_facts : Table
  -- activation hash to the facts that it inserted, and back
  pub activation_to_facts : Table
  pub fact_to_activations : Table

-- clear, and the state of a new system.
abbrev pub empty : Tms
empty = record {
  justifications = [];
  token_to_justified_facts = [];
  activation_to_facts = [];
  fact_to_activations = [];
}

-- What a key maps to; the empty list where it is absent. `t[k]` only to read, which leaves an empty row
-- behind in the source, leaves none here: no method tells an empty row from none.
unfoldable pub row : ℕ → Table → List ℕ
row k t = elim (Map.find k t) [ none ↦ [] | some xs ↦ xs ]

-- `t[k].insert(x)` on a set, and `t[k].push_back(x)` on a vector.
unfoldable pub insert_at : ℕ → ℕ → Table → Table
unfolding row
insert_at k x t = Map.insert k (Set.insert x (row k t)) t

unfoldable pub push_at : ℕ → ℕ → Table → Table
unfolding row
push_at k x t = Map.insert k (row k t ++ x ∷ []) t

unfoldable pub add_justification : Option Ptr → Option ℕ → Tms → Tms
unfolding insert_at push_at
add_justification none fact s = s
add_justification (some wme) none s = s
add_justification (some wme) (some fact) s = record s {
  justifications = insert_at fact wme s.justifications;
  token_to_justified_facts = push_at wme fact s.token_to_justified_facts;
}

unfoldable pub add_logical_dependency : ℕ → ℕ → Tms → Tms
unfolding insert_at push_at
add_logical_dependency hash fact s = record s {
  activation_to_facts = push_at hash fact s.activation_to_facts;
  fact_to_activations = insert_at fact hash s.fact_to_activations;
}

unfoldable pub is_empty : List ℕ → Bool
is_empty [] = true
is_empty (x ∷ xs) = false

-- `it->second.erase(x)` where the key is there; an emptied row stays.
unfoldable pub erase_at : ℕ → ℕ → Table → Table
erase_at k x t = elim (Map.find k t) [ none ↦ t | some xs ↦ Map.insert k (Set.erase x xs) t ]

-- The loop of remove_justifications_by_token over the facts of the token: the table of
-- justifications after it, and the facts to retract. `known` is network_.get_fact_by_id.
unfoldable pub unjustify_loop : (ℕ → Bool) → ℕ → Table → List ℕ → Table → Table × List ℕ
unfolding erase_at is_empty row
unjustify_loop known wme activations [] t = (t, [])
unjustify_loop known wme activations (fact ∷ facts) t =
    let t' = erase_at fact wme t in
    let (end, retracted) = unjustify_loop known wme activations facts t' in
    (
      end,
      elim (Map.find fact t) [
        | none ↦ retracted
        | some xs ↦
            if is_empty (Set.erase wme xs) && (is_empty (row fact activations) && known fact)
            then fact ∷ retracted
            else retracted
      ],
    )

unfoldable pub remove_justifications_by_token : (ℕ → Bool) → Option Ptr → Tms → Tms × List ℕ
remove_justifications_by_token known none s = (s, [])
remove_justifications_by_token known (some wme) s = elim (Map.find wme s.token_to_justified_facts) [
  | none ↦ (s, [])
  | some facts ↦
      let (t, retracted) = unjustify_loop known wme s.fact_to_activations facts s.justifications in
      (
        record s {
          justifications = t;
          token_to_justified_facts = Map.erase wme s.token_to_justified_facts;
        },
        retracted,
      )
]

-- The loop of on_activation_retracted: `fact_to_activations_[fact].erase(hash)`.
unfoldable pub unsupport_loop : (ℕ → Bool) → ℕ → Table → List ℕ → Table → Table × List ℕ
unfolding is_empty row
unsupport_loop known hash justifications [] t = (t, [])
unsupport_loop known hash justifications (fact ∷ facts) t =
    let rest = Set.erase hash (row fact t) in
    let (end, retracted) =
      unsupport_loop known hash justifications facts (Map.insert fact rest t) in
    (
      end,
      if is_empty rest && (is_empty (row fact justifications) && known fact)
          then fact ∷ retracted
          else retracted,
    )

unfoldable pub on_activation_retracted : (ℕ → Bool) → ℕ → Tms → Tms × List ℕ
on_activation_retracted known hash s = elim (Map.find hash s.activation_to_facts) [
  | none ↦ (s, [])
  | some facts ↦
      let (t, retracted) = unsupport_loop known hash s.justifications facts s.fact_to_activations in
      (
        record s {
          activation_to_facts = Map.erase hash s.activation_to_facts;
          fact_to_activations = t;
        },
        retracted,
      )
]

-- A row without `x`, dropped where it becomes empty: std::erase and the erase of the key.
unfoldable pub store_row : ℕ → List ℕ → Table → Table
store_row k [] t = Map.erase k t
store_row k xs t = Map.insert k xs t

unfoldable pub drop_from : ℕ → ℕ → Table → Table
unfolding store_row
drop_from k x t = elim (Map.find k t) [ none ↦ t | some xs ↦ store_row k (Set.erase x xs) t ]

unfoldable pub drop_loop : List ℕ → ℕ → Table → Table
unfolding drop_from
drop_loop [] fact t = t
drop_loop (k ∷ ks) fact t = drop_loop ks fact (drop_from k fact t)

unfoldable pub on_fact_retracted : Option ℕ → Tms → Tms
unfolding row
on_fact_retracted none s = s
on_fact_retracted (some fact) s = record {
  justifications = Map.erase fact s.justifications;
  token_to_justified_facts = drop_loop (row fact s.justifications) fact s.token_to_justified_facts;
  activation_to_facts = drop_loop (row fact s.fact_to_activations) fact s.activation_to_facts;
  fact_to_activations = Map.erase fact s.fact_to_activations;
}
