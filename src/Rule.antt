-- ===== src/Rule.antt =====
-- The rule, token and activation structs that the engine passes around:
-- rulesforge/include/core/parsed_rule.hpp and rulesforge/include/core/token.hpp.
-- A pointer is a number, its address. Of ParsedRule the fields that the engine reads stand here.
use rules_forge.Prelude.{ℕ, ◌==◌, String, Bool, Option, List, if◌then◌else◌, true}
use rules_forge.Prelude.{false, none, some, [], ◌∷◌}
use rules_forge.Prelude.Int.{ℤ}

abbrev pub Ptr : Type 0
Ptr = ℕ

pub record ParsedRule : Type 0 where
  -- The address of the rule, by which lock-on-active identifies it.
  pub addr : Ptr
  pub name : String
  pub salience : ℤ
  pub no_loop : Bool
  pub lock_on_active : Bool
  pub duration : ℤ
  pub agenda_group : Option String
  pub activation_group : Option String

-- A token is its chain of nodes, the newest first and the root (depth 0) left out. A node holds
-- the pointer of its fact, or none for nullptr.
abbrev pub TokenWme : Type 0
TokenWme = List (Option Ptr)

pub record Token : Type 0 where
  -- none is a null chain.
  pub wme : Option TokenWme

pub record Activation : Type 0 where
  pub rule : ParsedRule
  pub token : Token
  pub hash_value : ℕ

-- Does a chain hold a fact of this id? `ids` reads `fact->id` through the pointer.
unfoldable pub wme_references_fact : (Ptr → ℕ) → ℕ → TokenWme → Bool
wme_references_fact ids fact_id [] = false
wme_references_fact ids fact_id (none ∷ up) = wme_references_fact ids fact_id up
wme_references_fact ids fact_id (some fact ∷ up) =
    if ids fact == fact_id then true else wme_references_fact ids fact_id up
