-- ===== src/Agenda/Cancel.antt =====
-- About the bulk removals of rulesforge/include/engine/agenda.hpp: the rest of an activation group, and the
-- activations of a retracted fact.
use mathlib.Core.Path.{subst}
use rules_forge.Prelude.{
  ℕ, ◌≡◌, refl, Bool, false, none, some, List, [], ◌∷◌, arith, ◌==◌, Bool-cases, Option-cases, inl,
  inr, if◌then◌else◌, String,
}
use rules_forge.Prelude.Eq.{nat_eq, string_eq}
use rules_forge.Prelude.Map.{Map, find-erase, IsUnique}
use rules_forge.Prelude.Map
use rules_forge.Prelude.Set.{contains-erase}
use rules_forge.Prelude.Set
use rules_forge.Rule.{Ptr, Activation, wme_references_fact}
use rules_forge.Agenda.{Agenda, remove, remove_all}
use rules_forge.Agenda.Blocks.{
  drop_except, cancel_activation_group, to_remove, remove_activations_with_fact_id,
}

find-remove :
    (h j : ℕ) (a : Agenda)
    → Map.find j (remove h a).0.agenda_map ≡ (if h == j then none else Map.find j a.agenda_map)
unfolding remove
find-remove h j a = elim (Option-cases (Map.find h a.agenda_map)) [
  | inl e ↦
      rw (e, remove)
        (elim (Bool-cases (h == j)) [
          | inl t ↦ let eq : h ≡ j = ground arith in rw t (rw (← eq) e)
          | inr t ↦ rw t
        ])
  | inr (x, e) ↦ rw (e, remove) (find-erase h j a.agenda_map)
]

-- The hashes of the list leave the map, and no other.
find-remove_all :
    (hs : List ℕ) (j : ℕ) (a : Agenda)
    → Map.find j (remove_all hs a).agenda_map
      ≡ (if Set.contains j hs then none else Map.find j a.agenda_map)
unfolding remove_all Set.contains
find-remove_all [] j a = refl
find-remove_all (h ∷ hs) j a =
    ground (arith, find-remove_all hs j (remove h a).0, find-remove h j a)

agenda_map-drop_except :
    (g : String) (h : ℕ) (a : Agenda) → (drop_except g h a).agenda_map ≡ a.agenda_map
unfolding drop_except
agenda_map-drop_except g h a = ground arith

-- The members that an activation group has: none where the group is unknown.
abbrev pub group_members : String → Agenda → List ℕ
group_members g a = elim (Map.find g a.activation_group_map) [ none ↦ [] | some hashes ↦ hashes ]

-- Cancelling a group removes its members but the excepted one, and no other activation.
pub cancel_activation_group_lem :
    (group : String) (except_hash j : ℕ) (a : Agenda)
    → Map.find j (cancel_activation_group group except_hash a).agenda_map ≡ (
        if except_hash == j
        then Map.find j a.agenda_map
        else if Set.contains j (group_members group a)
        then none
        else Map.find j a.agenda_map)
unfolding cancel_activation_group Set.contains
cancel_activation_group_lem g h j a = elim (Option-cases (Map.find g a.activation_group_map)) [
  | inl e ↦ rw (e, cancel_activation_group) (ground arith)
  | inr (hs, e) ↦
      rw (e, cancel_activation_group)
        (rw agenda_map-drop_except
          (ground (arith, find-remove_all (Set.erase h hs) j a, contains-erase h j hs)))
]

-- The token of this activation holds the fact.
abbrev pub depends : (Ptr → ℕ) → ℕ → Activation → Bool
depends ids fact_id act = elim act.token.wme [
  | none ↦ false
  | some wme ↦ wme_references_fact ids fact_id wme
]

-- A hash that is not live is not listed.
to_remove-live :
    (ids : Ptr → ℕ) (fact_id h : ℕ) (m : Map ℕ Activation)
    → Map.find h m ≡ none
    → Set.contains h (to_remove ids fact_id m) ≡ false
unfolding to_remove Set.contains Map.find
to_remove-live ids i h [] e = refl
to_remove-live ids i h ((k, act) ∷ m) e = ground (arith, to_remove-live ids i h m)

to_remove-depends :
    (ids : Ptr → ℕ) (fact_id h : ℕ) (m : Map ℕ Activation) (x : Activation)
    → IsUnique m
    → Map.find h m ≡ some x
    → Set.contains h (to_remove ids fact_id m) ≡ depends ids fact_id x
unfolding to_remove Set.contains Map.find
to_remove-depends ids i h [] x u e = cc
to_remove-depends ids i h ((k, act) ∷ m) x u e = elim (Bool-cases (k == h)) [
  | inl t ↦
      let eq : k ≡ h = ground arith in
      let absent = to_remove-live ids i h m (subst (λ j. Map.find j m ≡ none) eq u.0) in
      ground arith
  | inr t ↦ ground (arith, to_remove-depends ids i h m x u.1)
]

delayed-remove_all :
    (hs : List ℕ) (a : Agenda) → (remove_all hs a).delayed_activations ≡ a.delayed_activations
unfolding remove_all remove
delayed-remove_all [] a = refl
delayed-remove_all (h ∷ hs) a = ground (arith, delayed-remove_all hs (remove h a).0)

-- Once a fact's activations are removed, an activation is in the map of live activations just if it
-- was and its token does not hold the fact; one that waits for its duration stays, whatever it holds.
-- No hash stands in the map twice.
pub remove_activations_with_fact_id_lem :
    (ids : Ptr → ℕ) (fact_id h : ℕ) (a : Agenda)
    → IsUnique a.agenda_map
    → ((x : Activation)
        → Map.find h a.agenda_map ≡ some x
        → Map.find h (remove_activations_with_fact_id ids fact_id a).agenda_map
          ≡ (if depends ids fact_id x then none else some x))
      × (Map.find h a.agenda_map ≡ none
          → Map.find h (remove_activations_with_fact_id ids fact_id a).agenda_map ≡ none)
      × ((remove_activations_with_fact_id ids fact_id a).delayed_activations
          ≡ a.delayed_activations)
unfolding remove_activations_with_fact_id
remove_activations_with_fact_id_lem ids i h a u = (
  λ x e. ground (
    arith,
    find-remove_all (to_remove ids i a.agenda_map) h a,
    to_remove-depends ids i h a.agenda_map x u e,
  ),
  λ e. ground (arith, find-remove_all (to_remove ids i a.agenda_map) h a),
  delayed-remove_all (to_remove ids i a.agenda_map) a,
)
