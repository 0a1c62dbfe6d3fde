-- ===== src/Tms/Mirror.antt =====
-- About the two directions of each support table of rulesforge/src/engine/tms.cpp.
use rules_forge.Prelude.{ℕ, ◌≡◌, refl, inl, inr, Bool, Option, none, some, arith, Option-cases}
use rules_forge.Prelude.Eq.{nat_eq}
use rules_forge.Prelude.Map.{find-insert, find-erase}
use rules_forge.Prelude.Map
use rules_forge.Prelude.Set.{contains-insert, contains-erase}
use rules_forge.Prelude.Set
use rules_forge.Tms.{
  Tms, empty, row, add_justification, add_logical_dependency, remove_justifications_by_token,
  on_activation_retracted, on_fact_retracted,
}
use rules_forge.Tms.Tables.{
  holds, same_row, holds-insert_at, holds-push_at, holds-erase, present, holds-drop_loop,
  holds-unjustify_loop, holds-unsupport_loop,
}

-- Each direction of support is the other read backwards.
pub record IsMirrored (s : Tms) : Type 0 where
  pub tokens :
      (fact wme : ℕ) → holds fact wme s.justifications ≡ holds wme fact s.token_to_justified_facts
  pub activations :
      (fact hash : ℕ)
      → holds fact hash s.fact_to_activations ≡ holds hash fact s.activation_to_facts

pub empty-IsMirrored : IsMirrored empty
unfolding row Map.find Set.contains
empty-IsMirrored = record { tokens = λ f w. refl; activations = λ f h. refl }

-- A call of the truth maintenance system; `known` is what the network knows at the time.
pub data Call : Type 0 where
  justifies : Option ℕ → Option ℕ → Call
  depends : ℕ → ℕ → Call
  token_gone : Option ℕ → Call
  activation_gone : ℕ → Call
  fact_gone : Option ℕ → Call

unfoldable pub after : (ℕ → Bool) → Call → Tms → Tms
after known (justifies wme fact) s = add_justification wme fact s
after known (depends hash fact) s = add_logical_dependency hash fact s
after known (token_gone wme) s = (remove_justifications_by_token known wme s).0
after known (activation_gone hash) s = (on_activation_retracted known hash s).0
after known (fact_gone fact) s = on_fact_retracted fact s

-- What the two calls that walk a row do to the tables, whether or not the row is there.
remove_token-tokens :
    (known : ℕ → Bool) (w g x : ℕ) (s : Tms)
    → holds g x s.justifications ≡ holds x g s.token_to_justified_facts
    → holds g x (remove_justifications_by_token known (some w) s).0.justifications
      ≡ holds x g (remove_justifications_by_token known (some w) s).0.token_to_justified_facts
unfolding remove_justifications_by_token
remove_token-tokens known w g x s v = elim (Option-cases (Map.find w s.token_to_justified_facts)) [
  | inl e ↦ rw (e, remove_justifications_by_token) v
  | inr (facts, e) ↦
      rw (e, remove_justifications_by_token)
        (ground (
          arith,
          holds-unjustify_loop known w s.fact_to_activations facts g x s.justifications,
          holds-erase w x g s.token_to_justified_facts,
          present w g facts s.token_to_justified_facts e,
          same_row w x g s.token_to_justified_facts,
          v,
        ))
]

remove_token-activations :
    (known : ℕ → Bool) (w g x : ℕ) (s : Tms)
    → holds g x s.fact_to_activations ≡ holds x g s.activation_to_facts
    → holds g x (remove_justifications_by_token known (some w) s).0.fact_to_activations
      ≡ holds x g (remove_justifications_by_token known (some w) s).0.activation_to_facts
unfolding remove_justifications_by_token
remove_token-activations known w g x s v =
    elim (Option-cases (Map.find w s.token_to_justified_facts)) [
      | inl e ↦ rw (e, remove_justifications_by_token) v
      | inr (facts, e) ↦ rw (e, remove_justifications_by_token) v
    ]

activation_gone-tokens :
    (known : ℕ → Bool) (h g x : ℕ) (s : Tms)
    → holds g x s.justifications ≡ holds x g s.token_to_justified_facts
    → holds g x (on_activation_retracted known h s).0.justifications
      ≡ holds x g (on_activation_retracted known h s).0.token_to_justified_facts
unfolding on_activation_retracted
activation_gone-tokens known h g x s v = elim (Option-cases (Map.find h s.activation_to_facts)) [
  | inl e ↦ rw (e, on_activation_retracted) v
  | inr (facts, e) ↦ rw (e, on_activation_retracted) v
]

activation_gone-activations :
    (known : ℕ → Bool) (h g x : ℕ) (s : Tms)
    → holds g x s.fact_to_activations ≡ holds x g s.activation_to_facts
    → holds g x (on_activation_retracted known h s).0.fact_to_activations
      ≡ holds x g (on_activation_retracted known h s).0.activation_to_facts
unfolding on_activation_retracted
activation_gone-activations known h g x s v =
    elim (Option-cases (Map.find h s.activation_to_facts)) [
      | inl e ↦ rw (e, on_activation_retracted) v
      | inr (facts, e) ↦
          rw (e, on_activation_retracted)
            (ground (
              arith,
              holds-unsupport_loop known h s.justifications facts g x s.fact_to_activations,
              holds-erase h x g s.activation_to_facts,
              present h g facts s.activation_to_facts e,
              same_row h x g s.activation_to_facts,
              v,
            ))
    ]

-- Every call keeps the two directions of support in agreement.
pub after-IsMirrored :
    (known : ℕ → Bool) (c : Call) (s : Tms) → IsMirrored s → IsMirrored (after known c s)
unfolding after add_justification remove_justifications_by_token add_logical_dependency
    on_fact_retracted
after-IsMirrored known (justifies none fact) s v = record {
  tokens = v.tokens;
  activations = v.activations;
}
after-IsMirrored known (justifies (some w) none) s v = record {
  tokens = v.tokens;
  activations = v.activations;
}
after-IsMirrored known (justifies (some w) (some f)) s v = record {
  tokens = λ g x. ground (
    arith,
    holds-insert_at f w g x s.justifications,
    holds-push_at w f x g s.token_to_justified_facts,
    v.tokens g x,
  );
  activations = v.activations;
}
after-IsMirrored known (depends h f) s v = record {
  tokens = v.tokens;
  activations = λ g x. ground (
    arith,
    holds-insert_at f h g x s.fact_to_activations,
    holds-push_at h f x g s.activation_to_facts,
    v.activations g x,
  );
}
after-IsMirrored known (token_gone none) s v = record {
  tokens = v.tokens;
  activations = v.activations;
}
after-IsMirrored known (token_gone (some w)) s v = record {
  tokens = λ g x. remove_token-tokens known w g x s (v.tokens g x);
  activations = λ g x. remove_token-activations known w g x s (v.activations g x);
}
after-IsMirrored known (activation_gone h) s v = record {
  tokens = λ g x. activation_gone-tokens known h g x s (v.tokens g x);
  activations = λ g x. activation_gone-activations known h g x s (v.activations g x);
}
after-IsMirrored known (fact_gone none) s v = record {
  tokens = v.tokens;
  activations = v.activations;
}
after-IsMirrored known (fact_gone (some f)) s v = record {
  tokens = λ g x. ground (
    arith,
    holds-erase f g x s.justifications,
    holds-drop_loop (row f s.justifications) f x g s.token_to_justified_facts,
    v.tokens g x,
    v.tokens f x,
    same_row f g x s.justifications,
  );
  activations = λ g x. ground (
    arith,
    holds-erase f g x s.fact_to_activations,
    holds-drop_loop (row f s.fact_to_activations) f x g s.activation_to_facts,
    v.activations g x,
    v.activations f x,
    same_row f g x s.fact_to_activations,
  );
}
