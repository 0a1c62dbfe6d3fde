-- ===== src/Tms/Tests.antt =====
-- Runs of the truth maintenance system (rulesforge/src/engine/tms.cpp) on small concrete tables.
use rules_forge.Prelude.{ℕ, Bool, ◌≡◌, ◌↔◌, true, some}
use rules_forge.Prelude.Eq.{nat_eq}
use rules_forge.Prelude.Set
use rules_forge.Tms.{Tms, empty, remove_justifications_by_token, on_activation_retracted}
use rules_forge.Tms.Tables.{holds}
use rules_forge.Tms.Mirror.{
  IsMirrored, empty-IsMirrored, after, after-IsMirrored, justifies, depends, token_gone,
}
use rules_forge.Tms.Support.{
  IsBare, IsSole, remove_justifications_by_token_lem, on_activation_retracted_lem,
}

abbrev all_known : ℕ → Bool
all_known id = true

-- Fact 1 rests on the chain 70, fact 2 on the activation 90.
abbrev supported : Tms
supported = after all_known (depends 90 2) (after all_known (justifies (some 70) (some 1)) empty)

supported-IsMirrored : IsMirrored supported
supported-IsMirrored =
    after-IsMirrored all_known (depends 90 2) (after all_known (justifies (some 70) (some 1)) empty)
      (after-IsMirrored all_known (justifies (some 70) (some 1)) empty empty-IsMirrored)

after-IsMirrored_example : IsMirrored (after all_known (token_gone (some 70)) supported)
after-IsMirrored_example =
    after-IsMirrored all_known (token_gone (some 70)) supported supported-IsMirrored

remove_justifications_by_token_lem_example :
    (Set.contains 1 (remove_justifications_by_token all_known (some 70) supported).1 ≡ true) ↔ (
      (holds 70 1 supported.token_to_justified_facts ≡ true)
      × IsSole 70 1 supported.justifications
      × IsBare 1 supported.fact_to_activations
      × (all_known 1 ≡ true))
remove_justifications_by_token_lem_example =
    remove_justifications_by_token_lem all_known 70 1 supported supported-IsMirrored

on_activation_retracted_lem_example :
    (Set.contains 2 (on_activation_retracted all_known 90 supported).1 ≡ true) ↔ (
      (holds 90 2 supported.activation_to_facts ≡ true)
      × IsSole 90 2 supported.fact_to_activations
      × IsBare 2 supported.justifications
      × (all_known 2 ≡ true))
on_activation_retracted_lem_example = on_activation_retracted_lem all_known 90 2 supported
