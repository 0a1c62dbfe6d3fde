-- ===== src/Continuous/Tests.antt =====
-- Runs of a ContinuousSession (rulesforge/src/engine/continuous_session.cpp) over a small session
-- that counts its insertions and throws on a fact of the type "bad".
use rules_forge.Prelude.{
  ℕ, ◌+◌, ◌≡◌, ◌≢◌, refl, true, false, Option, none, some, [], ◌∷◌, All, if◌then◌else◌, String,
}
use rules_forge.Prelude.Int.{ℤ, pos}
use rules_forge.Prelude.Eq.{string_eq}
use rules_forge.Prelude.Map
use rules_forge.Prelude.Set
use rules_forge.Continuous.{Config, SessionOps, ok, committed, validate_config, no_metrics}
use rules_forge.Continuous.Defs.{boundary, checked_subtract, EventEnvelope, Continuous, StepResult}
use rules_forge.Continuous.Steps.{
  check_batch, validate_loop, check_event, is_missing, is_consistent, type_of, clone_envelope,
  apply_events, insert_one, validate_events, is_late, is_beyond_lead, apply_watermark, retain_loop,
  expire_entries, publish_result, collect_outputs, status_of,
}
use rules_forge.Continuous.Execute.{
  execute_operation, attempt, run_core, apply, fire_step, record_step, accepted_by, is_backwards,
  Request, pushes, request, create, create_from, push_batch, advance_watermark, recover_by_replay,
  fresh_core,
}
use rules_forge.Continuous.Recovery.{IsReplayable, replay_core, recovered, recover_by_replay_lem}
use rules_forge.Continuous.Atomic.{AfterRequest, request_atomic, create-IsReplayable}
use rules_forge.Continuous.Admission.{push_batch_once}
use rules_forge.Continuous.Watermark.{Advanced, NotBack, advance_watermark_lem}

abbrev toy : SessionOps
toy = record {
  Session = ℕ;
  Fields = Unit {0};
  Handle = ℕ;
  create_session = some 0;
  enable_event_time_mode = λ s. s;
  is_consistent = λ s. true;
  validate_entry_point_route = λ entry type s. true;
  insert_event_into =
      λ entry fact time s. if string_eq.beq fact.type "bad" then (s + 1, none) else (s + 1, some s);
  retract_from = λ entry handle s. (s, true);
  advance_event_time = λ w s. (s, some 0);
  fire_all_rules_fail_fast = λ limit s. (s, some 1);
  next_fact_id = λ s. s;
  pending_activation_count = λ s. 0;
  facts_snapshot = λ s. [];
}

abbrev small : Config
small = record {
  max_active_events = 4;
  max_dedup_entries = 4;
  max_pending_result_batches = 4;
  max_pending_results = 4;
  max_input_batch_size = 2;
  max_replay_steps = 4;
  max_rules_per_step = pos 10;
  allowed_lateness_ms = pos 5;
  event_retention_ms = pos 20;
  dedup_retention_ms = pos 20;
  max_event_time_lead_ms = pos 100;
  output_fact_types = [];
}

abbrev start : Continuous toy
start = record {
  config = small;
  core = fresh_core toy 0;
  committed_operations = [];
  pending_batches = [];
  metrics = no_metrics;
  next_batch_id = 1;
  consistent = true;
  replaying = false;
}

start-created : create toy small ≡ some start
unfolding create create_from validate_config
start-created = refl

start-IsReplayable : IsReplayable toy start
start-IsReplayable = create-IsReplayable toy small start start-created

abbrev event : String → String → EventEnvelope toy
event id type = record {
  event_id = id;
  entry_point = "in";
  event_time_ms = pos 30;
  fact = some (record { id = 9; type = type; fields = tt });
}

-- The second event throws after the first is in.
abbrev failing : Request toy
failing = pushes (event "a" "good" ∷ event "b" "bad" ∷ [])

request_atomic_example : AfterRequest toy start (request toy failing start)
request_atomic_example = request_atomic toy failing start start-IsReplayable

recover_by_replay_lem_example :
    recover_by_replay toy start ≡ (ok tt, recovered toy start (fresh_core toy 0))
unfolding replay_core
recover_by_replay_lem_example = recover_by_replay_lem toy start 0 (fresh_core toy 0) refl refl

abbrev answer : ℕ → Option ℤ → StepResult toy
answer id now = record {
  status = committed;
  batch_id = id;
  watermark_ms = now;
  rules_fired = 1;
  events_expired = 0;
  outputs = [];
}

abbrev one_in : Continuous toy
one_in = (push_batch toy (event "a" "good" ∷ []) start).1

abbrev two_in : Continuous toy
two_in = (push_batch toy (event "b" "good" ∷ []) one_in).1

one_in-accepted : push_batch toy (event "a" "good" ∷ []) start ≡ (ok (answer 1 none), one_in)
unfolding push_batch validate_events check_batch validate_loop check_event is_missing is_consistent
    is_late is_beyond_lead type_of clone_envelope execute_operation attempt run_core apply
    apply_events insert_one fire_step publish_result record_step accepted_by collect_outputs
    status_of Map.find Set.contains
one_in-accepted = refl

two_in-accepted : push_batch toy (event "b" "good" ∷ []) one_in ≡ (ok (answer 2 none), two_in)
unfolding push_batch validate_events check_batch validate_loop check_event is_missing is_consistent
    is_late is_beyond_lead type_of clone_envelope execute_operation attempt run_core apply
    apply_events insert_one fire_step publish_result record_step accepted_by collect_outputs
    status_of Map.find Map.insert Set.contains
two_in-accepted = refl

push_batch_once_example :
    All
      (λ (e : EventEnvelope toy).
        All (λ (e' : EventEnvelope toy). e.event_id ≢ e'.event_id) (event "b" "good" ∷ []))
      (event "a" "good" ∷ [])
push_batch_once_example =
    push_batch_once toy (event "a" "good" ∷ []) (event "b" "good" ∷ []) start one_in two_in
      (answer 1 none) (answer 2 none) start-IsReplayable one_in-accepted two_in-accepted

abbrev advanced : Continuous toy
advanced = (advance_watermark toy (pos 30) start).1

advanced-accepted : advance_watermark toy (pos 30) start ≡ (ok (answer 1 (some (pos 30))), advanced)
unfolding advance_watermark is_backwards is_consistent execute_operation attempt run_core apply
    apply_watermark retain_loop expire_entries boundary checked_subtract fire_step publish_result
    record_step accepted_by collect_outputs status_of
advanced-accepted = refl

advance_watermark_lem_example :
    NotBack start.core.watermark_ms (some (pos 30)) × Advanced toy small (pos 30) advanced.core
advance_watermark_lem_example =
    advance_watermark_lem toy (pos 30) start advanced (answer 1 (some (pos 30))) start-IsReplayable
      advanced-accepted
