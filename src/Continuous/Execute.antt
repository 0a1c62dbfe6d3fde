-- ===== src/Continuous/Execute.antt =====
-- execute_operation and what stands on it in rulesforge/src/engine/continuous_session.cpp: the
-- requests, recovery by replay, acknowledgement and construction.
use rules_forge.Prelude.{
  ℕ, ◌+◌, ◌-◌, Bool, true, false, not, Option, none, some, List, [], ◌∷◌, ◌++◌, leb, ◌==◌,
  if◌then◌else◌, length, map, String, ◌&&◌,
}
use rules_forge.Prelude.Int.{ℤ, ltb_ℤ}
use rules_forge.Prelude.Eq.{string_eq}
use rules_forge.Continuous.{
  Config, SessionOps, Error, Result, ok, err, inconsistent, replay_limit, watermark_backwards,
  ack_order, engine, PendingBatch, Metrics, no_metrics, validate_config, on_outcome,
}
use rules_forge.Continuous.Defs.{
  EventEnvelope, Operation, events, watermark, drain, Core, Continuous, StepResult,
}
use rules_forge.Continuous.Steps.{
  StepM, is_consistent, count_limit, validate_events, clone_envelope, apply_events, apply_watermark,
  publish_result,
}

-- The constructor refuses an empty output fact type.
all_named : List String → Bool
all_named [] = true
all_named (type ∷ types) = not (string_eq.beq type "") && all_named types

module _ (E : SessionOps) where
  open E use {Session}

  -- The effect of an operation on the core before the rules fire; the result is `expired`.
  unfoldable pub apply : Config → Operation E → StepM E ℕ
  apply config (events es) core =
      on_outcome (apply_events E es core) (λ u core'. (ok 0, core')) (λ x core'. (err x, core'))
  apply config (watermark w) core = apply_watermark E config w core
  apply config drain core = (ok 0, core)

  unfoldable pub fire_step : Config → StepM E ℕ
  fire_step config core =
      let (s, fired) = E.fire_all_rules_fail_fast config.max_rules_per_step core.session in
      elim fired [
        | none ↦ (err engine, record core { session = s })
        | some n ↦ (ok n, record core { session = s })
      ]

  -- apply and fire_step: the numbers of rules fired and of events expired.
  unfoldable pub run_core : Config → Operation E → StepM E (ℕ × ℕ)
  unfolding fire_step
  run_core config op core =
      on_outcome (apply config op core)
        (λ expired core'.
          on_outcome (fire_step config core') (λ fired core''. (ok (fired, expired), core''))
            (λ x core''. (err x, core'')))
        (λ x core'. (err x, core'))

  unfoldable pub accepted_by : Operation E → ℕ
  accepted_by (events es) = length es
  accepted_by (watermark w) = 0
  accepted_by drain = 0

  -- What `record_operation` adds, and what a failed publication takes back.
  unfoldable pub record_step : Operation E → ℕ → Continuous E → Continuous E
  record_step op expired c = record c {
    committed_operations = c.committed_operations ++ op ∷ [];
    metrics = record (c.metrics) {
      accepted_events = c.metrics.accepted_events + accepted_by op;
      expired_events = c.metrics.expired_events + expired;
    };
  }

  unfoldable pub unrecord_step : List (Operation E) → Operation E → ℕ → Continuous E → Continuous E
  unrecord_step before op expired c = record c {
    committed_operations = before;
    metrics = record (c.metrics) {
      accepted_events = c.metrics.accepted_events - accepted_by op;
      expired_events = c.metrics.expired_events - expired;
    };
  }

  -- The try block of execute_operation with record_operation and publish, as the requests call it.
  unfoldable pub attempt : Operation E → Continuous E → Result (StepResult E) × Continuous E
  attempt op c =
      on_outcome (run_core c.config op c.core)
        (λ counts core'.
          on_outcome
            (publish_result E counts.0 counts.1 (E.next_fact_id c.core.session)
              (record_step op counts.1 (record c { core = core' })))
            (λ result c'. (ok result, c'))
            (λ x c'. (err x, unrecord_step c.committed_operations op counts.1 c')))
        (λ x core'. (err x, record c { core = core' }))

  -- execute_operation with neither, while `replaying_` is set: a failure marks the session.
  unfoldable pub replay_operation : Operation E → Continuous E → Result (Unit {0}) × Continuous E
  replay_operation op c =
      on_outcome (run_core c.config op c.core) (λ counts core'. (ok tt, record c { core = core' }))
        (λ x core'. (err x, record c { core = core'; consistent = false }))

  unfoldable pub replay_loop : List (Operation E) → Continuous E → Result (Unit {0}) × Continuous E
  replay_loop [] c = (ok tt, c)
  replay_loop (op ∷ ops) c =
      on_outcome (replay_operation op c) (λ u c'. replay_loop ops c') (λ x c'. (err x, c'))

  -- The core of a new session.
  abbrev pub fresh_core : Session → Core E
  fresh_core s = record {
    session = E.enable_event_time_mode s;
    watermark_ms = none;
    active_events = [];
    dedup_event_times = [];
  }

  -- The end of recover_by_replay, after the replay.
  unfoldable pub finish_recovery :
      Metrics → Result (Unit {0}) × Continuous E → Result (Unit {0}) × Continuous E
  finish_recovery saved (err x, c) = (err x, record c { replaying = false; consistent = false })
  finish_recovery saved (ok u, c) = (
    ok tt,
    record c {
      metrics = record (c.metrics) {
        accepted_events = saved.accepted_events;
        expired_events = saved.expired_events;
        replay_recoveries = c.metrics.replay_recoveries + 1;
      };
      consistent = true;
      replaying = false;
    },
  )

  unfoldable pub recover_into : Option Session → Continuous E → Result (Unit {0}) × Continuous E
  unfolding finish_recovery
  recover_into none c = (err engine, c)
  recover_into (some replacement) c = finish_recovery (c.metrics) (
      replay_loop c.committed_operations
        (record c { core = fresh_core replacement; replaying = true }))

  unfoldable pub recover_by_replay : Continuous E → Result (Unit {0}) × Continuous E
  unfolding recover_into
  recover_by_replay c = recover_into E.create_session c

  -- execute_operation: after a failure the committed operations are replayed into a new session.
  unfoldable pub execute_operation :
      Operation E → Continuous E → Result (StepResult E) × Continuous E
  execute_operation op c =
      on_outcome (attempt op c) (λ result c'. (ok result, c'))
        (λ x c'. elim c'.replaying [
          | true ↦ (err x, record c' { consistent = false })
          | false ↦
              on_outcome (recover_by_replay c') (λ u c''. (err x, c''))
                (λ y c''. (err x, record c'' { consistent = false }))
        ])

  unfoldable pub push_batch :
      List (EventEnvelope E) → Continuous E → Result (StepResult E) × Continuous E
  push_batch es c =
      on_outcome (validate_events E es c)
        (λ u c'. execute_operation (events (map (clone_envelope E) es)) c') (λ x c'. (err x, c'))

  unfoldable pub push : EventEnvelope E → Continuous E → Result (StepResult E) × Continuous E
  push e = push_batch (e ∷ [])

  unfoldable pub is_backwards : Option ℤ → ℤ → Bool
  is_backwards none w = false
  is_backwards (some current) w = ltb_ℤ w current

  unfoldable pub advance_watermark : ℤ → Continuous E → Result (StepResult E) × Continuous E
  unfolding is_backwards
  advance_watermark w c =
      if not (is_consistent E c)
      then (err inconsistent, c)
      else if is_backwards c.core.watermark_ms w
      then (err watermark_backwards, c)
      else if leb c.config.max_replay_steps (length c.committed_operations)
      then (err replay_limit, count_limit E c)
      else execute_operation (watermark w) c

  unfoldable pub drain_step : Continuous E → Result (StepResult E) × Continuous E
  drain_step c =
      if not (is_consistent E c)
      then (err inconsistent, c)
      else if leb c.config.max_replay_steps (length c.committed_operations)
      then (err replay_limit, count_limit E c)
      else execute_operation drain c

  unfoldable pub acknowledge_front :
      ℕ → List PendingBatch → Continuous E → Result (Unit {0}) × Continuous E
  acknowledge_front batch_id [] c = (err ack_order, c)
  acknowledge_front batch_id (b ∷ bs) c =
      if b.id == batch_id
      then (
        ok tt,
        record c {
          metrics = record (c.metrics) {
            pending_results = c.metrics.pending_results - b.output_count;
          };
          pending_batches = bs;
        },
      )
      else (err ack_order, c)

  unfoldable pub acknowledge : ℕ → Continuous E → Result (Unit {0}) × Continuous E
  unfolding acknowledge_front
  acknowledge batch_id c = acknowledge_front batch_id c.pending_batches c

  -- The constructor: none where it throws.
  unfoldable pub create_from : Config → Option Session → Option (Continuous E)
  create_from config none = none
  create_from config (some s) = some (record {
    config = config;
    core = fresh_core s;
    committed_operations = [];
    pending_batches = [];
    metrics = no_metrics;
    next_batch_id = 1;
    consistent = true;
    replaying = false;
  })

  unfoldable pub create : Config → Option (Continuous E)
  unfolding all_named create_from
  create config =
      if validate_config config && all_named config.output_fact_types
      then create_from config E.create_session
      else none

  -- A request of the public interface.
  pub data Request : Type 0 where
    pushes : List (EventEnvelope E) → Request
    advances : ℤ → Request
    drains : Request
    acknowledges : ℕ → Request

  abbrev pub of_unit : Result (Unit {0}) × Continuous E → Option Error × Continuous E
  of_unit (ok u, c) = (none, c)
  of_unit (err x, c) = (some x, c)

  abbrev pub of_step : Result (StepResult E) × Continuous E → Option Error × Continuous E
  of_step (ok r, c) = (none, c)
  of_step (err x, c) = (some x, c)

  -- Whether a request throws, and the state after it.
  unfoldable pub request : Request → Continuous E → Option Error × Continuous E
  request (pushes es) c = of_step (push_batch es c)
  request (advances w) c = of_step (advance_watermark w c)
  request drains c = of_step (drain_step c)
  request (acknowledges id) c = of_unit (acknowledge id c)

  -- What metrics returns: the counters, and three sizes.
  pub record Snapshot : Type 0 where
    pub counters : Metrics
    pub active_events : ℕ
    pub dedup_entries : ℕ
    pub pending_result_batches : ℕ

  unfoldable pub metrics_snapshot : Continuous E → Snapshot
  metrics_snapshot c = record {
    counters = c.metrics;
    active_events = length c.core.active_events;
    dedup_entries = length c.core.dedup_event_times;
    pending_result_batches = length c.pending_batches;
  }
