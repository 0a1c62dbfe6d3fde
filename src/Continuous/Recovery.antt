-- ===== src/Continuous/Recovery.antt =====
-- About recover_by_replay of rulesforge/src/engine/continuous_session.cpp.
use rules_forge.Prelude.{
  ℕ, ◌+◌, ◌≡◌, refl, ◌∙◌, ap, ◌⊎◌, inl, inr, true, false, Option, none, some, List, [], ◌∷◌, ◌++◌,
  arith,
}
use rules_forge.Continuous.{Config, SessionOps, Error, Result, ok, err, on_outcome}
use rules_forge.Continuous.Defs.{Operation, Core, Continuous}
use rules_forge.Continuous.Steps.{publish_result}
use rules_forge.Continuous.Execute.{
  run_core, record_step, unrecord_step, attempt, replay_operation, replay_loop, fresh_core,
  recover_by_replay, recover_into, finish_recovery, execute_operation,
}

-- What a call returns and the state that it leaves, with the equation kept.
pub Outcome-cases {ℓ κ} :
    {A : Type ℓ} {S : Type κ} (r : Result A × S)
    → ((a : A) × (s : S) × (r ≡ (ok a, s))) ⊎ ((x : Error) × (s : S) × (r ≡ (err x, s)))
Outcome-cases (ok a, s) = inl (a, s, refl)
Outcome-cases (err x, s) = inr (x, s, refl)

module _ (E : SessionOps) where
  open E use {Session}

  -- The core that the operations lead to, none where one of them throws.
  unfoldable pub replay_core : Config → List (Operation E) → Core E → Option (Core E)
  replay_core config [] core = some core
  replay_core config (op ∷ ops) core =
      on_outcome (run_core E config op core) (λ counts next. replay_core config ops next)
        (λ x next. none)

  -- The log explains the state: its operations lead from a new session to the core at hand.
  pub record IsReplayable (c : Continuous E) : Type 0 where
    pub base : Session
    pub created : E.create_session ≡ some base
    pub replays : replay_core c.config c.committed_operations (fresh_core E base) ≡ some c.core
    pub settled : c.replaying ≡ false

  pub replay_core-append :
      (config : Config) (ops : List (Operation E)) (op : Operation E) (core next after : Core E)
      (counts : ℕ × ℕ)
      → replay_core config ops core ≡ some next
      → run_core E config op next ≡ (ok counts, after)
      → replay_core config (ops ++ op ∷ []) core ≡ some after
  unfolding replay_core
  replay_core-append config [] op core next after counts h k = ground arith
  replay_core-append config (o ∷ ops) op core next after counts h k =
      elim (Outcome-cases (run_core E config o core)) [
        | inl (n, mid, e) ↦
            rw (e) (replay_core-append config ops op mid next after counts (rw e at h) k)
        | inr (x, mid, e) ↦ ground arith
      ]

  replay_operation_ok :
      (op : Operation E) (c : Continuous E) (n : ℕ × ℕ) (mid : Core E)
      → run_core E c.config op c.core ≡ (ok n, mid)
      → replay_operation E op c ≡ (ok tt, record c { core = mid })
  unfolding replay_operation
  replay_operation_ok op c n mid e = ground arith

  replay_loop_lem :
      (ops : List (Operation E)) (c : Continuous E) (next : Core E)
      → replay_core c.config ops c.core ≡ some next
      → replay_loop E ops c ≡ (ok tt, record c { core = next })
  unfolding replay_core replay_loop
  replay_loop_lem [] c next h = ground arith
  replay_loop_lem (op ∷ ops) c next h = elim (Outcome-cases (run_core E c.config op c.core)) [
    | inl (n, mid, e) ↦
        rw (replay_operation_ok op c n mid e)
          (replay_loop_lem ops (record c { core = mid }) next (rw e at h))
    | inr (x, mid, e) ↦ ground arith
  ]

  abbrev pub recovered : Continuous E → Core E → Continuous E
  recovered c core = record c {
    core = core;
    metrics = record (c.metrics) { replay_recoveries = c.metrics.replay_recoveries + 1 };
    consistent = true;
    replaying = false;
  }

  -- Where the log is replayable, recovery succeeds and rebuilds the core that the log leads to.
  pub recover_by_replay_lem :
      (c : Continuous E) (base : Session) (core : Core E)
      → E.create_session ≡ some base
      → replay_core c.config c.committed_operations (fresh_core E base) ≡ some core
      → recover_by_replay E c ≡ (ok tt, recovered c core)
  unfolding recover_by_replay
  recover_by_replay_lem c base core e h =
      ap (λ o. recover_into E o c) e
      ∙ ap (finish_recovery E (c.metrics)) (
          replay_loop_lem c.committed_operations
            (record c { core = fresh_core E base; replaying = true }) core h)

  -- What an operation that throws inside the try block leaves for recovery.
  abbrev pub Thrown : Continuous E → Continuous E → Type 0
  Thrown c c' =
      (c'.config ≡ c.config)
      × (c'.committed_operations ≡ c.committed_operations)
      × (c'.pending_batches ≡ c.pending_batches)
      × (c'.next_batch_id ≡ c.next_batch_id)
      × (c'.metrics.accepted_events ≡ c.metrics.accepted_events)
      × (c'.metrics.expired_events ≡ c.metrics.expired_events)
      × (c'.metrics.pending_results ≡ c.metrics.pending_results)
      × (c'.replaying ≡ c.replaying)

  pub attempt-Thrown :
      (op : Operation E) (c c' : Continuous E) (x : Error)
      → attempt E op c ≡ (err x, c')
      → Thrown c c'
  unfolding attempt publish_result record_step unrecord_step
  attempt-Thrown op c c' x h = elim (Outcome-cases (run_core E c.config op c.core)) [
    | inl (n, mid, e) ↦ ground arith
    | inr (y, mid, e) ↦ ground arith
  ]

  -- A step that fails leaves the core, the log, the pending batches and the counters of accepted,
  -- expired and pending as they were, and the session consistent.
  abbrev pub Untouched : Continuous E → Continuous E → Type 0
  Untouched c c' =
      (c'.core ≡ c.core)
      × (c'.committed_operations ≡ c.committed_operations)
      × (c'.pending_batches ≡ c.pending_batches)
      × (c'.next_batch_id ≡ c.next_batch_id)
      × (c'.metrics.accepted_events ≡ c.metrics.accepted_events)
      × (c'.metrics.expired_events ≡ c.metrics.expired_events)
      × (c'.metrics.pending_results ≡ c.metrics.pending_results)
      × (c'.config ≡ c.config)

  pub execute_failed :
      (op : Operation E) (c c' : Continuous E) (x : Error)
      → IsReplayable c
      → attempt E op c ≡ (err x, c')
      → execute_operation E op c ≡ (err x, recovered c' c.core)
  unfolding execute_operation
  execute_failed op c c' x v e =
      let t = attempt-Thrown op c c' x e in
      rw e (
        rw
          (
            t.7 ∙ v.settled,
            recover_by_replay_lem c' v.base c.core v.created (rw (t.0, t.1) v.replays),
          )
          refl)
