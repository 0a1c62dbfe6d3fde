-- ===== src/Continuous/Bounds.antt =====
-- About the configured limits of rulesforge/src/engine/continuous_session.cpp.
use mathlib.Core.Path.{subst}
use rules_forge.Prelude.{
  ℕ, suc, ◌<◌, ◌≤◌, ◌+◌, ◌≡◌, refl, inl, inr, none, List, [], ◌∷◌, ◌++◌, length, arith, ap,
  Bool-cases, Option-cases, length-append, String, map, leb, ◌==◌,
}
use rules_forge.Prelude.Int.{ℤ}
use rules_forge.Continuous.{SessionOps, Result, ok, err, PendingBatch}
use rules_forge.Continuous.Defs.{
  EventEnvelope, Operation, events, watermark, drain, Continuous, StepResult,
}
use rules_forge.Continuous.Steps.{
  is_consistent, check_batch, check_event, validate_loop, validate_events, clone_envelope,
}
use rules_forge.Continuous.Execute.{
  accepted_by, attempt, execute_operation, push_batch, advance_watermark, drain_step, acknowledge,
  acknowledge_front, is_backwards, Request, pushes, advances, drains, acknowledges, request,
  of_step, of_unit,
}
use rules_forge.Continuous.Recovery.{Outcome-cases, IsReplayable, Untouched, execute_failed}
use rules_forge.Continuous.Atomic.{Done, attempt-Done, AfterRequest, request_atomic}
use rules_forge.Continuous.CoreBounds.{run_core-Grows}

-- Outputs that wait for an acknowledgement.
unfoldable pub total : List PendingBatch → ℕ
total [] = 0
total (b ∷ bs) = b.output_count + total bs

total-append : (xs ys : List PendingBatch) → total (xs ++ ys) ≡ total xs + total ys
unfolding total
total-append [] ys = omega arith
total-append (x ∷ xs) ys = omega (arith, total-append xs ys)

-- The ids of the batches run up to the next one without a gap.
abbrev pub RunTo : List PendingBatch → ℕ → Type 0
RunTo [] next = Unit {0}
RunTo (b ∷ bs) next = (b.id + length (b ∷ bs) ≡ next) × RunTo bs next

RunTo-append :
    (bs : List PendingBatch) (next n : ℕ)
    → RunTo bs next
    → RunTo (bs ++ record { id = next; output_count = n } ∷ []) (next + 1)
RunTo-append [] next n r = (omega arith, tt)
RunTo-append (b ∷ bs) next n r = (
  omega (arith, length-append bs (record { id = next; output_count = n } ∷ [])),
  RunTo-append bs next n r.1,
)

module _ (E : SessionOps) where
  pub record IsBounded (c : Continuous E) : Type 0 where
    pub active : length c.core.active_events ≤ c.config.max_active_events
    pub dedup : length c.core.dedup_event_times ≤ c.config.max_dedup_entries
    pub log : length c.committed_operations ≤ c.config.max_replay_steps
    pub batches : length c.pending_batches ≤ c.config.max_pending_result_batches
    pub results : c.metrics.pending_results ≤ c.config.max_pending_results
    pub counted : c.metrics.pending_results ≡ total c.pending_batches
    pub numbered : RunTo c.pending_batches c.next_batch_id

  Untouched-IsBounded : (c c' : Continuous E) → Untouched E c c' → IsBounded c → IsBounded c'
  Untouched-IsBounded c c' u b = record {
    active = rw (u.0, u.7) b.active;
    dedup = rw (u.0, u.7) b.dedup;
    log = rw (u.1, u.7) b.log;
    batches = rw (u.2, u.7) b.batches;
    results = rw (u.6, u.7) b.results;
    counted = rw (u.6, u.2) b.counted;
    numbered = rw (u.2, u.3) b.numbered;
  }

  -- A step that succeeds stays within the limits if the checks before it made room.
  Done-IsBounded :
      (op : Operation E) (c c' : Continuous E)
      → length c.core.active_events + accepted_by E op ≤ c.config.max_active_events
      → length c.core.dedup_event_times + accepted_by E op ≤ c.config.max_dedup_entries
      → length c.committed_operations < c.config.max_replay_steps
      → IsBounded c
      → Done E op c c'
      → IsBounded c'
  Done-IsBounded op c c' ra rd rl b d =
      let g = run_core-Grows E c.config op c.core c'.core d.counts d.ran in
      record {
        active = rw d.same_config (omega arith);
        dedup = rw d.same_config (omega arith);
        log =
            rw (d.same_config, d.logged)
              (omega (arith, length-append c.committed_operations (op ∷ [])));
        batches =
            rw (d.same_config, d.queued)
              (omega (
                arith,
                d.room,
                length-append c.pending_batches
                    (record { id = c.next_batch_id; output_count = d.output_count } ∷ []),
              ));
        results = rw d.same_config d.results_room;
        counted = rw d.queued (
            unfold total in
            omega (
              arith,
              d.counted_results,
              b.counted,
              total-append c.pending_batches
                  (record { id = c.next_batch_id; output_count = d.output_count } ∷ []),
            ));
        numbered =
            rw (d.queued, d.next_id)
              (RunTo-append c.pending_batches c.next_batch_id d.output_count b.numbered);
      }

  -- The state where a method has returned; nothing where it threw.
  abbrev Returned : {A : Type 0} → Result A × Continuous E → Type 0
  Returned (ok a, c') = IsBounded c'
  Returned (err x, c') = Unit {0}

  execute-Returned :
      (op : Operation E) (c : Continuous E)
      → length c.core.active_events + accepted_by E op ≤ c.config.max_active_events
      → length c.core.dedup_event_times + accepted_by E op ≤ c.config.max_dedup_entries
      → length c.committed_operations < c.config.max_replay_steps
      → IsReplayable E c
      → IsBounded c
      → Returned (execute_operation E op c)
  unfolding execute_operation
  execute-Returned op c ra rd rl v b = elim (Outcome-cases (attempt E op c)) [
    | inl (r, c', e) ↦
        rw (e, execute_operation) (Done-IsBounded op c c' ra rd rl b (attempt-Done E op c c' r e))
    | inr (x, c', e) ↦ rw (execute_failed E op c c' x v e) tt
  ]

  validate_loop-ok :
      (es : List (EventEnvelope E)) (ids : List String) (c c' : Continuous E) (u : Unit {0})
      → validate_loop E c ids es ≡ (ok u, c')
      → c' ≡ c
  unfolding validate_loop
  validate_loop-ok [] ids c c' u h = ground arith
  validate_loop-ok (e ∷ es) ids c c' u h = elim (Option-cases (check_event E c ids e)) [
    | inl p ↦ validate_loop-ok es (e.event_id ∷ ids) c c' u (rw (p, validate_loop) at h)
    | inr (x, p) ↦ absurd (ground arith)
  ]

  -- Validation that passes has changed nothing, and the batch passed the limit checks.
  pub validate_events-ok :
      (es : List (EventEnvelope E)) (c c' : Continuous E) (u : Unit {0})
      → validate_events E es c ≡ (ok u, c')
      → (c' ≡ c) × (check_batch E es c ≡ none) × (validate_loop E c [] es ≡ (ok u, c'))
  unfolding validate_events
  validate_events-ok es c c' u h = elim (Option-cases (check_batch E es c)) [
    | inl p ↦
        let l : validate_loop E c [] es ≡ (ok u, c') = ground arith in
        (validate_loop-ok es [] c c' u l, p, l)
    | inr (x, p) ↦ absurd (ground arith)
  ]

  -- What the limit checks of validate_events leave room for.
  check_batch-room :
      (es : List (EventEnvelope E)) (c : Continuous E)
      → check_batch E es c ≡ none
      → (length c.core.active_events + length es ≤ c.config.max_active_events)
        × (length c.core.dedup_event_times + length es ≤ c.config.max_dedup_entries)
        × (length c.committed_operations < c.config.max_replay_steps)
  unfolding check_batch
  check_batch-room es c h = ground arith

  length-clones :
      (es : List (EventEnvelope E)) → accepted_by E (events (map (clone_envelope E) es)) ≡ length es
  unfolding accepted_by
  length-clones es = go es
    where
      go : (es : List (EventEnvelope E)) → length (map (clone_envelope E) es) ≡ length es
      go [] = refl
      go (e ∷ es) = ap suc (go es)

  push_batch-Returned :
      (es : List (EventEnvelope E)) (c : Continuous E)
      → IsReplayable E c
      → IsBounded c
      → Returned (push_batch E es c)
  unfolding push_batch
  push_batch-Returned es c v b = elim (Outcome-cases (validate_events E es c)) [
    | inr (x, c', e) ↦ rw (e, push_batch) tt
    | inl (u, c', e) ↦
        let (same, passed, _) = validate_events-ok es c c' u e in
        let room = check_batch-room es c passed in
        rw (e, push_batch, same)
          (execute-Returned (events (map (clone_envelope E) es)) c (rw length-clones room.0)
            (rw length-clones room.1) room.2 v b)
  ]

  advance_watermark-Returned :
      (w : ℤ) (c : Continuous E)
      → IsReplayable E c
      → IsBounded c
      → Returned (advance_watermark E w c)
  unfolding advance_watermark
  advance_watermark-Returned w c v b = elim (Bool-cases (is_consistent E c)) [
    | inr f ↦ rw f tt
    | inl t ↦ rw t (elim (Bool-cases (is_backwards E c.core.watermark_ms w)) [
      | inl back ↦ rw back tt
      | inr on ↦
          rw on (elim (Bool-cases (leb c.config.max_replay_steps (length c.committed_operations))) [
            | inl full ↦ rw full tt
            | inr room ↦ rw room (
                execute-Returned (watermark w) c (unfold accepted_by in omega (arith, b.active))
                  (unfold accepted_by in omega (arith, b.dedup)) (ground arith) v b)
          ])
    ])
  ]

  drain_step-Returned :
      (c : Continuous E) → IsReplayable E c → IsBounded c → Returned (drain_step E c)
  unfolding drain_step
  drain_step-Returned c v b = elim (Bool-cases (is_consistent E c)) [
    | inr f ↦ rw f tt
    | inl t ↦
        rw t (elim (Bool-cases (leb c.config.max_replay_steps (length c.committed_operations))) [
          | inl full ↦ rw full tt
          | inr room ↦ rw room (
              execute-Returned drain c (unfold accepted_by in omega (arith, b.active))
                (unfold accepted_by in omega (arith, b.dedup)) (ground arith) v b)
        ])
  ]

  acknowledge-Returned : (id : ℕ) (c : Continuous E) → IsBounded c → Returned (acknowledge E id c)
  unfolding acknowledge
  acknowledge-Returned id c b = front c.pending_batches refl
    where
      front :
          (bs : List PendingBatch) → c.pending_batches ≡ bs → Returned (acknowledge_front E id bs c)
      front [] e = unfold acknowledge_front in tt
      front (p ∷ bs) e =
          unfold acknowledge_front in
          elim (Bool-cases (p.id == id)) [
            | inr f ↦ rw f tt
            | inl t ↦ rw t (record {
              active = b.active;
              dedup = b.dedup;
              log = b.log;
              batches = omega (arith, b.batches, ap length e);
              results = omega (arith, b.results);
              counted = unfold total in omega (arith, b.counted, ap total e);
              numbered = (subst (λ q. RunTo q c.next_batch_id) e b.numbered).1;
            })
          ]

  step-IsBounded :
      (c : Continuous E) (r : Result (StepResult E) × Continuous E)
      → AfterRequest E c (of_step E r)
      → Returned r
      → IsBounded c
      → IsBounded (of_step E r).1
  step-IsBounded c (ok a, c') s r b = r
  step-IsBounded c (err x, c') s r b = Untouched-IsBounded c c' s.0 b

  unit-IsBounded :
      (c : Continuous E) (r : Result (Unit {0}) × Continuous E)
      → AfterRequest E c (of_unit E r)
      → Returned r
      → IsBounded c
      → IsBounded (of_unit E r).1
  unit-IsBounded c (ok a, c') s r b = r
  unit-IsBounded c (err x, c') s r b = Untouched-IsBounded c c' s.0 b

  -- From a bounded state that its log explains, every request, whether it throws or not, leaves
  -- the active events, the dedup table, the log, the pending batches and their outputs within the
  -- configured limits, the count of pending outputs exact, and the batch ids without a gap.
  pub request-IsBounded :
      (r : Request E) (c : Continuous E)
      → IsReplayable E c
      → IsBounded c
      → IsBounded (request E r c).1
  unfolding request
  request-IsBounded (pushes es) c v b =
      step-IsBounded c _ (request_atomic E (pushes es) c v) (push_batch-Returned es c v b) b
  request-IsBounded (advances w) c v b =
      step-IsBounded c _ (request_atomic E (advances w) c v) (advance_watermark-Returned w c v b) b
  request-IsBounded drains c v b =
      step-IsBounded c _ (request_atomic E drains c v) (drain_step-Returned c v b) b
  request-IsBounded (acknowledges id) c v b =
      unit-IsBounded c _ (request_atomic E (acknowledges id) c v) (acknowledge-Returned id c b) b
