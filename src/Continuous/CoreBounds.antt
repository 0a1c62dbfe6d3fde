-- ===== src/Continuous/CoreBounds.antt =====
-- About the growth of the active events and the dedup table in one operation of
-- rulesforge/src/engine/continuous_session.cpp.
use rules_forge.Prelude.{
  ℕ, ◌≤◌, ◌+◌, ◌≡◌, inl, inr, some, List, [], ◌∷◌, length, arith, Bool-cases, Option-cases,
  length-append, String,
}
use rules_forge.Prelude.Int.{ℤ, pos, leb_ℤ}
use rules_forge.Prelude.Eq.{string_eq}
use rules_forge.Prelude.Map.{Map, length-insert-le}
use rules_forge.Continuous.{Config, Fact, SessionOps, ok}
use rules_forge.Continuous.Defs.{
  EventEnvelope, ActiveEvent, Operation, events, watermark, drain, Core, boundary,
}
use rules_forge.Continuous.Steps.{
  apply_events, insert_one, retain_loop, apply_watermark, expire_entries,
}
use rules_forge.Continuous.Execute.{apply, fire_step, run_core, accepted_by}
use rules_forge.Continuous.Recovery.{Outcome-cases}

pub length-expire_entries-le :
    (limit : ℤ) (m : Map String ℤ) → length (expire_entries limit m) ≤ length m
unfolding expire_entries
length-expire_entries-le limit [] = omega arith
length-expire_entries-le limit ((id, time) ∷ m) = ground (arith, length-expire_entries-le limit m)

module _ (E : SessionOps) where
  open E use {Session}

  -- Both tables grow by at most `n`.
  abbrev pub Grows : ℕ → Core E → Core E → Type 0
  Grows n core core' =
      (length core'.active_events ≤ length core.active_events + n)
      × (length core'.dedup_event_times ≤ length core.dedup_event_times + n)

  insert_one-Grows :
      (e : EventEnvelope E) (fact : Fact E.Fields) (core core' : Core E) (u : Unit {0})
      → insert_one E e fact core ≡ (ok u, core')
      → Grows 1 core core'
  unfolding insert_one
  insert_one-Grows e fact core core' u h =
      elim (Option-cases
        (E.insert_event_into e.entry_point (record fact { id = 0 }) e.event_time_ms
          core.session).1) [
            | inl n ↦ absurd (ground arith)
            | inr (handle, n) ↦
                let added : ActiveEvent E = record {
                  event_id = e.event_id;
                  entry_point = e.entry_point;
                  event_time_ms = e.event_time_ms;
                  fact = handle;
                } in
                ground (
                  arith,
                  length-append core.active_events (added ∷ []),
                  length-insert-le e.event_id e.event_time_ms core.dedup_event_times,
                )
          ]

  apply_events-Grows :
      (es : List (EventEnvelope E)) (core core' : Core E) (u : Unit {0})
      → apply_events E es core ≡ (ok u, core')
      → Grows (length es) core core'
  unfolding apply_events
  apply_events-Grows [] core core' u h = ground arith
  apply_events-Grows (e ∷ es) core core' u h = elim (Option-cases e.fact) [
    | inl n ↦ absurd (ground arith)
    | inr (fact, n) ↦ elim (Outcome-cases (insert_one E e fact core)) [
      | inl (v, mid, i) ↦
          let g = insert_one-Grows e fact core mid v i in
          let ih = apply_events-Grows es mid core' u (ground arith) in (omega arith, omega arith)
      | inr (x, mid, i) ↦ absurd (ground arith)
    ]
  ]

  -- Every active event stays or goes.
  pub retain_loop-length :
      (limit : ℤ) (es : List (ActiveEvent E)) (s : Session) (r : List (ActiveEvent E) × ℕ)
      → (retain_loop E limit es s).1 ≡ some r
      → length r.0 + r.1 ≡ length es
  unfolding retain_loop
  retain_loop-length limit [] s r h = ground arith
  retain_loop-length limit (e ∷ es) s r h = elim (Bool-cases (leb_ℤ e.event_time_ms limit)) [
    | inl t ↦ elim (Bool-cases (E.retract_from e.entry_point e.fact s).1) [
      | inr f ↦ absurd (ground arith)
      | inl g ↦
          elim (Option-cases (retain_loop E limit es (E.retract_from e.entry_point e.fact s).0).1) [
            | inl n ↦ absurd (ground arith)
            | inr (k, n) ↦
                ground
                  (arith, retain_loop-length limit es (E.retract_from e.entry_point e.fact s).0 k n)
          ]
    ]
    | inr t ↦ elim (Option-cases (retain_loop E limit es s).1) [
      | inl n ↦ absurd (ground arith)
      | inr (k, n) ↦ ground (arith, retain_loop-length limit es s k n)
    ]
  ]

  -- A watermark adds nothing to either table.
  apply_watermark-Grows :
      (config : Config) (w : ℤ) (core core' : Core E) (n : ℕ)
      → apply_watermark E config w core ≡ (ok n, core')
      → Grows 0 core core'
  unfolding apply_watermark
  apply_watermark-Grows config w core core' n h =
      elim (Option-cases (E.advance_event_time w core.session).1) [
        | inl a ↦ absurd (ground arith)
        | inr (expired, a) ↦
            elim (Option-cases
              (retain_loop E (boundary (pos 0) w config.event_retention_ms) core.active_events
                (E.advance_event_time w core.session).0).1) [
                  | inl b ↦ absurd (ground arith)
                  | inr (r, b) ↦ ground (
                    arith,
                    retain_loop-length _ core.active_events _ r b,
                    length-expire_entries-le (boundary (pos 0) w config.dedup_retention_ms)
                        core.dedup_event_times,
                  )
                ]
      ]

  -- An operation grows the tables by its events at most.
  pub run_core-Grows :
      (config : Config) (op : Operation E) (core core' : Core E) (counts : ℕ × ℕ)
      → run_core E config op core ≡ (ok counts, core')
      → Grows (accepted_by E op) core core'
  unfolding run_core fire_step apply accepted_by
  run_core-Grows config op core core' counts h = elim (Outcome-cases (apply E config op core)) [
    | inr (x, mid, a) ↦ absurd (ground arith)
    | inl (n, mid, a) ↦ let g = applied op mid n a in ground arith
  ]
    where
      applied :
          (op : Operation E) (mid : Core E) (n : ℕ)
          → apply E config op core ≡ (ok n, mid)
          → Grows (accepted_by E op) core mid
      applied (events es) mid n a = elim (Outcome-cases (apply_events E es core)) [
        | inl (u, c, e) ↦ let g = apply_events-Grows es core c u e in ground arith
        | inr (x, c, e) ↦ absurd (ground arith)
      ]
      applied (watermark w) mid n a = apply_watermark-Grows config w core mid n a
      applied drain mid n a = ground arith
