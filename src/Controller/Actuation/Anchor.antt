-- ===== src/Controller/Actuation/Anchor.antt =====
-- The wake's anchor across an Apply, and what the next decision makes of it.
use squall.Common.{ℕ, ◌+◌, ◌<◌, ◌≡◌, ◌≢◌, inl, Bool, false, some, arith, Holds, ◌∙◌}
use squall.Api.{ModelSpec, ModelStatus}
use squall.Api.Conditions.{ConditionOps}
use squall.Dstack.{Run}
use squall.Controller.Phase.{Observed, Action, decide}
use squall.Controller.Phase.FailSafe.{StopsRun, Durations, decide_stops_iff}
use squall.Controller.Phase.Wake.{WakesRun, decide-IsCoherent}
use squall.Controller.Actuation.{after_apply, apply_durations_for, wake_after}

wake_started_at-after_apply :
    (meta : ConditionOps) (wall : ℕ) (status : ModelStatus) (action : Action) (run : Run) (now : ℕ)
    → (after_apply meta wall status action run now).wake_started_at
      ≡ wake_after action.replicas status.wake_started_at now
unfolding after_apply
wake_started_at-after_apply meta wall status action run now = ground arith

-- A run that is minted in place of a dead one inherits the wake of the dead one: where status still
-- has that wake, and it lies further back than the provisioning timeout, Decide stops the new run as
-- long as it is not ready, however short a time ago it was applied.
pub after_apply-StopsRun :
    (meta : ConditionOps) {spec : ModelSpec} (ds : Durations spec) (wall : ℕ) (status : ModelStatus)
    (action : Action) (minted run : Run) (observed : Observed) (has_demand : Bool)
    (w applied now : ℕ)
    → status.wake_started_at ≡ some w
    → w ≢ 0
    → WakesRun action
    → observed.run ≡ some run
    → run.replicas ≢ 0
    → observed.ready ≡ false
    → 0 < ds.provision
    → w + ds.provision < now
    → StopsRun
        (decide meta observed
          (after_apply meta wall status action minted applied)
          spec
          has_demand
          now).1
after_apply-StopsRun meta ds wall status action minted run observed has_demand w applied now e z a o
      r u p l =
    let after = after_apply meta wall status action minted applied in
    let woken : after.wake_started_at ≡ some w =
      ground (arith, wake_started_at-after_apply meta wall status action minted applied, e, a.1) in
    let up : Holds (λ r. r.replicas ≢ 0) observed.run = rw o r in
    let late : Holds (λ w. (w ≢ 0) × (w + ds.provision < now)) after.wake_started_at =
      rw woken (z, l) in
    (decide_stops_iff meta ds observed after has_demand now).1 (up, inl (u, p, late))

durations-flip :
    (spec : ModelSpec) (action : Action) (run : Run)
    → action.replicas ≡ 0
    → action.current ≡ some run
    → apply_durations_for spec action ≡ (run.idle_duration, run.max_duration)
unfolding apply_durations_for
durations-flip spec action run z c = simp (c, z)

-- Whatever stops a run, the flip re-sends the run's own idle duration, or its absence, and its own
-- hard stop, whatever the spec has come to say.
pub decide-durations :
    (meta : ConditionOps) (spec : ModelSpec) (observed : Observed) (prior : ModelStatus)
    (has_demand : Bool) (now : ℕ) (run : Run)
    → observed.run ≡ some run
    → StopsRun (decide meta observed prior spec has_demand now).1
    → apply_durations_for spec (decide meta observed prior spec has_demand now).1
      ≡ (run.idle_duration, run.max_duration)
decide-durations meta spec observed prior has_demand now run e h =
    durations-flip spec (decide meta observed prior spec has_demand now).1 run h.1
      ((decide-IsCoherent meta prior spec has_demand observed now).anchored h.0 ∙ e)
