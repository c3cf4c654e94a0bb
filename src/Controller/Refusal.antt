-- ===== src/Controller/Refusal.antt =====
-- The recovery from dstack's refusal to flip a run in place: recoverFromOverrideRefusal of
-- internal/controller/squall/model_controller.go. The message of the condition and the logging are
-- left out; the patch of the status, whose failure is only logged, is the caller's.
use squall.Common.{
  ℕ, ◌≡◌, Bool, true, false, ◌&&◌, ◌==◌, ltb, Option, none, some, arith, Holds, subst, ◌↔◌, ◌<◌,
}
use squall.Api.{ModelStatus, ModelSpec, schedulable, is_false, cannot_override}
use squall.Api.Conditions.{ConditionOps}
use squall.Dstack.{Run}
use squall.Controller.Phase.{Action, Observed, decide}
use squall.Controller.Phase.Wake.{decide-IsCoherent}

-- The outcome of Apply.
pub data ApplyError : Type 0 where
  cannot_override_run other_error : ApplyError

abbrev is_empty : Option Run → Bool
is_empty none = false
is_empty (some run) = run.replicas == 0

-- Whether it asks dstack to stop the run, and the status that it leaves.
unfoldable pub recover_from_override_refusal :
    ConditionOps → ℕ → ModelStatus → Action → ApplyError → Bool × ModelStatus
recover_from_override_refusal meta wall status action other_error = (false, status)
recover_from_override_refusal meta wall status action cannot_override_run = (
  ltb 0 action.replicas && is_empty action.current,
  record status {
    conditions = meta.set wall status.conditions (record {
      type = schedulable;
      status = is_false;
      reason = cannot_override;
      message = "";
      last_transition_time = 0;
    });
  },
)

recover-stops :
    (meta : ConditionOps) (wall : ℕ) (status : ModelStatus) (action : Action) (err : ApplyError)
    → ((recover_from_override_refusal meta wall status action err).0 ≡ true) ↔ (
        (err ≡ cannot_override_run)
        × (0 < action.replicas)
        × Holds (λ run. run.replicas ≡ 0) action.current)
unfolding recover_from_override_refusal
recover-stops meta wall status action other_error = ground arith
recover-stops meta wall status action cannot_override_run = ground arith

-- After an Apply that Decide asked for, the recovery stops a run exactly if dstack refused to
-- override it, the Apply was a wake, and the observed run has 0 replicas: never one that serves, and
-- never on the way to sleep.
pub recover-decide_iff :
    (meta : ConditionOps) (wall : ℕ) (spec : ModelSpec) (observed : Observed)
    (prior status : ModelStatus) (has_demand : Bool) (now : ℕ) (err : ApplyError)
    → (decide meta observed prior spec has_demand now).1.apply ≡ true
    → let a = (decide meta observed prior spec has_demand now).1 in
      ((recover_from_override_refusal meta wall status a err).0 ≡ true) ↔ (
        (err ≡ cannot_override_run)
        × (0 < a.replicas)
        × Holds (λ run. run.replicas ≡ 0) observed.run)
recover-decide_iff meta wall spec observed prior status has_demand now err h =
    let a = (decide meta observed prior spec has_demand now).1 in
    let anchored = (decide-IsCoherent meta prior spec has_demand observed now).anchored h in
    subst
      (λ r.
        ((recover_from_override_refusal meta wall status a err).0 ≡ true)
        ↔ ((err ≡ cannot_override_run) × (0 < a.replicas) × Holds (λ run. run.replicas ≡ 0) r))
      anchored (recover-stops meta wall status a err)
