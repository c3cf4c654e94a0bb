-- ===== src/Controller/Actuation.antt =====
-- What an Apply leaves in a Model's status, and the durations that it sends: the block of Reconcile
-- after a successful Apply, and applyDurationsFor, of internal/controller/squall/model_controller.go.
-- The run that dstack answers is an argument, as is the clock that SetStatusCondition reads.
pub mod Anchor
use squall.Common.{
  ℕ, ℤ, pos, Bool, true, false, ◌&&◌, ◌==◌, ltb, Option, none, some, String, List, if◌then◌else◌,
  is_none,
}
use squall.Api.{
  ModelStatus, ModelSpec, Condition, served_model_verified, healthy, is_true, healthy_reason,
}
use squall.Api.Conditions.{ConditionOps}
use squall.Dstack.{Run}
use squall.Controller.Phase.{Action}

-- Where the run was minted afresh, what was known of the one before is forgotten.
forget_replica : ConditionOps → ℕ → ModelStatus → ModelStatus
forget_replica meta wall status = record status {
  served_model = "";
  forward_model = "";
  conditions = meta.set wall (meta.remove status.conditions served_model_verified) (record {
    type = healthy;
    status = is_true;
    reason = healthy_reason;
    message = "";
    last_transition_time = 0;
  });
}

abbrev wake_after : ℕ → Option ℕ → ℕ → Option ℕ
wake_after replicas wake now =
    if replicas == 0 then none else if ltb 0 replicas && is_none wake then some now else wake

unfoldable pub after_apply : ConditionOps → ℕ → ModelStatus → Action → Run → ℕ → ModelStatus
unfolding forget_replica
after_apply meta wall status action run now =
    let noted = record status {
      run_id = run.run_id;
      deployment_num = run.deployment_num;
      service_url = run.service_url;
    } in
    let kept = if is_none action.current then forget_replica meta wall noted else noted in
    record kept {
      wake_started_at = wake_after action.replicas status.wake_started_at now;
      uncontrolled_since = if action.replicas == 0 then none else status.uncontrolled_since;
    }

abbrev durations_on : Option Run → ModelSpec → ℕ → Option ℤ × ℤ
durations_on none spec replicas =
    (some (pos 0), if spec.min_replicas == 0 then spec.hard_stop else pos 0)
durations_on (some run) spec replicas =
    if replicas == 0
    then (run.idle_duration, run.max_duration)
    else (some (pos 0), if spec.min_replicas == 0 then spec.hard_stop else pos 0)

-- The idle duration, where `none` sends no key, and the hard stop.
unfoldable pub apply_durations_for : ModelSpec → Action → Option ℤ × ℤ
apply_durations_for spec action = durations_on action.current spec action.replicas
