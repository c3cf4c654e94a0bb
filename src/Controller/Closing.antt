-- ===== src/Controller/Closing.antt =====
-- The end of Reconcile of internal/controller/squall/model_controller.go: the conditions of a pass, with
-- reportProvisioningTimeout, the check of the served model, and the requeue.
use Prim.Native.String.{◌++◌ as ◌++ₛ◌}
use squall.Common.{
  ℕ, ℤ, pos, Bool, true, false, not, ◌&&◌, ◌||◌, Option, none, some, String, List, [], ◌∷◌, ltb,
  ◌==◌, le_dur, if◌then◌else◌, str_eq,
}
use squall.Api.{
  Model, ModelSpec, ModelStatus, ModelPhase, waking, ready, recreating, Condition, ConditionStatus,
  Reason, healthy, served_model_verified, is_true, is_false, is_unknown, no_successful_responses,
  provisioning_timeout_reason, unverified, verified, served_model_mismatch,
}
use squall.Api.Conditions.{ConditionOps, same_status}
use squall.Dstack.{Run}
use squall.Controller.Phase.{Observed, Action}
use squall.Controller.Failure.{report_provisioning_condition}
use squall.Controller.Schedulable.{Checked}
use squall.Controller.Engine.{engine_served_name}
use squall.Controller.Served.{served_model_matches, served_model_to_forward}
use squall.Controller.World.{World, Result, idle, requeue_after}

abbrev health_condition : ConditionStatus → Reason → Condition
health_condition s r = record {
  type = healthy;
  status = s;
  reason = r;
  message = "";
  last_transition_time = 0;
}

abbrev verification_condition : ConditionStatus → Reason → Condition
verification_condition s r = record {
  type = served_model_verified;
  status = s;
  reason = r;
  message = "";
  last_transition_time = 0;
}

-- The health that a flip leaves.
abbrev pub with_health : ConditionOps → ℕ → Action → ModelStatus → ModelStatus
with_health meta wall action status =
    let judged =
      if action.unhealthy
      then record status {
        conditions =
            meta.set wall status.conditions (health_condition is_false no_successful_responses);
      }
      else status in
    if action.provisioning_timed_out
    then record judged {
      conditions =
          meta.set wall judged.conditions (health_condition is_false provisioning_timeout_reason);
    }
    else judged

-- meta.IsStatusConditionTrue.
abbrev condition_true : Option Condition → Bool
condition_true none = false
condition_true (some c) = same_status c.status is_true

-- strings.Join by commas.
join_commas : List String → String
join_commas [] = ""
join_commas (s ∷ []) = s
join_commas (s ∷ t ∷ served) = s ++ₛ ("," ++ₛ join_commas (t ∷ served))

-- The replica's answer judged against the name that it should serve.
abbrev judged_served : ConditionOps → ℕ → Option (List String) → String → ModelStatus → ModelStatus
unfolding join_commas
judged_served meta wall none want status = record status {
  conditions = meta.set wall status.conditions (verification_condition is_unknown unverified);
}
judged_served meta wall (some served) want status = record status {
  served_model = join_commas served;
  forward_model = served_model_to_forward served want;
  conditions = meta.set wall status.conditions (
      if not (str_eq want "") && not (served_model_matches served want)
      then verification_condition is_false served_model_mismatch
      else verification_condition is_true verified);
}

abbrev is_ready : ModelPhase → Bool
is_ready ready = true
is_ready _ = false

-- The check of the served model, which a Ready pass makes until it succeeds.
unfoldable pub verify_served : ConditionOps → World → Model → ModelPhase → ModelStatus → ModelStatus
unfolding join_commas judged_served
verify_served meta w m phase status =
    if is_ready phase
      && w.reader
      && not (condition_true (meta.find status.conditions served_model_verified))
    then judged_served meta w.wall w.served (engine_served_name m.spec m.name) status
    else status

-- The status that the pass writes.
unfoldable pub closing_status :
    ConditionOps → World → Model → Observed → Checked → ModelStatus → ℕ → ModelStatus
unfolding verify_served
closing_status meta w m observed c status now =
    let reported =
      report_provisioning_condition meta w.wall status observed.provisioning_failure c.phase now in
    record (verify_served meta w m c.phase (with_health meta w.wall c.action reported)) {
      phase = c.phase;
    }

abbrev idle_requeue_interval : ℤ → ℤ
idle_requeue_interval d = if le_dur d (pos 0) then pos 15000000000 else d

abbrev is_up : Option Run → Bool
is_up none = false
is_up (some run) = ltb 0 run.replicas

abbrev in_transit : ModelPhase → Bool
in_transit waking = true
in_transit recreating = true
in_transit _ = false

abbrev pub requeue : World → ModelSpec → Option Run → ModelPhase → Result
requeue w spec run phase =
    if (is_up run && spec.min_replicas == 0) || in_transit phase
    then requeue_after (idle_requeue_interval w.interval)
    else idle
