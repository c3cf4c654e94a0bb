-- ===== src/Controller/Reconcile.antt =====
-- One pass of the reconciler: Reconcile of internal/controller/squall/model_controller.go. The pass
-- gets the answers of the API server, dstack and the replica as a World, and gives the Model as the
-- API server then has it, the calls that it made in order, and its result. Logging, metrics and the
-- texts of conditions that nothing reads are left out.
pub mod Steps
pub mod Apply
pub mod Errors
pub mod Names
pub mod Pacing
pub mod Flip
use Prim.Native.String.{◌++◌ as ◌++ₛ◌}
use squall.Common.{
  ℕ, ℤ, pos, negsuc, Bool, true, false, not, ◌&&◌, ◌||◌, Option, none, some, String, List, [], ◌∷◌,
  ◌++◌, map, ltb, ◌==◌, lt_dur, le_dur, sub_time, if◌then◌else◌, Text, codes, is_none, str_eq, ◌%◌,
  ◌-◌, ◌+◌, int32,
}
use squall.Api.{
  Model, ModelSpec, ModelStatus, ModelPhase, unset, waking, ready, recreating, Condition,
  ConditionStatus, Reason, ReplicaEndpoint, ModelPlacement, healthy, served_model_verified, is_true,
  is_false, is_unknown, no_successful_responses, provisioning_timeout_reason, unverified, verified,
  served_model_mismatch, ConditionType,
}
use squall.Api.Conditions.{ConditionOps, same_status}
use squall.Dstack.{Run, RunEndpoint, GetOutcome, ProvisioningFailure}
use squall.Controller.Phase.{Observed, ActivityEvidence, Action, decide, unset_time}
use squall.Controller.Observe.{observe}
use squall.Controller.Journal.{update_activity_status}
use squall.Controller.Ownership.{run_name_for, reconcile_run_ownership}
use squall.Controller.Failure.{report_provisioning_condition}
use squall.Controller.Preflight.{BackendAnswers}
use squall.Controller.Schedulable.{Parsed, Checked, check_schedulable}
use squall.Controller.Secrets.{Secrets, KeyAnswers, apply_env_for}
use squall.Controller.Engine.{
  engine_port, engine_resources, engine_probe, engine_commands, engine_served_name,
}
use squall.Controller.Actuation.{after_apply, apply_durations_for}
use squall.Controller.Refusal.{
  ApplyError, cannot_override_run, other_error, recover_from_override_refusal,
}
use squall.Controller.Served.{served_model_matches, served_model_to_forward}
use squall.Controller.Finalizer.{Env, PassResult, Pass, Call as DrainCall, reconcile_delete}
use squall.Dstack.{ApplyRequest}
use squall.Controller.World.{
  World, Applied, applied, apply_failed, Call, add_finalizer, apply_run, stop_run, patch_status,
  drain_call, Result, idle, requeue_after, finalizer_error, observe_error, env_error, apply_error,
  patch_error, deleting, Outcome, ended,
}
use squall.Controller.Opening.{has_demand, status_before, decided}
use squall.Controller.Closing.{closing_status, requeue}

abbrev max_price_of : Option String → String
max_price_of none = ""
max_price_of (some p) = p

unfoldable pub request : (ℤ → ℤ) → Model → Action → List (String × String) → String → ApplyRequest
request seconds m action env key = record {
  name = run_name_for m;
  replicas = action.replicas;
  image = m.spec.image;
  port = engine_port m.spec.engine;
  env = env;
  args = engine_commands m.spec (codes m.name);
  resources = some (engine_resources m.spec.resources);
  probe = some (engine_probe seconds m.spec);
  backends = m.spec.placement.backends;
  regions = m.spec.placement.regions;
  max_price = max_price_of m.spec.placement.max_price_per_hour;
  current = action.current;
  ssh_key_pub = key;
  idle_duration = (apply_durations_for m.spec action).0;
  max_duration = (apply_durations_for m.spec action).1;
}

-- From the writing of the status on.
unfoldable pub finish :
    ConditionOps → World → Model → Observed → Checked → ModelStatus → ℕ → List Call → Outcome
unfolding closing_status
finish meta w m observed c status now calls =
    let written = closing_status meta w m observed c status now in
    if w.patch_ok
    then ended (record m { status = written }) (calls ++ (patch_status written ∷ []))
        (requeue w m.spec observed.run c.phase)
    else ended m (calls ++ (patch_status written ∷ [])) patch_error

abbrev refused_flip : ConditionOps → World → Model → Checked → ApplyError → List Call → Outcome
refused_flip meta w m c other_error calls = ended m calls apply_error
refused_flip meta w m c cannot_override_run calls =
    let r = recover_from_override_refusal meta w.wall c.status c.action cannot_override_run in
    ended (if w.patch_ok then record m { status = r.1 } else m)
      (calls ++ ((if r.0 then stop_run (run_name_for m) ∷ [] else []) ++ (patch_status r.1 ∷ [])))
      apply_error

abbrev after_answer :
    ConditionOps → World → Model → Observed → Checked → ℕ → List Call → Applied → Outcome
unfolding finish
after_answer meta w m observed c now calls (apply_failed e) = refused_flip meta w m c e calls
after_answer meta w m observed c now calls (applied run) =
    finish meta w m observed c (after_apply meta w.wall c.status c.action run now) now calls

-- The Apply, whose env may be refused.
abbrev pub applying :
    ConditionOps
    → World
    → Model
    → Observed
    → Checked
    → ℕ
    → Option (List (String × String) × String)
    → Outcome
unfolding finish after_answer request
applying meta w m observed c now none = ended m [] env_error
applying meta w m observed c now (some (env, key)) =
    after_answer meta w m observed c now (apply_run (request w.seconds m c.action env key) ∷ [])
      w.apply

-- From Decide's answer on.
unfoldable pub act : ConditionOps → World → Model → Observed → Checked → ℕ → Outcome
unfolding applying finish
act meta w m observed c now =
    if c.action.apply
    then applying meta w m observed c now (apply_env_for w.secrets w.keys m c.action)
    else finish meta w m observed c c.status now []

abbrev pub live_pass : ConditionOps → World → Model → ℕ → Option Observed → Outcome
unfolding act decided
live_pass meta w m now none = ended m [] observe_error
live_pass meta w m now (some observed) = act meta w m observed (decided meta w m observed now) now

abbrev drained : Pass → Outcome
drained p = ended p.model (map drain_call p.calls) (deleting p.result)

-- Reconcile, on a Model that Get found.
unfoldable pub reconcile : ConditionOps → World → Model → ℕ → Outcome
unfolding live_pass
reconcile meta w m now =
    if not (unset_time m.deletion_timestamp)
    then drained (reconcile_delete w.drain m now)
    else if not m.has_finalizer
    then (if w.update_ok
        then ended (record m { has_finalizer = true }) (add_finalizer ∷ []) idle
        else ended m (add_finalizer ∷ []) finalizer_error)
    else live_pass meta w m now (observe w.get w.activity m.spec now)
