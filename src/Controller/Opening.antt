-- ===== src/Controller/Opening.antt =====
-- The first half of Reconcile of internal/controller/squall/model_controller.go, up to Decide and the
-- checks before a wake, with hasDemand and replicaStatus.
use squall.Common.{
  ℕ, ℤ, Bool, false, ◌&&◌, Option, none, some, ltb, lt_dur, sub_time, if◌then◌else◌, int32,
}
use squall.Api.{Model, ModelStatus, unset, ReplicaEndpoint}
use squall.Api.Conditions.{ConditionOps}
use squall.Dstack.{Run, RunEndpoint, ProvisioningFailure}
use squall.Controller.Phase.{Observed, decide}
use squall.Controller.Journal.{update_activity_status}
use squall.Controller.Ownership.{run_name_for, reconcile_run_ownership}
use squall.Controller.Failure.{report_provisioning_condition}
use squall.Controller.Schedulable.{Checked, check_schedulable}
use squall.Controller.World.{World}

-- hasDemand; an annotation that is no instant is `none`.
abbrev demand_within : Option ℕ → ℕ → ℤ → Bool
demand_within none now window = false
demand_within (some since) now window = lt_dur (sub_time now since) window

unfoldable pub has_demand : Model → ℕ → Bool
has_demand m now = demand_within m.demand_since now m.spec.idle_timeout

-- replicaStatus.
abbrev pub replica_status : Option RunEndpoint → Option ReplicaEndpoint
replica_status none = none
replica_status (some e) = some (record {
  host = e.host;
  ssh_port = int32 e.ssh_port;
  user = e.user;
  service_port = int32 e.service_port;
})

-- The fields that are taken from the observed run.
abbrev pub with_run : Option Run → ModelStatus → ModelStatus
with_run none status = status
with_run (some run) status = record status {
  run_id = run.run_id;
  deployment_num = run.deployment_num;
  service_url = run.service_url;
  replica = replica_status run.replica;
}

-- A failure is put on record before Decide.
abbrev pub with_failure :
    ConditionOps → ℕ → Option ProvisioningFailure → ModelStatus → ℕ → ModelStatus
with_failure meta wall none status now = status
with_failure meta wall (some f) status now =
    report_provisioning_condition meta wall status (some f) unset now

-- The status that Decide gets.
unfoldable pub status_before : ConditionOps → ℕ → Model → Observed → ℕ → ModelStatus
unfolding has_demand
status_before meta wall m observed now =
    let named = record (m.status) { run_name = run_name_for m } in
    let journaled =
      (update_activity_status (with_run observed.run named) observed (has_demand m now) now).0 in
    let owned = reconcile_run_ownership meta wall (record m { status = journaled }) observed.run in
    with_failure meta wall observed.provisioning_failure owned now

-- Decide, and the checks before a wake.
unfoldable pub decided : ConditionOps → World → Model → Observed → ℕ → Checked
unfolding status_before has_demand
decided meta w m observed now =
    let status = status_before meta w.wall m observed now in
    let d = decide meta observed status m.spec (has_demand m now) now in
    if d.1.apply && ltb 0 d.1.replicas
    then check_schedulable meta w.wall w.parse m.spec status d.0 d.1 w.backends
    else record { status = status; phase = d.0; action = d.1 }
