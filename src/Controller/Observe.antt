-- ===== src/Controller/Observe.antt =====
-- What the reconciler observes: observe and freshSuccess of
-- internal/controller/squall/model_controller.go. dstack's answer to Get and the evidence that
-- gatherActivity would find are arguments; `none` is the error of a failed Get.
pub mod Evidence
use squall.Common.{
  ℕ, ℤ, pos, Bool, true, false, not, ◌||◌, Option, none, some, ltb, ◌==◌, le_dur, sub_time,
  if◌then◌else◌,
}
use squall.Api.{ModelSpec}
use squall.Dstack.{
  Run, ProvisioningFailure, is_terminal, GetOutcome, found, get_not_found, get_failed,
}
use squall.Controller.Phase.{Observed, ActivityEvidence}

unfoldable pub fresh_success : Option ActivityEvidence → ℕ → ℤ → Bool
fresh_success none now window = false
fresh_success (some ev) now window =
    if not ev.complete || ev.newest_last_success_at == 0
    then false
    else le_dur (sub_time now ev.newest_last_success_at) window

-- Observed{}.
abbrev pub nothing : Observed
nothing = record { run = none; provisioning_failure = none; ready = false; activity = none }

abbrev pub failure_of : Run → Option ProvisioningFailure → ProvisioningFailure
failure_of run none = record { run_id = run.run_id; reason = run.status; message = "" }
failure_of run (some f) = f

unfoldable pub observe : GetOutcome → Option ActivityEvidence → ModelSpec → ℕ → Option Observed
unfolding fresh_success
observe get_not_found activity spec now = some nothing
observe get_failed activity spec now = none
observe (found run) activity spec now =
    if is_terminal run
    then some
        (record nothing { provisioning_failure = some (failure_of run run.provisioning_failure) })
    else if ltb 0 run.replicas
    then some (record nothing {
      run = some run;
      activity = activity;
      ready = run.probes_ready || fresh_success activity now spec.idle_timeout;
    })
    else some (record nothing { run = some run })
