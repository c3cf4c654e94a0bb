-- ===== src/Examples/Observe.antt =====
-- The theorems on what the controller observes and journals, on the probes and on the preflight, run.
use squall.Common.{
  ℕ, pos, ◌+◌, ◌<◌, ◌≡◌, ◌≢◌, ◌↔◌, ◌⊎◌, refl, true, false, none, some, List, [], ◌∷◌, arith, All,
  Holds, sub_time, mul_add,
}
use squall.Api.{backend_unavailable}
use squall.Api.Conditions.{condition_list}
use squall.Dstack.{Run, RunEndpoint, found, is_terminal}
use squall.Dstack.Probes.{Job}
use squall.Controller.Phase.{ActivityEvidence, Observed, Action, decide, idle_action}
use squall.Controller.Observe.{observe}
use squall.Controller.Observe.Evidence.{HasEvidence, observe-decide_ready}
use squall.Controller.Journal.{update_activity_status}
use squall.Controller.Journal.Anchor.{update-decide_wake}
use squall.Controller.Preflight.{BackendAnswers, no, preflight}
use squall.Controller.Preflight.Remedy.{IsAnswered, IsUnconfigured, IsUnusable, preflight_iff}
use squall.Examples.{
  sample_spec, sample_status, sample_run, sample_evidence, sample_observed, sample_durations,
}

abbrev noon : ℕ
noon = 3000000000000

observe-decide_ready_example :
    HasEvidence (found sample_run) (some sample_evidence) 300000000000 2100000000000
unfolding observe decide is_terminal sub_time mul_add
observe-decide_ready_example =
    observe-decide_ready condition_list (found sample_run) (some sample_evidence) sample_status
      sample_spec false 300000000000 2100000000000 sample_observed refl (omega arith) refl refl

abbrev dead_run : Run
dead_run = record sample_run { status = "failed" }

-- A run that is up, of which no proxy could report.
abbrev blind : Observed
blind = record sample_observed { activity = none }

abbrev unseen : ActivityEvidence
unseen = record sample_evidence {
  any_data = false;
  newest_last_request_at = 0;
  newest_last_success_at = 0;
}

abbrev unused : Observed
unused = record sample_observed { activity = some unseen }

update-decide_wake_example :
    (sample_status.wake_started_at ≡ none)
    ⊎ Holds (λ w. w + 300000000000 < noon) sample_status.wake_started_at
unfolding update_activity_status decide sub_time
update-decide_wake_example =
    update-decide_wake condition_list sample_durations unused unseen sample_status false noon refl
      refl refl ((refl, refl), refl, refl, refl)

-- The replica of a previous deployment, and the one that serves.
abbrev jobs : List Job
jobs =
    record {
      job_submissions =
          record {
            deployment_num = 1;
            status = "terminated";
            probes = [];
            job_provisioning_data = none;
          }
          ∷ record {
            deployment_num = 2;
            status = "running";
            probes = pos 3 ∷ [];
            job_provisioning_data = some (record {
              hostname = "10.1.0.7";
              ssh_port = pos 40097;
              username = "root";
              ssh_proxy = false;
              dockerized = false;
            });
          }
          ∷ [];
      service_port = some (pos 8000);
    }
    ∷ []

abbrev endpoint : RunEndpoint
endpoint = record {
  host = "10.1.0.7";
  ssh_port = pos 40097;
  user = "root";
  service_port = pos 8000;
}

abbrev unknown_backend : BackendAnswers
unknown_backend = record { name = "vastai"; configured = no; has_fleet = no; ensured = false }

preflight_iff_example :
    let v = preflight (unknown_backend ∷ []) in
    ((v.reason ≡ some backend_unavailable)
      ↔ (All IsAnswered (unknown_backend ∷ []) × All IsUnconfigured (unknown_backend ∷ [])))
    × ((v.reason ≢ none)
        ↔ (All IsAnswered (unknown_backend ∷ []) × All IsUnusable (unknown_backend ∷ [])))
preflight_iff_example = preflight_iff unknown_backend []

-- The run that is minted at 3,000 s for the Model that was woken at 1,000 s and whose run died.
abbrev minting_action : Action
minting_action = record (idle_action noon) { apply = true; replicas = 1; alarm = true }

abbrev starting : Observed
starting = record sample_observed { ready = false; activity = none }

-- A run at 0 replicas that is woken.
abbrev sleeping : Observed
sleeping = record sample_observed {
  run = some (record sample_run { replicas = 0 });
  ready = false;
  activity = none;
}
