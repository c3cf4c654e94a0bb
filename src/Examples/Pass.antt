-- ===== src/Examples/Pass.antt =====
-- The theorems on whole passes of the reconciler, run.
use squall.Common.{
  ℕ, pos, ◌+◌, ◌≡◌, ◌⊎◌, inl, refl, true, false, none, some, String, List, [], ◌∷◌, arith, Elem,
  Holds, codes, sub_time,
}
use squall.Api.{Model, ModelStatus, unset}
use squall.Api.Conditions.{condition_list, find_condition}
use squall.Dstack.{done, Run, found, get_not_found, get_failed, is_terminal}
use squall.Controller.Phase.{Observed}
use squall.Controller.Phase.{decide, want_awake}
use squall.Controller.Phase.FailSafe.{Justified}
use squall.Controller.Engine.{engine_commands, engine_port, engine_resources, engine_probe}
use squall.Controller.Opening.{decided}
use squall.Controller.Schedulable.{check_schedulable}
use squall.Controller.Validation.{validate_with_warnings}
use squall.Controller.Preflight.{preflight}
use squall.Controller.Secrets.{apply_env_for}
use squall.Controller.Ownership.{
  run_name_for, dstack_run_name, with_model_uid, reconcile_run_ownership,
}
use squall.Controller.Journal.{update_activity_status}
use squall.Controller.Actuation.{apply_durations_for}
use squall.Controller.Reconcile.{request}
use squall.Controller.Reconcile.Pacing.{failed_run}
use squall.Controller.Failure.{reason_of}
use squall.Controller.Observe.{observe, failure_of}
use squall.Controller.Schedulable.{positive}
use squall.Controller.Secrets.{KeyAnswers, key_found, key_created}
use squall.Controller.Finalizer.{Env}
use squall.Dstack.{ApplyRequest}
use squall.Dstack.Probes.{probes_ready, replica_endpoint}
use squall.Dstack.Wire.{RunWire, run_spec, run_of_wire}
use squall.Dstack.Wire.Echo.{max_text}
use squall.Controller.Reconcile.Flip.{flip_echoes}
use squall.Controller.World.{World, Call, apply_run, applied}
use squall.Controller.Opening.{status_before, has_demand}
use squall.Controller.Reconcile.{reconcile}
use squall.Controller.Reconcile.Apply.{IsSafeWake, IsVerbatim, reconcile_wakes, reconcile_flips}
use squall.Controller.Reconcile.Errors.{reconcile_fails, IsRecorded, IsUntouched}
use squall.Controller.Reconcile.Names.{run_name_for-after_passes, after_passes}
use squall.Controller.Reconcile.Pacing.{failure_paces}
use squall.Examples.{
  sample_spec, sample_status, sample_run, sample_model, sample_durations, sample_evidence,
}

abbrev live_model : Model
live_model = record sample_model { deletion_timestamp = none; demand_since = some 2100000000000 }

abbrev keys : KeyAnswers
keys = record {
  first = key_found (some "ssh-ed25519 A");
  generated = none;
  write = key_created;
  again = key_found none;
}

abbrev drain : Env
drain = record {
  patch_ok = true;
  get = get_not_found;
  activity = none;
  stop = done;
  delete = done;
  update_ok = true;
}

-- dstack knows no run, and mints one.
abbrev cold : World
cold = record {
  wall = 2200000000000;
  interval = pos 0;
  seconds = λ d. d;
  update_ok = true;
  patch_ok = true;
  get = get_not_found;
  activity = none;
  parse = λ s. positive;
  backends = [];
  secrets = λ n. none;
  keys = keys;
  apply = applied sample_run;
  reader = false;
  served = none;
  drain = drain;
}

abbrev new_status : ModelStatus
new_status = record sample_status {
  phase = unset;
  run_id = "";
  run_name = "";
  run_uid = "";
  wake_started_at = none;
}

abbrev new_model : Model
new_model = record live_model { status = new_status }

abbrev first_request : List Call → ApplyRequest → ApplyRequest
first_request [] d = d
first_request (apply_run r ∷ cs) d = r
first_request (c ∷ cs) d = d

abbrev any_request : ApplyRequest
any_request = record {
  name = "";
  replicas = 0;
  image = "";
  port = 0;
  env = [];
  args = [];
  resources = some (engine_resources sample_spec.resources);
  probe = some (engine_probe (λ d. d) sample_spec);
  backends = [];
  regions = [];
  max_price = "";
  current = none;
  ssh_key_pub = "";
  idle_duration = none;
  max_duration = pos 0;
}

abbrev wake_time : ℕ
wake_time = 2200000000000

abbrev wake_request : ApplyRequest
wake_request = record any_request {
  name = "main-qwen";
  replicas = 1;
  image = "vllm/vllm-openai";
  port = 8000;
  env = ("SQUALL_MODEL_UID", "u1") ∷ [];
  args = engine_commands sample_spec (codes "qwen");
  backends = "vastai" ∷ [];
  ssh_key_pub = "ssh-ed25519 A";
  idle_duration = some (pos 0);
}

wake_sent : Elem (apply_run wake_request) (reconcile condition_list cold new_model wake_time).calls
unfolding reconcile decided status_before decide observe check_schedulable validate_with_warnings
    preflight apply_env_for run_name_for update_activity_status reconcile_run_ownership has_demand
    request sub_time with_model_uid engine_port apply_durations_for dstack_run_name find_condition
wake_sent = inl refl

reconcile_wakes_example :
    (observed : Observed) × (observe cold.get cold.activity sample_spec wake_time ≡ some observed)
    × IsSafeWake cold new_model wake_time observed wake_request
reconcile_wakes_example =
    reconcile_wakes condition_list cold new_model wake_time wake_request wake_sent (omega arith)

-- The run is up, and all proxies say that it is idle.
abbrev warm : World
warm = record cold { get = found sample_run; activity = some sample_evidence }

abbrev flip_time : ℕ
flip_time = 3000000000000

abbrev flip_request : ApplyRequest
flip_request = record wake_request {
  replicas = 0;
  current = some sample_run;
  ssh_key_pub = "";
  idle_duration = none;
}

flip_sent : Elem (apply_run flip_request) (reconcile condition_list warm live_model flip_time).calls
unfolding reconcile decided status_before decide observe apply_env_for run_name_for
    update_activity_status reconcile_run_ownership has_demand request sub_time engine_port
    apply_durations_for is_terminal
flip_sent = inl refl

reconcile_flips_example :
    (observed : Observed) × (observe warm.get warm.activity sample_spec flip_time ≡ some observed)
    × Justified sample_durations observed
        (status_before condition_list warm.wall live_model observed flip_time)
        (has_demand live_model flip_time)
        flip_time
    × Holds (IsVerbatim flip_request) observed.run
reconcile_flips_example =
    reconcile_flips condition_list warm live_model flip_time sample_durations flip_request flip_sent
      refl

-- What dstack has stored of the run.
abbrev stored_run : RunWire
stored_run = record {
  id = "r1";
  submitted_at = 1000000000000;
  status = "running";
  status_message = "";
  termination_reason = "";
  error = "";
  deployment_num = 1;
  jobs =
      record {
        job_submissions =
            record {
              deployment_num = 1;
              status = "running";
              probes = pos 2 ∷ [];
              job_provisioning_data = none;
            }
            ∷ [];
        service_port = none;
      }
      ∷ [];
  latest_job_submission = none;
  service = none;
  run_name = "main-qwen";
  replicas_min = 1;
  idle_duration = none;
  max_duration = none;
  probes = [];
  env = ("SQUALL_MODEL_UID", "u1") ∷ [];
  ssh_key_pub = "";
}

stored_run-read : warm.get ≡ found (run_of_wire stored_run)
unfolding run_of_wire probes_ready replica_endpoint
stored_run-read = refl

abbrev digits : ℕ → String
digits n = "60"

flip_echoes_example :
    ((run_spec digits flip_request).ssh_key_pub ≡ "")
    × ((run_spec digits flip_request).configuration.env ≡ ("SQUALL_MODEL_UID", "u1") ∷ [])
    × ((run_spec digits flip_request).configuration.idle_duration ≡ none)
    × ((run_spec digits flip_request).configuration.max_duration ≡ max_text digits none)
flip_echoes_example =
    flip_echoes condition_list warm live_model flip_time sample_durations flip_request digits
      stored_run flip_sent refl stored_run-read tt tt

-- dstack cannot be reached.
abbrev silent : World
silent = record cold { get = get_failed }

reconcile_fails_example :
    IsUntouched silent live_model (reconcile condition_list silent live_model flip_time)
    ⊎ ((observed : Observed) × (observe silent.get silent.activity live_model.spec flip_time
          ≡ some observed)
        × IsRecorded condition_list silent live_model
            (decided condition_list silent live_model observed flip_time)
            (reconcile condition_list silent live_model flip_time))
unfolding reconcile observe
reconcile_fails_example = reconcile_fails condition_list silent live_model flip_time tt

run_name_for-after_passes_example :
    run_name_for
      (after_passes condition_list ((cold, wake_time) ∷ (warm, flip_time) ∷ []) new_model)
    ≡ run_name_for new_model
run_name_for-after_passes_example =
    run_name_for-after_passes condition_list ((cold, wake_time) ∷ (warm, flip_time) ∷ []) new_model

-- The run has died because the backend had no machine.
abbrev dead_run : Run
dead_run = record sample_run {
  status = "failed";
  provisioning_failure = some (record { run_id = "r1"; reason = "no_capacity"; message = "" });
}

abbrev broken : World
broken = record cold { get = found dead_run }

failure_paces_example :
    let f = failure_of dead_run dead_run.provisioning_failure in
    ((req : ApplyRequest)
      → ¬ Elem (apply_run req) (reconcile condition_list broken live_model flip_time).calls)
    × (want_awake sample_spec (has_demand live_model flip_time) ≡ true
        → let a =
            (decide condition_list
              (failed_run f)
              (status_before condition_list broken.wall live_model (failed_run f) flip_time)
              sample_spec
              (has_demand live_model flip_time)
              flip_time).1 in
          (a.throttled ≡ true) × (a.throttled_until ≡ flip_time + 60000000000))
unfolding is_terminal reason_of find_condition
failure_paces_example =
    failure_paces condition_list broken live_model flip_time dead_run refl refl (omega arith)
      (λ h. h) refl
