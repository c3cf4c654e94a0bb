-- ===== src/Dstack/Mock/Http.antt =====
-- The fake server's HTTP surface: internal/dstack/mock/http.go, for a client whose token is accepted.
-- Each request is answered by an operation of the server. What encoding/json writes and reads is an
-- `Encoding`. The fake reads of a request what its wire types name; a key of a JSON object that it does not name
-- is left out. The gateway's route is in Dstack/Mock.
pub mod Carries
pub mod Read
use Prim.Native.String.{◌++◌ as ◌++ₛ◌}
use squall.Common.{
  ℕ, ℤ, pos, negsuc, ◌≡◌, Bool, true, false, Option, none, some, String, List, [], ◌∷◌, ltb,
  if◌then◌else◌, is_none, lookup,
}
use squall.Dstack.Probes.{Job, JobSubmission}
use squall.Dstack.Wire.{RunSpecWire, RunWire}
use squall.Dstack.Http.{
  FleetConfigurationWire, Call, get_plan, apply_plan, get_run, stop_runs, delete_runs, list_runs,
  config_info, list_fleets, get_fleet, get_fleet_plan, apply_fleet_plan, Reply, answered,
}
use squall.Dstack.Mock.{
  RunId, Service, Server, Anchor, ApplyRequest, Error, force_forbidden, resource_changed,
  cannot_override, not_found, delete_active_run, RunStatus, status_terminated, status_pending,
  status_running, Run, Answer, granted, refused, ensure_fleet, run_for, apply, get, delete, stop,
}

-- normalizedRunSpecWire.
pub record PlannedSpec : Type 0 where
  pub run_name : String
  pub replicas : ℕ
  pub idle_duration : Option ℕ

-- The `_in` functions read a body, the `_body` functions write one; `run_body` writes a runOutWire, `fleet_body`
-- the fleet of a name, `any_fleet` the list of one active fleet with no backends.
pub record Encoding (Raw : Type 0) : Type 0 where
  pub decimal : ℕ → String
  pub read_id : String → RunId
  pub spec_body : PlannedSpec → Raw
  pub spec_in : Raw → Option PlannedSpec
  pub plan_body : Raw → Raw
  pub current_in : Raw → Option (String × ℕ)
  pub run_body : RunWire → Raw
  pub runs_body : List Raw → Raw
  pub error_body : String → String → Raw
  pub empty_body : Raw
  pub any_fleet : Raw
  pub fleet_spec_body : FleetConfigurationWire → Raw
  pub fleet_spec_in : Raw → Option (String × List String)
  pub fleet_plan_body : Raw → Raw
  pub fleet_body : String → Raw

-- newRunID's text.
abbrev pub id_text : (ℕ → String) → RunId → String
id_text decimal i = "run-" ++ₛ i.name ++ₛ "-" ++ₛ decimal i.number

abbrev pub status_text : RunStatus → String
status_text status_terminated = "terminated"
status_text status_pending = "pending"
status_text status_running = "running"

-- The client sends no duration below 0.
abbrev pub seconds_in : Option ℤ → Option ℕ
seconds_in none = none
seconds_in (some (pos n)) = some n
seconds_in (some (negsuc n)) = some 0

abbrev pub seconds_out : Option ℕ → Option ℤ
seconds_out none = none
seconds_out (some n) = some (pos n)

abbrev pub one_job : ℕ → Bool → List Job
one_job num ready =
    record {
      job_submissions =
          record {
            deployment_num = num;
            status = "running";
            probes = (if ready then pos 2 else pos 0) ∷ [];
            job_provisioning_data = none;
          }
          ∷ [];
      service_port = none;
    }
    ∷ []

-- The jobs of a run: one if it has replicas.
abbrev pub jobs_of : Run → List Job
jobs_of run = if ltb 0 run.replicas then one_job run.deployment_num run.probes_ready else []

-- runToWire, in the type that the client reads: what it does not write is read as empty.
unfoldable pub run_to_wire : (ℕ → String) → Run → RunWire
run_to_wire decimal run = record {
  id = id_text decimal run.run_id;
  submitted_at = run.submitted_at;
  status = status_text run.status;
  status_message = "";
  termination_reason = "";
  error = "";
  deployment_num = run.deployment_num;
  jobs = jobs_of run;
  latest_job_submission = none;
  service = some ("/proxy/services/main/" ++ₛ run.name ++ₛ "/");
  run_name = run.name;
  replicas_min = run.replicas;
  idle_duration = seconds_out run.idle_duration;
  max_duration = none;
  probes = [];
  env = [];
  ssh_key_pub = "";
}

module _ {Raw : Type 0} (enc : Encoding Raw) where
  -- writeJSON and writeError.
  abbrev pub said : Raw → Reply Raw
  said body = answered 200 body

  abbrev pub refused_with : String → String → Reply Raw
  refused_with msg code = answered 400 (enc.error_body msg code)

  abbrev pub no_run : Reply Raw
  no_run = refused_with "Run not found" "resource_not_exists"

  -- The echo of handleGetPlan.
  abbrev pub planned_of : RunSpecWire → PlannedSpec
  planned_of spec = record {
    run_name = spec.run_name;
    replicas = spec.configuration.replicas;
    idle_duration = seconds_in spec.configuration.idle_duration;
  }

  -- The second half of handleApply.
  abbrev pub apply_answer : Answer → Reply Raw
  unfolding run_to_wire
  apply_answer (granted run) = said (enc.run_body (run_to_wire enc.decimal run))
  apply_answer (refused cannot_override) =
      refused_with "Cannot override active run. Stop the run first." "error"
  apply_answer (refused force_forbidden) =
      refused_with
        "dstack mock: force apply is forbidden by construction; squall must never send force"
        "error"
  apply_answer (refused resource_changed) =
      refused_with "Resource has been changed. Try again or use force apply" "error"
  apply_answer (refused _) = answered 500 (enc.error_body "" "error")

  abbrev pub apply_with : PlannedSpec → Option Anchor → Bool → ℕ → Server → Server × Reply Raw
  unfolding apply apply_answer
  apply_with spec current force now s =
      let (s', answer) =
        apply
          (record {
            name = spec.run_name;
            replicas = spec.replicas;
            current = current;
            force = force;
            fleet_idle_duration = 0;
            idle_duration = spec.idle_duration;
          })
          s now in
      (s', apply_answer answer)

  abbrev anchored : PlannedSpec → Option (String × ℕ) → Bool → ℕ → Server → Server × Reply Raw
  unfolding apply_with
  anchored spec none force now s = (s, refused_with "invalid current_resource" "error")
  anchored spec (some (id, num)) force now s =
      apply_with spec (some (record { run_id = enc.read_id id; deployment_num = num })) force now s

  abbrev with_current : PlannedSpec → Option Raw → Bool → ℕ → Server → Server × Reply Raw
  unfolding apply_with anchored
  with_current spec none force now s = apply_with spec none force now s
  with_current spec (some raw) force now s = anchored spec (enc.current_in raw) force now s

  abbrev with_spec : Option PlannedSpec → Option Raw → Bool → ℕ → Server → Server × Reply Raw
  unfolding with_current
  with_spec none current force now s = (s, refused_with "invalid run_spec" "error")
  with_spec (some spec) current force now s = with_current spec current force now s

  abbrev run_answer : Option Run → Reply Raw
  unfolding run_to_wire
  run_answer none = no_run
  run_answer (some run) = said (enc.run_body (run_to_wire enc.decimal run))

  -- handleDeleteRun; the message of an active run names it.
  abbrev delete_answer : String → Option Error → Reply Raw
  delete_answer name none = said enc.empty_body
  delete_answer name (some not_found) = no_run
  delete_answer name (some delete_active_run) =
      refused_with ("Cannot delete active runs: [" ++ₛ name ++ₛ "]") "error"
  delete_answer name (some _) = said enc.empty_body

  abbrev stop_answer : Option Error → Reply Raw
  stop_answer (some not_found) = no_run
  stop_answer _ = said enc.empty_body

  abbrev one_name : List String → (String → Server × Reply Raw) → Server → Server × Reply Raw
  one_name (name ∷ []) f s = f name
  one_name _ f s = (s, refused_with "runs_names must carry exactly one name" "error")

  abbrev bodies_of : Server → ℕ → List (String × Service) → List Raw
  unfolding run_for run_to_wire
  bodies_of s now [] = []
  bodies_of s now ((name, svc) ∷ services) =
      enc.run_body (run_to_wire enc.decimal (run_for s name svc now)) ∷ bodies_of s now services

  abbrev fleet_created : Option (String × List String) → Server → Server × Reply Raw
  unfolding ensure_fleet
  fleet_created none s = (s, refused_with "invalid spec" "error")
  fleet_created (some (name, backends)) s =
      (ensure_fleet name backends s, said (enc.fleet_body name))

  -- NewHTTPServer's routes, at one instant.
  unfoldable pub serve : ℕ → Server → Call Raw → Server × Reply Raw
  unfolding with_spec apply_with run_answer bodies_of fleet_created get delete stop
  serve now s (get_plan spec) = (s, said (enc.plan_body (enc.spec_body (planned_of spec))))
  serve now s (apply_plan raw current force) = with_spec (enc.spec_in raw) current force now s
  serve now s (get_run name) = (s, run_answer (get name s now))
  serve now s (stop_runs names abort) =
      one_name names (λ name. let (s', e) = stop name s in (s', stop_answer e)) s
  serve now s (delete_runs names) =
      one_name names (λ name. let (s', e) = delete name s in (s', delete_answer name e)) s
  serve now s list_runs = (s, said (enc.runs_body (bodies_of s now s.services)))
  serve now s (config_info backend) = (s, said enc.empty_body)
  serve now s list_fleets = (s, said enc.any_fleet)
  serve now s (get_fleet name) = (
    s,
    if is_none (lookup name s.fleets)
        then refused_with "Resource not found" "resource_not_exists"
        else said (enc.fleet_body name),
  )
  serve now s (get_fleet_plan f) = (s, said (enc.fleet_plan_body (enc.fleet_spec_body f)))
  serve now s (apply_fleet_plan raw force) = fleet_created (enc.fleet_spec_in raw) s
