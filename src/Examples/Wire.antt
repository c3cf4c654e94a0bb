-- ===== src/Examples/Wire.antt =====
-- The theorems on the client of dstack and on the fake server behind it, run.
use squall.Common.{ℕ, pos, ◌≡◌, ◌⊎◌, refl, true, false, Option, none, some, String, List, [], ◌∷◌}
use squall.Dstack.{ApplyRequest, is_terminal}
use squall.Dstack.Errors.{mark_of, Detail, no_envelope, decoded_list}
use squall.Dstack.Wire.{RunWire, run_of_wire}
use squall.Dstack.Http.{
  FleetConfigurationWire, FleetSpec, FleetWire, Call, get_fleet, ClientError, Result, ok, err,
  is_not_found, outcome_of, Codec, run_with,
}
use squall.Dstack.Http.Runs.{apply as client_apply}
use squall.Dstack.Http.Fleets.{ensure_fleet, has_fleet_for}
use squall.Dstack.Http.Fleets.Created.{PlansThen, ensure_fleet_cases}
use squall.Dstack.Mock.{Service, run_for, probes_ready, RunId, Server, Run, status_running, apply}
use squall.Dstack.Mock.Http.{PlannedSpec, Encoding, run_to_wire, serve}
use squall.Dstack.Mock.Http.Read.{run_of_wire-run_to_wire}
use squall.Dstack.Mock.Http.Carries.{IsFaithful, kept, asked, given, client_apply_carries}

-- Decoded bodies in place of their texts.
data Body : Type 0 where
  spec_json : PlannedSpec → Body
  plan_json : Body → Body
  run_json : RunWire → Body
  error_json : String → String → Body
  fleet_json : FleetConfigurationWire → Body
  fleets_json : List FleetWire → Body
  empty_json : Body

abbrev detail_json : Body → Detail
detail_json (error_json msg code) = decoded_list (record { msg = msg; code = code } ∷ [])
detail_json _ = no_envelope

abbrev plan_in : Body → Option Body
plan_in (plan_json b) = some b
plan_in _ = none

abbrev run_in : Body → Option RunWire
run_in (run_json w) = some w
run_in _ = none

abbrev fleets_in : Body → Option (List FleetWire)
fleets_in (fleets_json fs) = some fs
fleets_in _ = none

abbrev fleet_plan_in : Body → Option (Body × Option Body)
fleet_plan_in (plan_json b) = some (b, none)
fleet_plan_in _ = none

abbrev bodies : Codec Body
bodies = record {
  detail = detail_json;
  run_plan = plan_in;
  run = run_in;
  raw_list = λ b. none;
  fleets = fleets_in;
  fleet_plan = fleet_plan_in;
}

abbrev spec_in : Body → Option PlannedSpec
spec_in (spec_json p) = some p
spec_in _ = none

abbrev current_in : Body → Option (String × ℕ)
current_in (run_json w) = some (w.id, w.deployment_num)
current_in _ = none

abbrev fleet_spec_in : Body → Option (String × List String)
fleet_spec_in (fleet_json f) = some (f.name, f.backends)
fleet_spec_in _ = none

abbrev first_id : RunId
first_id = record { name = "main-qwen"; number = 1 }

abbrev digit : ℕ → String
digit n = "1"

abbrev fake : Encoding Body
fake = record {
  decimal = digit;
  read_id = λ t. first_id;
  spec_body = spec_json;
  spec_in = spec_in;
  plan_body = plan_json;
  current_in = current_in;
  run_body = run_json;
  runs_body = λ bs. empty_json;
  error_body = error_json;
  empty_body = empty_json;
  any_fleet = fleets_json (record { status = "active"; backends = [] } ∷ []);
  fleet_spec_body = fleet_json;
  fleet_spec_in = fleet_spec_in;
  fleet_plan_body = plan_json;
  fleet_body = λ n. empty_json;
}

fake-IsFaithful : IsFaithful bodies fake
unfolding run_to_wire
fake-IsFaithful = record {
  spec_in-spec_body = λ p. refl;
  run_plan-plan_body = λ r. refl;
  run-run_body = λ run. refl;
  current_in-run_body = λ run. refl;
  detail-error_body = λ msg code. refl;
}

abbrev first_run : Run
first_run = record {
  name = "main-qwen";
  run_id = first_id;
  deployment_num = 1;
  replicas = 1;
  probes_ready = true;
  status = status_running;
  submitted_at = 0;
  idle_duration = none;
}

abbrev flip_request : ApplyRequest
flip_request = record {
  name = "main-qwen";
  replicas = 0;
  ssh_key_pub = "";
  image = "";
  port = 8000;
  env = [];
  args = [];
  resources = none;
  probe = none;
  backends = [];
  regions = [];
  max_price = "";
  idle_duration = none;
  max_duration = pos 0;
  current = none;
}

abbrev one_running : Service
one_running = record {
  run_id = first_id;
  deployment_num = 1;
  replicas = 1;
  submitted_at = 0;
  replicas_up_at = 1;
  terminal = false;
  instance_up = true;
  idle_since = 0;
  fleet_idle_duration = 0;
  apply_count = 1;
  idle_duration = none;
}

abbrev one_service : Server
one_service = record {
  services = ("main-qwen", one_running) ∷ [];
  fleets = [];
  seq = 1;
  probe_delay = 0;
}

client_apply_carries_example :
    ((run_with
        (serve fake 7)
        (client_apply bodies digit flip_request (kept fake (some first_run)))
        one_service).0
      ≡ (apply (asked flip_request (some first_run)) one_service 7).0)
    × ((run_with
          (serve fake 7)
          (client_apply bodies digit flip_request (kept fake (some first_run)))
          one_service).2
        ≡ given bodies fake (apply (asked flip_request (some first_run)) one_service 7).1)
client_apply_carries_example =
    client_apply_carries bodies fake fake-IsFaithful digit flip_request (some first_run) one_service
      7 refl

abbrev auto_fleet : FleetSpec
auto_fleet = record { name = "squall-auto-vastai"; backends = "vastai" ∷ []; idle_duration = pos 0 }

ensure_fleet_cases_example :
    ((body : Body) × (outcome_of bodies
          (serve fake 7 one_service (get_fleet "squall-auto-vastai")).1
        ≡ ok body)
      × (run_with (serve fake 7) (ensure_fleet bodies auto_fleet) one_service ≡ (
        (serve fake 7 one_service (get_fleet "squall-auto-vastai")).0,
        get_fleet "squall-auto-vastai" ∷ [],
        ok tt,
      )))
    ⊎ ((e : ClientError) × (outcome_of bodies
            (serve fake 7 one_service (get_fleet "squall-auto-vastai")).1
          ≡ err e)
        × (((is_not_found e ≡ false)
              × (run_with (serve fake 7) (ensure_fleet bodies auto_fleet) one_service ≡ (
                (serve fake 7 one_service (get_fleet "squall-auto-vastai")).0,
                get_fleet "squall-auto-vastai" ∷ [],
                err e,
              )))
            ⊎ ((is_not_found e ≡ true)
                × (rest : Server × List (Call Body) × Result (Unit {0})) × (run_with
                      (serve fake 7)
                      (ensure_fleet bodies auto_fleet)
                      one_service
                    ≡ (rest.0, get_fleet "squall-auto-vastai" ∷ rest.1, rest.2))
                × PlansThen bodies
                    (serve fake 7)
                    auto_fleet
                    (serve fake 7 one_service (get_fleet "squall-auto-vastai")).0
                    rest)))
ensure_fleet_cases_example = ensure_fleet_cases bodies (serve fake 7) auto_fleet one_service

-- The fleet is created, and the backend is configured and has a fleet.
fleet_created :
    (run_with (serve fake 7) (ensure_fleet bodies auto_fleet) one_service).0.fleets
    ≡ ("squall-auto-vastai", "vastai" ∷ []) ∷ []
unfolding run_with ensure_fleet serve outcome_of mark_of
fleet_created = refl

fleet_found : (run_with (serve fake 7) (has_fleet_for bodies "vastai") one_service).2 ≡ ok true
unfolding run_with has_fleet_for serve
fleet_found = refl

run_of_wire-run_to_wire_example :
    let read = run_of_wire (run_to_wire digit (run_for one_service "main-qwen" one_running 7)) in
    (read.name ≡ "main-qwen")
    × (read.deployment_num ≡ 1)
    × (read.replicas ≡ 1)
    × (read.probes_ready ≡ probes_ready one_service one_running 7)
    × (is_terminal read ≡ false)
run_of_wire-run_to_wire_example =
    run_of_wire-run_to_wire digit one_service "main-qwen" one_running 7
