-- ===== src/Examples.antt =====
-- Runs of the theorems at concrete inputs: the sample data, and one module per part.
mod Wire
mod Tunnels
mod Phase
mod Evidence
mod Held
mod Forwarded
mod Observe
mod Pass
mod Requests
mod Runs
mod Proxy
use squall.Common.{
  ℕ, ℤ, pos, mul_add, ◌≡◌, refl, true, false, none, some, [], ◌∷◌, arith, minute, max_duration,
}
use squall.Api.{Model, ModelSpec, ModelStatus, vllm, unset, ready, text_generation, Condition}
use squall.Dstack.{Run}
use squall.Controller.Phase.{ActivityEvidence, Observed, uncontrolled_timeout_for}
use squall.Controller.Phase.FailSafe.{Durations}
use squall.Controller.Activity.{ActivityQuery}

abbrev sample_spec : ModelSpec
sample_spec = record {
  engine = vllm;
  image = "vllm/vllm-openai";
  model = "qwen";
  features = text_generation ∷ [];
  owner = "qwen";
  args = [];
  env = [];
  secret_env = [];
  probe = none;
  resources = record { cpu = none; memory = ""; shm_size = ""; gpu = none; disk = "" };
  placement = record { backends = "vastai" ∷ []; regions = []; max_price_per_hour = none };
  min_replicas = 0;
  hold_timeout = pos 600000000000;
  idle_timeout = pos 300000000000;
  uncontrolled_timeout = none;
  health = record { unhealthy_after = pos 600000000000; failure_threshold = pos 3 };
  drain_timeout = pos 60000000000;
  provisioning_timeout = pos 1200000000000;
  max_lifetime = pos 0;
  hard_stop = pos 0;
}

-- An idle timeout of about 90 years.
abbrev long_spec : ModelSpec
long_spec = record sample_spec { idle_timeout = pos 3000000000000000000 }

abbrev sample_status : ModelStatus
sample_status = record {
  phase = ready;
  run_id = "r1";
  run_name = "main-qwen";
  run_uid = "u1";
  deployment_num = 1;
  service_url = "";
  replica = none;
  served_model = "qwen";
  forward_model = "qwen";
  wake_started_at = some 1000000000000;
  fleet = [];
  last_request_at = none;
  uncontrolled_since = none;
  conditions = [];
}

abbrev sample_run : Run
sample_run = record {
  name = "main-qwen";
  run_id = "r1";
  deployment_num = 1;
  replicas = 1;
  replica = none;
  service_url = "";
  probes_ready = true;
  env = ("SQUALL_MODEL_UID", "u1") ∷ [];
  idle_duration = none;
  max_duration = pos 0;
  ssh_key_pub = "";
  status = "running";
  submitted_at = 1000000000000;
  provisioning_failure = none;
}

abbrev sample_model : Model
sample_model = record {
  namespace = "main";
  name = "qwen";
  uid = "u1";
  deletion_timestamp = some 1000000000000;
  has_finalizer = true;
  demand_since = none;
  spec = sample_spec;
  status = sample_status;
}

-- A proxy replica that answered with a request at 2,000 s and nothing in flight.
abbrev sample_query : ActivityQuery
sample_query = record {
  address = "10.0.0.1";
  ok = true;
  no_data = false;
  in_flight = pos 0;
  last_request_at = 2000000000000;
  last_success_at = 2000000000000;
  failures_since_success = pos 0;
}

abbrev sample_evidence : ActivityEvidence
sample_evidence = record {
  complete = true;
  all_idle = true;
  any_data = true;
  newest_last_request_at = 2000000000000;
  newest_last_success_at = 2000000000000;
  failures_since_success = pos 0;
}

abbrev sample_observed : Observed
sample_observed = record {
  run = some sample_run;
  provisioning_failure = none;
  ready = true;
  activity = some sample_evidence;
}

sample_timeout : uncontrolled_timeout_for sample_spec ≡ pos 2100000000000
unfolding uncontrolled_timeout_for mul_add
sample_timeout = refl

abbrev sample_durations : Durations sample_spec
sample_durations = record {
  idle = 300000000000;
  provision = 1200000000000;
  after = 600000000000;
  threshold = 3;
  uncontrolled = 2100000000000;
  idle_eq = refl;
  provision_eq = refl;
  after_eq = refl;
  threshold_eq = refl;
  uncontrolled_eq = sample_timeout;
  idle_fits = omega arith;
  provision_fits = omega arith;
  after_fits = omega arith;
  uncontrolled_fits = omega arith;
}
