-- ===== src/Dstack/Wire.antt =====
-- What goes over the wire to dstack and what comes back: internal/dstack/wire.go, with runSpec, probe,
-- resources and decodeRun of http.go. A field with omitempty is left out by the JSON encoder where it
-- is empty, nil or 0. `decimal` is %d of fmt. Of the fields that are constants, the type of a
-- configuration and of a probe, and the price of a run, are left out.
pub mod Echo
pub mod Probing
use Prim.Native.String.{◌++◌ as ◌++ₛ◌}
use squall.Common.{
  ℕ, ◌/◌, ℤ, pos, negsuc, Bool, true, false, not, ◌&&◌, ◌||◌, Option, none, some, String, List, [],
  ◌∷◌, if◌then◌else◌, str_eq, lt_dur, le_dur, mul_add, Text,
}
use squall.Dstack.{
  Run, RunEndpoint, ProvisioningFailure, Gpu, Resources, Probe, ApplyRequest, finished_run_statuses,
}
use squall.Dstack.Probes.{Job, probes_ready, replica_endpoint}

pub record ProbeConfigWire : Type 0 where
  pub url : String
  pub method : String
  pub timeout : ℤ
  pub interval : ℤ
  pub ready_after : ℤ

-- `cpu` is the architecture and the count.
pub record ResourcesWire : Type 0 where
  pub cpu : Option (String × String)
  pub memory : String
  pub shm_size : String
  pub gpu : Option Gpu
  pub disk : Option String

pub record ConfigurationWire : Type 0 where
  pub name : String
  pub image : String
  pub port : ℕ
  pub replicas : ℕ
  pub probes : List ProbeConfigWire
  pub env : List (String × String)
  pub commands : List Text
  pub resources : Option ResourcesWire
  pub backends : List String
  pub regions : List String
  pub max_price : String
  pub idle_duration : Option ℤ
  pub max_duration : String

pub record RunSpecWire : Type 0 where
  pub run_name : String
  pub configuration : ConfigurationWire
  pub ssh_key_pub : String

abbrev pub default_ready_after : ℕ
default_ready_after = 2

abbrev whole_seconds : ℤ → ℕ
whole_seconds (pos n) = n / 1000000000
whole_seconds (negsuc n) = 0

-- dstackDuration.
unfoldable pub dstack_duration : (ℕ → String) → ℤ → String
dstack_duration decimal d = if le_dur d (pos 0) then "" else decimal (whole_seconds d) ++ₛ "s"

-- dstackSeconds: a duration below 0 is 0.
unfoldable pub dstack_seconds : ℤ → ℤ
dstack_seconds d = pos (whole_seconds d)

-- dstackSecondsPtr.
unfoldable pub dstack_seconds_ptr : Option ℤ → Option ℤ
unfolding dstack_seconds
dstack_seconds_ptr none = none
dstack_seconds_ptr (some d) = some (dstack_seconds d)

-- time.Duration(v) * time.Second, which wraps.
abbrev pub of_seconds : ℤ → ℤ
unfolding mul_add
of_seconds v = mul_add 1000000000 v 0

-- wireSecondsPtr.
unfoldable pub wire_seconds_ptr : Option ℤ → Option ℤ
unfolding of_seconds
wire_seconds_ptr none = none
wire_seconds_ptr (some v) = some (of_seconds v)

-- wireSeconds.
unfoldable pub wire_seconds : Option ℤ → ℤ
unfolding of_seconds
wire_seconds none = pos 0
wire_seconds (some v) = of_seconds v

abbrev default_probe : ProbeConfigWire
default_probe = record {
  url = "/health";
  method = "";
  timeout = pos 0;
  interval = pos 5;
  ready_after = pos default_ready_after;
}

abbrev or_default : ℤ → ℕ → ℤ
or_default given default = if lt_dur (pos 0) given then given else pos default

-- probe.
unfoldable pub probe_wire : Option Probe → ProbeConfigWire
probe_wire none = default_probe
probe_wire (some p) = record {
  url = if str_eq p.path "" then "/health" else p.path;
  method = p.method;
  timeout = p.timeout_seconds;
  interval = or_default p.interval_seconds 5;
  ready_after = or_default p.ready_after default_ready_after;
}

-- resources.
unfoldable pub resources_wire : Option Resources → Option ResourcesWire
resources_wire none = none
resources_wire (some r) = some (record {
  cpu =
      if str_eq r.cpu_arch "" && str_eq r.cpu_count ""
      then none
      else some (r.cpu_arch, r.cpu_count);
  memory = r.memory;
  shm_size = r.shm_size;
  gpu = r.gpu;
  disk = if str_eq r.disk "" then none else some r.disk;
})

-- runSpec.
unfoldable pub run_spec : (ℕ → String) → ApplyRequest → RunSpecWire
unfolding probe_wire resources_wire dstack_seconds_ptr dstack_duration
run_spec decimal req = record {
  run_name = req.name;
  configuration = record {
    name = req.name;
    image = req.image;
    port = req.port;
    replicas = req.replicas;
    probes = probe_wire req.probe ∷ [];
    env = req.env;
    commands = req.args;
    resources = resources_wire req.resources;
    backends = req.backends;
    regions = req.regions;
    max_price = req.max_price;
    idle_duration = dstack_seconds_ptr req.idle_duration;
    max_duration = dstack_duration decimal req.max_duration;
  };
  ssh_key_pub = req.ssh_key_pub;
}

-- The texts of the latest job submission.
pub record LatestSubmission : Type 0 where
  pub termination_reason : String
  pub termination_reason_message : String
  pub status_message : String
  pub error : String

-- `service` is the URL, `probes` the ready_after of each probe.
pub record RunWire : Type 0 where
  pub id : String
  pub submitted_at : ℕ
  pub status : String
  pub status_message : String
  pub termination_reason : String
  pub error : String
  pub deployment_num : ℕ
  pub jobs : List Job
  pub latest_job_submission : Option LatestSubmission
  pub service : Option String
  pub run_name : String
  pub replicas_min : ℕ
  pub idle_duration : Option ℤ
  pub max_duration : Option ℤ
  pub probes : List ℤ
  pub env : List (String × String)
  pub ssh_key_pub : String

abbrev pub or_text : String → String → String
or_text s other = if str_eq s "" then other else s

abbrev failure_reason : RunWire → Option LatestSubmission → String
failure_reason w none = w.termination_reason
failure_reason w (some s) = or_text s.termination_reason w.termination_reason

abbrev failure_message : RunWire → Option LatestSubmission → String
failure_message w none = or_text w.status_message w.error
failure_message w (some s) =
    or_text s.termination_reason_message
      (or_text s.status_message (or_text s.error (or_text w.status_message w.error)))

-- decodeProvisioningFailure.
unfoldable pub decode_provisioning_failure : RunWire → Option ProvisioningFailure
decode_provisioning_failure w =
    let reason = failure_reason w w.latest_job_submission in
    let message = failure_message w w.latest_job_submission in
    if not (finished_run_statuses w.status)
    then none
    else if str_eq reason "" && str_eq message ""
    then none
    else some (record { run_id = w.id; reason = reason; message = message })

-- serviceURL.
abbrev pub service_url_of : Option String → String
service_url_of none = ""
service_url_of (some url) = url

-- echoedReadyAfter, on the probes of the configuration.
unfoldable pub echoed_ready_after : List ℤ → ℤ
echoed_ready_after [] = pos default_ready_after
echoed_ready_after (p ∷ probes) =
    let rest = echoed_ready_after probes in if lt_dur (pos 0) p then p else rest

-- The Run that decodeRun makes.
unfoldable pub run_of_wire : RunWire → Run
unfolding echoed_ready_after wire_seconds_ptr wire_seconds decode_provisioning_failure
run_of_wire w = record {
  name = w.run_name;
  run_id = w.id;
  deployment_num = w.deployment_num;
  replicas = w.replicas_min;
  replica = replica_endpoint w.jobs w.deployment_num;
  service_url = service_url_of w.service;
  probes_ready = probes_ready w.jobs w.deployment_num (echoed_ready_after w.probes);
  env = w.env;
  idle_duration = wire_seconds_ptr w.idle_duration;
  max_duration = wire_seconds w.max_duration;
  ssh_key_pub = w.ssh_key_pub;
  status = w.status;
  submitted_at = w.submitted_at;
  provisioning_failure = decode_provisioning_failure w;
}
