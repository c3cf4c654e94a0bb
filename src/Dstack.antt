-- ===== src/Dstack.antt =====
-- The dstack client's data (internal/dstack/client.go): runs, their statuses and the outcome of a
-- call. The server behind the client is not part of the repository: its answers are arguments.
-- `PricePerHour`, which is only exported as a metric, and the opaque `raw` are left out of Run.
pub mod Probes
pub mod Mock
pub mod Errors
pub mod Wire
pub mod Http
use Prim.Native.String.{◌++◌ as ◌++ₛ◌}
use squall.Common.{ℕ, ℤ, Bool, String, Option, none, some, List, lookup, str_eq, ◌||◌, Text}

pub record RunEndpoint : Type 0 where
  pub host : String
  pub ssh_port : ℤ
  pub user : String
  pub service_port : ℤ

pub record ProvisioningFailure : Type 0 where
  pub run_id : String
  pub reason : String
  pub message : String

pub record Gpu : Type 0 where
  pub vendor : String
  pub name : List String
  pub count : String
  pub memory : String
  pub total_memory : String
  pub compute_capability : String

pub record Resources : Type 0 where
  pub cpu_arch : String
  pub cpu_count : String
  pub memory : String
  pub shm_size : String
  pub disk : String
  pub gpu : Option Gpu

pub record Probe : Type 0 where
  pub path : String
  pub method : String
  pub timeout_seconds : ℤ
  pub interval_seconds : ℤ
  pub ready_after : ℤ

pub record Run : Type 0 where
  pub name : String
  pub run_id : String
  pub deployment_num : ℕ
  pub replicas : ℕ
  pub replica : Option RunEndpoint
  pub service_url : String
  pub probes_ready : Bool
  pub env : List (String × String)
  pub idle_duration : Option ℤ
  pub max_duration : ℤ
  pub ssh_key_pub : String
  pub status : String
  pub submitted_at : ℕ
  pub provisioning_failure : Option ProvisioningFailure

-- ApplyRequest.
pub record ApplyRequest : Type 0 where
  pub name : String
  pub replicas : ℕ
  pub ssh_key_pub : String
  pub image : String
  pub port : ℕ
  pub env : List (String × String)
  pub args : List Text
  pub resources : Option Resources
  pub probe : Option Probe
  pub backends : List String
  pub regions : List String
  pub max_price : String
  pub idle_duration : Option ℤ
  pub max_duration : ℤ
  pub current : Option Run

-- finishedRunStatuses.
abbrev pub finished_run_statuses : String → Bool
finished_run_statuses status =
    str_eq status "terminated" || str_eq status "failed" || str_eq status "done"

-- IsTerminal.
unfoldable pub is_terminal : Run → Bool
is_terminal r = finished_run_statuses r.status

-- A missing key of a Go map of strings reads as the empty string.
abbrev pub env_value : String → List (String × String) → String
env_value k env = elim (lookup k env) [ none ↦ "" | some v ↦ v ]

-- The outcome of Stop and Delete: `errors.Is(err, ErrNotFound)` is told apart from other errors.
pub data Outcome : Type 0 where
  done not_found failed : Outcome

-- The outcome of Get.
pub data GetOutcome : Type 0 where
  found : Run → GetOutcome
  get_not_found get_failed : GetOutcome

-- FleetName.
unfoldable pub fleet_name : String → String
fleet_name backend = "squall-auto-" ++ₛ backend
