-- ===== src/Api.antt =====
-- The Model resource: api/squall/v1alpha1/model_types.go and activity.go. Times are instants and
-- durations as in Common/Time; a pointer is an Option. A Condition is the Kubernetes API type of
-- that name; Api/Conditions has what the code relies on of the functions that keep a list of them.
-- Api/Price is how a price is read and written.
pub mod Price
pub mod Conditions
use squall.Common.{ℕ, ℤ, Bool, String, Option, List}

pub data ModelEngine : Type 0 where
  vllm llama_cpp ollama : ModelEngine

pub data ModelFeature : Type 0 where
  text_generation text_embedding speech_to_text : ModelFeature

pub record SecretKeyRef : Type 0 where
  pub name : String
  pub key : String

pub record ModelPlacement : Type 0 where
  pub backends : List String
  pub regions : List String
  pub max_price_per_hour : Option String

pub record ModelHealth : Type 0 where
  pub unhealthy_after : ℤ
  pub failure_threshold : ℤ

-- `min_replicas` is 0 or 1 by the CRD's enumeration.
pub record ModelProbe : Type 0 where
  pub path : String
  pub method : String
  pub timeout : Option ℤ
  pub interval : Option ℤ
  pub ready_after : Option ℤ

pub record CpuSpec : Type 0 where
  pub arch : String
  pub count : String

pub record GpuSpec : Type 0 where
  pub vendor : String
  pub name : List String
  pub count : String
  pub memory : String
  pub total_memory : String
  pub compute_capability : String

pub record ModelResources : Type 0 where
  pub cpu : Option CpuSpec
  pub memory : String
  pub shm_size : String
  pub gpu : Option GpuSpec
  pub disk : String

pub record ModelSpec : Type 0 where
  pub engine : ModelEngine
  pub image : String
  pub model : String
  pub features : List ModelFeature
  pub owner : String
  pub args : List String
  pub env : List (String × String)
  pub secret_env : List (String × SecretKeyRef)
  pub probe : Option ModelProbe
  pub resources : ModelResources
  pub placement : ModelPlacement
  pub min_replicas : ℕ
  pub hold_timeout : ℤ
  pub idle_timeout : ℤ
  pub uncontrolled_timeout : Option ℤ
  pub health : ModelHealth
  pub drain_timeout : ℤ
  pub provisioning_timeout : ℤ
  pub max_lifetime : ℤ
  pub hard_stop : ℤ

-- `unset` is the empty string: a Model that was never reconciled.
pub data ModelPhase : Type 0 where
  unset asleep waking ready draining recreating dead : ModelPhase

-- The condition types, statuses and reasons of conditions.go.
pub data ConditionType : Type 0 where
  schedulable provisioning served_model_verified healthy : ConditionType

pub data ConditionStatus : Type 0 where
  is_true is_false is_unknown : ConditionStatus

pub data Reason : Type 0 where
  schedulable_reason backend_unavailable no_fleet cannot_override verified unverified : Reason
  served_model_mismatch invalid_price invalid_spec run_from_another_incarnation : Reason
  no_successful_responses hard_stop_fired healthy_reason provisioning_timeout_reason : Reason
  provisioned insufficient_credit no_capacity backend_rate_limited provisioning_failed : Reason

-- `last_transition_time` is 0 for the zero Time.
pub record Condition : Type 0 where
  pub type : ConditionType
  pub status : ConditionStatus
  pub reason : Reason
  pub message : String
  pub last_transition_time : ℕ

pub record ReplicaEndpoint : Type 0 where
  pub host : String
  pub ssh_port : ℤ
  pub user : String
  pub service_port : ℤ

pub data FleetState : Type 0 where
  admitting created unfleeted unconfigured : FleetState

pub record FleetStatus : Type 0 where
  pub backend : String
  pub name : String
  pub state : FleetState

pub record ModelStatus : Type 0 where
  pub phase : ModelPhase
  pub run_id : String
  pub run_name : String
  pub run_uid : String
  pub deployment_num : ℕ
  pub service_url : String
  pub replica : Option ReplicaEndpoint
  pub served_model : String
  pub forward_model : String
  pub wake_started_at : Option ℕ
  pub fleet : List FleetStatus
  pub last_request_at : Option ℕ
  pub uncontrolled_since : Option ℕ
  pub conditions : List Condition

-- The object's metadata that the code reads stands beside the spec and the status.
pub record Model : Type 0 where
  pub namespace : String
  pub name : String
  pub uid : String
  pub deletion_timestamp : Option ℕ
  pub has_finalizer : Bool
  pub demand_since : Option ℕ
  pub spec : ModelSpec
  pub status : ModelStatus

-- One proxy replica's entry for one Model in its ActivityReport.
pub record ModelActivity : Type 0 where
  pub in_flight : ℤ
  pub last_request_at : ℕ
  pub last_success_at : ℕ
  pub failures_since_success : ℤ
