-- ===== src/Controller/World.antt =====
-- What one pass of Reconcile (internal/controller/squall/model_controller.go) asks of the API server,
-- dstack and the replica, and what they answer.
use squall.Common.{ℕ, ℤ, Bool, Option, String, List}
use squall.Api.{Model, ModelStatus}
use squall.Dstack.{ApplyRequest, Run, GetOutcome}
use squall.Controller.Phase.{ActivityEvidence}
use squall.Controller.Preflight.{BackendAnswers}
use squall.Controller.Schedulable.{Parsed}
use squall.Controller.Secrets.{Secrets, KeyAnswers}
use squall.Controller.Refusal.{ApplyError}
use squall.Controller.Finalizer.{Env, PassResult, Call as DrainCall}

pub data Applied : Type 0 where
  applied : Run → Applied
  apply_failed : ApplyError → Applied

-- The answers of one pass. `wall` is the clock that SetStatusCondition reads, `parse` is
-- strconv.ParseFloat, `reader` says whether there is a reader of served models, and `served` is its
-- answer, or an error; `interval` is IdleRequeueInterval. `seconds` is int(d.Seconds()), which goes by a
-- float.
pub record World : Type 0 where
  pub wall : ℕ
  pub interval : ℤ
  pub seconds : ℤ → ℤ
  pub update_ok : Bool
  pub patch_ok : Bool
  pub get : GetOutcome
  pub activity : Option ActivityEvidence
  pub parse : String → Parsed
  pub backends : List BackendAnswers
  pub secrets : Secrets
  pub keys : KeyAnswers
  pub apply : Applied
  pub reader : Bool
  pub served : Option (List String)
  pub drain : Env

pub data Call : Type 0 where
  add_finalizer : Call
  apply_run : ApplyRequest → Call
  stop_run : String → Call
  patch_status : ModelStatus → Call
  drain_call : DrainCall → Call

pub data Result : Type 0 where
  idle : Result
  requeue_after : ℤ → Result
  finalizer_error observe_error env_error apply_error patch_error : Result
  deleting : PassResult → Result

pub record Outcome : Type 0 where
  pub model : Model
  pub calls : List Call
  pub result : Result

abbrev pub ended : Model → List Call → Result → Outcome
ended m calls r = record { model = m; calls = calls; result = r }
