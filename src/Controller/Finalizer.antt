-- ===== src/Controller/Finalizer.antt =====
-- The drain-first teardown of internal/controller/squall/finalizer.go. One pass of reconcileDelete
-- gets the answers of the API server, dstack and the proxies as an Env, and gives the Model as it
-- leaves it, the calls that it made in order, and its result. `activity` is what gatherActivity
-- would find in this pass.
pub mod Safety
pub mod Progress
pub mod Identity
use squall.Common.{
  ℕ, ℤ, pos, Bool, true, false, not, ◌&&◌, Option, none, some, String, List, [], ◌∷◌, ◌++◌,
  if◌then◌else◌, le_dur, lt_dur, ltb, sub_time, instant_or_zero,
}
use squall.Api.{Model, ModelStatus, ModelSpec, ModelPhase, draining}
use squall.Dstack.{
  Run, is_terminal, Outcome, done, not_found, failed, GetOutcome, found, get_not_found, get_failed,
}
use squall.Controller.Phase.{ActivityEvidence}

abbrev pub default_drain_timeout : ℕ
default_drain_timeout = 120000000000

-- drainTimeoutOrDefault.
unfoldable pub drain_timeout_or_default : ModelSpec → ℤ
drain_timeout_or_default spec =
    if le_dur spec.drain_timeout (pos 0) then pos default_drain_timeout else spec.drain_timeout

-- drainEvidenceClean.
unfoldable pub drain_evidence_clean : Option ActivityEvidence → Bool
drain_evidence_clean none = false
drain_evidence_clean (some ev) = ev.complete && ev.all_idle

pub record Env : Type 0 where
  pub patch_ok : Bool
  pub get : GetOutcome
  pub activity : Option ActivityEvidence
  pub stop : Outcome
  pub delete : Outcome
  pub update_ok : Bool

pub data Call : Type 0 where
  patch_draining get_run stop_run delete_run remove_finalizer forget_metrics : Call

pub data PassResult : Type 0 where
  finished requeue_after_second patch_error get_error stop_error delete_error update_error :
      PassResult

pub record Pass : Type 0 where
  pub model : Model
  pub calls : List Call
  pub result : PassResult

abbrev is_draining : ModelPhase → Bool
is_draining draining = true
is_draining _ = false

abbrev ended : Model → List Call → PassResult → Pass
ended m calls r = record { model = m; calls = calls; result = r }

-- The removal of the finalizer, which an Update carries out.
remove_step : Env → Model → List Call → Pass
remove_step env m calls =
    if env.update_ok
    then ended (record m { has_finalizer = false })
        (calls ++ (remove_finalizer ∷ forget_metrics ∷ [])) finished
    else ended m (calls ++ (remove_finalizer ∷ [])) update_error

abbrev after_delete : Outcome → Env → Model → List Call → Pass
after_delete failed env m calls = ended m calls delete_error
after_delete done env m calls = remove_step env m calls
after_delete not_found env m calls = remove_step env m calls

delete_step : Env → Model → List Call → Pass
unfolding remove_step
delete_step env m calls = after_delete env.delete env m (calls ++ (delete_run ∷ []))

abbrev after_stop : Outcome → Model → List Call → Pass
after_stop failed m calls = ended m calls stop_error
after_stop done m calls = ended m calls requeue_after_second
after_stop not_found m calls = ended m calls requeue_after_second

unfoldable pub past_deadline : Model → ℕ → Bool
unfolding drain_timeout_or_default
past_deadline m now =
    lt_dur (drain_timeout_or_default m.spec) (sub_time now (instant_or_zero m.deletion_timestamp))

-- From the Get on.
teardown : GetOutcome → Env → Model → ℕ → List Call → Pass
unfolding delete_step past_deadline drain_evidence_clean
teardown get_failed env m now calls = ended m calls get_error
teardown get_not_found env m now calls = delete_step env m calls
teardown (found run) env m now calls =
    if (ltb 0 run.replicas && not (past_deadline m now)) && not (drain_evidence_clean env.activity)
    then ended m calls requeue_after_second
    else if not (is_terminal run)
    then after_stop env.stop m (calls ++ (stop_run ∷ []))
    else delete_step env m calls

-- reconcileDelete.
unfoldable pub reconcile_delete : Env → Model → ℕ → Pass
unfolding teardown
reconcile_delete env m now =
    if not m.has_finalizer
    then ended m [] finished
    else if not (is_draining m.status.phase)
    then (if env.patch_ok
        then teardown env.get env (record m { status = record (m.status) { phase = draining } }) now
            (patch_draining ∷ get_run ∷ [])
        else ended m (patch_draining ∷ []) patch_error)
    else teardown env.get env m now (get_run ∷ [])
