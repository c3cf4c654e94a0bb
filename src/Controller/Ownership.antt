-- ===== src/Controller/Ownership.antt =====
-- The identity of a Model's dstack run: internal/controller/squall/runname.go and ownership.go.
pub mod Identity
use Prim.Native.String.{◌++◌ as ◌++ₛ◌}
use squall.Common.{
  ℕ, Bool, true, false, Option, none, some, not, ◌&&◌, String, List, [], ◌∷◌, str_eq, if◌then◌else◌,
  insert, contains,
}
use squall.Api.{Model, ModelStatus, schedulable, is_true, run_from_another_incarnation, Condition}
use squall.Api.Conditions.{ConditionOps}
use squall.Dstack.{Run, env_value}

-- dstackRunName.
unfoldable pub dstack_run_name : Model → String
dstack_run_name m = if str_eq m.namespace "" then m.name else m.namespace ++ₛ ("-" ++ₛ m.name)

-- runNameFor.
unfoldable pub run_name_for : Model → String
unfolding dstack_run_name
run_name_for m = if not (str_eq m.status.run_name "") then m.status.run_name else dstack_run_name m

-- runNamesFor.
unfoldable pub run_names_for : Model → List String
run_names_for m =
    dstack_run_name m
    ∷ (if not (str_eq m.status.run_name "") && not (str_eq m.status.run_name (dstack_run_name m))
        then m.status.run_name ∷ []
        else [])

abbrev pub model_uid_env_key : String
model_uid_env_key = "SQUALL_MODEL_UID"

pub data RunOwnership : Type 0 where
  owned_by_this_model unmarked from_another_incarnation : RunOwnership

abbrev classify_uid : String → String → RunOwnership
classify_uid recorded uid =
    if str_eq recorded ""
    then unmarked
    else if str_eq recorded uid
    then owned_by_this_model
    else from_another_incarnation

-- classifyRunOwnership.
unfoldable pub classify_run_ownership : Option Run → Model → RunOwnership
classify_run_ownership none m = owned_by_this_model
classify_run_ownership (some run) m = classify_uid (env_value model_uid_env_key run.env) m.uid

-- withModelUID: a copy of env with the owner's UID.
unfoldable pub with_model_uid : List (String × String) → Model → List (String × String)
with_model_uid env m = insert model_uid_env_key m.uid env

abbrev recorded_uid : Option Run → String
recorded_uid none = ""
recorded_uid (some run) = env_value model_uid_env_key run.env

-- The message of the condition is not modelled. `wall` is the clock that SetStatusCondition reads.
abbrev adopt : ConditionOps → ℕ → RunOwnership → String → Model → ModelStatus
adopt meta wall from_another_incarnation recorded m = record (m.status) {
  run_uid = recorded;
  conditions = meta.set wall m.status.conditions (record {
    type = schedulable;
    status = is_true;
    reason = run_from_another_incarnation;
    message = "";
    last_transition_time = 0;
  });
}
adopt meta wall unmarked recorded m = record (m.status) { run_uid = m.uid }
adopt meta wall owned_by_this_model recorded m = record (m.status) { run_uid = m.uid }

-- reconcileRunOwnership.
unfoldable pub reconcile_run_ownership : ConditionOps → ℕ → Model → Option Run → ModelStatus
unfolding classify_run_ownership
reconcile_run_ownership meta wall m run =
    adopt meta wall (classify_run_ownership run m) (recorded_uid run) m
