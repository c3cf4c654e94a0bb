-- ===== src/Controller/Reaper.antt =====
-- The orphan sweep of internal/controller/squall/reaper.go. The lists that the API server and dstack
-- answer, and dstack's answer to each Stop, are arguments; `none` is a failed call. The trace of the
-- sweep is the list of runs that it asked dstack to stop.
pub mod Orphans
use squall.Common.{
  ℕ, ℤ, pos, suc, ◌+◌, Bool, true, false, not, ◌&&◌, ◌||◌, Option, none, some, String, List, [],
  ◌∷◌, ◌++◌, map, str_eq, if◌then◌else◌, contains, lt_dur, le_dur, sub_time, minute,
}
use squall.Api.{Model}
use squall.Dstack.{Run, is_terminal, env_value, Outcome, done, not_found, failed}
use squall.Controller.Ownership.{run_names_for, model_uid_env_key}

abbrev pub default_reap_grace : ℕ
default_reap_grace = 300000000000

-- grace(): a non-positive Grace is the default.
abbrev pub grace_or_default : ℤ → ℤ
grace_or_default grace = if le_dur grace (pos 0) then pos default_reap_grace else grace

-- `owned`, as the list of its keys.
owned_names : List Model → List String
owned_names [] = []
owned_names (m ∷ models) = run_names_for m ++ owned_names models

-- `liveUIDs`, as the list of its keys.
live_uids : List Model → List String
live_uids = map (λ m. m.uid)

-- What the loop finds out about one run, in the order of its tests.
pub data Finding : Type 0 where
  is_owned is_dead is_young is_unmarked is_alive is_orphan : Finding

inspect : List String → List String → ℤ → ℕ → Run → Finding
inspect owned uids grace now run =
    if contains run.name owned
    then is_owned
    else if is_terminal run
    then is_dead
    else if lt_dur (sub_time now run.submitted_at) grace
    then is_young
    else if str_eq (env_value model_uid_env_key run.env) ""
    then is_unmarked
    else if contains (env_value model_uid_env_key run.env) uids
    then is_alive
    else is_orphan

pub record Sweep : Type 0 where
  pub reaped : ℕ
  pub stopped : List Run
  pub errors : ℕ

abbrev stop_one : Run → Outcome → Sweep → Sweep
stop_one run failed s = record s { stopped = run ∷ s.stopped; errors = suc s.errors }
stop_one run done s = record s { stopped = run ∷ s.stopped; reaped = suc s.reaped }
stop_one run not_found s = record s { stopped = run ∷ s.stopped; reaped = suc s.reaped }

abbrev act_on : Finding → Run → (Run → Outcome) → Sweep → Sweep
act_on is_orphan run stop s = stop_one run (stop run) s
act_on _ run stop s = s

-- The loop; the results of the rest of the runs are gathered first.
sweep_runs : List String → List String → ℤ → ℕ → (Run → Outcome) → List Run → Sweep
sweep_runs owned uids grace now stop [] = record { reaped = 0; stopped = []; errors = 0 }
sweep_runs owned uids grace now stop (run ∷ runs) =
    let rest = sweep_runs owned uids grace now stop runs in
    act_on (inspect owned uids grace now run) run stop rest

pub data SweepResult : Type 0 where
  list_models_failed list_runs_failed : SweepResult
  swept : Sweep → SweepResult

abbrev sweep_with : List Model → ℤ → ℕ → (Run → Outcome) → Option (List Run) → SweepResult
sweep_with models grace now stop none = list_runs_failed
sweep_with models grace now stop (some runs) =
    swept
      (sweep_runs (owned_names models) (live_uids models) (grace_or_default grace) now stop runs)

-- Sweep.
unfoldable pub sweep :
    Option (List Model) → Option (List Run) → ℤ → ℕ → (Run → Outcome) → SweepResult
unfolding sweep_runs inspect owned_names live_uids
sweep none runs grace now stop = list_models_failed
sweep (some models) runs grace now stop = sweep_with models grace now stop runs
