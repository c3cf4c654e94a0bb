-- ===== src/Examples/Runs.antt =====
-- The theorems on the run's identity, the reaper, the finalizer, the served names and the
-- validation, run.
use squall.Common.{ℕ, pos, ◌≡◌, ◌↔◌, refl, true, false, none, some, [], ◌∷◌, arith, sub_time, Elem}
use squall.Api.{Model}
use squall.Dstack.{Run, done, found, get_not_found}
use squall.Controller.Reaper.{sweep}
use squall.Controller.Reaper.Orphans.{IsOrphan, stops, sweep_stops_iff}
use squall.Controller.Finalizer.{Env, reconcile_delete, past_deadline}
use squall.Controller.Finalizer.Safety.{IsSafePass, reconcile_delete-IsSafePass}
use squall.Controller.Finalizer.Progress.{IsResponsive, passes, teardown_completes}
use squall.Controller.Validation.{validate}
use squall.Controller.Validation.Rules.{IsValidSpec, validate_iff}
use squall.Examples.{sample_spec, sample_model, sample_run}

abbrev dashed_namespace : Model
dashed_namespace = record sample_model { namespace = "team-a"; name = "qwen" }

abbrev dashed_name : Model
dashed_name = record sample_model { namespace = "team"; name = "a-qwen" }

-- Left over from a Model that was deleted.
abbrev lost_run : Run
lost_run = record sample_run { name = "main-old"; env = ("SQUALL_MODEL_UID", "u0") ∷ [] }

abbrev noon : ℕ
noon = 3000000000000

sweep_stops_iff_example :
    Elem lost_run (
      stops (
        sweep
          (some (sample_model ∷ []))
          (some (sample_run ∷ lost_run ∷ []))
          (pos 300000000000)
          noon
          (λ r. done)))
    ↔ (Elem lost_run (sample_run ∷ lost_run ∷ [])
        × IsOrphan (sample_model ∷ []) 300000000000 noon lost_run)
sweep_stops_iff_example =
    sweep_stops_iff (some (sample_model ∷ [])) (some (sample_run ∷ lost_run ∷ [])) 300000000000 noon
      (λ r. done) lost_run (omega arith) (omega arith)

abbrev stop_env : Env
stop_env = record {
  patch_ok = true;
  get = found sample_run;
  activity = none;
  stop = done;
  delete = done;
  update_ok = true;
}

abbrev gone_env : Env
gone_env = record stop_env { get = get_not_found }

reconcile_delete-IsSafePass_example :
    IsSafePass
      (found sample_run)
      stop_env
      true
      (past_deadline sample_model noon)
      (reconcile_delete stop_env sample_model noon)
reconcile_delete-IsSafePass_example = reconcile_delete-IsSafePass stop_env sample_model noon

stop_env-IsResponsive : IsResponsive stop_env
stop_env-IsResponsive = record {
  patches = refl;
  answers = λ e. cc e;
  stops = λ e. cc e;
  deletes = λ e. cc e;
  updates = refl;
}

gone_env-IsResponsive : IsResponsive gone_env
gone_env-IsResponsive = record {
  patches = refl;
  answers = λ e. cc e;
  stops = λ e. cc e;
  deletes = λ e. cc e;
  updates = refl;
}

teardown_completes_example :
    (passes ((stop_env, noon) ∷ (gone_env, 3001000000000) ∷ []) sample_model).has_finalizer ≡ false
unfolding past_deadline sub_time
teardown_completes_example =
    teardown_completes stop_env gone_env sample_model noon 3001000000000 stop_env-IsResponsive
      gone_env-IsResponsive refl (omega arith) tt

validate_iff_example : (validate sample_spec ≡ none) ↔ IsValidSpec sample_spec
validate_iff_example = validate_iff sample_spec
