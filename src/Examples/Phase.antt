-- ===== src/Examples/Phase.antt =====
-- The theorems on phase.go, run.
use squall.Common.{ℕ, ◌≡◌, ◌≢◌, ◌↔◌, ◌⊎◌, refl, true, false, none, [], ◌∷◌}
use squall.Controller.Phase.{Observed, decide}
use squall.Api.{ModelStatus, provisioning, is_false, no_capacity}
use squall.Api.Conditions.{condition_list}
use squall.Controller.Phase.FailSafe.{StopsRun, Justified, decide_stops_iff}
use squall.Controller.Phase.Wake.{WakesRun, IsPaced, decide_fails_open}
use squall.Examples.{sample_spec, sample_status, sample_run, sample_observed, sample_durations}

abbrev noon : ℕ
noon = 3000000000000

abbrev woken : ℕ
woken = 1000000000000

decide_stops_iff_example :
    StopsRun (decide condition_list sample_observed sample_status sample_spec false noon).1 ↔ (
      (sample_run.replicas ≢ 0)
      × Justified sample_durations sample_observed sample_status false noon)
decide_stops_iff_example =
    decide_stops_iff condition_list sample_durations sample_observed sample_status false noon

abbrev gone : Observed
gone = record sample_observed { run = none; activity = none; ready = false }

decide_fails_open_example :
    let a = (decide condition_list gone sample_status sample_spec true noon).1 in
    (WakesRun a × (a.current ≡ none) × (a.throttled ≡ false))
    ⊎ ((gone.run ≡ none) × IsPaced condition_list sample_status noon a)
decide_fails_open_example =
    decide_fails_open condition_list sample_status sample_spec true gone noon tt refl

-- The backend had no capacity at 3,000 s, 30 s before the pass.
abbrev failed_status : ModelStatus
failed_status = record sample_status {
  conditions =
      record {
        type = provisioning;
        status = is_false;
        reason = no_capacity;
        message = "";
        last_transition_time = noon;
      }
      ∷ [];
}
