-- ===== src/Examples/Evidence.antt =====
-- The theorems on activity.go and on the sleep flip as a whole, run.
use squall.Common.{ℕ, ◌≡◌, ◌≢◌, ◌↔◌, refl, true, false, some, List, [], ◌∷◌, String, sub_time}
use squall.Api.Conditions.{condition_list}
use squall.Controller.Phase.{Observed, decide}
use squall.Controller.Activity.{ActivityQuery, aggregate_activity}
use squall.Controller.Activity.Answers.{EachAnswer}
use squall.Controller.Activity.Loop.{IsIdleAnswer}
use squall.Controller.Activity.Evidence.{aggregate_idle_iff}
use squall.Controller.Sleep.{IsIdleSince, sleep_is_quiet}
use squall.Examples.{sample_spec, sample_status, sample_query, sample_observed, sample_durations}

abbrev noon : ℕ
noon = 3000000000000

-- A second replica without an entry for the Model.
abbrev silent_query : ActivityQuery
silent_query = record sample_query { address = "10.0.0.2"; no_data = true; last_request_at = 0 }

abbrev addrs : List String
addrs = "10.0.0.1" ∷ "10.0.0.2" ∷ []

abbrev queries : List ActivityQuery
queries = sample_query ∷ silent_query ∷ []

aggregate_idle_iff_example :
    (((aggregate_activity addrs queries noon).complete ≡ true)
      × ((aggregate_activity addrs queries noon).all_idle ≡ true))
    ↔ ((addrs ≢ []) × EachAnswer (IsIdleAnswer noon) addrs queries)
aggregate_idle_iff_example = aggregate_idle_iff addrs queries noon

abbrev swept : Observed
swept = record sample_observed { activity = some (aggregate_activity addrs queries noon) }

sleep_is_quiet_example :
    (sample_spec.min_replicas ≡ 0)
    × (addrs ≢ [])
    × EachAnswer (IsIdleSince noon 300000000000) addrs queries
unfolding decide aggregate_activity sub_time
sleep_is_quiet_example =
    sleep_is_quiet condition_list sample_durations addrs queries swept sample_status false noon refl
      ((refl, refl), refl, refl, refl)
